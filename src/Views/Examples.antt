-- ===== src/Views/Examples.antt =====
-- Runs of the parsers of whole messages of feedhandler/src/parser.
use scratch.Prelude.{
  Option, none, some, ℕ, length, take, pos, eqb_ℤ, [], ◌∷◌, ◌++◌, false, ◌≡◌, refl, arith, All,
  Bytes, inl, inr, wrap32, wrap64, ◌+ℤ◌, ◌*ℤ◌, if◌then◌else◌,
}
use scratch.Doubles.{fixed_point}
use scratch.Number.Fast.{
  is_digit, digit_to_int, fast_atoi, atoi_loop, fast_atof_fixed, atof_unsigned, integer_loop,
  fraction_loop,
}
use scratch.Feed.Tick.{double_to_price, new_tick}
use scratch.Fsm.State.{new_parser, empty_builder, parse}
use scratch.Fsm.Examples.{
  clock, fields, checksum, checksum-IsField, fields-IsBody, waiting, is_checksum,
}
use scratch.Views.Split.{find_char, split, until, from_sep}
use scratch.Views.Fields.{
  find_field, scanned_field, extract_fields, view_field, extract_loop, scan_loop,
}
use scratch.Views.Extract.{fields_of, extract_loop_ends}
use scratch.Views.Messages.{
  parse_message, parse_messages_from_buffer, parse_messages_from_buffer_optimized,
}
use scratch.Views.Variants.{ticks_of_lines, parse_messages_from_buffer-optimized}
use scratch.Views.Kept.{IsPlain, Once}
use scratch.Views.Agreement.{text_of, has_all, parse-parse_message}
use scratch.Views.Groups.{
  max_indices, find_all_fields, count_entries, text_or_empty, parse_repeating_groups,
  parse_buffer_with_repeating_groups,
}
use scratch.Views.Entries.{
  values_of, zip_ticks, valid_ticks, group_fields, parse_repeating_groups-zip_ticks,
}
use scratch.Views.Naive.{
  naive_parse_message, naive_tick, naive_extract_fields, naive_loop, naive_field, assign_field,
  lookup, safe_stoi, stoi, stoi_unsigned, leading_number,
}
use scratch.Views.Last.{last_value, naive_parse_message-last_value}
use scratch.Views.Quotes.{IsQuote, parse_buffer_with_repeating_groups-IsQuote}

checksum-IsPlain : IsPlain fixed_point checksum
unfolding fast_atoi atoi_loop wrap32 ◌+ℤ◌ ◌*ℤ◌
checksum-IsPlain = record {
  bar = refl;
  positive = refl;
  symbol_fits = refl;
  price_exact = inl refl;
}

fields-IsPlain : All (IsPlain fixed_point) fields
unfolding fast_atoi atoi_loop wrap32 ◌+ℤ◌ ◌*ℤ◌ double_to_price fast_atof_fixed atof_unsigned
    integer_loop fraction_loop wrap64
fields-IsPlain = (
  record { bar = refl; positive = refl; symbol_fits = refl; price_exact = inl refl },
  (
    record { bar = refl; positive = refl; symbol_fits = refl; price_exact = inr refl },
    (
      record { bar = refl; positive = refl; symbol_fits = refl; price_exact = inl refl },
      (record { bar = refl; positive = refl; symbol_fits = refl; price_exact = inl refl }, tt),
    ),
  ),
)

fields-Once :
    (Once (pos 55) fields × Once (pos 44) fields) × (Once (pos 38) fields × Once (pos 54) fields)
unfolding fast_atoi atoi_loop wrap32 ◌+ℤ◌ ◌*ℤ◌ find_field
fields-Once = (
  (
    (inr refl, (inl refl, (inl refl, (inl refl, tt)))),
    (inl refl, (inr refl, (inl refl, (inl refl, tt)))),
  ),
  (
    (inl refl, (inl refl, (inr refl, (inl refl, tt)))),
    (inl refl, (inl refl, (inl refl, (inr refl, tt)))),
  ),
)

fresh : new_parser.tick_builder ≡ empty_builder
unfolding new_parser
fresh = refl

parse-parse_message_example :
    (parse fixed_point clock (text_of fixed_point clock fields checksum) (new_parser, [])).0.1 ≡ (
      if has_all fields
      then [] ++ parse_message (text_of fixed_point clock fields checksum) (clock 0) ∷ []
      else [])
parse-parse_message_example =
    parse-parse_message fixed_point clock fields checksum new_parser [] waiting fresh fields-IsBody
      fields-IsPlain fields-Once checksum-IsField checksum-IsPlain is_checksum (omega arith)

-- 55=A|=|44=2|
abbrev text : Bytes
text = b'5' ∷ b'5' ∷ b'=' ∷ b'A' ∷ b'|' ∷ b'=' ∷ b'|' ∷ b'4' ∷ b'4' ∷ b'=' ∷ b'2' ∷ b'|' ∷ []

extract_loop_ends_example :
    (extract_loop 12 text 0 0 32 ≡ take 32 (fields_of (split b'|' text)))
    × (scan_loop 12 text 0 32 ≡ take 32 (fields_of (split b'|' text)))
extract_loop_ends_example = extract_loop_ends 12 text 32 (omega arith)

two_fields : length (fields_of (split b'|' text)) ≡ 2
unfolding split until from_sep scanned_field fast_atoi atoi_loop wrap32 ◌+ℤ◌ ◌*ℤ◌
two_fields = refl

abbrev two_lines : Bytes
two_lines = text ++ b'\n' ∷ b'\n' ∷ text

parse_messages_from_buffer-optimized_example :
    (parse_messages_from_buffer clock two_lines ≡ ticks_of_lines clock 0 (split b'\n' two_lines))
    × (parse_messages_from_buffer_optimized clock two_lines
        ≡ ticks_of_lines clock 0 (split b'\n' two_lines))
parse_messages_from_buffer-optimized_example = parse_messages_from_buffer-optimized clock two_lines

-- 55=A|269=0|270=2|271=5|269=2|270=3|271=5|
abbrev entry : ℕ → ℕ → Bytes → Bytes
entry kind price rest =
    b'2' ∷ b'6' ∷ b'9' ∷ b'=' ∷ kind ∷ b'|' ∷ b'2' ∷ b'7' ∷ b'0' ∷ b'=' ∷ price ∷ b'|' ∷ b'2' ∷ b'7'
    ∷ b'1' ∷ b'=' ∷ b'5' ∷ b'|' ∷ rest

abbrev groups : Bytes
groups = b'5' ∷ b'5' ∷ b'=' ∷ b'A' ∷ b'|' ∷ entry b'0' b'2' (entry b'2' b'3' [])

two_entries : eqb_ℤ (count_entries (group_fields groups)) (pos 0) ≡ false
unfolding count_entries find_field find_all_fields split until from_sep scanned_field fast_atoi
    atoi_loop wrap32 ◌+ℤ◌ ◌*ℤ◌
two_entries = refl

parse_repeating_groups-zip_ticks_example :
    parse_repeating_groups clock groups
    ≡ valid_ticks (
        zip_ticks clock
          (text_or_empty (find_field (pos 55) (group_fields groups)))
          0
          (take max_indices (values_of (pos 269) (group_fields groups)))
          (take max_indices (values_of (pos 270) (group_fields groups)))
          (take max_indices (values_of (pos 271) (group_fields groups))))
parse_repeating_groups-zip_ticks_example = parse_repeating_groups-zip_ticks clock groups two_entries

parse_buffer_with_repeating_groups-IsQuote_example :
    All IsQuote (parse_buffer_with_repeating_groups (λ n i. clock n) groups)
parse_buffer_with_repeating_groups-IsQuote_example =
    parse_buffer_with_repeating_groups-IsQuote (λ n i. clock n) groups

-- Reads the value as it stands.
abbrev stod : Bytes → Option (fixed_point.Double)
stod v = some (fast_atof_fixed 10000 v)

naive_parse_message-last_value_example :
    naive_parse_message fixed_point stod (text ++ text) 7
    ≡ naive_tick fixed_point stod (λ tag. last_value tag (split b'|' (text ++ text)) none) 7
naive_parse_message-last_value_example =
    naive_parse_message-last_value fixed_point stod (text ++ text) 7

-- 55=A|55=B|: the parsers disagree on a tag that stands twice.
abbrev twice : Bytes
twice = b'5' ∷ b'5' ∷ b'=' ∷ b'A' ∷ b'|' ∷ b'5' ∷ b'5' ∷ b'=' ∷ b'B' ∷ b'|' ∷ []

last_symbol : (naive_parse_message fixed_point stod twice 7).symbol ≡ b'B' ∷ []
unfolding naive_parse_message naive_extract_fields naive_loop naive_field assign_field lookup split
    find_char safe_stoi stoi stoi_unsigned leading_number new_tick is_digit digit_to_int
last_symbol = refl

first_symbol : (parse_message twice 7).symbol ≡ b'A' ∷ []
unfolding parse_message extract_fields extract_loop view_field find_field find_char fast_atoi
    atoi_loop wrap32 ◌+ℤ◌ ◌*ℤ◌ new_tick is_digit digit_to_int
first_symbol = refl
