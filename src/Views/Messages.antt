-- ===== src/Views/Messages.antt =====
-- parse_message and parse_messages_from_buffer of feedhandler/src/parser/stringview_fix_parser.cpp and
-- optimized_fix_parser.cpp. The symbol of a tick is the text that its view shows.
use scratch.Prelude.{ℤ, ℕ, pos, List, [], ◌∷◌, ◌++◌, length, Option, none, some, Bytes}
use scratch.Number.Fast.{fast_atoi, fast_atof_fixed}
use scratch.Feed.Tick.{Tick, new_tick, fix_side_to_char}
use scratch.Views.Fields.{Field, extract_fields, extract_fields_optimized, find_field}
use scratch.Views.Lines.{for_lines}

-- `const Field* field = find_field(…)`, and what is done with its value.
abbrev pub with_field : Option Bytes → (Bytes → Tick → Tick) → Tick → Tick
with_field none use_value t = t
with_field (some v) use_value t = use_value v t

abbrev pub set_symbol : Bytes → Tick → Tick
set_symbol v t = record t { symbol = v }

abbrev pub set_price : Bytes → Tick → Tick
set_price v t = record t { price = fast_atof_fixed 10000 v }

abbrev pub set_qty : Bytes → Tick → Tick
set_qty v t = record t { qty = fast_atoi v }

abbrev pub set_side : Bytes → Tick → Tick
set_side v t = record t { side = fix_side_to_char (fast_atoi v) }

-- The tick that the first field of each tag makes, and the time at which it is made.
abbrev pub tick_of_fields : List Field → ℕ → Tick
tick_of_fields fields now =
    let t1 = with_field (find_field (pos 55) fields) set_symbol new_tick in
    let t2 = with_field (find_field (pos 44) fields) set_price t1 in
    let t3 = with_field (find_field (pos 38) fields) set_qty t2 in
    let t4 = with_field (find_field (pos 54) fields) set_side t3 in record t4 { timestamp = now }

abbrev pub max_fields : ℕ
max_fields = 32

-- The two parsers differ in how they extract the fields.
unfoldable pub parse_message : Bytes → ℕ → Tick
unfolding extract_fields find_field
parse_message message now = tick_of_fields (extract_fields message max_fields) now

abbrev pub find_field_fast : ℤ → List Field → Option Bytes
find_field_fast tag fields = find_field tag fields

unfoldable pub parse_message_optimized : Bytes → ℕ → Tick
unfolding extract_fields_optimized find_field
parse_message_optimized message now =
    tick_of_fields (extract_fields_optimized message max_fields) now

-- The tick of each line, with the clock's reading when the output holds n ticks.
module _ (clock : ℕ → ℕ) where
  unfoldable pub parse_messages_from_buffer : Bytes → List Tick
  unfolding for_lines parse_message
  parse_messages_from_buffer buffer =
      for_lines (λ message ticks. ticks ++ parse_message message (clock (length ticks)) ∷ []) buffer
        []

  unfoldable pub parse_messages_from_buffer_optimized : Bytes → List Tick
  unfolding for_lines parse_message_optimized
  parse_messages_from_buffer_optimized buffer =
      for_lines
        (λ message ticks. ticks ++ parse_message_optimized message (clock (length ticks)) ∷ [])
        buffer []
