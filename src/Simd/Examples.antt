-- ===== src/Simd/Examples.antt =====
-- Runs of the vector parser, feedhandler/src/parser/simd_fix_parser.cpp.
use scratch.Prelude.{
  ℕ, zero, suc, ◌+◌, ◌-◌, pos, pos_part, neg_part, sub_ℕ, List, [], ◌∷◌, ◌++◌, false, take, length,
  Bytes, ◌≡◌, refl, arith, All, inr, wrap32, ◌+ℤ◌, ◌*ℤ◌,
}
use scratch.Doubles.{fixed_point}
use scratch.Feed.Tick.{new_tick, is_valid}
use scratch.Fsm.Stream.{joined}
use scratch.Net.Memory.{slice, copy_in}
use scratch.Number.Fast.{is_digit, digit_to_int, fast_atoi, atoi_loop}
use scratch.Number.Decimal.{value_from, is_negative, unsigned, signed}
use scratch.Views.Split.{find_char}
use scratch.Simd.Delimiters.{
  remaining_bytes, find_delimiters_avx2, find_delimiters_neon, find_delimiters-remaining_bytes,
  block_loop,
}
use scratch.Simd.Numbers.{simd_atoi, digits_value, remaining_digits, vector_digits, add_digit, lane}
use scratch.Simd.Values.{StartsDigits, simd_atoi-fast_atoi}
use scratch.Simd.Parser.{
  buffer_size, soh, Run, new_simd_parser, parse, field_loop, on_field, on_tag,
}
use scratch.Simd.Fields.{feed}
use scratch.Simd.Contents.{contents, open_field}
use scratch.Simd.Stream.{IsReady, new_simd_parser-IsReady, parse_chunks, Fits, parse_chunks-feed}
use scratch.Simd.Jammed.{NoSoh, parse_jams}
use scratch.Simd.Sides.{first_run, parse_calls, parse_calls_invalid}

abbrev ten : fixed_point.Double
ten = pos 100000

abbrev negate : fixed_point.Double → fixed_point.Double
negate z = sub_ℕ (neg_part z) (pos_part z)

abbrev clock : ℕ → ℕ
clock n = 1000 + n

-- The view still shows the destroyed string.
abbrev shown : Bytes → Bytes
shown s = s

-- 55=A and 38=7
abbrev symbol_field : Bytes
symbol_field = b'5' ∷ b'5' ∷ b'=' ∷ b'A' ∷ soh ∷ []

abbrev quantity_field : Bytes
quantity_field = b'3' ∷ b'8' ∷ b'=' ∷ b'7' ∷ soh ∷ []

-- 10=0
abbrev checksum : Bytes
checksum = b'1' ∷ b'0' ∷ b'=' ∷ b'0' ∷ soh ∷ []

abbrev forty_bytes : Bytes
forty_bytes = joined (
    symbol_field ∷ quantity_field ∷ checksum ∷ symbol_field ∷ quantity_field ∷ checksum
    ∷ symbol_field ∷ checksum ∷ [])

find_delimiters-remaining_bytes_example :
    (find_delimiters_avx2 forty_bytes soh ≡ remaining_bytes soh 0 forty_bytes)
    × (find_delimiters_neon forty_bytes soh ≡ remaining_bytes soh 0 forty_bytes)
find_delimiters-remaining_bytes_example = find_delimiters-remaining_bytes soh forty_bytes

eight_delimiters : remaining_bytes soh 0 forty_bytes ≡ 4 ∷ 9 ∷ 14 ∷ 19 ∷ 24 ∷ 29 ∷ 34 ∷ 39 ∷ []
unfolding remaining_bytes
eight_delimiters = refl

-- -123456789x
abbrev long_number : Bytes
long_number = b'-' ∷ b'1' ∷ b'2' ∷ b'3' ∷ b'4' ∷ b'5' ∷ b'6' ∷ b'7' ∷ b'8' ∷ b'9' ∷ b'x' ∷ []

long_number-StartsDigits : StartsDigits (unsigned long_number)
unfolding is_digit
long_number-StartsDigits = inr (refl, (refl, (refl, (refl, (refl, (refl, (refl, (refl, tt))))))))

simd_atoi-fast_atoi_example :
    (simd_atoi long_number ≡ fast_atoi long_number)
    × (simd_atoi long_number
        ≡ signed (is_negative long_number) (value_from 0 (unsigned long_number)))
unfolding is_digit
simd_atoi-fast_atoi_example = simd_atoi-fast_atoi long_number long_number-StartsDigits (omega arith)

-- 12x45678: fast_atoi stops at the x, simd_atoi leaves it out.
abbrev with_letter : Bytes
with_letter = b'1' ∷ b'2' ∷ b'x' ∷ b'4' ∷ b'5' ∷ b'6' ∷ b'7' ∷ b'8' ∷ []

skips_letter : simd_atoi with_letter ≡ pos 1245678
unfolding simd_atoi digits_value vector_digits remaining_digits add_digit lane is_digit wrap32 ◌+ℤ◌
    ◌*ℤ◌
skips_letter = refl

stops_at_letter : fast_atoi with_letter ≡ pos 12
unfolding fast_atoi atoi_loop is_digit digit_to_int wrap32 ◌+ℤ◌ ◌*ℤ◌
stops_at_letter = refl

-- Cut within a field.
abbrev chunks : List Bytes
chunks = (b'5' ∷ b'5' ∷ b'=' ∷ []) ∷ (b'A' ∷ soh ∷ quantity_field) ∷ checksum ∷ []

chunks-Fits : Fits fixed_point ten negate clock shown chunks new_simd_parser first_run
unfolding new_simd_parser parse copy_in slice find_delimiters_avx2 block_loop remaining_bytes
    field_loop on_field on_tag find_char simd_atoi digits_value remaining_digits add_digit is_digit
    digit_to_int wrap32 ◌+ℤ◌ ◌*ℤ◌ new_tick
chunks-Fits = omega arith

parse_chunks-feed_example :
    IsReady fixed_point ten negate clock shown
      ((parse_chunks fixed_point ten negate clock shown chunks new_simd_parser first_run).0)
    × ◌≡◌ {A = Bytes × Run}
        (
          open_field [] (
              contents (
                (parse_chunks fixed_point ten negate clock shown chunks new_simd_parser
                  first_run).0)),
          (parse_chunks fixed_point ten negate clock shown chunks new_simd_parser first_run).1,
        )
        (feed fixed_point ten negate clock shown
          (open_field [] (contents new_simd_parser))
          (joined chunks)
          first_run)
parse_chunks-feed_example =
    parse_chunks-feed fixed_point ten negate clock shown chunks new_simd_parser first_run
      (new_simd_parser-IsReady fixed_point ten negate clock shown) chunks-Fits

parse_calls_invalid_example :
    All
      (λ t. is_valid t ≡ false)
      ((parse_calls fixed_point ten negate clock shown
        ((joined chunks, new_simd_parser) ∷ [])
        first_run).ticks)
parse_calls_invalid_example =
    parse_calls_invalid fixed_point ten negate clock shown ((joined chunks, new_simd_parser) ∷ [])

one_tick :
    length (
      (parse_calls fixed_point ten negate clock shown
        ((joined chunks, new_simd_parser) ∷ [])
        first_run).ticks)
    ≡ 1
unfolding new_simd_parser parse copy_in slice find_delimiters_avx2 block_loop remaining_bytes
    field_loop on_field on_tag find_char simd_atoi digits_value remaining_digits add_digit is_digit
    digit_to_int wrap32 ◌+ℤ◌ ◌*ℤ◌ new_tick
one_tick = refl

-- n times the byte 'A'.
unfoldable many : ℕ → Bytes
many zero = []
many (suc n) = b'A' ∷ many n

length-many : (n : ℕ) → length (many n) ≡ n
unfolding many
length-many zero = refl
length-many (suc n) = omega (arith, length-many n)

take-many-NoSoh : (k n : ℕ) → NoSoh (take k (many n))
unfolding many
take-many-NoSoh zero n = tt
take-many-NoSoh (suc k) zero = tt
take-many-NoSoh (suc k) (suc n) = (refl, take-many-NoSoh k n)

parse_jams_example :
    (let s =
        parse_chunks fixed_point ten negate clock shown
          (many 5000 ∷ chunks)
          new_simd_parser
          first_run in
      (contents (s.0)
        ≡ contents new_simd_parser ++ take (buffer_size - new_simd_parser.buffer_pos) (many 5000))
      × (s.1 ≡ first_run)
      × ((parse fixed_point ten negate clock shown checksum (s.0) (s.1)).2 ≡ 0))
parse_jams_example =
    parse_jams fixed_point ten negate clock shown (many 5000) chunks checksum new_simd_parser
      first_run (new_simd_parser-IsReady fixed_point ten negate clock shown)
      (take-many-NoSoh (buffer_size - new_simd_parser.buffer_pos) 5000)
      (omega (arith, length-many 5000))
