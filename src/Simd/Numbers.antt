-- ===== src/Simd/Numbers.antt =====
-- The number and time readers of feedhandler/src/parser/simd_fix_parser.cpp. Signed arithmetic wraps
-- as on two's complement hardware; doubles are those of the interface, with the literal 10.0 and the
-- change of sign that only these functions use. The clock is a parameter.
use scratch.Prelude.{
  ℕ, ◌+◌, ◌-◌, ◌%◌, ◌==◌, ltb, leb, ℤ, pos, ◌+ℤ◌, ◌-ℤ◌, ◌*ℤ◌, [], ◌∷◌, if◌then◌else◌, length, take,
  drop, Bytes, wrap32,
}
use scratch.Doubles.{Doubles}
use scratch.Number.Fast.{is_digit, digit_to_int}

-- result * 10 + digit
unfoldable pub add_digit : ℤ → ℕ → ℤ
add_digit result digit = wrap32 (wrap32 (result *ℤ pos 10) +ℤ pos digit)

-- One byte of digits - '0' in a vector register.
unfoldable pub lane : ℕ → ℕ
lane c = (c + 256 - b'0') % 256

-- The eight bytes of the vector: a lane that is no digit is skipped. Without a sign it is compared to
-- 9; the x86 version, whose lanes are signed, also asks that it is not negative, which is the same.
unfoldable pub vector_digits : ℤ → Bytes → ℤ
unfolding lane
vector_digits result [] = result
vector_digits result (c ∷ cs) =
    vector_digits (if leb (lane c) 9 then add_digit result (lane c) else result) cs

unfoldable pub remaining_digits : ℤ → Bytes → ℤ
unfolding is_digit digit_to_int
remaining_digits result [] = result
remaining_digits result (c ∷ cs) =
    let rest = remaining_digits (add_digit result (digit_to_int c)) cs in
    if is_digit c then rest else result

-- The bytes behind the sign.
unfoldable pub digits_value : Bytes → ℤ
unfolding vector_digits remaining_digits
digits_value cs =
    if leb 8 (length cs)
    then remaining_digits (vector_digits (pos 0) (take 8 cs)) (drop 8 cs)
    else remaining_digits (pos 0) cs

unfoldable pub simd_atoi : Bytes → ℤ
unfolding digits_value
simd_atoi [] = pos 0
simd_atoi (c ∷ cs) =
    if c == b'-'
    then wrap32 (pos 0 -ℤ digits_value cs)
    else if c == b'+'
    then digits_value cs
    else digits_value (c ∷ cs)

module _ (d : Doubles) (ten : d.Double) (negate : d.Double → d.Double) where
  open d use {Double, zero_point, ten_thousand, add, mul, div, of_int64, to_int64}

  -- The digits in front of the point, and the text from there on; other bytes are skipped.
  unfoldable pub integer_part : Double → Bytes → Double × Bytes
  unfolding is_digit digit_to_int
  integer_part result [] = (result, [])
  integer_part result (c ∷ cs) =
      let rest =
        integer_part
          (if is_digit c then add (mul result ten) (of_int64 (pos (digit_to_int c))) else result)
          cs in
      if c == b'.' then (result, c ∷ cs) else rest

  unfoldable pub fraction_part : Double → Double → Bytes → Double
  unfolding is_digit digit_to_int
  fraction_part fraction divisor [] = fraction
  fraction_part fraction divisor (c ∷ cs) =
      fraction_part
        (if is_digit c
          then add fraction (div (of_int64 (pos (digit_to_int c))) divisor)
          else fraction)
        (if is_digit c then mul divisor ten else divisor) cs

  abbrev with_fraction : Double → Bytes → Double
  with_fraction result [] = result
  with_fraction result (c ∷ cs) = add result (fraction_part zero_point ten cs)

  abbrev unsigned_double : Bytes → Double
  unsigned_double cs = let whole = integer_part zero_point cs in with_fraction (whole.0) (whole.1)

  unfoldable pub simd_atof : Bytes → Double
  unfolding integer_part fraction_part
  simd_atof [] = zero_point
  simd_atof (c ∷ cs) = if c == b'-' then negate (unsigned_double cs) else unsigned_double (c ∷ cs)

  unfoldable pub simd_atof_fixed : Bytes → ℤ
  unfolding simd_atof
  simd_atof_fixed cs = to_int64 (mul (simd_atof cs) ten_thousand)

-- A text that is long enough is not read: the clock is.
unfoldable pub parse_timestamp_simd : ℕ → Bytes → ℕ
parse_timestamp_simd now timestamp_str = if ltb (length timestamp_str) 17 then 0 else now
