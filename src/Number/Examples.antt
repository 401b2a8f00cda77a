-- ===== src/Number/Examples.antt =====
-- Runs of the parsers of feedhandler/include/parser/fast_number_parser.hpp.
use scratch.Prelude.{◌+◌, ◌*◌, ◌-◌, pos, negsuc, sub_ℕ, [], ◌∷◌, ◌++◌, ◌≡◌, refl, arith, Bytes}
use scratch.Number.Fast.{is_digit, int32_max, fast_atoi, fast_atof_fixed}
use scratch.Number.Decimal.{value_from, Digits, is_negative, unsigned, signed, decimals}
use scratch.Number.Integers.{fast_atoi_exact, fast_atoi_overflows}
use scratch.Number.Fixed.{fast_atof_fixed_exact}

-- -42x
abbrev short : Bytes
short = b'-' ∷ b'4' ∷ b'2' ∷ b'x' ∷ []

-- 214748364
abbrev tenth_int : Bytes
tenth_int = b'2' ∷ b'1' ∷ b'4' ∷ b'7' ∷ b'4' ∷ b'8' ∷ b'3' ∷ b'6' ∷ b'4' ∷ []

-- 429496729
abbrev tenth_uint : Bytes
tenth_uint = b'4' ∷ b'2' ∷ b'9' ∷ b'4' ∷ b'9' ∷ b'6' ∷ b'7' ∷ b'2' ∷ b'9' ∷ []

fast_atoi_exact_example :
    fast_atoi short ≡ signed (is_negative short) (value_from 0 (unsigned short))
unfolding is_digit
fast_atoi_exact_example = fast_atoi_exact short (omega arith)

tenth_int-Digits : Digits tenth_int
unfolding is_digit
tenth_int-Digits = (refl, (refl, (refl, (refl, (refl, (refl, (refl, (refl, (refl, tt)))))))))

fast_atoi_overflows_example :
    fast_atoi (tenth_int ++ b'9' ∷ []) ≡ negsuc (int32_max - (b'9' - b'8'))
unfolding is_digit
fast_atoi_overflows_example =
    fast_atoi_overflows tenth_int b'9' tenth_int-Digits refl (omega arith) (omega arith)

tenth_uint-Digits : Digits tenth_uint
unfolding is_digit
tenth_uint-Digits = (refl, (refl, (refl, (refl, (refl, (refl, (refl, (refl, (refl, tt)))))))))

-- 42.12345
abbrev whole : Bytes
whole = b'4' ∷ b'2' ∷ []

abbrev fraction : Bytes
fraction = b'1' ∷ b'2' ∷ b'3' ∷ b'4' ∷ b'5' ∷ []

whole-Digits : Digits whole
unfolding is_digit
whole-Digits = (refl, (refl, tt))

fast_atof_fixed_exact_example :
    (fast_atof_fixed 10000 (whole ++ b'.' ∷ fraction)
      ≡ pos (value_from 0 whole * 10000 + decimals 4 fraction))
    × (fast_atof_fixed 10000 (b'-' ∷ (whole ++ b'.' ∷ fraction))
        ≡ sub_ℕ 0 (value_from 0 whole * 10000 + decimals 4 fraction))
unfolding is_digit
fast_atof_fixed_exact_example = fast_atof_fixed_exact whole fraction whole-Digits (omega arith)
