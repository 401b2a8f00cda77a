-- ===== src/Algorithms/Clamp.antt =====
-- That algorithms/leetcode_8_atoi.cpp returns the number of the text, clamped into an int.
use scratch.Prelude.{
  ℕ, ◌+◌, ◌-◌, ◌*◌, ◌≤◌, Bool, true, false, if◌then◌else◌, Bytes, [], ◌∷◌, ℤ, pos, sub_ℕ, min, ◌≡◌,
  refl, arith,
}
use scratch.Number.Fast.{int32_max, is_digit}
use scratch.Number.Decimal.{value_from, le-value_from, is_negative, unsigned}
use scratch.Algorithms.Atoi.{skip_spaces, digit_loop, signed_from, my_atoi}

-- The nearest int to a number with a sign.
abbrev pub clamped : Bool → ℕ → ℤ
clamped negative n = if negative then sub_ℕ 0 (min n (int32_max + 1)) else pos (min n int32_max)

digit_loop_positive :
    (r : ℕ) (cs : Bytes) → r ≤ int32_max → digit_loop false r cs ≡ clamped false (value_from r cs)
unfolding digit_loop is_digit
digit_loop_positive r [] h = ground arith
digit_loop_positive r (c ∷ cs) h =
    ground
      (arith, digit_loop_positive (r * 10 + (c - b'0')) cs, le-value_from (r * 10 + (c - b'0')) cs)

digit_loop_negative :
    (r : ℕ) (cs : Bytes) → r ≤ int32_max + 1 → digit_loop true r cs ≡ clamped true (value_from r cs)
unfolding digit_loop is_digit
digit_loop_negative r [] h = ground arith
digit_loop_negative r (c ∷ cs) h =
    ground
      (arith, digit_loop_negative (r * 10 + (c - b'0')) cs, le-value_from (r * 10 + (c - b'0')) cs)

signed_from_lem : (s : Bytes) → signed_from s ≡ clamped (is_negative s) (value_from 0 (unsigned s))
signed_from_lem [] = refl
signed_from_lem (c ∷ cs) =
    ground
      (arith, digit_loop_positive 0 cs, digit_loop_negative 0 cs, digit_loop_positive 0 (c ∷ cs))

-- For every text, myAtoi is the number that stands behind the leading spaces, with an optional sign
-- and up to the first byte that is no digit, clamped into the range of an int.
pub my_atoi-clamped :
    (s : Bytes)
    → my_atoi s ≡ clamped (is_negative (skip_spaces s)) (value_from 0 (unsigned (skip_spaces s)))
unfolding my_atoi
my_atoi-clamped s = signed_from_lem (skip_spaces s)
