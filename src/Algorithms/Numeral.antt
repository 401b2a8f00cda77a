-- ===== src/Algorithms/Numeral.antt =====
-- What a number is, as the comment of algorithms/leetcode_65_valid_number.cpp puts it, and that the
-- state machine accepts exactly that.
use scratch.Prelude.{
  ◌==◌, Bool, true, false, not, ◌&&◌, ◌||◌, if◌then◌else◌, Bytes, [], ◌∷◌, ◌≡◌, refl, arith,
}
use scratch.Algorithms.ValidNumber.{
  sign, integer, point, fraction, exp, exp_sign, exp_number, is_digit_char, is_sign, is_exp,
  run_from, is_number,
}

-- The leading digits, and what stands behind them.
abbrev pub digits : Bytes → Bytes
digits [] = []
digits (c ∷ cs) = let rest = digits cs in if is_digit_char c then c ∷ rest else []

abbrev pub behind_digits : Bytes → Bytes
behind_digits [] = []
behind_digits (c ∷ cs) = let rest = behind_digits cs in if is_digit_char c then rest else c ∷ cs

abbrev pub is_nil : Bytes → Bool
is_nil [] = true
is_nil (c ∷ cs) = false

abbrev pub behind_sign : Bytes → Bytes
behind_sign [] = []
behind_sign (c ∷ cs) = if is_sign c then cs else c ∷ cs

-- One or more digits and nothing else.
abbrev pub is_digits : Bytes → Bool
is_digits cs = not (is_nil (digits cs)) && is_nil (behind_digits cs)

-- Nothing, or an 'e' or 'E' and an integer.
abbrev pub is_exponent : Bytes → Bool
is_exponent [] = true
is_exponent (c ∷ cs) = is_exp c && is_digits (behind_sign cs)

-- Behind the integer part, of which there was a digit or not.
abbrev pub is_tail : Bool → Bytes → Bool
is_tail some_digit [] = some_digit
is_tail some_digit (c ∷ cs) =
    if c == b'.'
    then (some_digit || not (is_nil (digits cs))) && is_exponent (behind_digits cs)
    else some_digit && is_exponent (c ∷ cs)

-- A decimal number or an integer, then an optional exponent.
abbrev pub is_numeral : Bytes → Bool
is_numeral s = let u = behind_sign s in is_tail (not (is_nil (digits u))) (behind_digits u)

exp_number_lem : (cs : Bytes) → run_from exp_number cs ≡ is_nil (behind_digits cs)
unfolding run_from
exp_number_lem [] = refl
exp_number_lem (c ∷ cs) = ground (arith, exp_number_lem cs)

exp_sign_lem : (cs : Bytes) → run_from exp_sign cs ≡ is_digits cs
unfolding run_from
exp_sign_lem [] = refl
exp_sign_lem (c ∷ cs) = ground (arith, exp_number_lem cs)

exp_lem : (cs : Bytes) → run_from exp cs ≡ is_digits (behind_sign cs)
unfolding run_from
exp_lem [] = refl
exp_lem (c ∷ cs) = ground (arith, exp_number_lem cs, exp_sign_lem cs)

fraction_lem : (cs : Bytes) → run_from fraction cs ≡ is_exponent (behind_digits cs)
unfolding run_from
fraction_lem [] = refl
fraction_lem (c ∷ cs) = ground (arith, fraction_lem cs, exp_lem cs)

point_lem :
    (cs : Bytes) → run_from point cs ≡ (not (is_nil (digits cs)) && is_exponent (behind_digits cs))
unfolding run_from
point_lem [] = refl
point_lem (c ∷ cs) = ground (arith, fraction_lem cs)

integer_lem : (cs : Bytes) → run_from integer cs ≡ is_tail true (behind_digits cs)
unfolding run_from
integer_lem [] = refl
integer_lem (c ∷ cs) = ground (arith, integer_lem cs, fraction_lem cs, exp_lem cs)

sign_lem : (cs : Bytes) → run_from sign cs ≡ is_tail (not (is_nil (digits cs))) (behind_digits cs)
unfolding run_from
sign_lem [] = refl
sign_lem (c ∷ cs) = ground (arith, integer_lem cs, point_lem cs)

-- isNumber accepts exactly the texts of the form: an optional sign; digits, of which there is at
-- least one before or behind a point, if there is one; then optionally an 'e' or 'E' and an integer,
-- which is an optional sign and at least one digit.
pub is_number-is_numeral : (s : Bytes) → is_number s ≡ is_numeral s
unfolding is_number run_from
is_number-is_numeral [] = refl
is_number-is_numeral (c ∷ cs) = ground (arith, sign_lem cs, integer_lem cs, point_lem cs)
