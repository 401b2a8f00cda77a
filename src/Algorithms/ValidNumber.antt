-- ===== src/Algorithms/ValidNumber.antt =====
-- algorithms/leetcode_65_valid_number.cpp: the state machine of isNumber.
use scratch.Prelude.{
  ℕ, ◌==◌, leb, Bool, true, false, ◌&&◌, ◌||◌, if◌then◌else◌, Bytes, [], ◌∷◌, Option, none, some,
}

-- STATE_END is never entered.
pub data State : Type 0 where
  initial sign integer point fraction exp exp_sign exp_number end : State

abbrev pub is_digit_char : ℕ → Bool
is_digit_char c = leb b'0' c && leb c b'9'

abbrev pub is_sign : ℕ → Bool
is_sign c = c == b'+' || c == b'-'

abbrev pub is_exp : ℕ → Bool
is_exp c = c == b'e' || c == b'E'

-- One character; none stands for `return false`.
unfoldable pub next_state : State → ℕ → Option State
next_state initial c =
    if is_sign c
    then some sign
    else if is_digit_char c
    then some integer
    else if c == b'.'
    then some point
    else none
next_state sign c = if is_digit_char c then some integer else if c == b'.' then some point else none
next_state integer c =
    if is_digit_char c
    then some integer
    else if c == b'.'
    then some fraction
    else if is_exp c
    then some exp
    else none
next_state point c = if is_digit_char c then some fraction else none
next_state fraction c =
    if is_digit_char c then some fraction else if is_exp c then some exp else none
next_state exp c =
    if is_sign c then some exp_sign else if is_digit_char c then some exp_number else none
next_state exp_sign c = if is_digit_char c then some exp_number else none
next_state exp_number c = if is_digit_char c then some exp_number else none
next_state end c = none

abbrev pub is_final : State → Bool
is_final integer = true
is_final fraction = true
is_final exp_number = true
is_final _ = false

-- The loop from a state, and the test of the end states.
unfoldable pub run_from : State → Bytes → Bool
unfolding next_state
run_from st [] = is_final st
run_from st (c ∷ cs) = elim (next_state st c) [ none ↦ false | some next ↦ run_from next cs ]

unfoldable pub is_number : Bytes → Bool
unfolding run_from
is_number s = run_from initial s
