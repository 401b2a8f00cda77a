-- ===== src/Algorithms/Atoi.antt =====
-- algorithms/leetcode_8_atoi.cpp: myAtoi. The long is 64 bits wide; it stays below ten times the
-- largest int and 10 more, so that no sum in it is cut.
use scratch.Prelude.{
  ℕ, ◌+◌, ◌-◌, ◌*◌, ◌==◌, ltb, leb, Bool, true, false, ◌&&◌, if◌then◌else◌, Bytes, [], ◌∷◌, ℤ, pos,
  negsuc, sub_ℕ,
}
use scratch.Number.Fast.{int32_max}

abbrev pub is_digit_char : ℕ → Bool
is_digit_char c = leb b'0' c && leb c b'9'

unfoldable pub skip_spaces : Bytes → Bytes
skip_spaces [] = []
skip_spaces (c ∷ cs) = let rest = skip_spaces cs in if c == b' ' then rest else c ∷ cs

-- The loop from `result`, with the sign; INT_MIN is -(INT_MAX + 1).
unfoldable pub digit_loop : Bool → ℕ → Bytes → ℤ
digit_loop negative result [] = if negative then sub_ℕ 0 result else pos result
digit_loop negative result (c ∷ cs) =
    let next = result * 10 + (c - b'0') in
    let rest = digit_loop negative next cs in
    if is_digit_char c
    then (if negative
        then (if ltb (int32_max + 1) next then negsuc int32_max else rest)
        else (if ltb int32_max next then pos int32_max else rest))
    else if negative
    then sub_ℕ 0 result
    else pos result

abbrev pub signed_from : Bytes → ℤ
signed_from [] = pos 0
signed_from (c ∷ cs) =
    if c == b'-'
    then digit_loop true 0 cs
    else if c == b'+'
    then digit_loop false 0 cs
    else digit_loop false 0 (c ∷ cs)

unfoldable pub my_atoi : Bytes → ℤ
my_atoi s = signed_from (skip_spaces s)
