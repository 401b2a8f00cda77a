-- ===== src/Simd/Values.antt =====
-- simd_atoi of feedhandler/src/parser/simd_fix_parser.cpp against fast_atoi of
-- feedhandler/include/parser/fast_number_parser.hpp.
use scratch.Prelude.{
  ℕ, zero, suc, ◌+◌, ◌*◌, ◌-◌, ◌≤◌, ◌<◌, leb, pos, sub_ℕ, ◌+ℤ◌, ◌-ℤ◌, ◌*ℤ◌, [], ◌∷◌, ◌++◌, true,
  false, ◌≡◌, refl, sym, ap, ◌∙◌, ◌⊎◌, inl, inr, length, take, drop, Bytes, arith, wrap32,
  Bool-cases,
}
use scratch.Number.Fast.{is_digit, int32_max, fast_atoi}
use scratch.Number.Decimal.{
  value_from, Digits, is_negative, unsigned, signed, le-value_from, value_from-append,
}
use scratch.Number.Integers.{fast_atoi_exact}
use scratch.Simd.Numbers.{add_digit, lane, vector_digits, remaining_digits, digits_value, simd_atoi}

add_digit_exact : (r k : ℕ) → r * 10 + k ≤ int32_max → add_digit (pos r) k ≡ pos (r * 10 + k)
unfolding add_digit wrap32 ◌+ℤ◌ ◌*ℤ◌
add_digit_exact r k h = ground arith

remaining_digits_exact :
    (r : ℕ) (cs : Bytes)
    → value_from r cs ≤ int32_max
    → remaining_digits (pos r) cs ≡ pos (value_from r cs)
unfolding remaining_digits
remaining_digits_exact r [] h = refl
remaining_digits_exact r (c ∷ cs) h = ground (
  arith,
  le-value_from (r * 10 + (c - b'0')) cs,
  add_digit_exact r (c - b'0'),
  remaining_digits_exact (r * 10 + (c - b'0')) cs,
)

lane_digit : (c : ℕ) → is_digit c ≡ true → (lane c ≡ c - b'0') × (leb (lane c) 9 ≡ true)
unfolding is_digit lane
lane_digit c h = ground arith

vector_digits_exact :
    (r : ℕ) (cs : Bytes)
    → Digits cs
    → value_from r cs ≤ int32_max
    → vector_digits (pos r) cs ≡ pos (value_from r cs)
unfolding vector_digits
vector_digits_exact r [] a h = refl
vector_digits_exact r (c ∷ cs) a h =
    let l = lane_digit c (a.0) in
    let small : value_from (r * 10 + (c - b'0')) cs ≤ int32_max = rw (a.0) at h in
    rw (a.0, l.1, l.0)
      (rw (add_digit_exact r (c - b'0') (omega (arith, le-value_from (r * 10 + (c - b'0')) cs)))
        (vector_digits_exact (r * 10 + (c - b'0')) cs (a.1) small))

take-drop : (n : ℕ) (cs : Bytes) → take n cs ++ drop n cs ≡ cs
take-drop zero cs = refl
take-drop (suc n) [] = refl
take-drop (suc n) (c ∷ cs) = ap (◌∷◌ c) (take-drop n cs)

-- The first eight bytes of a longer text are digits.
abbrev pub StartsDigits : Bytes → Type 0
StartsDigits cs = (length cs < 8) ⊎ Digits (take 8 cs)

digits_value_exact :
    (cs : Bytes)
    → StartsDigits cs
    → value_from 0 cs ≤ int32_max
    → digits_value cs ≡ pos (value_from 0 cs)
unfolding digits_value
digits_value_exact cs (inl short) h =
    let e : leb 8 (length cs) ≡ false = ground arith in rw e (remaining_digits_exact 0 cs h)
digits_value_exact cs (inr a) h = elim (Bool-cases (leb 8 (length cs))) [
  | inl e ↦
      let whole : value_from 0 cs ≡ value_from (value_from 0 (take 8 cs)) (drop 8 cs) =
        ap (value_from 0) (sym (take-drop 8 cs)) ∙ value_from-append 0 (take 8 cs) (drop 8 cs) a in
      rw e (
        rw
          (vector_digits_exact 0 (take 8 cs) a
            (omega (arith, le-value_from (value_from 0 (take 8 cs)) (drop 8 cs))))
          (remaining_digits_exact (value_from 0 (take 8 cs)) (drop 8 cs) (omega arith)
            ∙ ap pos (sym whole)))
  | inr e ↦ rw e (remaining_digits_exact 0 cs h)
]

negate_pos : (r : ℕ) → r ≤ int32_max → wrap32 (pos 0 -ℤ pos r) ≡ sub_ℕ 0 r
unfolding ◌-ℤ◌ wrap32
negate_pos r h = ground arith

simd_atoi_exact :
    (cs : Bytes)
    → StartsDigits (unsigned cs)
    → value_from 0 (unsigned cs) ≤ int32_max
    → simd_atoi cs ≡ signed (is_negative cs) (value_from 0 (unsigned cs))
unfolding simd_atoi
simd_atoi_exact [] a h = refl
simd_atoi_exact (c ∷ cs) a h =
    let e = digits_value_exact (unsigned (c ∷ cs)) a h in
    ground (arith, negate_pos (value_from 0 cs))

-- On a text whose leading digits, behind an optional sign, make a number up to the largest int, and
-- of which either fewer than eight bytes stand behind the sign or the first eight of them are
-- digits, the vector routine returns what fast_atoi returns, the number with its sign.
pub simd_atoi-fast_atoi :
    (cs : Bytes)
    → StartsDigits (unsigned cs)
    → value_from 0 (unsigned cs) ≤ int32_max
    → (simd_atoi cs ≡ fast_atoi cs)
      × (simd_atoi cs ≡ signed (is_negative cs) (value_from 0 (unsigned cs)))
simd_atoi-fast_atoi cs a h = let e = simd_atoi_exact cs a h in (e ∙ sym (fast_atoi_exact cs h), e)
