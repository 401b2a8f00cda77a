-- ===== src/Number/Fixed.antt =====
-- fast_atof_fixed of feedhandler/include/parser/fast_number_parser.hpp at its default scale of 10000,
-- against the decimal number that the text denotes.
use scratch.Prelude.{
  ℕ, ◌+◌, ◌*◌, ◌-◌, ◌/◌, ◌<◌, ◌^◌, pos, sub_ℕ, ◌+ℤ◌, ◌-ℤ◌, ◌*ℤ◌, [], ◌∷◌, ◌++◌, false, ◌≡◌, refl,
  ap, ◌∙◌, Bytes, arith, wrap64,
}
use scratch.Number.Fast.{is_digit, integer_loop, fraction_loop, atof_unsigned, fast_atof_fixed}
use scratch.Number.Decimal.{value_from, Digits, decimals, le-value_from}

round64 :
    (r d : ℕ) → r * 10 + d < 2 ^ 63 → wrap64 (wrap64 (pos r *ℤ pos 10) +ℤ pos d) ≡ pos (r * 10 + d)
unfolding ◌+ℤ◌ ◌*ℤ◌ wrap64
round64 r d h = ground arith

integer_loop_exact :
    (r : ℕ) (ds cs : Bytes) (c : ℕ)
    → Digits ds
    → is_digit c ≡ false
    → value_from r ds < 2 ^ 63
    → integer_loop (pos r) (ds ++ c ∷ cs) ≡ (pos (value_from r ds), c ∷ cs)
unfolding integer_loop
integer_loop_exact r [] cs c a stop h = ground arith
integer_loop_exact r (d ∷ ds) cs c a stop h = ground (
  arith,
  le-value_from (r * 10 + (d - b'0')) ds,
  round64 r (d - b'0'),
  integer_loop_exact (r * 10 + (d - b'0')) ds cs c a.1 stop,
)

-- The fraction that the loop contributes, from a number `p` of digits over the power `f`.
abbrev contributes : ℕ × ℕ → ℕ
contributes (p, f) = p * (10000 / f)

fraction_4 : (p : ℕ) (cs : Bytes) → contributes (fraction_loop 10000 p 10000 cs) ≡ p
unfolding fraction_loop
fraction_4 p [] = omega arith
fraction_4 p (c ∷ cs) = ground arith

fraction_3 :
    (p : ℕ) (cs : Bytes) → contributes (fraction_loop 10000 p 1000 cs) ≡ p * 10 + decimals 1 cs
unfolding fraction_loop
fraction_3 p [] = omega arith
fraction_3 p (c ∷ cs) = ground (arith, fraction_4 (p * 10 + (c - b'0')) cs)

fraction_2 :
    (p : ℕ) (cs : Bytes) → contributes (fraction_loop 10000 p 100 cs) ≡ p * 100 + decimals 2 cs
unfolding fraction_loop
fraction_2 p [] = omega arith
fraction_2 p (c ∷ cs) = ground (arith, fraction_3 (p * 10 + (c - b'0')) cs)

fraction_1 :
    (p : ℕ) (cs : Bytes) → contributes (fraction_loop 10000 p 10 cs) ≡ p * 1000 + decimals 3 cs
unfolding fraction_loop
fraction_1 p [] = omega arith
fraction_1 p (c ∷ cs) = ground (arith, fraction_2 (p * 10 + (c - b'0')) cs)

fraction_0 :
    (p : ℕ) (cs : Bytes) → contributes (fraction_loop 10000 p 1 cs) ≡ p * 10000 + decimals 4 cs
unfolding fraction_loop
fraction_0 p [] = omega arith
fraction_0 p (c ∷ cs) = ground (arith, fraction_1 (p * 10 + (c - b'0')) cs)

fraction_start : (cs : Bytes) → contributes (fraction_loop 10000 0 1 cs) ≡ decimals 4 cs
fraction_start cs = omega (arith, fraction_0 0 cs)

scaled :
    (n x : ℕ)
    → n * 10000 + x < 2 ^ 63
    → wrap64 (wrap64 (pos n *ℤ pos 10000) +ℤ wrap64 (pos x)) ≡ pos (n * 10000 + x)
unfolding ◌+ℤ◌ ◌*ℤ◌ wrap64
scaled n x h = ground arith

atof_unsigned_exact :
    (ds fs : Bytes)
    → Digits ds
    → value_from 0 ds * 10000 + decimals 4 fs < 2 ^ 63
    → atof_unsigned 10000 (ds ++ b'.' ∷ fs) ≡ pos (value_from 0 ds * 10000 + decimals 4 fs)
unfolding atof_unsigned is_digit
atof_unsigned_exact ds fs a h =
    let whole = integer_loop_exact 0 ds fs b'.' a refl (omega arith) in
    rw whole (
      ap (λ x. wrap64 (wrap64 (pos (value_from 0 ds) *ℤ pos 10000) +ℤ wrap64 (pos x)))
        (fraction_start fs)
      ∙ scaled (value_from 0 ds) (decimals 4 fs) h)

unsigned_text :
    (ds fs : Bytes)
    → Digits ds
    → fast_atof_fixed 10000 (ds ++ b'.' ∷ fs) ≡ atof_unsigned 10000 (ds ++ b'.' ∷ fs)
unfolding fast_atof_fixed is_digit
unsigned_text [] fs a = refl
unsigned_text (d ∷ ds) fs a = ground arith

negate64 : (n : ℕ) → n < 2 ^ 63 → wrap64 (pos 0 -ℤ pos n) ≡ sub_ℕ 0 n
unfolding ◌-ℤ◌ wrap64
negate64 n h = ground arith

negative_text :
    (cs : Bytes) → fast_atof_fixed 10000 (b'-' ∷ cs) ≡ wrap64 (pos 0 -ℤ atof_unsigned 10000 cs)
unfolding fast_atof_fixed
negative_text cs = refl

-- A decimal text with a point, with or without a minus sign, is read as its value in ten-thousandths,
-- where that fits an int64_t: digits behind the fourth decimal are cut off, and so is all from the
-- first byte behind the point that is no digit.
pub fast_atof_fixed_exact :
    (ds fs : Bytes)
    → Digits ds
    → value_from 0 ds * 10000 + decimals 4 fs < 2 ^ 63
    → (fast_atof_fixed 10000 (ds ++ b'.' ∷ fs) ≡ pos (value_from 0 ds * 10000 + decimals 4 fs))
      × (fast_atof_fixed 10000 (b'-' ∷ (ds ++ b'.' ∷ fs))
          ≡ sub_ℕ 0 (value_from 0 ds * 10000 + decimals 4 fs))
fast_atof_fixed_exact ds fs a h =
    let e = atof_unsigned_exact ds fs a h in
    (
      unsigned_text ds fs a ∙ e,
      negative_text (ds ++ b'.' ∷ fs) ∙ ap (λ x. wrap64 (pos 0 -ℤ x)) e ∙ negate64 _ h,
    )
