-- ===== src/Number/Integers.antt =====
-- fast_atoi and fast_atou of feedhandler/include/parser/fast_number_parser.hpp against the decimal
-- numbers: where they are exact, where they saturate, and where the overflow check comes too late.
use scratch.Prelude.{
  ℕ, ◌+◌, ◌*◌, ◌-◌, ◌/◌, ◌%◌, ◌≤◌, ◌<◌, ◌^◌, pos, negsuc, sub_ℕ, ◌+ℤ◌, ◌-ℤ◌, ◌*ℤ◌, [], ◌∷◌, ◌++◌,
  Bool, true, false, ◌≡◌, refl, ◌∙◌, if◌then◌else◌, Bytes, arith, wrap32,
}
use scratch.Number.Fast.{
  is_digit, int32_max, uint32_max, atoi_loop, fast_atoi, atou_loop, fast_atou,
}
use scratch.Number.Decimal.{value_from, Digits, is_negative, unsigned, signed, le-value_from}

-- One round of the loop without overflow.
round32 :
    (r d : ℕ)
    → r * 10 + d ≤ int32_max
    → wrap32 (wrap32 (pos r *ℤ pos 10) +ℤ pos d) ≡ pos (r * 10 + d)
unfolding ◌+ℤ◌ ◌*ℤ◌ wrap32
round32 r d h = ground arith

negate32 : (r : ℕ) → r ≤ int32_max → wrap32 (pos 0 -ℤ pos r) ≡ sub_ℕ 0 r
unfolding ◌-ℤ◌ wrap32
negate32 r h = ground arith

atoi_loop_exact :
    (negative : Bool) (r : ℕ) (cs : Bytes)
    → value_from r cs ≤ int32_max
    → atoi_loop negative (pos r) cs ≡ signed negative (value_from r cs)
unfolding atoi_loop
atoi_loop_exact true r [] h = negate32 r h
atoi_loop_exact false r [] h = refl
atoi_loop_exact true r (c ∷ cs) h = ground (
  arith,
  le-value_from (r * 10 + (c - b'0')) cs,
  round32 r (c - b'0'),
  negate32 r,
  atoi_loop_exact true (r * 10 + (c - b'0')) cs,
)
atoi_loop_exact false r (c ∷ cs) h = ground (
  arith,
  le-value_from (r * 10 + (c - b'0')) cs,
  round32 r (c - b'0'),
  atoi_loop_exact false (r * 10 + (c - b'0')) cs,
)

-- A text whose leading digits, behind an optional sign, make a number up to the largest int is
-- read as that number with its sign, up to the first byte that is no digit.
pub fast_atoi_exact :
    (cs : Bytes)
    → value_from 0 (unsigned cs) ≤ int32_max
    → fast_atoi cs ≡ signed (is_negative cs) (value_from 0 (unsigned cs))
unfolding fast_atoi
fast_atoi_exact [] h = refl
fast_atoi_exact (c ∷ cs) h =
    ground (
      arith,
      atoi_loop_exact true 0 cs,
      atoi_loop_exact false 0 cs,
      atoi_loop_exact false 0 (c ∷ cs),
    )

atoi_loop-append :
    (negative : Bool) (r : ℕ) (ds cs : Bytes)
    → Digits ds
    → value_from r ds ≤ int32_max
    → atoi_loop negative (pos r) (ds ++ cs) ≡ atoi_loop negative (pos (value_from r ds)) cs
unfolding atoi_loop
atoi_loop-append negative r [] cs a h = refl
atoi_loop-append negative r (d ∷ ds) cs a h = ground (
  arith,
  le-value_from (r * 10 + (d - b'0')) ds,
  round32 r (d - b'0'),
  atoi_loop-append negative (r * 10 + (d - b'0')) ds cs a.1,
)

unsigned_start :
    (ds cs : Bytes)
    → Digits ds
    → 0 < value_from 0 ds
    → fast_atoi (ds ++ cs) ≡ atoi_loop false (pos 0) (ds ++ cs)
unfolding fast_atoi is_digit
unsigned_start [] cs a h = absurd (omega arith)
unsigned_start (d ∷ ds) cs a h = ground arith

negative_start : (cs : Bytes) → fast_atoi (b'-' ∷ cs) ≡ atoi_loop true (pos 0) cs
unfolding fast_atoi
negative_start cs = refl

saturate :
    (negative : Bool) (r c : ℕ) (cs : Bytes)
    → is_digit c ≡ true
    → int32_max / 10 < r
    → atoi_loop negative (pos r) (c ∷ cs) ≡ (if negative then negsuc int32_max else pos int32_max)
unfolding atoi_loop
saturate negative r c cs digit low = ground arith

overflow :
    (c : ℕ)
    → b'8' ≤ c
    → c ≤ b'9'
    → atoi_loop false (pos (int32_max / 10)) (c ∷ []) ≡ negsuc (int32_max - (c - b'8'))
unfolding atoi_loop wrap32 ◌*ℤ◌ ◌+ℤ◌
overflow c low high = ground arith

-- Where the number read so far is above a tenth of the largest int, one more digit saturates the
-- result, whatever follows it.
pub fast_atoi_saturates :
    (ds cs : Bytes) (c : ℕ)
    → Digits ds
    → is_digit c ≡ true
    → int32_max / 10 < value_from 0 ds
    → value_from 0 ds ≤ int32_max
    → (fast_atoi (ds ++ c ∷ cs) ≡ pos int32_max)
      × (fast_atoi (b'-' ∷ (ds ++ c ∷ cs)) ≡ negsuc int32_max)
fast_atoi_saturates ds cs c a digit low high = (
  unsigned_start ds (c ∷ cs) a (omega arith)
      ∙ atoi_loop-append false 0 ds (c ∷ cs) a high
      ∙ saturate false (value_from 0 ds) c cs digit low,
  negative_start (ds ++ c ∷ cs)
      ∙ atoi_loop-append true 0 ds (c ∷ cs) a high
      ∙ saturate true (value_from 0 ds) c cs digit low,
)

-- The check does not see the last digit: behind the digits of exactly a tenth of the largest int,
-- an 8 or a 9 as the last byte overflows, and the result, wrapped as in two's complement, is the
-- least int or one above it.
pub fast_atoi_overflows :
    (ds : Bytes) (c : ℕ)
    → Digits ds
    → value_from 0 ds ≡ int32_max / 10
    → b'8' ≤ c
    → c ≤ b'9'
    → fast_atoi (ds ++ c ∷ []) ≡ negsuc (int32_max - (c - b'8'))
fast_atoi_overflows ds c a v low high =
    unsigned_start ds (c ∷ []) a (omega arith)
    ∙ atoi_loop-append false 0 ds (c ∷ []) a (omega arith)
    ∙ rw v (overflow c low high)

round_u32 : (n : ℕ) → n ≤ uint32_max → n % 2 ^ 32 ≡ n
round_u32 n h = omega arith

atou_loop_exact :
    (r : ℕ) (cs : Bytes) → value_from r cs ≤ uint32_max → atou_loop r cs ≡ value_from r cs
unfolding atou_loop
atou_loop_exact r [] h = refl
atou_loop_exact r (c ∷ cs) h = ground (
  arith,
  le-value_from (r * 10 + (c - b'0')) cs,
  round_u32 (r * 10 + (c - b'0')),
  atou_loop_exact (r * 10 + (c - b'0')) cs,
)

-- A text whose leading digits make a number up to the largest uint32_t is read as that number, up
-- to the first byte that is no digit.
pub fast_atou_exact : (cs : Bytes) → value_from 0 cs ≤ uint32_max → fast_atou cs ≡ value_from 0 cs
unfolding fast_atou
fast_atou_exact cs h = atou_loop_exact 0 cs h

atou_loop-append :
    (r : ℕ) (ds cs : Bytes)
    → Digits ds
    → value_from r ds ≤ uint32_max
    → atou_loop r (ds ++ cs) ≡ atou_loop (value_from r ds) cs
unfolding atou_loop
atou_loop-append r [] cs a h = refl
atou_loop-append r (d ∷ ds) cs a h = ground (
  arith,
  le-value_from (r * 10 + (d - b'0')) ds,
  round_u32 (r * 10 + (d - b'0')),
  atou_loop-append (r * 10 + (d - b'0')) ds cs a.1,
)

overflow_u32 : (c : ℕ) → b'6' ≤ c → c ≤ b'9' → atou_loop (uint32_max / 10) (c ∷ []) ≡ c - b'6'
unfolding atou_loop
overflow_u32 c low high = ground arith

-- The check does not see the last digit: behind the digits of exactly a tenth of the largest value,
-- a last digit from 6 to 9 wraps the result to a number below 4 instead of saturating it.
pub fast_atou_overflows :
    (ds : Bytes) (c : ℕ)
    → Digits ds
    → value_from 0 ds ≡ uint32_max / 10
    → b'6' ≤ c
    → c ≤ b'9'
    → fast_atou (ds ++ c ∷ []) ≡ c - b'6'
unfolding fast_atou
fast_atou_overflows ds c a v low high =
    atou_loop-append 0 ds (c ∷ []) a (omega arith) ∙ rw v (overflow_u32 c low high)
