-- ===== src/Prelude/Signed.antt =====
-- Signed machine words: an integer brought into the range of an int32_t or int64_t by two's
-- complement wrap-around.
use Prim.Native.Nat.{ℕ, ◌+◌, ◌-◌, ◌%◌, ◌^◌, ◌<◌, ◌≤◌}
use mathlib.Core.Path.{◌≡◌}
use native.Mathlib.Omega.{arith}
use scratch.Prelude.Tests.{ltb, if◌then◌else◌}
use scratch.Prelude.Int.{ℤ, pos, negsuc, pos_part, neg_part, ◌+ℤ◌, ◌-ℤ◌}

-- The bit pattern of an integer, and the integer of a bit pattern.
abbrev to_bits32 : ℤ → ℕ
to_bits32 z = (pos_part z % 2 ^ 32 + (2 ^ 32 - neg_part z % 2 ^ 32)) % 2 ^ 32

abbrev of_bits32 : ℕ → ℤ
of_bits32 u = if ltb u (2 ^ 31) then pos u else negsuc (2 ^ 32 - u - 1)

unfoldable pub wrap32 : ℤ → ℤ
wrap32 z = of_bits32 (to_bits32 z)

abbrev to_bits64 : ℤ → ℕ
to_bits64 z = (pos_part z % 2 ^ 64 + (2 ^ 64 - neg_part z % 2 ^ 64)) % 2 ^ 64

abbrev of_bits64 : ℕ → ℤ
of_bits64 u = if ltb u (2 ^ 63) then pos u else negsuc (2 ^ 64 - u - 1)

unfoldable pub wrap64 : ℤ → ℤ
wrap64 z = of_bits64 (to_bits64 z)

pub wrap32_pos : (n : ℕ) → n < 2 ^ 31 → wrap32 (pos n) ≡ pos n
unfolding wrap32
wrap32_pos n h = ground arith

pub wrap32_negsuc : (n : ℕ) → n < 2 ^ 31 → wrap32 (negsuc n) ≡ negsuc n
unfolding wrap32
wrap32_negsuc n h = ground arith

pub wrap64_pos : (n : ℕ) → n < 2 ^ 63 → wrap64 (pos n) ≡ pos n
unfolding wrap64
wrap64_pos n h = ground arith

-- The integers that an int64_t holds.
abbrev pub InInt64 : ℤ → Type 0
InInt64 z = (pos_part z < 2 ^ 63) × (neg_part z ≤ 2 ^ 63)

pub wrap64_fits : (z : ℤ) → InInt64 z → wrap64 z ≡ z
unfolding wrap64
wrap64_fits (pos n) h = ground arith
wrap64_fits (negsuc n) h = ground arith

pub wrap64-InInt64 : (z : ℤ) → InInt64 (wrap64 z)
unfolding wrap64
wrap64-InInt64 z = ground arith

-- A sum may wrap around on the way.
pub wrap64_cancel : (a b : ℤ) → InInt64 a → wrap64 (wrap64 (a +ℤ b) -ℤ b) ≡ a
unfolding wrap64 ◌+ℤ◌ ◌-ℤ◌
wrap64_cancel a b h = ground arith

-- A sum may wrap around on the way to the next.
pub wrap64-add : (a c : ℤ) → wrap64 (wrap64 a +ℤ c) ≡ wrap64 (a +ℤ c)
unfolding wrap64 ◌+ℤ◌
wrap64-add a c = ground arith
