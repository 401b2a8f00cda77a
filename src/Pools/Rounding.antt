-- ===== src/Pools/Rounding.antt =====
-- Rounding up to an alignment in feedhandler/src/common/zero_latency_allocator.cpp.
use scratch.Prelude.{ℕ, ◌+◌, ◌-◌, ◌*◌, ◌/◌, ◌%◌, ◌^◌, ◌≤◌, ◌<◌, ◌≡◌, ap, ◌∙◌, arith}
use native.Mathlib.Nat.{
  one-le-pow, mod-lt, div-add-mod, mul-add-mod_self_left, zero-mod, mod-eq_of_lt,
}
use scratch.Pools.Arena.{align_size}

pub power_pos : (e : ℕ) → 1 ≤ 2 ^ e
power_pos e = one-le-pow e 2 (omega arith)

-- Rounding down gives a multiple.
multiple : (n a : ℕ) → (n - n % a) % a ≡ 0
multiple n a =
    let same : n - n % a ≡ a * (n / a) + 0 = omega (arith, div-add-mod n a) in
    ap (λ m. m % a) same ∙ mul-add-mod_self_left a (n / a) 0 ∙ zero-mod a

-- Without overflow, rounding up gives the least multiple that is not below.
pub align_size_lem :
    (n e : ℕ)
    → n + 2 ^ e ≤ 2 ^ 64
    → (align_size n e % 2 ^ e ≡ 0) × (n ≤ align_size n e) × (align_size n e < n + 2 ^ e)
unfolding align_size
align_size_lem n e fits =
    let p = power_pos e in
    let sum = n + (2 ^ e - 1) in
    let small : sum % 2 ^ 64 ≡ sum = omega (arith, p) in
    let below : sum % 2 ^ e < 2 ^ e = mod-lt sum p in
    rw small (multiple sum (2 ^ e), omega (arith, p, below), omega (arith, p, below))

-- A size within the last alignment below 2^64 wraps around.
pub align_size_wraps :
    (size e : ℕ) → 2 ^ 64 - 2 ^ e < size → size < 2 ^ 64 → 2 ^ e ≤ 2 ^ 63 → align_size size e ≡ 0
unfolding align_size
align_size_wraps size e low high small =
    let sum = (size + (2 ^ e - 1)) % 2 ^ 64 in
    let below : sum < 2 ^ e = omega (arith, power_pos e) in
    let same : sum % 2 ^ e ≡ sum = mod-eq_of_lt below in omega (arith, same)
