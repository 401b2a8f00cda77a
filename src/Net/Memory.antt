-- ===== src/Net/Memory.antt =====
-- A block of memory as a function from positions to bytes, and copies into it: what memcpy and
-- memmove do in feedhandler/src/net/receive_buffer.cpp.
use scratch.Prelude.{
  ℕ, zero, suc, ◌+◌, ◌-◌, ◌≤◌, ◌==◌, length, drop, [], ◌∷◌, ◌++◌, ◌≡◌, refl, ap, ◌∙◌, arith,
  if◌then◌else◌, Bytes,
}

abbrev pub Memory : Type 0
Memory = ℕ → ℕ

abbrev pub update : Memory → ℕ → ℕ → Memory
update m w c i = if i == w then c else m i

-- The n bytes from a position on.
unfoldable pub slice : Memory → ℕ → ℕ → Bytes
slice m s zero = []
slice m s (suc n) = m s ∷ slice m (s + 1) n

unfoldable pub copy_in : Memory → ℕ → Bytes → Memory
copy_in m w [] = m
copy_in m w (c ∷ cs) = copy_in (update m w c) (w + 1) cs

pub slice_eq : (m : Memory) (s s' n n' : ℕ) → s ≡ s' → n ≡ n' → slice m s n ≡ slice m s' n'
slice_eq m s s' n n' e e' = cc

pub length-slice : (m : Memory) (s n : ℕ) → length (slice m s n) ≡ n
unfolding slice
length-slice m s zero = refl
length-slice m s (suc n) = ap suc (length-slice m (s + 1) n)

slice-update : (m : Memory) (w c s n : ℕ) → s + n ≤ w → slice (update m w c) s n ≡ slice m s n
unfolding slice
slice-update m w c s zero h = refl
slice-update m w c s (suc n) h = ground (arith, slice-update m w c (s + 1) n)

pub slice-copy_in_before :
    (m : Memory) (w s n : ℕ) (cs : Bytes) → s + n ≤ w → slice (copy_in m w cs) s n ≡ slice m s n
unfolding copy_in
slice-copy_in_before m w s n [] h = refl
slice-copy_in_before m w s n (c ∷ cs) h =
    slice-copy_in_before (update m w c) (w + 1) s n cs (omega arith) ∙ slice-update m w c s n h

pub slice-copy_in : (m : Memory) (w : ℕ) (cs : Bytes) → slice (copy_in m w cs) w (length cs) ≡ cs
unfolding slice copy_in
slice-copy_in m w [] = refl
slice-copy_in m w (c ∷ cs) = ground (
  arith,
  slice-copy_in_before (update m w c) (w + 1) w 1 cs,
  slice-copy_in (update m w c) (w + 1) cs,
)

pub slice-append : (m : Memory) (s a b : ℕ) → slice m s (a + b) ≡ slice m s a ++ slice m (s + a) b
unfolding slice
slice-append m s zero b = slice_eq m s (s + 0) (0 + b) b (omega arith) (omega arith)
slice-append m s (suc a) b =
    slice_eq m s s (suc a + b) (suc (a + b)) refl (omega arith)
    ∙ ap (◌∷◌ (m s)) (
        slice-append m (s + 1) a b
        ∙ ap (◌++◌ (slice m (s + 1) a)) (slice_eq m (s + 1 + a) (s + suc a) b b (omega arith) refl))

pub drop-slice : (m : Memory) (s n k : ℕ) → drop k (slice m s n) ≡ slice m (s + k) (n - k)
unfolding slice
drop-slice m s n zero = slice_eq m s (s + 0) n (n - 0) (omega arith) (omega arith)
drop-slice m s zero (suc k) = slice_eq m (s + suc k) (s + suc k) 0 (0 - suc k) refl (omega arith)
drop-slice m s (suc n) (suc k) =
    drop-slice m (s + 1) n k
    ∙ slice_eq m (s + 1 + k) (s + suc k) (n - k) (suc n - suc k) (omega arith) (omega arith)

-- Bytes copied in behind the slice are appended to it.
pub slice-copy_in_append :
    (m : Memory) (r w : ℕ) (cs : Bytes)
    → r ≤ w
    → slice (copy_in m w cs) r (w + length cs - r) ≡ slice m r (w - r) ++ cs
slice-copy_in_append m r w cs h =
    slice_eq (copy_in m w cs) r r (w + length cs - r) (w - r + length cs) refl (omega arith)
    ∙ slice-append (copy_in m w cs) r (w - r) (length cs)
    ∙ rw (slice-copy_in_before m w r (w - r) cs (omega arith)) (
        ap (◌++◌ (slice m r (w - r))) (
          slice_eq (copy_in m w cs) (r + (w - r)) w (length cs) (length cs) (omega arith) refl
          ∙ slice-copy_in m w cs))
