-- ===== src/Pools/Slots.antt =====
-- The slots that feedhandler/src/common/tick_pool.cpp hands out between two resets.
use scratch.Prelude.{
  ℕ, zero, suc, ◌+◌, ◌-◌, min, leb, length, List, [], ◌∷◌, ◌++◌, Option, none, some, ◌≡◌, refl, ap,
  ◌∙◌, arith, Bool-cases, inl, inr,
}
use scratch.Pools.TickPool.{Pool, copies, new_pool, is_full, acquire, reset}

abbrev pub got : Option ℕ → List ℕ
got none = []
got (some i) = i ∷ []

-- The numbers from k on, n of them.
abbrev pub count_from : ℕ → ℕ → List ℕ
count_from k zero = []
count_from k (suc n) = k ∷ count_from (k + 1) n

module _ {ℓ} {A : Type ℓ} where
  -- The slots of n calls of acquire, one after another.
  unfoldable pub acquire_all : ℕ → Pool A → Pool A × List ℕ
  unfolding acquire
  acquire_all zero p = (p, [])
  acquire_all (suc n) p = let o = acquire p in let r = acquire_all n o.0 in (r.0, got o.1 ++ r.1)

  acquire_all_lem :
      (n : ℕ) (p : Pool A)
      → (acquire_all n p).1 ≡ count_from p.next_index (min n (length p.slots - p.next_index))
  unfolding acquire_all acquire is_full
  acquire_all_lem zero p =
      ap (count_from p.next_index)
        (let e : 0 ≡ min 0 (length p.slots - p.next_index) = omega arith in e)
  acquire_all_lem (suc n) p =
      let k = p.next_index in
      let size = length p.slots in
      elim (Bool-cases (leb size k)) [
        | inl full ↦ rw full (
            acquire_all_lem n p
            ∙ ap (count_from k)
                (let e : min n (size - k) ≡ min (suc n) (size - k) = ground arith in e))
        | inr room ↦ rw room (
            ap (◌∷◌ k) (acquire_all_lem n (record p { next_index = k + 1 }))
            ∙ ap (count_from k)
                (let e : suc (min n (size - (k + 1))) ≡ min (suc n) (size - k) = ground arith in e))
      ]

  length-copies : (x : A) (n : ℕ) → length (copies x n) ≡ n
  length-copies x zero = refl
  length-copies x (suc n) = ap suc (length-copies x n)

  -- The calls of acquire on a new pool, and those behind a reset of any pool, hand out the slots from
  -- the first one on, each once, as many as there are calls and slots; the further calls get none.
  pub acquire_all-count_from :
      (x : A) (capacity n : ℕ) (p : Pool A)
      → ((acquire_all n (new_pool x capacity)).1 ≡ count_from 0 (min n capacity))
        × ((acquire_all n (reset p)).1 ≡ count_from 0 (min n (length p.slots)))
  unfolding new_pool reset
  acquire_all-count_from x capacity n p = (
    acquire_all_lem n (new_pool x capacity)
        ∙ ap (λ k. count_from 0 (min n k)) (omega (arith, length-copies x capacity)),
    acquire_all_lem n (reset p) ∙ ap (λ k. count_from 0 (min n k)) (omega arith),
  )
