-- ===== src/Threads/Ring.antt =====
-- That the ring of feedhandler/src/threading/ultra_low_latency_queue.cpp is a bounded queue.
use scratch.Prelude.{
  ℕ, zero, suc, ◌+◌, ◌-◌, ◌%◌, ◌<◌, ◌==◌, length, List, [], ◌∷◌, ◌++◌, Option, none, some,
  if◌then◌else◌, ◌≡◌, refl, sym, ap, ◌∙◌, arith, Bool-cases, inl, inr, ltb,
}
use scratch.Threads.RingQueue.{RingQueue, ring_size, next_index, stored, enqueue, dequeue, size}

module _ {ℓ} {A : Type ℓ} where
  pub record InRange (q : RingQueue A) : Type 0 where
    pub head_fits : q.head < ring_size
    pub tail_fits : q.tail < ring_size

  -- The n items from an index on, around the end of the ring.
  abbrev pub items_from : (ℕ → A) → ℕ → ℕ → List A
  items_from m h zero = []
  items_from m h (suc n) = m h ∷ items_from m (next_index h) n

  abbrev pub items : RingQueue A → List A
  items q = items_from q.slots q.head (size q)

  pub length-items_from : (m : ℕ → A) (h n : ℕ) → length (items_from m h n) ≡ n
  length-items_from m h zero = refl
  length-items_from m h (suc n) = ap suc (length-items_from m (next_index h) n)

  pub items_from-stored :
      (m : ℕ → A) (x : A) (h n t : ℕ)
      → h < ring_size
      → n < ring_size
      → t ≡ (h + n) % ring_size
      → items_from (stored m t x) h n ≡ items_from m h n
  items_from-stored m x h zero t low few e = refl
  items_from-stored m x h (suc n) t low few e =
      ground (arith, items_from-stored m x (next_index h) n t)

  items_from-snoc :
      (m : ℕ → A) (x : A) (h n t : ℕ)
      → h < ring_size
      → n < ring_size
      → t ≡ (h + n) % ring_size
      → items_from (stored m t x) h (n + 1) ≡ items_from m h n ++ x ∷ []
  items_from-snoc m x h zero t low few e = ground arith
  items_from-snoc m x h (suc n) t low few e = ground (arith, items_from-snoc m x (next_index h) n t)

  -- An enqueue of a ring whose indices are within it fails if and only if all slots but one hold an
  -- item, and then changes nothing; else the item comes last. The indices stay within the ring.
  pub enqueue-items :
      (item : A) (q : RingQueue A)
      → InRange q
      → ((enqueue item q).1 ≡ ltb (length (items q)) (ring_size - 1))
        × (items (enqueue item q).0
            ≡ (if (enqueue item q).1 then items q ++ item ∷ [] else items q))
        × InRange (enqueue item q).0
  unfolding enqueue size
  enqueue-items item q v =
      let n = (q.tail + (ring_size - q.head)) % ring_size in
      let long = length-items_from q.slots q.head n in
      elim (Bool-cases (next_index q.tail == q.head)) [
        | inl full ↦ rw full (ground (arith, v.head_fits, v.tail_fits, long), refl, v)
        | inr room ↦ rw room (
          ground (arith, v.head_fits, v.tail_fits, long),
          ap (items_from (stored q.slots q.tail item) q.head) (ground arith)
              ∙ items_from-snoc q.slots item q.head n q.tail v.head_fits (omega arith)
                  (ground (arith, v.head_fits, v.tail_fits)),
          record { head_fits = v.head_fits; tail_fits = omega arith },
        )
      ]

  abbrev pub front : List A → Option A
  front [] = none
  front (x ∷ xs) = some x

  abbrev pub rest : List A → List A
  rest [] = []
  rest (x ∷ xs) = xs

  -- A dequeue of a ring whose indices are within it takes off the first item, if there is one. The
  -- indices stay within the ring.
  pub dequeue-items :
      (q : RingQueue A)
      → InRange q
      → ((dequeue q).1 ≡ front (items q))
        × (items (dequeue q).0 ≡ rest (items q))
        × InRange (dequeue q).0
  unfolding dequeue size
  dequeue-items q v =
      let n = (q.tail + (ring_size - q.head)) % ring_size in
      elim (Bool-cases (q.head == q.tail)) [
        | inl nothing ↦
            let none_there : n ≡ 0 = ground (arith, v.head_fits, v.tail_fits) in
            rw nothing (
              ap (λ k. front (items_from q.slots q.head k)) (sym none_there),
              ap (items_from q.slots q.head) none_there
                  ∙ ap (λ k. rest (items_from q.slots q.head k)) (sym none_there),
              v,
            )
        | inr some_item ↦
            let k = (q.tail + (ring_size - next_index q.head)) % ring_size in
            let one_more : n ≡ suc k = ground (arith, v.head_fits, v.tail_fits) in
            rw some_item (
              ap (λ j. front (items_from q.slots q.head j)) (sym one_more),
              ap (λ j. rest (items_from q.slots q.head j)) (sym one_more),
              record { head_fits = omega arith; tail_fits = v.tail_fits },
            )
      ]
