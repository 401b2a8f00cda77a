-- ===== src/Threads/Order.antt =====
-- What every interleaving of calls of MessageQueue keeps. The calls of all threads stand in one list,
-- in the order in which they get the mutex of feedhandler/include/threading/message_queue.hpp.
use scratch.Prelude.{
  ℕ, ◌≤◌, length, List, [], ◌∷◌, ◌++◌, append_assoc, append-nil, Option, none, some, Bool,
  if◌then◌else◌, ◌≡◌, ◌⊎◌, refl, sym, ap, ◌∙◌, arith, length-append,
}
use scratch.Threads.MessageQueue.{
  MessageQueue, push, try_push, front_of, try_pop, pop, new_queue, shutdown, clear,
}

pub data Call {ℓ} (A : Type ℓ) : Type ℓ where
  pushes : A → Call A
  try_pushes : A → Call A
  pops : Call A
  try_pops : Call A
  shuts_down : Call A
  clears : Call A

-- The queue behind some calls, the items that they put in, and the items that left it.
pub record Outcome {ℓ} (A : Type ℓ) : Type ℓ where
  pub after : MessageQueue A
  pub entered : List A
  pub left : List A

module _ {ℓ} {A : Type ℓ} where
  abbrev pub waits : MessageQueue A → Outcome A
  waits q = record { after = q; entered = []; left = [] }

  abbrev pub pushed : A → MessageQueue A × Bool → Outcome A
  pushed x r = record { after = r.0; entered = if r.1 then x ∷ [] else []; left = [] }

  abbrev pub item_list : Option A → List A
  item_list none = []
  item_list (some x) = x ∷ []

  abbrev pub popped : MessageQueue A × Option A → Outcome A
  popped r = record { after = r.0; entered = []; left = item_list r.1 }

  unfoldable pub step : MessageQueue A → Call A → Outcome A
  step q (pushes x) = elim (push x q) [ none ↦ waits q | some r ↦ pushed x r ]
  step q (try_pushes x) = pushed x (try_push x q)
  step q pops = elim (pop q) [ none ↦ waits q | some r ↦ popped r ]
  step q try_pops = popped (try_pop q)
  step q shuts_down = waits (shutdown q)
  step q clears = record { after = clear q; entered = []; left = q.queue }

  unfoldable pub run : MessageQueue A → List (Call A) → Outcome A
  run q [] = waits q
  run q (c ∷ cs) =
      let o = step q c in
      let r = run o.after cs in
      record { after = r.after; entered = o.entered ++ r.entered; left = o.left ++ r.left }

  front_of_order :
      (q : MessageQueue A) (xs : List A)
      → q.queue ≡ xs
      → xs ++ [] ≡ item_list (front_of q xs).1 ++ (front_of q xs).0.queue
  front_of_order q [] h = sym h
  front_of_order q (x ∷ xs) h = ap (◌∷◌ x) (append-nil xs)

  step_order :
      (q : MessageQueue A) (c : Call A)
      → q.queue ++ (step q c).entered ≡ (step q c).left ++ (step q c).after.queue
  unfolding step push try_push pop try_pop shutdown clear
  step_order q (pushes x) = ground (arith, append-nil q.queue)
  step_order q (try_pushes x) = ground (arith, append-nil q.queue)
  step_order q pops = ground (arith, append-nil q.queue, front_of_order q q.queue refl)
  step_order q try_pops = front_of_order q q.queue refl
  step_order q shuts_down = append-nil q.queue
  step_order q clears = refl

  -- Whatever calls arrive, in whatever interleaving: what was in the queue, followed by the items that
  -- were accepted, is what left the queue, by a pop or by clear, followed by what is still in it. So no
  -- accepted item is lost or doubled, and the items leave in the order in which they were accepted.
  pub run-order :
      (q : MessageQueue A) (cs : List (Call A))
      → q.queue ++ (run q cs).entered ≡ (run q cs).left ++ (run q cs).after.queue
  unfolding run
  run-order q [] = append-nil q.queue
  run-order q (c ∷ cs) =
      let o = step q c in
      let r = run o.after cs in
      sym (append_assoc q.queue o.entered r.entered)
      ∙ ap (λ xs. xs ++ r.entered) (step_order q c)
      ∙ append_assoc o.left o.after.queue r.entered
      ∙ ap (◌++◌ o.left) (run-order o.after cs)
      ∙ sym (append_assoc o.left r.left r.after.queue)

  -- The queue keeps its bound, if it has one.
  abbrev pub IsBounded : MessageQueue A → Type 0
  IsBounded q = (q.max_size ≡ 0) ⊎ (length q.queue ≤ q.max_size)

  length-front_of :
      (q : MessageQueue A) (xs : List A)
      → q.queue ≡ xs
      → ((front_of q xs).0.max_size ≡ q.max_size) × (length (front_of q xs).0.queue ≤ length xs)
  length-front_of q [] h = (refl, rw h (omega arith))
  length-front_of q (x ∷ xs) h = (refl, omega arith)

  step-IsBounded : (q : MessageQueue A) (c : Call A) → IsBounded q → IsBounded (step q c).after
  unfolding step push try_push pop try_pop shutdown clear
  step-IsBounded q (pushes x) h = ground (arith, length-append q.queue (x ∷ []))
  step-IsBounded q (try_pushes x) h = ground (arith, length-append q.queue (x ∷ []))
  step-IsBounded q pops h = ground (arith, length-front_of q q.queue refl)
  step-IsBounded q try_pops h = ground (arith, length-front_of q q.queue refl)
  step-IsBounded q shuts_down h = h
  step-IsBounded q clears h = ground arith

  run_from-IsBounded :
      (q : MessageQueue A) (cs : List (Call A)) → IsBounded q → IsBounded (run q cs).after
  unfolding run
  run_from-IsBounded q [] h = h
  run_from-IsBounded q (c ∷ cs) h = run_from-IsBounded (step q c).after cs (step-IsBounded q c h)

  -- Whatever calls arrive, in whatever interleaving, a new queue with a bound never holds more items
  -- than that.
  pub run-IsBounded :
      (max_size : ℕ) (cs : List (Call A)) → IsBounded (run (new_queue max_size) cs).after
  unfolding new_queue
  run-IsBounded max_size cs = run_from-IsBounded (new_queue max_size) cs (ground arith)
