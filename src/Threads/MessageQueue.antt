-- ===== src/Threads/MessageQueue.antt =====
-- feedhandler/include/threading/message_queue.hpp: MessageQueue. Each method holds the mutex from its
-- start to its end, except while it waits; so a call is one step from a queue to a queue, and a
-- blocking call whose condition does not hold has the result none: it waits, and the queue stays.
use scratch.Prelude.{
  ℕ, ltb, leb, length, List, [], ◌∷◌, ◌++◌, Option, none, some, Bool, true, false, not, ◌&&◌, ◌||◌,
  if◌then◌else◌,
}

-- A max_size of 0 stands for no bound.
pub record MessageQueue {ℓ} (A : Type ℓ) : Type ℓ where
  pub queue : List A
  pub max_size : ℕ
  pub shut : Bool

module _ {ℓ} {A : Type ℓ} where
  unfoldable pub new_queue : ℕ → MessageQueue A
  new_queue max_size = record { queue = []; max_size = max_size; shut = false }

  abbrev pub appended : A → MessageQueue A → MessageQueue A
  appended item q = record q { queue = q.queue ++ item ∷ [] }

  -- The condition that not_full_ waits for.
  abbrev pub may_push : MessageQueue A → Bool
  may_push q = not (ltb 0 q.max_size) || ltb (length q.queue) q.max_size || q.shut

  unfoldable pub push : A → MessageQueue A → Option (MessageQueue A × Bool)
  push item q =
      if not (may_push q)
      then none
      else if q.shut
      then some (q, false)
      else some (appended item q, true)

  unfoldable pub try_push : A → MessageQueue A → MessageQueue A × Bool
  try_push item q =
      if q.shut
      then (q, false)
      else if ltb 0 q.max_size && leb q.max_size (length q.queue)
      then (q, false)
      else (appended item q, true)

  -- The front, taken off, if there is one.
  abbrev pub front_of : MessageQueue A → List A → MessageQueue A × Option A
  front_of q [] = (q, none)
  front_of q (item ∷ rest) = (record q { queue = rest }, some item)

  unfoldable pub try_pop : MessageQueue A → MessageQueue A × Option A
  try_pop q = front_of q q.queue

  abbrev pub is_nil : List A → Bool
  is_nil [] = true
  is_nil (x ∷ xs) = false

  -- Waits until the queue is not empty or shut down.
  unfoldable pub pop : MessageQueue A → Option (MessageQueue A × Option A)
  pop q = if not (not (is_nil q.queue) || q.shut) then none else some (try_pop q)

  unfoldable pub size : MessageQueue A → ℕ
  size q = length q.queue

  unfoldable pub empty : MessageQueue A → Bool
  empty q = is_nil q.queue

  unfoldable pub shutdown : MessageQueue A → MessageQueue A
  shutdown q = record q { shut = true }

  unfoldable pub is_shutdown : MessageQueue A → Bool
  is_shutdown q = q.shut

  unfoldable pub clear : MessageQueue A → MessageQueue A
  clear q = record q { queue = [] }
