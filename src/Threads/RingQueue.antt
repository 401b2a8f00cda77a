-- ===== src/Threads/RingQueue.antt =====
-- feedhandler/src/threading/ultra_low_latency_queue.cpp: UltraLowLatencyQueue, one call at a time.
-- The size is that of every instantiation in the file. `& MASK` is the remainder by the size, which
-- is a power of two. The prefetches change nothing.
use scratch.Prelude.{ℕ, ◌+◌, ◌-◌, ◌%◌, ◌==◌, Bool, true, false, Option, none, some, if◌then◌else◌}

abbrev pub ring_size : ℕ
ring_size = 1024

abbrev pub next_index : ℕ → ℕ
next_index i = (i + 1) % ring_size

pub record RingQueue {ℓ} (A : Type ℓ) : Type ℓ where
  pub slots : ℕ → A
  pub head : ℕ
  pub tail : ℕ

module _ {ℓ} {A : Type ℓ} where
  -- Every slot starts as `T()`.
  unfoldable pub new_ring : A → RingQueue A
  new_ring x = record { slots = λ i. x; head = 0; tail = 0 }

  abbrev pub stored : (ℕ → A) → ℕ → A → ℕ → A
  stored m t x i = if i == t then x else m i

  unfoldable pub enqueue : A → RingQueue A → RingQueue A × Bool
  enqueue item q =
      if next_index q.tail == q.head
      then (q, false)
      else (record q { slots = stored q.slots q.tail item; tail = next_index q.tail }, true)

  unfoldable pub dequeue : RingQueue A → RingQueue A × Option A
  dequeue q =
      if q.head == q.tail
      then (q, none)
      else (record q { head = next_index q.head }, some (q.slots q.head))

  unfoldable pub empty : RingQueue A → Bool
  empty q = q.head == q.tail

  -- `(current_tail - current_head) & MASK`; both indices are below the size.
  unfoldable pub size : RingQueue A → ℕ
  size q = (q.tail + (ring_size - q.head)) % ring_size
