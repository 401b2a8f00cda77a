-- ===== src/Threads/RingSteps.antt =====
-- feedhandler/src/threading/ultra_low_latency_queue.cpp with one producer and one consumer at work at
-- the same time: each access of a thread to what the threads share is one step. A thread's load of
-- the index that only it stores goes with the next step. The steps are interleaved in any order, with
-- each seeing all before it, which the acquire and release orders give for these accesses.
use scratch.Prelude.{ℕ, ◌==◌, List, [], ◌∷◌, ◌++◌, Bool, true, false, ◌≡◌}
use scratch.Threads.RingQueue.{RingQueue, next_index, stored, new_ring}

-- Where a producer stands, with the locals it holds: at no call; behind its test; behind its write.
pub data Producer (A : Type 0) : Type 0 where
  between_enqueues : Producer A
  may_write : A → ℕ → Producer A
  may_publish : A → ℕ → Producer A

pub data Consumer (A : Type 0) : Type 0 where
  between_dequeues : Consumer A
  may_read : ℕ → Consumer A
  may_release : A → ℕ → Consumer A

-- The ring and both threads; `sent` are the items of the enqueues that returned true, in their order,
-- and `received` those that dequeues returned.
pub record Shared (A : Type 0) : Type 0 where
  pub ring : RingQueue A
  pub producer : Producer A
  pub consumer : Consumer A
  pub sent : List A
  pub received : List A

module _ {A : Type 0} where
  unfoldable pub new_shared : A → Shared A
  unfolding new_ring
  new_shared x = record {
    ring = new_ring x;
    producer = between_enqueues;
    consumer = between_dequeues;
    sent = [];
    received = [];
  }

  abbrev pub is_full : RingQueue A → Bool
  is_full q = next_index q.tail == q.head

  abbrev pub is_empty : RingQueue A → Bool
  is_empty q = q.head == q.tail

  -- `data_[current_tail] = item`.
  abbrev pub after_write : A → ℕ → Shared A → Shared A
  after_write item tail s =
      let q = s.ring in
      record s {
        ring = record q { slots = stored q.slots tail item };
        producer = may_publish item tail;
      }

  -- `tail_.store(next_tail)`.
  abbrev pub after_publish : A → ℕ → Shared A → Shared A
  after_publish item tail s =
      let q = s.ring in
      record s {
        ring = record q { tail = next_index tail };
        producer = between_enqueues;
        sent = s.sent ++ item ∷ [];
      }

  -- `head_.store(…)`.
  abbrev pub after_release : A → ℕ → Shared A → Shared A
  after_release item head s =
      let q = s.ring in
      record s {
        ring = record q { head = next_index head };
        consumer = between_dequeues;
        received = s.received ++ item ∷ [];
      }

  pub data Step : Shared A → Shared A → Type 0 where
    finds_full : (s : Shared A) → s.producer ≡ between_enqueues → is_full s.ring ≡ true → Step s s
    finds_room :
        (s : Shared A) (item : A)
        → s.producer ≡ between_enqueues
        → is_full s.ring ≡ false
        → Step s (record s { producer = may_write item (s.ring.tail) })
    writes :
        (s : Shared A) (item : A) (tail : ℕ)
        → s.producer ≡ may_write item tail
        → Step s (after_write item tail s)
    publishes :
        (s : Shared A) (item : A) (tail : ℕ)
        → s.producer ≡ may_publish item tail
        → Step s (after_publish item tail s)
    finds_empty : (s : Shared A) → s.consumer ≡ between_dequeues → is_empty s.ring ≡ true → Step s s
    finds_item :
        (s : Shared A)
        → s.consumer ≡ between_dequeues
        → is_empty s.ring ≡ false
        → Step s (record s { consumer = may_read (s.ring.head) })
    reads :
        (s : Shared A) (head : ℕ)
        → s.consumer ≡ may_read head
        → Step s (record s { consumer = may_release (s.ring.slots head) head })
    releases :
        (s : Shared A) (item : A) (head : ℕ)
        → s.consumer ≡ may_release item head
        → Step s (after_release item head s)

  pub data Reach (s : Shared A) : Shared A → Type 0 where
    here : Reach s s
    next : {t u : Shared A} → Reach s t → Step t u → Reach s u
