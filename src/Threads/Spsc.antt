-- ===== src/Threads/Spsc.antt =====
-- What every interleaving of a producer and a consumer of
-- feedhandler/src/threading/ultra_low_latency_queue.cpp keeps.
use scratch.Prelude.{
  ℕ, zero, suc, ◌+◌, ◌-◌, ◌%◌, ◌<◌, [], ◌∷◌, ◌++◌, append_assoc, false, ◌≡◌, refl, sym, ap, subst,
  ◌∙◌, arith,
}
use scratch.Threads.RingQueue.{RingQueue, ring_size, next_index, stored, new_ring, size}
use scratch.Threads.Ring.{InRange, items_from, items, items_from-stored}
use scratch.Threads.RingSteps.{
  Producer, between_enqueues, may_write, may_publish, Consumer, between_dequeues, may_read,
  may_release, Shared, new_shared, is_full, is_empty, after_write, after_publish, after_release,
  Step, finds_full, finds_room, writes, publishes, finds_empty, finds_item, reads, releases, Reach,
  here, next,
}

module _ {A : Type 0} where
  -- What a thread knows between its steps: its locals are the indices, its test still holds, and the
  -- item is the one in its slot.
  abbrev Producing : RingQueue A → Producer A → Type 0
  Producing q between_enqueues = Unit
  Producing q (may_write item tail) = (tail ≡ q.tail) × (is_full q ≡ false)
  Producing q (may_publish item tail) =
      (tail ≡ q.tail) × (is_full q ≡ false) × (q.slots q.tail ≡ item)

  abbrev Consuming : RingQueue A → Consumer A → Type 0
  Consuming q between_dequeues = Unit
  Consuming q (may_read head) = (head ≡ q.head) × (is_empty q ≡ false)
  Consuming q (may_release item head) =
      (head ≡ q.head) × (is_empty q ≡ false) × (q.slots q.head ≡ item)

  -- Both indices are within the ring, and what was sent is what was received and then what the ring
  -- holds.
  pub record InOrder (s : Shared A) : Type 0 where
    pub in_range : InRange s.ring
    pub no_loss : s.sent ≡ s.received ++ items s.ring
    producing : Producing s.ring s.producer
    consuming : Consuming s.ring s.consumer

  items_from-last :
      (m : ℕ → A) (h n t : ℕ)
      → h < ring_size
      → n < ring_size
      → t ≡ (h + n) % ring_size
      → items_from m h (n + 1) ≡ items_from m h n ++ m t ∷ []
  items_from-last m h zero t low few e = ground arith
  items_from-last m h (suc n) t low few e = ground (arith, items_from-last m (next_index h) n t)

  Consuming-written :
      (q : RingQueue A) (item : A) (c : Consumer A)
      → Consuming q c
      → Consuming (record q { slots = stored q.slots q.tail item }) c
  Consuming-written q item between_dequeues v = tt
  Consuming-written q item (may_read head) v = v
  Consuming-written q item (may_release x head) v = (v.0, v.1, ground (arith, v.1, v.2))

  Consuming-published :
      (q : RingQueue A) (c : Consumer A)
      → is_full q ≡ false
      → Consuming q c
      → Consuming (record q { tail = next_index q.tail }) c
  Consuming-published q between_dequeues room v = tt
  Consuming-published q (may_read head) room v = (v.0, ground arith)
  Consuming-published q (may_release x head) room v = (v.0, ground arith, v.2)

  Producing-released :
      (q : RingQueue A) (p : Producer A)
      → InRange q
      → is_empty q ≡ false
      → Producing q p
      → Producing (record q { head = next_index q.head }) p
  Producing-released q between_enqueues r some_item v = tt
  Producing-released q (may_write x tail) r some_item v =
      (v.0, ground (arith, r.head_fits, r.tail_fits))
  Producing-released q (may_publish x tail) r some_item v =
      (v.0, ground (arith, r.head_fits, r.tail_fits), v.2)

  items-published :
      (q : RingQueue A)
      → InRange q
      → is_full q ≡ false
      → items (record q { tail = next_index q.tail }) ≡ items q ++ q.slots q.tail ∷ []
  unfolding size
  items-published q r room =
      let n = (q.tail + (ring_size - q.head)) % ring_size in
      let longer : (next_index q.tail + (ring_size - q.head)) % ring_size ≡ n + 1 =
        ground (arith, r.head_fits, r.tail_fits) in
      ap (items_from q.slots q.head) longer
      ∙ items_from-last q.slots q.head n q.tail r.head_fits (omega arith)
          (ground (arith, r.head_fits, r.tail_fits))

  items-released :
      (q : RingQueue A)
      → InRange q
      → is_empty q ≡ false
      → items q ≡ q.slots q.head ∷ items (record q { head = next_index q.head })
  unfolding size
  items-released q r some_item =
      let k = (q.tail + (ring_size - next_index q.head)) % ring_size in
      let one_more : (q.tail + (ring_size - q.head)) % ring_size ≡ suc k =
        ground (arith, r.head_fits, r.tail_fits) in
      ap (items_from q.slots q.head) one_more

  items-written :
      (q : RingQueue A) (item : A)
      → InRange q
      → items (record q { slots = stored q.slots q.tail item }) ≡ items q
  unfolding size
  items-written q item r =
      let n = (q.tail + (ring_size - q.head)) % ring_size in
      items_from-stored q.slots item q.head n q.tail r.head_fits (omega arith)
        (ground (arith, r.head_fits, r.tail_fits))

  -- What the phase of a thread says.
  Producing-at : (q : RingQueue A) (p r : Producer A) → p ≡ r → Producing q p → Producing q r
  Producing-at q p r e = subst (Producing q) e

  Consuming-at : (q : RingQueue A) (c d : Consumer A) → c ≡ d → Consuming q c → Consuming q d
  Consuming-at q c d e = subst (Consuming q) e

  writes-InOrder :
      (s : Shared A) (item : A) (tail : ℕ)
      → s.producer ≡ may_write item tail
      → InOrder s
      → InOrder (after_write item tail s)
  writes-InOrder s item tail e v =
      let known = Producing-at s.ring s.producer (may_write item tail) e v.producing in
      rw (known.0) (record {
        in_range = record { head_fits = v.in_range.head_fits; tail_fits = v.in_range.tail_fits };
        no_loss = v.no_loss ∙ ap (◌++◌ s.received) (sym (items-written s.ring item v.in_range));
        producing = (refl, known.1, ground arith);
        consuming = Consuming-written s.ring item s.consumer v.consuming;
      })

  publishes-InOrder :
      (s : Shared A) (item : A) (tail : ℕ)
      → s.producer ≡ may_publish item tail
      → InOrder s
      → InOrder (after_publish item tail s)
  publishes-InOrder s item tail e v =
      let known = Producing-at s.ring s.producer (may_publish item tail) e v.producing in
      rw (known.0) (record {
        in_range = record { head_fits = v.in_range.head_fits; tail_fits = omega arith };
        no_loss =
            ap (λ xs. xs ++ item ∷ []) v.no_loss
            ∙ append_assoc s.received (items s.ring) (item ∷ [])
            ∙ ap (λ x. s.received ++ (items s.ring ++ x ∷ [])) (sym known.2)
            ∙ ap (◌++◌ s.received) (sym (items-published s.ring v.in_range known.1));
        producing = tt;
        consuming = Consuming-published s.ring s.consumer known.1 v.consuming;
      })

  releases-InOrder :
      (s : Shared A) (item : A) (head : ℕ)
      → s.consumer ≡ may_release item head
      → InOrder s
      → InOrder (after_release item head s)
  releases-InOrder s item head e v =
      let known = Consuming-at s.ring s.consumer (may_release item head) e v.consuming in
      let q = s.ring in
      let left = items (record q { head = next_index q.head }) in
      rw (known.0) (record {
        in_range = record { head_fits = omega arith; tail_fits = v.in_range.tail_fits };
        no_loss =
            v.no_loss
            ∙ ap (◌++◌ s.received) (items-released s.ring v.in_range known.1)
            ∙ ap (λ x. s.received ++ x ∷ left) known.2
            ∙ sym (append_assoc s.received (item ∷ []) left);
        producing = Producing-released s.ring s.producer v.in_range known.1 v.producing;
        consuming = tt;
      })

  Step-InOrder : {s t : Shared A} → Step s t → InOrder s → InOrder t
  Step-InOrder (finds_full s e full) v = v
  Step-InOrder (finds_room s item e room) v = record {
    in_range = v.in_range;
    no_loss = v.no_loss;
    producing = (refl, room);
    consuming = v.consuming;
  }
  Step-InOrder (writes s item tail e) v = writes-InOrder s item tail e v
  Step-InOrder (publishes s item tail e) v = publishes-InOrder s item tail e v
  Step-InOrder (finds_empty s e nothing) v = v
  Step-InOrder (finds_item s e something) v = record {
    in_range = v.in_range;
    no_loss = v.no_loss;
    producing = v.producing;
    consuming = (refl, something);
  }
  Step-InOrder (reads s head e) v =
      let known = Consuming-at s.ring s.consumer (may_read head) e v.consuming in
      record {
        in_range = v.in_range;
        no_loss = v.no_loss;
        producing = v.producing;
        consuming = (known.0, known.1, ap s.ring.slots (sym known.0));
      }
  Step-InOrder (releases s item head e) v = releases-InOrder s item head e v

  new_shared-InOrder : (x : A) → InOrder (new_shared x)
  unfolding new_shared new_ring size
  new_shared-InOrder x = record {
    in_range = record { head_fits = omega arith; tail_fits = omega arith };
    no_loss = refl;
    producing = tt;
    consuming = tt;
  }

  Reach-InOrder : {s t : Shared A} → InOrder s → Reach s t → InOrder t
  Reach-InOrder v here = v
  Reach-InOrder v (next r e) = Step-InOrder e (Reach-InOrder v r)

  -- In every state that a producer and a consumer at a new ring reach, each between any two of its
  -- accesses: what was sent is what was received, in the same order, followed by what the ring holds;
  -- so no item is lost, doubled, or read before it was written. Both indices stay within the ring.
  pub reachable-InOrder : (x : A) (s : Shared A) → Reach (new_shared x) s → InOrder s
  reachable-InOrder x s r = Reach-InOrder (new_shared-InOrder x) r
