-- ===== src/Threads/Stopping.antt =====
-- The end of the threads of feedhandler/src/threading/threaded_feedhandler.cpp.
use scratch.Prelude.{
  ℕ, ◌-◌, suc, ◌+◌, ◌*◌, ◌≤◌, length, List, [], ◌∷◌, ◌++◌, append-nil, Bool, true, false, ◌⊎◌,
  subst, ◌≡◌, refl, sym, ap, ◌∙◌, arith, All, Bytes,
}
use scratch.Doubles.{Doubles}
use scratch.Fsm.Stream.{joined, feed}
use scratch.Threads.Parsing.{parser_of, run-Follows}
use scratch.Threads.MessageQueue.{try_push, try_pop, pop, shutdown, empty}
use scratch.Threads.FeedHandler.{
  FeedHandler, Phase, absent, testing, popping, ended, terminated, is_terminated, stop_running,
  stop_queue, join_network, join_parser, push_data, inject_data, reset_statistics, network_round,
  parser_test, parse_buffer, parser_round, parser_step_in, Event, starts_running, starts_parser,
  starts_network, stops_running, stops_queue, joins_network, joins_parser, resets, network_steps,
  parser_steps, injects, pushes_data, live_step, step, run,
}
use scratch.Threads.Refusing.{run_refuses}

abbrev pub is_start : Event → Bool
is_start starts_running = true
is_start starts_parser = true
is_start starts_network = true
is_start _ = false

-- The steps of the parser thread among some events.
abbrev pub parser_rounds : List Event → ℕ
parser_rounds [] = 0
parser_rounds (parser_steps ∷ es) = suc (parser_rounds es)
parser_rounds (_ ∷ es) = parser_rounds es

-- The parser thread has at most k steps to make.
abbrev Left : Phase → List Bytes → ℕ → Type 0
Left absent q k = 1 ≤ 0
Left testing q k = 2 * length q + 1 ≤ k
Left popping [] k = 1 ≤ k
Left popping (b ∷ q) k = 2 * length q + 2 ≤ k
Left ended q k = q ≡ []
Left terminated q k = 1 ≤ 0

record Drains (h : FeedHandler) (k : ℕ) : Type 0 where
  stopped : h.running ≡ false
  shut : h.buffer_queue.shut ≡ true
  left : Left h.phase h.buffer_queue.queue k

module _ (d : Doubles) (clock : ℕ → ℕ) where
  -- A step of the parser thread is one less to make.
  parser_step-Drains :
      (p : Phase) (q : List Bytes) (h : FeedHandler) (k : ℕ)
      → h.phase ≡ p
      → h.buffer_queue.queue ≡ q
      → h.running ≡ false
      → h.buffer_queue.shut ≡ true
      → Left p q k
      → Drains (parser_step_in d clock p h).after (k - 1)
  unfolding parser_test parser_round pop try_pop parse_buffer empty
  parser_step-Drains absent q h k e f stopped shut left = absurd (omega arith)
  parser_step-Drains testing [] h k e f stopped shut left =
      rw (stopped, f) (record { stopped = refl; shut = shut; left = refl })
  parser_step-Drains testing (b ∷ q) h k e f stopped shut left =
      rw (stopped, f) (record { stopped = refl; shut = shut; left = omega arith })
  parser_step-Drains popping [] h k e f stopped shut left =
      rw (f, shut) (record { stopped = stopped; shut = refl; left = refl })
  parser_step-Drains popping (b ∷ q) h k e f stopped shut left =
      rw f (record { stopped = stopped; shut = shut; left = omega arith })
  parser_step-Drains ended q h k e f stopped shut left =
      rw (e, f) (record { stopped = stopped; shut = shut; left = left })
  parser_step-Drains terminated q h k e f stopped shut left = absurd (omega arith)

  same-Drains :
      (h g : FeedHandler) (k : ℕ)
      → g.running ≡ h.running
      → g.buffer_queue.shut ≡ h.buffer_queue.shut
      → g.phase ≡ h.phase
      → g.buffer_queue.queue ≡ h.buffer_queue.queue
      → Drains h k
      → Drains g (k - 0)
  same-Drains h g k r s p q v = record {
    stopped = r ∙ v.stopped;
    shut = s ∙ v.shut;
    left = rw (p, q, let e : k - 0 ≡ k = omega arith in e) v.left;
  }

  live_step-Drains :
      (h : FeedHandler) (e : Event) (k : ℕ)
      → is_start e ≡ false
      → Drains h k
      → Drains (live_step d clock h e).after (k - parser_rounds (e ∷ []))
  unfolding live_step stop_running stop_queue join_network join_parser network_round inject_data
      push_data reset_statistics shutdown try_push
  live_step-Drains h starts_running k e v = absurd (ground arith)
  live_step-Drains h starts_parser k e v = absurd (ground arith)
  live_step-Drains h starts_network k e v = absurd (ground arith)
  live_step-Drains h joins_network k e v =
      same-Drains h (join_network h) k (ground arith) (ground arith) (ground arith) (ground arith) v
  live_step-Drains h joins_parser k e v =
      same-Drains h (join_parser h) k (ground arith) (ground arith) (ground arith) (ground arith) v
  live_step-Drains h stops_running k e v =
      same-Drains h (stop_running h) k (ground (arith, v.stopped)) (ground arith) (ground arith)
        (ground arith) v
  live_step-Drains h stops_queue k e v =
      same-Drains h (stop_queue h) k refl (sym v.shut) refl refl v
  live_step-Drains h resets k e v = same-Drains h (reset_statistics h) k refl refl refl refl v
  live_step-Drains h network_steps k e v =
      same-Drains h (network_round h) k (ground arith) (ground arith) (ground arith) (ground arith)
        v
  live_step-Drains h parser_steps k e v =
      parser_step-Drains h.phase h.buffer_queue.queue h k refl refl v.stopped v.shut v.left
  live_step-Drains h (injects bytes) k e v =
      same-Drains h (inject_data bytes h).after k (ground (arith, v.stopped))
        (ground (arith, v.stopped)) (ground (arith, v.stopped)) (ground (arith, v.stopped)) v
  live_step-Drains h (pushes_data bytes) k e v =
      same-Drains h (push_data bytes h).after k (ground arith) (ground (arith, v.shut))
        (ground arith) (ground (arith, v.shut)) v

  Left-lives : (p : Phase) (q : List Bytes) (k : ℕ) → Left p q k → is_terminated p ≡ false
  Left-lives absent q k left = refl
  Left-lives testing q k left = refl
  Left-lives popping q k left = refl
  Left-lives ended q k left = refl
  Left-lives terminated q k left = absurd (omega arith)

  step-Drains :
      (h : FeedHandler) (e : Event) (k : ℕ)
      → is_start e ≡ false
      → Drains h k
      → Drains (step d clock h e).after (k - parser_rounds (e ∷ []))
  unfolding step
  step-Drains h e k other v =
      rw (Left-lives h.phase h.buffer_queue.queue k v.left) (live_step-Drains h e k other v)

  one_round :
      (e : Event) (es : List Event)
      → parser_rounds (e ∷ es) ≡ parser_rounds (e ∷ []) + parser_rounds es
  one_round parser_steps es = omega arith
  one_round starts_running es = omega arith
  one_round starts_parser es = omega arith
  one_round starts_network es = omega arith
  one_round joins_network es = omega arith
  one_round joins_parser es = omega arith
  one_round stops_running es = omega arith
  one_round stops_queue es = omega arith
  one_round resets es = omega arith
  one_round network_steps es = omega arith
  one_round (injects bytes) es = omega arith
  one_round (pushes_data bytes) es = omega arith

  run-Drains :
      (h : FeedHandler) (es : List Event) (k : ℕ)
      → All (λ e. is_start e ≡ false) es
      → Drains h k
      → Drains (run d clock h es).after (k - parser_rounds es)
  unfolding run
  run-Drains h [] k a v = same-Drains h h k refl refl refl refl v
  run-Drains h (e ∷ es) k a v =
      let first = k - parser_rounds (e ∷ []) in
      subst (Drains (run d clock (step d clock h e).after es).after)
        (let same : first - parser_rounds es ≡ k - parser_rounds (e ∷ es) =
            omega (arith, one_round e es) in
          same)
        (run-Drains (step d clock h e).after es first a.1 (step-Drains h e k a.0 v))

  no_step-Left : (p : Phase) (q : List Bytes) → Left p q 0 → (p ≡ ended) × (q ≡ [])
  no_step-Left absent q left = absurd (omega arith)
  no_step-Left testing q left = absurd (omega arith)
  no_step-Left popping [] left = absurd (omega arith)
  no_step-Left popping (b ∷ q) left = absurd (omega arith)
  no_step-Left ended q left = (refl, left)
  no_step-Left terminated q left = absurd (omega arith)

  enough_steps :
      (p : Phase) (q : List Bytes) → (p ≡ testing) ⊎ (p ≡ popping) → Left p q (2 * length q + 1)
  enough_steps absent q at = ground arith
  enough_steps testing q at = omega arith
  enough_steps popping [] at = omega arith
  enough_steps popping (b ∷ q) at = omega arith
  enough_steps ended q at = ground arith
  enough_steps terminated q at = ground arith

  -- Once stop has cleared running_ and shut down the queue, while the parser thread is in its loop:
  -- whatever the other threads do, a new start excepted, after at most 2n + 1 more steps of the parser
  -- thread, for a queue of n buffers, this thread has ended, and it took and parsed exactly the
  -- buffers that were in the queue, in their order.
  pub run_drains :
      (h : FeedHandler) (es : List Event)
      → h.running ≡ false
      → h.buffer_queue.shut ≡ true
      → (h.phase ≡ testing) ⊎ (h.phase ≡ popping)
      → All (λ e. is_start e ≡ false) es
      → 2 * length h.buffer_queue.queue + 1 ≤ parser_rounds es
      → let r = run d clock h es in
        (r.after.phase ≡ ended)
        × (r.taken ≡ h.buffer_queue.queue)
        × (parser_of d clock r.after
            ≡ feed d clock (joined h.buffer_queue.queue) (parser_of d clock h))
  run_drains h es stopped shut at a enough =
      let r = run d clock h es in
      let q = h.buffer_queue.queue in
      let k = 2 * length q + 1 in
      let over : k - parser_rounds es ≡ 0 = omega arith in
      let end =
        run-Drains h es k a
          (record { stopped = stopped; shut = shut; left = enough_steps h.phase q at }) in
      let done =
        no_step-Left r.after.phase r.after.buffer_queue.queue
          (subst (Left r.after.phase r.after.buffer_queue.queue) over end.left) in
      let follows = run-Follows d clock h es in
      let all_taken : r.taken ≡ q =
        sym (append-nil r.taken)
        ∙ ap (◌++◌ r.taken) (sym done.1)
        ∙ sym follows.in_order
        ∙ ap (◌++◌ q) (run_refuses d clock h es shut)
        ∙ append-nil q in
      (
        done.0,
        all_taken,
        follows.parses ∙ ap (λ bs. feed d clock (joined bs) (parser_of d clock h)) all_taken,
      )
