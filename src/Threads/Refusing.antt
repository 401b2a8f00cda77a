-- ===== src/Threads/Refusing.antt =====
-- What the queue of feedhandler/src/threading/threaded_feedhandler.cpp accepts behind a shutdown.
use scratch.Prelude.{
  ℕ, List, [], ◌∷◌, some, true, Bool-cases, inl, inr, ◌||◌, not, ◌≡◌, refl, arith, Bytes,
}
use scratch.Doubles.{Doubles}
use scratch.Threads.MessageQueue.{is_nil, try_push, front_of, try_pop, pop, shutdown}
use scratch.Threads.FeedHandler.{
  FeedHandler, Phase, absent, testing, popping, ended, terminated, is_terminated, start_running,
  start_parser, start_network, stop_running, stop_queue, join_network, join_parser, push_data,
  inject_data, reset_statistics, network_round, parser_test, parse_buffer, use_popped, parser_round,
  parser_step_in, Event, starts_running, starts_parser, starts_network, stops_running, stops_queue,
  joins_network, joins_parser, resets, network_steps, parser_steps, injects, pushes_data, live_step,
  step, run,
}

module _ (d : Doubles) (clock : ℕ → ℕ) where
  front_of_refuses :
      (h : FeedHandler) (q : List Bytes)
      → h.buffer_queue.shut ≡ true
      → let o = use_popped d clock h (some (front_of h.buffer_queue q)) in
        (o.accepted ≡ []) × (o.after.buffer_queue.shut ≡ true)
  unfolding parse_buffer
  front_of_refuses h [] shut = (refl, shut)
  front_of_refuses h (b ∷ q) shut = (refl, shut)

  parser_step_refuses :
      (p : Phase) (h : FeedHandler)
      → h.buffer_queue.shut ≡ true
      → ((parser_step_in d clock p h).accepted ≡ [])
        × ((parser_step_in d clock p h).after.buffer_queue.shut ≡ true)
  unfolding parser_test parser_round pop try_pop
  parser_step_refuses absent h shut = (refl, shut)
  parser_step_refuses testing h shut = (refl, ground arith)
  parser_step_refuses popping h shut =
      elim (Bool-cases (not (not (is_nil h.buffer_queue.queue) || h.buffer_queue.shut))) [
        | inl waits ↦ rw waits (refl, shut)
        | inr ready ↦ rw ready (front_of_refuses h h.buffer_queue.queue shut)
      ]
  parser_step_refuses ended h shut = (refl, shut)
  parser_step_refuses terminated h shut = (refl, shut)

  live_step_refuses :
      (h : FeedHandler) (e : Event)
      → h.buffer_queue.shut ≡ true
      → ((live_step d clock h e).accepted ≡ [])
        × ((live_step d clock h e).after.buffer_queue.shut ≡ true)
  unfolding live_step start_running start_parser start_network stop_running stop_queue join_network
      join_parser network_round inject_data push_data reset_statistics shutdown try_push
  live_step_refuses h parser_steps shut = parser_step_refuses h.phase h shut
  live_step_refuses h starts_running shut = ground arith
  live_step_refuses h starts_parser shut = ground arith
  live_step_refuses h starts_network shut = ground arith
  live_step_refuses h joins_network shut = ground arith
  live_step_refuses h joins_parser shut = ground arith
  live_step_refuses h stops_running shut = ground arith
  live_step_refuses h stops_queue shut = ground arith
  live_step_refuses h resets shut = ground arith
  live_step_refuses h network_steps shut = ground arith
  live_step_refuses h (injects bytes) shut = ground arith
  live_step_refuses h (pushes_data bytes) shut = ground arith

  -- A queue that is shut down accepts nothing and stays shut down.
  step_refuses :
      (h : FeedHandler) (e : Event)
      → h.buffer_queue.shut ≡ true
      → ((step d clock h e).accepted ≡ []) × ((step d clock h e).after.buffer_queue.shut ≡ true)
  unfolding step
  step_refuses h e shut = elim (Bool-cases (is_terminated h.phase)) [
    | inl over ↦ rw over (refl, shut)
    | inr live ↦ rw live (live_step_refuses h e shut)
  ]

  -- Once the queue has been shut down, as stop does, it never accepts a buffer again, whatever the
  -- threads do, also behind another start.
  pub run_refuses :
      (h : FeedHandler) (es : List Event)
      → h.buffer_queue.shut ≡ true
      → (run d clock h es).accepted ≡ []
  unfolding run
  run_refuses h [] shut = refl
  run_refuses h (e ∷ es) shut =
      let first = step_refuses h e shut in
      rw (first.0, run_refuses (step d clock h e).after es first.1) refl
