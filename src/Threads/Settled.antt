-- ===== src/Threads/Settled.antt =====
-- What the threads of feedhandler/src/threading/threaded_feedhandler.cpp hand to the callback, and the
-- counter of parse errors.
use scratch.Prelude.{
  ℕ, ◌+◌, ltb, length, List, [], ◌∷◌, Option, none, some, Bool, false, if◌then◌else◌, ◌≡◌, refl,
  arith, Bytes, Bool-cases, inl, inr,
}
use scratch.Doubles.{Doubles}
use scratch.Fsm.Stream.{parse-feed}
use scratch.Threads.MessageQueue.{MessageQueue, pop}
use scratch.Threads.FeedHandler.{
  Config, FeedHandler, Phase, absent, testing, popping, ended, terminated, is_terminated,
  new_feed_handler, start_running, start_parser, start_network, stop_running, stop_queue,
  join_network, join_parser, push_data, inject_data, reset_statistics, network_round, parser_test,
  parse_buffer, use_popped, parser_round, parser_step_in, Event, starts_running, starts_parser,
  starts_network, stops_running, stops_queue, joins_network, joins_parser, resets, network_steps,
  parser_steps, injects, pushes_data, live_step, step, run,
}

-- Every tick parsed went to the callback, if there is one, and no parse error was counted.
pub record IsSettled (h : FeedHandler) : Type 0 where
  pub all_called : h.called ≡ (if h.has_callback then h.parsed else [])
  pub no_errors : h.stats.parse_errors ≡ 0

module _ (d : Doubles) (clock : ℕ → ℕ) where
  parse_buffer-IsSettled :
      (buffer : Bytes) (h : FeedHandler) → IsSettled h → IsSettled (parse_buffer d clock buffer h)
  unfolding parse_buffer
  parse_buffer-IsSettled buffer h v =
      let same : ltb (length buffer) (length buffer) ≡ false = ground arith in
      rw (parse-feed d (λ n. clock (length h.parsed + n)) buffer (h.parser, []), same)
        (ground (arith, v.all_called, v.no_errors))

  use_popped-IsSettled :
      (h : FeedHandler) (r : Option (MessageQueue Bytes × Option Bytes))
      → IsSettled h
      → IsSettled (use_popped d clock h r).after
  use_popped-IsSettled h none v = v
  use_popped-IsSettled h (some (queue, none)) v = record {
    all_called = v.all_called;
    no_errors = v.no_errors;
  }
  use_popped-IsSettled h (some (queue, some buffer)) v =
      parse_buffer-IsSettled buffer (record h { buffer_queue = queue })
        (record { all_called = v.all_called; no_errors = v.no_errors })

  parser_step-IsSettled :
      (k : Phase) (h : FeedHandler) → IsSettled h → IsSettled (parser_step_in d clock k h).after
  unfolding parser_test parser_round
  parser_step-IsSettled absent h v = v
  parser_step-IsSettled testing h v = ground (arith, v.all_called, v.no_errors)
  parser_step-IsSettled popping h v = use_popped-IsSettled h (pop h.buffer_queue) v
  parser_step-IsSettled ended h v = v
  parser_step-IsSettled terminated h v = v

  live_step-IsSettled :
      (h : FeedHandler) (e : Event) → IsSettled h → IsSettled (live_step d clock h e).after
  unfolding live_step start_running start_parser start_network stop_running stop_queue join_network
      join_parser network_round inject_data push_data reset_statistics
  live_step-IsSettled h starts_running v = ground (arith, v.all_called, v.no_errors)
  live_step-IsSettled h starts_parser v = ground (arith, v.all_called, v.no_errors)
  live_step-IsSettled h starts_network v = ground (arith, v.all_called, v.no_errors)
  live_step-IsSettled h joins_network v = ground (arith, v.all_called, v.no_errors)
  live_step-IsSettled h joins_parser v = ground (arith, v.all_called, v.no_errors)
  live_step-IsSettled h stops_running v = ground (arith, v.all_called, v.no_errors)
  live_step-IsSettled h stops_queue v = ground (arith, v.all_called, v.no_errors)
  live_step-IsSettled h resets v = ground (arith, v.all_called, v.no_errors)
  live_step-IsSettled h network_steps v = ground (arith, v.all_called, v.no_errors)
  live_step-IsSettled h parser_steps v = parser_step-IsSettled h.phase h v
  live_step-IsSettled h (injects bytes) v = ground (arith, v.all_called, v.no_errors)
  live_step-IsSettled h (pushes_data bytes) v = ground (arith, v.all_called, v.no_errors)

  step-IsSettled : (h : FeedHandler) (e : Event) → IsSettled h → IsSettled (step d clock h e).after
  unfolding step
  step-IsSettled h e v = elim (Bool-cases (is_terminated h.phase)) [
    | inl over ↦ rw over v
    | inr live ↦ rw live (live_step-IsSettled h e v)
  ]

  run_from-IsSettled :
      (h : FeedHandler) (es : List Event) → IsSettled h → IsSettled (run d clock h es).after
  unfolding run
  run_from-IsSettled h [] v = v
  run_from-IsSettled h (e ∷ es) v =
      run_from-IsSettled (step d clock h e).after es (step-IsSettled h e v)

  -- Whatever the threads do, in whatever interleaving, up to a start that finds a thread not joined,
  -- which ends the process: the callback gets every tick that the parser thread parses, once and in
  -- their order, where a callback is given, and else none is called; and the counter of parse errors
  -- stays 0, whatever bytes arrive.
  pub run-IsSettled :
      (config : Config) (has_callback : Bool) (es : List Event)
      → IsSettled (run d clock (new_feed_handler config has_callback) es).after
  unfolding new_feed_handler
  run-IsSettled config has_callback es =
      run_from-IsSettled (new_feed_handler config has_callback) es
        (record { all_called = ground arith; no_errors = refl })
