-- ===== src/Threads/Examples.antt =====
-- Runs of the queues of feedhandler/include/threading/message_queue.hpp and
-- feedhandler/src/threading/ultra_low_latency_queue.cpp.
use scratch.Prelude.{
  ℕ, ◌+◌, ap, true, false, inl, List, [], ◌∷◌, ◌++◌, ◌≡◌, refl, some, length, arith,
}
use scratch.Threads.RingQueue.{RingQueue, new_ring, enqueue, dequeue}
use scratch.Threads.Ring.{InRange, enqueue-items}
use scratch.Threads.MessageQueue.{new_queue, push, try_push, pop, try_pop, shutdown}
use scratch.Threads.Order.{
  Call, pushes, try_pushes, pops, try_pops, shuts_down, step, run, run-order,
}
use scratch.Threads.RingSteps.{
  Shared, new_shared, between_enqueues, may_write, is_full, after_write, after_publish, Reach, here,
  next, finds_room, writes, publishes,
}
use scratch.Threads.Spsc.{InOrder, reachable-InOrder}
use scratch.Threads.FeedHandler.{
  Config, FeedHandler, Event, starts_running, starts_parser, starts_network, joins_network,
  joins_parser, stops_running, stops_queue, network_steps, parser_steps, injects, resets, testing,
  ended, terminated, new_feed_handler,
}
use scratch.Threads.FeedHandler
use scratch.Threads.Parsing.{parser_of, run-parse}
use scratch.Threads.Settled.{IsSettled, run-IsSettled}
use scratch.Threads.Refusing.{run_refuses}
use scratch.Threads.Stopping.{run_drains}
use scratch.Doubles.{fixed_point}
use scratch.Fsm.State.{new_parser, set_garbage_recovery, parse}
use scratch.Fsm.Stream.{joined, feed}
use scratch.Threads.MessageQueue

-- Two producers and a consumer at a queue for two items; the third push waits.
abbrev calls : List (Call ℕ)
calls =
    pushes 1
    ∷ try_pushes 2
    ∷ pushes 3
    ∷ pops
    ∷ pushes 4
    ∷ shuts_down
    ∷ pops
    ∷ pushes 5
    ∷ try_pops
    ∷ []

left_in_order : (run (new_queue 2) calls).left ≡ 1 ∷ 2 ∷ 4 ∷ []
unfolding run step push try_push pop try_pop shutdown new_queue
left_in_order = refl

run-order_example :
    (new_queue 2).queue ++ (run (new_queue 2) calls).entered
    ≡ (run (new_queue 2) calls).left ++ (run (new_queue 2) calls).after.queue
run-order_example = run-order (new_queue 2) calls

abbrev seven : ℕ
seven = 7

abbrev empty_ring : RingQueue ℕ
empty_ring = new_ring 0

new_ring-InRange : InRange empty_ring
unfolding new_ring
new_ring-InRange = record { head_fits = omega arith; tail_fits = omega arith }

-- A ring with one item.
abbrev ring : RingQueue ℕ
ring = (enqueue seven empty_ring).0

ring-InRange : InRange ring
ring-InRange = (enqueue-items seven empty_ring new_ring-InRange).2

seven_out : (dequeue ring).1 ≡ some seven
unfolding enqueue dequeue new_ring
seven_out = refl

-- A handler with a small queue: a buffer is parsed, another waits when the handler stops.
abbrev config : Config
config = record { queue_size = 4; enable_garbage_recovery = true }

abbrev before_stop : List Event
before_stop =
    injects []
    ∷ starts_running
    ∷ starts_parser
    ∷ starts_network
    ∷ injects (b'3' ∷ b'8' ∷ b'=' ∷ [])
    ∷ parser_steps
    ∷ parser_steps
    ∷ injects (b'5' ∷ b'|' ∷ [])
    ∷ network_steps
    ∷ stops_running
    ∷ stops_queue
    ∷ []

abbrev clock : ℕ → ℕ
clock n = 1000 + n

abbrev stopping : FeedHandler
stopping = (FeedHandler.run fixed_point clock (new_feed_handler config true) before_stop).after

run-parse_example :
    let r = FeedHandler.run fixed_point clock (new_feed_handler config true) before_stop in
    (r.accepted ≡ r.taken ++ r.after.buffer_queue.queue)
    × (parser_of fixed_point clock r.after
        ≡ (parse fixed_point clock
            (joined r.taken)
            (set_garbage_recovery config.enable_garbage_recovery new_parser, [])).0)
run-parse_example = run-parse fixed_point clock config true before_stop

run-IsSettled_example :
    IsSettled (FeedHandler.run fixed_point clock (new_feed_handler config true) before_stop).after
run-IsSettled_example = run-IsSettled fixed_point clock config true before_stop

is_stopped : stopping.running ≡ false
unfolding FeedHandler.run FeedHandler.step FeedHandler.live_step FeedHandler.start_running
    FeedHandler.start_parser FeedHandler.start_network FeedHandler.stop_running
    FeedHandler.stop_queue FeedHandler.network_round FeedHandler.parser_test
    FeedHandler.parser_round FeedHandler.inject_data FeedHandler.push_data FeedHandler.parse_buffer
    FeedHandler.new_feed_handler try_push pop try_pop MessageQueue.empty shutdown new_queue
is_stopped = refl

is_shut : stopping.buffer_queue.shut ≡ true
unfolding FeedHandler.run FeedHandler.step FeedHandler.live_step FeedHandler.start_running
    FeedHandler.start_parser FeedHandler.start_network FeedHandler.stop_running
    FeedHandler.stop_queue FeedHandler.network_round FeedHandler.parser_test
    FeedHandler.parser_round FeedHandler.inject_data FeedHandler.push_data FeedHandler.parse_buffer
    FeedHandler.new_feed_handler try_push pop try_pop MessageQueue.empty shutdown new_queue
is_shut = refl

in_its_loop : stopping.phase ≡ testing
unfolding FeedHandler.run FeedHandler.step FeedHandler.live_step FeedHandler.start_running
    FeedHandler.start_parser FeedHandler.start_network FeedHandler.stop_running
    FeedHandler.stop_queue FeedHandler.network_round FeedHandler.parser_test
    FeedHandler.parser_round FeedHandler.inject_data FeedHandler.push_data FeedHandler.parse_buffer
    FeedHandler.new_feed_handler try_push pop try_pop MessageQueue.empty shutdown new_queue
in_its_loop = refl

one_buffer : stopping.buffer_queue.queue ≡ (b'5' ∷ b'|' ∷ []) ∷ []
unfolding FeedHandler.run FeedHandler.step FeedHandler.live_step FeedHandler.start_running
    FeedHandler.start_parser FeedHandler.start_network FeedHandler.stop_running
    FeedHandler.stop_queue FeedHandler.network_round FeedHandler.parser_test
    FeedHandler.parser_round FeedHandler.inject_data FeedHandler.push_data FeedHandler.parse_buffer
    FeedHandler.new_feed_handler try_push pop try_pop MessageQueue.empty shutdown new_queue
one_buffer = refl

abbrev behind_stop : List Event
behind_stop = parser_steps ∷ joins_parser ∷ resets ∷ parser_steps ∷ injects [] ∷ parser_steps ∷ []

run_drains_example :
    let r = FeedHandler.run fixed_point clock stopping behind_stop in
    (r.after.phase ≡ ended)
    × (r.taken ≡ stopping.buffer_queue.queue)
    × (parser_of fixed_point clock r.after
        ≡ feed fixed_point clock
            (joined stopping.buffer_queue.queue)
            (parser_of fixed_point clock stopping))
run_drains_example =
    run_drains fixed_point clock stopping behind_stop is_stopped is_shut (inl in_its_loop)
      (refl, (refl, (refl, (refl, (refl, (refl, tt)))))) (omega (arith, ap length one_buffer))

-- The joins of the stop, another start, and a buffer.
abbrev restarted : List Event
restarted =
    network_steps
    ∷ parser_steps
    ∷ parser_steps
    ∷ parser_steps
    ∷ joins_network
    ∷ joins_parser
    ∷ starts_running
    ∷ starts_parser
    ∷ starts_network
    ∷ injects []
    ∷ []

run_refuses_example : (FeedHandler.run fixed_point clock stopping restarted).accepted ≡ []
run_refuses_example = run_refuses fixed_point clock stopping restarted is_shut

-- Two starts under way at once, both behind their test of running_: the second one finds the parser
-- thread of the first, which nobody has joined.
second_start :
    (FeedHandler.run fixed_point clock
      (new_feed_handler config true)
      (starts_running ∷ starts_parser ∷ starts_network ∷ starts_parser ∷ [])).after.phase
    ≡ terminated
unfolding FeedHandler.run FeedHandler.step FeedHandler.live_step FeedHandler.start_running
    FeedHandler.start_parser FeedHandler.start_network FeedHandler.new_feed_handler
second_start = refl

-- A stop between the store and the creation of the threads finds none to join: they end and are never
-- joined, so the next start ends the process.
abbrev overtaken : List Event
overtaken =
    starts_running ∷ stops_running ∷ stops_queue ∷ joins_network ∷ joins_parser ∷ starts_parser
    ∷ starts_network ∷ parser_steps ∷ network_steps ∷ starts_running ∷ starts_parser ∷ []

start_overtaken :
    (FeedHandler.run fixed_point clock (new_feed_handler config true) overtaken).after.phase
    ≡ terminated
unfolding FeedHandler.run FeedHandler.step FeedHandler.live_step FeedHandler.start_running
    FeedHandler.start_parser FeedHandler.start_network FeedHandler.stop_running
    FeedHandler.stop_queue FeedHandler.join_network FeedHandler.join_parser
    FeedHandler.network_round FeedHandler.parser_test FeedHandler.new_feed_handler
    MessageQueue.empty shutdown new_queue
start_overtaken = refl

-- An item on its way into the ring, and a consumer that saw the ring empty.
abbrev start_state : Shared ℕ
start_state = new_shared 0

abbrev tested : Shared ℕ
tested = record start_state { producer = may_write seven (start_state.ring.tail) }

room_at_start : is_full start_state.ring ≡ false
unfolding new_shared new_ring
room_at_start = refl

resting : start_state.producer ≡ between_enqueues
unfolding new_shared
resting = refl

abbrev one_sent : Shared ℕ
one_sent =
    after_publish seven (start_state.ring.tail) (after_write seven (start_state.ring.tail) tested)

one_sent-Reach : Reach start_state one_sent
one_sent-Reach =
    next
      (next (next here (finds_room start_state seven resting room_at_start))
        (writes tested seven (start_state.ring.tail) refl))
      (publishes (after_write seven (start_state.ring.tail) tested) seven (start_state.ring.tail)
        refl)

reachable-InOrder_example : InOrder one_sent
reachable-InOrder_example = reachable-InOrder 0 one_sent one_sent-Reach
