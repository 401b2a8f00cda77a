-- ===== src/Threads/FeedHandler.antt =====
-- feedhandler/src/threading/threaded_feedhandler.cpp: the threads around the message queue, one event
-- at a time, in the order in which the events happen. A call that another thread may come in between
-- is cut into the events on both sides: inject_data into its test of running_ and the rest; start into
-- the store of running_ and the creation of each thread; stop into the store of running_, the shutdown
-- of the queue and each join; and a round of the parser thread into the test of the loop and the rest,
-- since only its own thread touches the parser and the ticks. The test in front of a store of running_
-- is one with it: where another store comes in between, the late one changes nothing. These events may
-- come in any order, also in orders that the callers do not make.
-- start puts a new std::thread in the place of the one before. Where that one has not been joined, as
-- when two starts are under way at once, or a start comes before a stop has made its joins, its
-- destructor calls std::terminate: such an event is the last one of a run. What a second parser thread
-- does between its creation and that call is not described, nor are two joins of one thread at once.
use scratch.Prelude.{
  ℕ, ◌+◌, ltb, length, List, [], ◌∷◌, ◌++◌, Option, none, some, Bool, true, false, not, ◌&&◌, ◌||◌,
  if◌then◌else◌, Bytes, inc64, add64,
}
use scratch.Doubles.{Doubles}
use scratch.Feed.Tick.{Tick}
use scratch.Fsm.State.{Parser, new_parser, set_garbage_recovery, parse}
use scratch.Threads.MessageQueue.{MessageQueue, new_queue, try_push, pop, empty, shutdown}

pub record Statistics : Type 0 where
  pub bytes_received : ℕ
  pub messages_parsed : ℕ
  pub parse_errors : ℕ
  pub queue_overflows : ℕ
  pub network_reads : ℕ
  pub parser_cycles : ℕ

abbrev pub zero_statistics : Statistics
zero_statistics = record {
  bytes_received = 0;
  messages_parsed = 0;
  parse_errors = 0;
  queue_overflows = 0;
  network_reads = 0;
  parser_cycles = 0;
}

-- buffer_size is not read anywhere.
pub record Config : Type 0 where
  pub queue_size : ℕ
  pub enable_garbage_recovery : Bool

-- Where the parser thread stands: it has not been started, is at the test of its loop, is in a round,
-- has ended, or has ended with the whole process.
pub data Phase : Type 0 where
  absent testing popping ended terminated : Phase

abbrev pub has_ended : Phase → Bool
has_ended ended = true
has_ended _ = false

abbrev pub is_terminated : Phase → Bool
is_terminated terminated = true
is_terminated _ = false

-- `parser_joinable` and `network_joinable` say that a thread has been created and not joined, and
-- `network_looping` that the network thread is in its loop. `parsed` are the ticks that the parser
-- thread has parsed, and `called` those that the callback got.
pub record FeedHandler : Type 0 where
  pub has_callback : Bool
  pub running : Bool
  pub buffer_queue : MessageQueue Bytes
  pub stats : Statistics
  pub parser : Parser
  pub phase : Phase
  pub parser_joinable : Bool
  pub network_looping : Bool
  pub network_joinable : Bool
  pub parsed : List Tick
  pub called : List Tick

unfoldable pub new_feed_handler : Config → Bool → FeedHandler
new_feed_handler config has_callback = record {
  has_callback = has_callback;
  running = false;
  buffer_queue = new_queue config.queue_size;
  stats = zero_statistics;
  parser = set_garbage_recovery config.enable_garbage_recovery new_parser;
  phase = absent;
  parser_joinable = false;
  network_looping = false;
  network_joinable = false;
  parsed = [];
  called = [];
}

-- What an event does: the handler behind it, and the buffers that entered and left the queue.
pub record Effect : Type 0 where
  pub after : FeedHandler
  pub accepted : List Bytes
  pub taken : List Bytes

abbrev pub only : FeedHandler → Effect
only h = record { after = h; accepted = []; taken = [] }

-- `if (running_.load()) return;` and the store.
unfoldable pub start_running : FeedHandler → FeedHandler
start_running h = if h.running then h else record h { running = true }

-- The assignment to parser_thread_, and the one to network_thread_.
unfoldable pub start_parser : FeedHandler → FeedHandler
start_parser h =
    if h.parser_joinable
    then record h { phase = terminated }
    else record h { phase = testing; parser_joinable = true }

unfoldable pub start_network : FeedHandler → FeedHandler
start_network h =
    if h.network_joinable
    then record h { phase = terminated }
    else record h { network_looping = true; network_joinable = true }

-- `if (!running_.load()) return;` and the store. The shutdown of the queue follows.
unfoldable pub stop_running : FeedHandler → FeedHandler
stop_running h = if not h.running then h else record h { running = false }

unfoldable pub stop_queue : FeedHandler → FeedHandler
stop_queue h = record h { buffer_queue = shutdown h.buffer_queue }

-- The joins, each of which waits until its thread has ended.
unfoldable pub join_network : FeedHandler → FeedHandler
join_network h =
    if h.network_joinable && not h.network_looping then record h { network_joinable = false } else h

unfoldable pub join_parser : FeedHandler → FeedHandler
join_parser h =
    if h.parser_joinable && has_ended h.phase then record h { parser_joinable = false } else h

abbrev pub count_overflow : Bool → Statistics → Statistics
count_overflow pushed s =
    if not pushed then record s { queue_overflows = inc64 s.queue_overflows } else s

abbrev pub count_received : ℕ → Statistics → Statistics
count_received n s = record s { bytes_received = add64 s.bytes_received n }

-- inject_data behind its test.
unfoldable pub push_data : Bytes → FeedHandler → Effect
unfolding try_push
push_data bytes h =
    let (queue, pushed) = try_push bytes h.buffer_queue in
    record {
      after = record h {
        buffer_queue = queue;
        stats = count_received (length bytes) (count_overflow pushed h.stats);
      };
      accepted = if pushed then bytes ∷ [] else [];
      taken = [];
    }

unfoldable pub inject_data : Bytes → FeedHandler → Effect
unfolding push_data
inject_data bytes h = if not h.running then only h else push_data bytes h

unfoldable pub reset_statistics : FeedHandler → FeedHandler
reset_statistics h = record h { stats = zero_statistics }

-- A round of the network thread, or the end of its loop.
unfoldable pub network_round : FeedHandler → FeedHandler
network_round h =
    let s = h.stats in
    if not h.network_looping
    then h
    else if h.running
    then record h { stats = record s { network_reads = inc64 s.network_reads } }
    else record h { network_looping = false }

-- `while (running_.load() || !buffer_queue_.empty())`.
unfoldable pub parser_test : FeedHandler → FeedHandler
unfolding empty
parser_test h =
    let s = h.stats in
    if h.running || not (empty h.buffer_queue)
    then record h { phase = popping; stats = record s { parser_cycles = inc64 s.parser_cycles } }
    else record h { phase = ended }

abbrev pub is_nil : List Tick → Bool
is_nil [] = true
is_nil (t ∷ ts) = false

-- One increment for each tick.
unfoldable pub count_ticks : List Tick → ℕ → ℕ
count_ticks [] n = n
count_ticks (t ∷ ts) n = count_ticks ts (inc64 n)

abbrev pub count_parsed : List Tick → ℕ → ℕ → Statistics → Statistics
count_parsed ticks consumed size s = record s {
  messages_parsed = count_ticks ticks s.messages_parsed;
  parse_errors = if ltb consumed size && is_nil ticks then inc64 s.parse_errors else s.parse_errors;
}

-- `clock n` is the reading of the clock when n ticks have been parsed.
module _ (d : Doubles) (clock : ℕ → ℕ) where
  unfoldable pub parse_buffer : Bytes → FeedHandler → FeedHandler
  parse_buffer buffer h =
      let ((parser, ticks), consumed) =
        parse d (λ n. clock (length h.parsed + n)) buffer (h.parser, []) in
      record h {
        parser = parser;
        parsed = h.parsed ++ ticks;
        called = if h.has_callback then h.called ++ ticks else h.called;
        stats = count_parsed ticks consumed (length buffer) h.stats;
        phase = testing;
      }

  -- What is done with the result of `pop`.
  abbrev pub use_popped : FeedHandler → Option (MessageQueue Bytes × Option Bytes) → Effect
  use_popped h none = only h
  use_popped h (some (queue, none)) = only (record h { buffer_queue = queue; phase = ended })
  use_popped h (some (queue, some buffer)) = record {
    after = parse_buffer buffer (record h { buffer_queue = queue });
    accepted = [];
    taken = buffer ∷ [];
  }

  unfoldable pub parser_round : FeedHandler → Effect
  unfolding parse_buffer pop
  parser_round h = use_popped h (pop h.buffer_queue)

  abbrev pub parser_step_in : Phase → FeedHandler → Effect
  parser_step_in absent h = only h
  parser_step_in testing h = only (parser_test h)
  parser_step_in popping h = parser_round h
  parser_step_in ended h = only h
  parser_step_in terminated h = only h

-- The events of all threads.
pub data Event : Type 0 where
  starts_running starts_parser starts_network : Event
  stops_running stops_queue joins_network joins_parser : Event
  resets network_steps parser_steps : Event
  injects : Bytes → Event
  pushes_data : Bytes → Event

module _ (d : Doubles) (clock : ℕ → ℕ) where
  unfoldable pub live_step : FeedHandler → Event → Effect
  unfolding start_running start_parser start_network stop_running stop_queue join_network
      join_parser reset_statistics network_round parser_test parser_round inject_data push_data
  live_step h starts_running = only (start_running h)
  live_step h starts_parser = only (start_parser h)
  live_step h starts_network = only (start_network h)
  live_step h joins_network = only (join_network h)
  live_step h joins_parser = only (join_parser h)
  live_step h stops_running = only (stop_running h)
  live_step h stops_queue = only (stop_queue h)
  live_step h resets = only (reset_statistics h)
  live_step h network_steps = only (network_round h)
  live_step h parser_steps = parser_step_in d clock h.phase h
  live_step h (injects bytes) = inject_data bytes h
  live_step h (pushes_data bytes) = push_data bytes h

  -- Nothing happens any more once the process has been terminated.
  unfoldable pub step : FeedHandler → Event → Effect
  unfolding live_step
  step h e = if is_terminated h.phase then only h else live_step h e

  unfoldable pub run : FeedHandler → List Event → Effect
  unfolding step
  run h [] = only h
  run h (e ∷ es) =
      let o = step h e in
      let r = run o.after es in
      record { after = r.after; accepted = o.accepted ++ r.accepted; taken = o.taken ++ r.taken }
