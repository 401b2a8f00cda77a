-- ===== src/Lib.antt =====
-- Market data in C++: a feed handler that parses FIX messages from a byte stream into ticks, and an
-- order book that applies market events.
--
-- Bytes arrive in StreamingFixHandler (feedhandler/src/parser/streaming_fix_handler.cpp), which puts
-- them into a ReceiveBuffer (feedhandler/src/net/receive_buffer.cpp) and hands what is readable to
-- FSMFixParser (feedhandler/src/parser/fsm_fix_parser.cpp). The parser reads numbers with
-- FastNumberParser (feedhandler/include/parser/fast_number_parser.hpp) and emits ticks
-- (feedhandler/include/common/tick.hpp). FeedIntegration (orderbook/src/orderbook/feed_integration.cpp)
-- turns a tick into a new order for the OrderBookHandler of its symbol
-- (orderbook/src/orderbook/event_handler.cpp), which checks the sequence and calls the OrderBook
-- (orderbook/src/orderbook/order_book.cpp).
--
-- Beside that path, ThreadedFeedHandler (feedhandler/src/threading/threaded_feedhandler.cpp) runs the
-- same parser in a thread that takes its buffers from a MessageQueue
-- (feedhandler/include/threading/message_queue.hpp); four other parsers make ticks of whole messages
-- in memory; and two queues, two pools and an allocator serve threads and parsers.
--
-- Files:
--   Prelude: numbers, machine words, lists and texts that all parts share.
--   Doubles: the floating point that the sources use, as an interface: carrier, literals, arithmetic,
--     comparison, conversions. fixed_point is an instance in decimal fixed point, for runs.
--   OrderBook/Level, SideMap, Book: PriceLevel, the two ordered maps, OrderBook. A std::map is a list
--     of entries in its order. Validity is the invariant, Keyed what a list in order determines,
--     Refinement the book as a level for each side and price, Algebra equations between calls, Quotes
--     the best prices, spread, mid price and depth.
--   Handler/Event, State: the events and OrderBookHandler. Effect, Sequence, Orders: its theorems.
--   Feed/Tick, Integration: Tick and FeedIntegration; Routing: theorems. The hash map of handlers is
--     an association list.
--   Number/Fast: FastNumberParser. Decimal: the number that a text means. Integers, Fixed: theorems.
--   Fsm/State, Recovery: FSMFixParser, process_char by state, and attempt_garbage_recovery. Stream,
--     Message, Resync, Flags: theorems.
--   Net/Memory, ReceiveBuffer, Streaming: the array of bytes, ReceiveBuffer, StreamingFixHandler.
--     Fifo, Delivery: theorems.
--   Threads/MessageQueue: MessageQueue (feedhandler/include/threading/message_queue.hpp), a step for
--     each call under the mutex. Order: interleavings of calls.
--   Threads/RingQueue: UltraLowLatencyQueue (feedhandler/src/threading/ultra_low_latency_queue.cpp),
--     one call at a time; RingSteps: its calls as steps of a producer and a consumer. Ring, Spsc:
--     theorems.
--   Threads/FeedHandler: ThreadedFeedHandler (feedhandler/src/threading/threaded_feedhandler.cpp), its
--     threads as events in any order. Parsing, Settled, Refusing, Stopping: theorems.
--   Views/Fields, Lines, Messages, Groups: StringViewFixParser, OptimizedFixParser and
--     RepeatingGroupParser (feedhandler/src/parser/stringview_fix_parser.cpp, optimized_fix_parser.cpp,
--     repeating_group_parser.cpp), which parse messages that are in memory as a whole. Split: a text
--     cut at a byte. Extract, Lines, Variants, Entries, Quotes: theorems. Printed, Kept, Agreement: the
--     comparison with FSMFixParser. Naive: NaiveFixParser (naive_fix_parser.cpp); Last: its theorem.
--   Pools/Arena: ZeroLatencyAllocator (feedhandler/src/common/zero_latency_allocator.cpp), a step for
--     each round of its exchange loop. TickPool: TickPool (feedhandler/src/common/tick_pool.cpp).
--     NumaPool: NUMAMemoryPool (feedhandler/src/common/numa_memory_pool.cpp). Rounding, Blocks,
--     Slots, FreeList: theorems.
--   Algorithms/ValidNumber, Atoi: isNumber (algorithms/leetcode_65_valid_number.cpp) and myAtoi
--     (algorithms/leetcode_8_atoi.cpp), exercises beside the pipeline. Numeral, Clamp: theorems.
--     StringTask: both versions of algorithms/codeforces_string_task.cpp, with a theorem.
--   Simd/Delimiters, Numbers, Parser: SIMDFixParser (feedhandler/src/parser/simd_fix_parser.cpp), both
--     vector versions of its search. Values, Fields, Contents, Kept, Stream, Jammed, Sides: theorems.
--   Network/Sockets, TcpClient, WebSocketClient, EventLoop: the clients and the select loop of
--     feedhandler/src/net over an interface to the operating system. Owned, Watched: theorems.
--   Each part has Examples, which runs it at concrete inputs.
--
-- Conventions: a method that changes its object is a function from the object, with its arguments
-- in front, to the changed object and its result. Signed sums of quantities, prices and digits
-- wrap as two's complement hardware does, where the source leaves an overflow undefined. uint32_t
-- and uint64_t counters wrap. Strings and buffers are lists of bytes. The clock of the parser is a
-- parameter. The loops of the sources go over a list of bytes, lines, levels, events or ticks and
-- are structural recursions, with three exceptions that run on fuel. The two field loops of
-- Views/Fields, which go on behind each field that they find, have the length of the text, which
-- is enough, since each round leaves a shorter one. The block loop of Simd/Delimiters has one
-- round more than the text has bytes, and its loop over a mask one more than the mask has bits,
-- which each round makes one less. Threads are events or accesses in one sequence, in any order. A
-- start that would replace a thread that is not joined ends the process, as C++ does there, and a
-- write outside an fd_set, which has 1024 bits, is recorded and changes nothing else.
--
-- Not modelled: diagnostics on the error stream, benchmarks, text output, the ownership of symbol
-- storage, the accelerators and the demonstrations, which either are input and output or stand beside
-- this pipeline.
pub mod Prelude
pub mod Doubles
pub mod OrderBook
pub mod Handler
pub mod Feed
pub mod Number
pub mod Fsm
pub mod Net
pub mod Threads
pub mod Algorithms
pub mod Views
pub mod Pools
pub mod Simd
pub mod Network
