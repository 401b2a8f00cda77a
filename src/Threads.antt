-- ===== src/Threads.antt =====
-- The threads. MessageQueue holds feedhandler/include/threading/message_queue.hpp, and Order what any
-- interleaving of its calls keeps; RingQueue and RingSteps hold
-- feedhandler/src/threading/ultra_low_latency_queue.cpp, by calls and by accesses, and Ring and Spsc
-- what these do; FeedHandler holds feedhandler/src/threading/threaded_feedhandler.cpp, and Parsing,
-- Settled, Refusing and Stopping what its threads do; Examples runs all three.
pub mod MessageQueue
pub mod Order
pub mod RingQueue
pub mod Ring
pub mod RingSteps
pub mod Spsc
pub mod FeedHandler
pub mod Parsing
pub mod Settled
pub mod Refusing
pub mod Stopping
pub mod Examples
