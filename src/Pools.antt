-- ===== src/Pools.antt =====
-- The memory of the feed handler. Arena holds feedhandler/src/common/zero_latency_allocator.cpp, and
-- Rounding and Blocks what its allocations keep; TickPool holds feedhandler/src/common/tick_pool.cpp, and Slots what
-- it hands out; NumaPool holds feedhandler/src/common/numa_memory_pool.cpp, and FreeList what its calls
-- keep; Examples runs them.
pub mod Arena
pub mod Rounding
pub mod Blocks
pub mod TickPool
pub mod Slots
pub mod NumaPool
pub mod FreeList
pub mod Examples
