-- ===== src/Pools/Examples.antt =====
-- Runs of the memory of feedhandler/src/common.
use scratch.Prelude.{Option, ℕ, ◌+◌, ◌≤◌, List, [], ◌∷◌, some, ◌≡◌, refl, All, arith, length}
use scratch.Pools.Arena.{Arena, align_size, attempt}
use scratch.Pools.Blocks.{Round, run_rounds, Apart, IsPlaced, run_rounds-Apart}
use scratch.Pools.TickPool.{new_pool, is_full, acquire}
use scratch.Pools.Slots.{acquire_all}
use scratch.Pools.NumaPool.{NumaPool, pool_size, initialize_numa_pool, take_node, deallocate}
use scratch.Pools.NumaPool
use scratch.Pools.FreeList.{Call, allocates, gives_back, run, occurrences, run_gives_once}

-- A page of memory.
abbrev page : Arena
page = record { memory_base = 65536; total_size = 4096; current_offset = 0; allocation_count = 0 }

-- Two threads: the second has read the offset before the first took its block, and tries again.
abbrev rounds : List Round
rounds =
    record { old_offset = 0; size = 10; exponent = 3 }
    ∷ record { old_offset = 0; size = 5; exponent = 6 }
    ∷ record { old_offset = 16; size = 5; exponent = 6 }
    ∷ []

run_rounds-Apart_example :
    let s = run_rounds rounds (page, []) in
    Apart (page.memory_base + s.0.current_offset) s.1
    × All (IsPlaced page.memory_base page.total_size) s.1
    × (s.0.current_offset ≤ page.total_size)
run_rounds-Apart_example =
    run_rounds-Apart rounds page (omega arith, (omega arith, (omega arith, tt))) (omega arith)
      (omega arith) refl

two_blocks : length (run_rounds rounds (page, [])).1 ≡ 2
unfolding run_rounds attempt align_size
two_blocks = refl

nothing_aligned : align_size page.current_offset 3 ≤ page.total_size
unfolding align_size
nothing_aligned = omega arith

abbrev calls : List Call
calls = allocates ∷ allocates ∷ gives_back 1 ∷ allocates ∷ []

run_gives_once_example :
    let s = run calls (initialize_numa_pool, []) in
    (occurrences 0 s.1 ≤ 1) × (s.0.allocated_count ≡ length s.1) × (length s.1 ≤ pool_size)
run_gives_once_example = run_gives_once calls 0

-- Two nodes are taken and the first is given back.
abbrev busy : NumaPool
busy = deallocate 0 (NumaPool.allocate (NumaPool.allocate initialize_numa_pool).0).0

-- A thread that read the head and the node behind it before all that now makes its exchange.
abbrev stale : NumaPool × Option ℕ
stale = take_node 0 (some 1) busy

-- The node 1, which is held, is given out again.
given_twice : (NumaPool.allocate stale.0).1 ≡ some 1
unfolding NumaPool.allocate deallocate take_node initialize_numa_pool
given_twice = refl

abbrev blank : ℕ
blank = 0

two_slots : (acquire_all 3 (new_pool blank 2)).1 ≡ 0 ∷ 1 ∷ []
unfolding acquire_all acquire new_pool is_full
two_slots = refl
