-- ===== src/Pools/NumaPool.antt =====
-- feedhandler/src/common/numa_memory_pool.cpp: NUMAMemoryPool behind its constructor, at the size of
-- every instantiation. A node is its index in the pool; libnuma only places the memory.
use scratch.Prelude.{
  ℕ, ◌+◌, ◌-◌, ◌==◌, ltb, leb, Bool, false, if◌then◌else◌, inc64, sub64, Option, none, some,
}

abbrev pub pool_size : ℕ
pool_size = 1024

pub record NumaPool : Type 0 where
  pub next : ℕ → Option ℕ
  pub free_head : Option ℕ
  pub allocated_count : ℕ

-- Each node points to the one behind it, the last to none.
unfoldable pub initialize_numa_pool : NumaPool
initialize_numa_pool = record {
  next = λ i. if ltb i (pool_size - 1) then some (i + 1) else none;
  free_head = some 0;
  allocated_count = 0;
}

abbrev pub same_node : Option ℕ → ℕ → Bool
same_node none i = false
same_node (some h) i = h == i

-- A round of the loop of allocate, with the head of the free list and the node behind it that the
-- thread has read: the exchange, and the node that it takes off where it succeeds.
unfoldable pub take_node : ℕ → Option ℕ → NumaPool → NumaPool × Option ℕ
take_node head behind p =
    if same_node p.free_head head
    then (record p { free_head = behind; allocated_count = inc64 p.allocated_count }, some head)
    else (p, none)

abbrev pub allocate_from : Option ℕ → NumaPool → NumaPool × Option ℕ
allocate_from none p = (p, none)
allocate_from (some head) p = take_node head (p.next head) p

-- A call that no other thread comes in between: its first exchange succeeds.
unfoldable pub allocate : NumaPool → NumaPool × Option ℕ
unfolding take_node
allocate p = allocate_from p.free_head p

-- `node->next.store(head)`.
abbrev pub linked : ℕ → Option ℕ → (ℕ → Option ℕ) → ℕ → Option ℕ
linked node head next i = if i == node then head else next i

-- A pointer outside the pool is ignored.
unfoldable pub deallocate : ℕ → NumaPool → NumaPool
deallocate node p = if leb pool_size node then p else record p {
  next = linked node p.free_head p.next;
  free_head = some node;
  allocated_count = sub64 p.allocated_count 1;
}
