-- ===== src/Pools/Arena.antt =====
-- feedhandler/src/common/zero_latency_allocator.cpp: ZeroLatencyAllocator behind its constructor. A
-- size_t has 64 bits. An alignment is a power of two, given by its exponent, since the mask
-- `~(alignment - 1)` rounds down to multiples of those only. The mapping of the memory is a system
-- call; its address is a field.
use scratch.Prelude.{
  ℕ, ◌+◌, ◌-◌, ◌%◌, ◌^◌, ◌==◌, ltb, leb, Bool, false, ◌&&◌, ◌||◌, if◌then◌else◌, inc64, Option,
  none, some,
}

pub record Arena : Type 0 where
  pub memory_base : ℕ
  pub total_size : ℕ
  pub current_offset : ℕ
  pub allocation_count : ℕ

-- `(size + alignment - 1) & ~(alignment - 1)`, for a size below 2^64.
unfoldable pub align_size : ℕ → ℕ → ℕ
align_size size exponent =
    let sum = (size + (2 ^ exponent - 1)) % 2 ^ 64 in sum - sum % 2 ^ exponent

-- What a round of the loop in allocate comes to.
pub data Attempt : Type 0 where
  out_of_memory : Attempt
  retries : ℕ → Attempt
  allocated : ℕ → Arena → Attempt

-- A round with the offset that the thread has read, by its load or by the exchange that failed. The
-- exchange succeeds where the offset is still that one; where it fails all the same, as the weak one
-- may, the next round starts from the same offset.
unfoldable pub attempt : ℕ → ℕ → ℕ → Arena → Attempt
unfolding align_size
attempt old_offset size exponent a =
    let aligned_offset = align_size old_offset exponent in
    let new_offset = (aligned_offset + align_size size exponent) % 2 ^ 64 in
    if ltb a.total_size new_offset
    then out_of_memory
    else if a.current_offset == old_offset
    then allocated (a.memory_base + aligned_offset)
        (record a { current_offset = new_offset; allocation_count = inc64 a.allocation_count })
    else retries a.current_offset

abbrev pub pointer_of : Attempt → Arena → Arena × Option ℕ
pointer_of out_of_memory a = (a, none)
pointer_of (retries old) a = (a, none)
pointer_of (allocated p b) a = (b, some p)

-- A call that no other thread comes in between: its first round decides.
unfoldable pub allocate : ℕ → ℕ → Arena → Arena × Option ℕ
unfolding attempt
allocate size exponent a =
    if size == 0 then (a, none) else pointer_of (attempt a.current_offset size exponent a) a

unfoldable pub reset : Arena → Arena
reset a = record a { current_offset = 0; allocation_count = 0 }

unfoldable pub remaining_size : Arena → ℕ
remaining_size a = (a.total_size + 2 ^ 64 - a.current_offset) % 2 ^ 64

unfoldable pub owns : ℕ → Arena → Bool
owns p a =
    if p == 0 || a.memory_base == 0
    then false
    else leb a.memory_base p && ltb p (a.memory_base + a.total_size)
