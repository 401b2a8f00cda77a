-- ===== src/Pools/Blocks.antt =====
-- What the allocations of feedhandler/src/common/zero_latency_allocator.cpp keep, by any threads.
use scratch.Prelude.{
  ℕ, ◌+◌, ◌-◌, ◌*◌, ◌/◌, ◌%◌, ◌^◌, ◌≤◌, ◌<◌, ◌==◌, ltb, true, false, if◌then◌else◌, List, [], ◌∷◌,
  ◌++◌, some, ◌≡◌, inl, inr, refl, ap, ◌∙◌, arith, All, Bool-cases,
}
use native.Mathlib.Nat.{div-add-mod, mul-add-mod_self_left}
use scratch.Pools.Arena.{
  Arena, align_size, Attempt, out_of_memory, retries, allocated, attempt, allocate,
}
use scratch.Pools.Rounding.{power_pos, align_size_lem, align_size_wraps}

-- One round of a call of allocate by any thread, with the offset that this thread has read before,
-- however long ago.
pub record Round : Type 0 where
  pub old_offset : ℕ
  pub size : ℕ
  pub exponent : ℕ

-- A block of memory that a thread was given.
pub record Block : Type 0 where
  pub start : ℕ
  pub size : ℕ
  pub exponent : ℕ

abbrev pub given : Round → Attempt → Arena → Arena × List Block
given r out_of_memory a = (a, [])
given r (retries old) a = (a, [])
given r (allocated p b) a = (b, record { start = p; size = r.size; exponent = r.exponent } ∷ [])

abbrev pub run_round : Round → Arena → Arena × List Block
run_round r a =
    if r.size == 0 then (a, []) else given r (attempt r.old_offset r.size r.exponent a) a

-- The arena behind some rounds, and the blocks given, the last one first.
unfoldable pub run_rounds : List Round → Arena × List Block → Arena × List Block
unfolding attempt
run_rounds [] s = s
run_rounds (r ∷ rs) (a, blocks) = let o = run_round r a in run_rounds rs (o.0, o.1 ++ blocks)

-- Each block ends where the one given next starts, or before; the last one by `limit`.
abbrev pub Apart : ℕ → List Block → Type 0
Apart limit [] = Unit
Apart limit (b ∷ bs) = (b.start + b.size ≤ limit) × Apart b.start bs

-- A block starts at an address that is a multiple of its alignment, and stays within the memory.
pub record IsPlaced (base total : ℕ) (b : Block) : Type 0 where
  pub above : base ≤ b.start
  pub within : b.start + b.size ≤ base + total
  pub aligned : b.start % 2 ^ b.exponent ≡ 0

-- Sizes and alignments for which no sum overflows.
abbrev pub IsModest : Round → Type 0
IsModest r = r.size + 2 ^ r.exponent ≤ 2 ^ 62

-- The base of the memory is itself a multiple of the alignment asked for, as the page that a mapping
-- starts at is for alignments up to its size.
abbrev pub SuitsBase : ℕ → Round → Type 0
SuitsBase base r = base % 2 ^ r.exponent ≡ 0

-- A sum of multiples is one.
sum_aligned : (m n a : ℕ) → m % a ≡ 0 → n % a ≡ 0 → (m + n) % a ≡ 0
sum_aligned m n a h k =
    let same : m + n ≡ a * (m / a) + n = omega (arith, div-add-mod m a) in
    ap (λ s. s % a) same ∙ mul-add-mod_self_left a (m / a) n ∙ k

record IsSound (base total : ℕ) (s : Arena × List Block) : Type 0 where
  same_base : s.0.memory_base ≡ base
  same_total : s.0.total_size ≡ total
  offset_fits : s.0.current_offset ≤ total
  apart : Apart (base + s.0.current_offset) s.1
  placed : All (IsPlaced base total) s.1

Apart-le : (m n : ℕ) (bs : List Block) → m ≤ n → Apart m bs → Apart n bs
Apart-le m n [] h v = tt
Apart-le m n (b ∷ bs) h v = (omega arith, v.1)

abbrev Outcome : Round → Arena → Attempt → Type 0
Outcome r a out_of_memory = Unit
Outcome r a (retries old) = Unit
Outcome r a (allocated p b) =
    (b.memory_base ≡ a.memory_base)
    × (b.total_size ≡ a.total_size)
    × (a.memory_base + a.current_offset ≤ p)
    × (p + r.size ≤ a.memory_base + b.current_offset)
    × (b.current_offset ≤ a.total_size)
    × (p % 2 ^ r.exponent ≡ 0)

-- A round that is given memory gets it behind the offset, and moves the offset behind it.
attempt-Outcome :
    (r : Round) (a : Arena)
    → IsModest r
    → SuitsBase a.memory_base r
    → a.total_size ≤ 2 ^ 62
    → a.current_offset ≤ a.total_size
    → Outcome r a (attempt r.old_offset r.size r.exponent a)
unfolding attempt
attempt-Outcome r a modest suits small fits =
    let new = (align_size r.old_offset r.exponent + align_size r.size r.exponent) % 2 ^ 64 in
    elim (Bool-cases (ltb a.total_size new)) [
      | inl full ↦ rw full tt
      | inr room ↦ elim (Bool-cases (a.current_offset == r.old_offset)) [
        | inl same ↦
            let e : a.current_offset ≡ r.old_offset = ground arith in
            let o = align_size_lem r.old_offset r.exponent (omega arith) in
            let n = align_size_lem r.size r.exponent (omega arith) in
            let sum : new ≡ align_size r.old_offset r.exponent + align_size r.size r.exponent =
              omega (arith, o.2, n.2) in
            rw (room, same, sum)
              (
                refl,
                refl,
                omega (arith, o.1),
                omega (arith, n.1),
                ground (arith, sum),
                sum_aligned a.memory_base _ (2 ^ r.exponent) suits o.0,
              )
        | inr other ↦ rw (room, other) tt
      ]
    ]

given-IsSound :
    (base total : ℕ) (r : Round) (o : Attempt) (a : Arena) (bs : List Block)
    → Outcome r a o
    → IsSound base total (a, bs)
    → IsSound base total ((given r o a).0, (given r o a).1 ++ bs)
given-IsSound base total r out_of_memory a bs o v = v
given-IsSound base total r (retries old) a bs o v = v
given-IsSound base total r (allocated p b) a bs o v = record {
  same_base = o.0 ∙ v.same_base;
  same_total = o.1 ∙ v.same_total;
  offset_fits = omega (arith, o.4, v.same_total);
  apart = (
    omega (arith, o.3, v.same_base),
    Apart-le (base + a.current_offset) p bs (omega (arith, o.2, v.same_base)) v.apart,
  );
  placed = (
    record {
      above = omega (arith, o.2, v.same_base);
      within = omega (arith, o.3, o.4, v.same_base, v.same_total);
      aligned = o.5;
    },
    v.placed,
  );
}

round-IsSound :
    (base total : ℕ) (r : Round) (a : Arena) (bs : List Block)
    → IsModest r
    → SuitsBase base r
    → total ≤ 2 ^ 62
    → IsSound base total (a, bs)
    → IsSound base total ((run_round r a).0, (run_round r a).1 ++ bs)
round-IsSound base total r a bs modest suits small v = elim (Bool-cases (r.size == 0)) [
  | inl nothing ↦ rw nothing v
  | inr something ↦ rw something (
      given-IsSound base total r (attempt r.old_offset r.size r.exponent a) a bs
        (attempt-Outcome r a modest (ap (λ m. m % 2 ^ r.exponent) v.same_base ∙ suits)
          (omega (arith, v.same_total)) (omega (arith, v.offset_fits, v.same_total)))
        v)
]

run_rounds-IsSound :
    (base total : ℕ) (rs : List Round) (a : Arena) (bs : List Block)
    → All IsModest rs
    → All (SuitsBase base) rs
    → total ≤ 2 ^ 62
    → IsSound base total (a, bs)
    → IsSound base total (run_rounds rs (a, bs))
unfolding run_rounds
run_rounds-IsSound base total [] a bs modest suits small v = v
run_rounds-IsSound base total (r ∷ rs) a bs modest suits small v =
    run_rounds-IsSound base total rs (run_round r a).0 ((run_round r a).1 ++ bs) modest.1 suits.1
      small (round-IsSound base total r a bs modest.0 suits.0 small v)

-- An arena of at most 2^62 bytes from which nothing is taken yet, and any rounds of calls of allocate,
-- of any threads in any order, with any offsets read before, where a size and its alignment together
-- are at most 2^62, and the base of the memory is a multiple of each alignment, as the start of a page
-- is for alignments up to that of the page: the blocks given lie behind one another without overlap,
-- each within the memory and at an address that is a multiple of its alignment, and the offset stays
-- within the arena.
pub run_rounds-Apart :
    (rs : List Round) (a : Arena)
    → All IsModest rs
    → All (SuitsBase a.memory_base) rs
    → a.total_size ≤ 2 ^ 62
    → a.current_offset ≡ 0
    → let s = run_rounds rs (a, []) in
      Apart (a.memory_base + s.0.current_offset) s.1
      × All (IsPlaced a.memory_base a.total_size) s.1
      × (s.0.current_offset ≤ a.total_size)
run_rounds-Apart rs a modest suits small unused =
    let v = run_rounds-IsSound a.memory_base a.total_size rs a [] modest suits small (record {
      same_base = refl;
      same_total = refl;
      offset_fits = omega (arith, unused);
      apart = tt;
      placed = tt;
    }) in
    (v.apart, v.placed, v.offset_fits)

-- A size within the last alignment below 2^64 wraps to 0 when it is rounded up: then allocate
-- succeeds, where the aligned offset is within the arena, and gives a block of no bytes.
pub allocate_wraps :
    (size exponent : ℕ) (a : Arena)
    → 2 ^ 64 - 2 ^ exponent < size
    → size < 2 ^ 64
    → 2 ^ exponent ≤ 2 ^ 63
    → a.current_offset + 2 ^ exponent ≤ 2 ^ 63
    → align_size a.current_offset exponent ≤ a.total_size
    → ((allocate size exponent a).1 ≡ some (a.memory_base + align_size a.current_offset exponent))
      × ((allocate size exponent a).0.current_offset ≡ align_size a.current_offset exponent)
unfolding allocate attempt
allocate_wraps size exponent a low high small fits room =
    let p = power_pos exponent in
    let offset = align_size a.current_offset exponent in
    let nothing : align_size size exponent ≡ 0 = align_size_wraps size exponent low high small in
    let o = align_size_lem a.current_offset exponent (omega arith) in
    let sum : (offset + align_size size exponent) % 2 ^ 64 ≡ offset = omega (arith, nothing, o.2) in
    let some_bytes : (size == 0) ≡ false = ground arith in
    let enough : ltb a.total_size offset ≡ false = ground arith in
    let same : (a.current_offset == a.current_offset) ≡ true = ground arith in
    rw (some_bytes, sum, enough, same) (refl, refl)
