-- ===== src/Simd/Delimiters.antt =====
-- find_delimiters_simd of feedhandler/src/parser/simd_fix_parser.cpp: the two vector versions, of
-- which the compiler takes one, against the loop over single bytes.
use scratch.Prelude.{
  ℕ, zero, suc, ◌+◌, ◌-◌, ◌≤◌, ◌<◌, ◌==◌, ltb, List, [], ◌∷◌, ◌++◌, map, Bool, true, false, not,
  ◌&&◌, if◌then◌else◌, length, take, drop, Bytes, ◌≡◌, refl, ap, ◌∙◌, arith, Bool-cases, inl, inr,
}
use scratch.Views.Extract.{drop-add}

-- The loop over single bytes from position i on, which ends both versions.
unfoldable pub remaining_bytes : ℕ → ℕ → Bytes → List ℕ
remaining_bytes delimiter i [] = []
remaining_bytes delimiter i (c ∷ cs) =
    let rest = remaining_bytes delimiter (i + 1) cs in if c == delimiter then i ∷ rest else rest

-- The loop over blocks of `width` bytes, and the bytes that remain.
unfoldable pub block_loop : (ℕ → Bytes → List ℕ) → ℕ → ℕ → ℕ → Bytes → ℕ → List ℕ
unfolding remaining_bytes
block_loop block width zero delimiter text i = []
block_loop block width (suc fuel) delimiter text i = elim (ltb (i + width - 1) (length text)) [
  | true ↦
      block i (take width (drop i text)) ++ block_loop block width fuel delimiter text (i + width)
  | false ↦ remaining_bytes delimiter i (drop i text)
]

-- AVX2. A mask is the list of its bits, the lowest first.
unfoldable pub movemask : ℕ → Bytes → List Bool
movemask delimiter block = map (λ c. c == delimiter) block

unfoldable pub is_zero : List Bool → Bool
is_zero [] = true
is_zero (b ∷ bs) = not b && is_zero bs

-- __builtin_ctz
unfoldable pub ctz : List Bool → ℕ
ctz [] = 0
ctz (true ∷ bs) = 0
ctz (false ∷ bs) = suc (ctz bs)

-- mask - 1
unfoldable pub minus_one : List Bool → List Bool
minus_one [] = []
minus_one (true ∷ bs) = false ∷ bs
minus_one (false ∷ bs) = true ∷ minus_one bs

unfoldable pub bit_and : List Bool → List Bool → List Bool
bit_and (x ∷ xs) (y ∷ ys) = (x && y) ∷ bit_and xs ys
bit_and _ _ = []

unfoldable pub mask_loop : ℕ → ℕ → List Bool → List ℕ
unfolding is_zero ctz minus_one bit_and
mask_loop zero i mask = []
mask_loop (suc fuel) i mask = elim (is_zero mask) [
  | true ↦ []
  | false ↦ (i + ctz mask) ∷ mask_loop fuel i (bit_and mask (minus_one mask))
]

unfoldable pub avx2_block : ℕ → ℕ → Bytes → List ℕ
unfolding mask_loop movemask
avx2_block delimiter i block =
    let mask = movemask delimiter block in mask_loop (length mask + 1) i mask

unfoldable pub find_delimiters_avx2 : Bytes → ℕ → List ℕ
unfolding block_loop avx2_block
find_delimiters_avx2 text delimiter =
    block_loop (avx2_block delimiter) 32 (length text + 1) delimiter text 0

-- NEON. A comparison sets each of its 16 bytes to 255 or 0.
unfoldable pub compare_lanes : ℕ → Bytes → Bytes
compare_lanes delimiter block = map (λ c. if c == delimiter then 255 else 0) block

unfoldable pub lane_loop : ℕ → Bytes → List ℕ
lane_loop i [] = []
lane_loop i (m ∷ ms) = let rest = lane_loop (i + 1) ms in if not (m == 0) then i ∷ rest else rest

unfoldable pub neon_block : ℕ → ℕ → Bytes → List ℕ
unfolding compare_lanes lane_loop
neon_block delimiter i block =
    let cmp_result = compare_lanes delimiter block in
    lane_loop i (take 8 cmp_result) ++ lane_loop (i + 8) (drop 8 cmp_result)

unfoldable pub find_delimiters_neon : Bytes → ℕ → List ℕ
unfolding block_loop neon_block
find_delimiters_neon text delimiter =
    block_loop (neon_block delimiter) 16 (length text + 1) delimiter text 0

-- The positions of the bits set.
set_bits : ℕ → List Bool → List ℕ
set_bits i [] = []
set_bits i (true ∷ bs) = i ∷ set_bits (i + 1) bs
set_bits i (false ∷ bs) = set_bits (i + 1) bs

bit_and_self : (bs : List Bool) → bit_and bs bs ≡ bs
unfolding bit_and
bit_and_self [] = refl
bit_and_self (true ∷ bs) = ap (◌∷◌ true) (bit_and_self bs)
bit_and_self (false ∷ bs) = ap (◌∷◌ false) (bit_and_self bs)

mask_loop-shift :
    (fuel i : ℕ) (bs : List Bool) → mask_loop fuel i (false ∷ bs) ≡ mask_loop fuel (i + 1) bs
unfolding mask_loop is_zero ctz minus_one bit_and
mask_loop-shift zero i bs = refl
mask_loop-shift (suc fuel) i bs = ground (arith, mask_loop-shift fuel i (bit_and bs (minus_one bs)))

count : List Bool → ℕ
count [] = 0
count (true ∷ bs) = suc (count bs)
count (false ∷ bs) = count bs

mask_loop-set_bits :
    (fuel i : ℕ) (bs : List Bool) → count bs < fuel → mask_loop fuel i bs ≡ set_bits i bs
unfolding mask_loop is_zero ctz minus_one bit_and set_bits count
mask_loop-set_bits zero i bs h = absurd (omega arith)
mask_loop-set_bits (suc fuel) i [] h = refl
mask_loop-set_bits (suc fuel) i (true ∷ bs) h = ground (
  arith,
  mask_loop-shift fuel i (bit_and bs bs),
  bit_and_self bs,
  mask_loop-set_bits fuel (i + 1) bs,
)
mask_loop-set_bits (suc fuel) i (false ∷ bs) h =
    mask_loop-shift (suc fuel) i bs ∙ mask_loop-set_bits (suc fuel) (i + 1) bs h

count_le : (bs : List Bool) → count bs < length bs + 1
unfolding count
count_le [] = omega arith
count_le (true ∷ bs) = omega (arith, count_le bs)
count_le (false ∷ bs) = omega (arith, count_le bs)

set_bits-movemask :
    (delimiter i : ℕ) (block : Bytes)
    → set_bits i (movemask delimiter block) ≡ remaining_bytes delimiter i block
unfolding set_bits movemask remaining_bytes
set_bits-movemask delimiter i [] = refl
set_bits-movemask delimiter i (c ∷ cs) = ground (arith, set_bits-movemask delimiter (i + 1) cs)

avx2_block_lem :
    (delimiter i : ℕ) (block : Bytes)
    → avx2_block delimiter i block ≡ remaining_bytes delimiter i block
unfolding avx2_block
avx2_block_lem delimiter i block =
    let mask = movemask delimiter block in
    mask_loop-set_bits (length mask + 1) i mask (count_le mask)
    ∙ set_bits-movemask delimiter i block

lane_loop-compare_lanes :
    (delimiter i : ℕ) (block : Bytes)
    → lane_loop i (compare_lanes delimiter block) ≡ remaining_bytes delimiter i block
unfolding lane_loop compare_lanes remaining_bytes
lane_loop-compare_lanes delimiter i [] = refl
lane_loop-compare_lanes delimiter i (c ∷ cs) =
    ground (arith, lane_loop-compare_lanes delimiter (i + 1) cs)

-- Two halves one after the other are the whole, for the lanes and for the bytes.
lane_loop-halves :
    (n i : ℕ) (ms : Bytes)
    → lane_loop i (take n ms) ++ lane_loop (i + n) (drop n ms) ≡ lane_loop i ms
unfolding lane_loop
lane_loop-halves zero i ms = ap (λ k. lane_loop k ms) (omega arith)
lane_loop-halves (suc n) i [] = refl
lane_loop-halves (suc n) i (m ∷ ms) =
    let e : i + suc n ≡ i + 1 + n = omega arith in
    rw e (ground (arith, lane_loop-halves n (i + 1) ms))

pub remaining_bytes-halves :
    (delimiter n i : ℕ) (cs : Bytes)
    → remaining_bytes delimiter i (take n cs) ++ remaining_bytes delimiter (i + n) (drop n cs)
      ≡ remaining_bytes delimiter i cs
unfolding remaining_bytes
remaining_bytes-halves delimiter zero i cs = ap (λ k. remaining_bytes delimiter k cs) (omega arith)
remaining_bytes-halves delimiter (suc n) i [] = refl
remaining_bytes-halves delimiter (suc n) i (c ∷ cs) =
    let e : i + suc n ≡ i + 1 + n = omega arith in
    rw e (ground (arith, remaining_bytes-halves delimiter n (i + 1) cs))

neon_block_lem :
    (delimiter i : ℕ) (block : Bytes)
    → neon_block delimiter i block ≡ remaining_bytes delimiter i block
unfolding neon_block
neon_block_lem delimiter i block =
    lane_loop-halves 8 i (compare_lanes delimiter block) ∙ lane_loop-compare_lanes delimiter i block

drop_all : (n : ℕ) (cs : Bytes) → length cs ≤ n → drop n cs ≡ []
drop_all zero [] h = refl
drop_all zero (c ∷ cs) h = absurd (omega arith)
drop_all (suc n) [] h = refl
drop_all (suc n) (c ∷ cs) h = drop_all n cs (omega arith)

block_loop_lem :
    (block : ℕ → Bytes → List ℕ) (width fuel delimiter : ℕ) (text : Bytes) (i : ℕ)
    → ((k : ℕ) (b : Bytes) → block k b ≡ remaining_bytes delimiter k b)
    → 0 < width
    → length text < i + fuel
    → block_loop block width fuel delimiter text i ≡ remaining_bytes delimiter i (drop i text)
unfolding block_loop remaining_bytes
block_loop_lem block width zero delimiter text i h w f = rw (drop_all i text (omega arith)) refl
block_loop_lem block width (suc fuel) delimiter text i h w f =
    elim (Bool-cases (ltb (i + width - 1) (length text))) [
      | inl e ↦
          rw (e, block_loop, h i (take width (drop i text)))
            (rw
              (
                block_loop_lem block width fuel delimiter text (i + width) h w (omega arith),
                drop-add i width text,
              )
              (remaining_bytes-halves delimiter width i (drop i text)))
      | inr e ↦ rw (e, block_loop) refl
    ]

-- Both vector versions find what the loop over single bytes finds: the positions of the delimiter in
-- order, each once, in a text of any length.
pub find_delimiters-remaining_bytes :
    (delimiter : ℕ) (text : Bytes)
    → (find_delimiters_avx2 text delimiter ≡ remaining_bytes delimiter 0 text)
      × (find_delimiters_neon text delimiter ≡ remaining_bytes delimiter 0 text)
unfolding find_delimiters_avx2 find_delimiters_neon
find_delimiters-remaining_bytes delimiter text = (
  block_loop_lem (avx2_block delimiter) 32 (length text + 1) delimiter text 0
      (avx2_block_lem delimiter) (omega arith) (omega arith),
  block_loop_lem (neon_block delimiter) 16 (length text + 1) delimiter text 0
      (neon_block_lem delimiter) (omega arith) (omega arith),
)
