-- ===== src/Pools/FreeList.antt =====
-- That feedhandler/src/common/numa_memory_pool.cpp gives each node to one holder at a time, where its
-- calls come one after another.
use scratch.Prelude.{
  ℕ, zero, suc, ◌+◌, ◌-◌, ◌≤◌, ◌==◌, ltb, leb, length, get_elem?, List, [], ◌∷◌, Option, none, some,
  true, false, if◌then◌else◌, ◌≡◌, refl, ap, ◌∙◌, arith, inl, inr, Option-cases,
}
use scratch.Pools.NumaPool.{
  pool_size, NumaPool, initialize_numa_pool, take_node, allocate, linked, deallocate,
}

-- A client that gives back only what it holds: its calls, by the position of what it gives back.
pub data Call : Type 0 where
  allocates : Call
  gives_back : ℕ → Call

abbrev pub remove : ℕ → List ℕ → List ℕ
remove n [] = []
remove zero (x ∷ xs) = xs
remove (suc n) (x ∷ xs) = x ∷ remove n xs

abbrev pub hold : Option ℕ → List ℕ → List ℕ
hold none held = held
hold (some i) held = i ∷ held

abbrev give_back : Option ℕ → ℕ → NumaPool × List ℕ → NumaPool × List ℕ
give_back none n s = s
give_back (some i) n s = (deallocate i s.0, remove n s.1)

-- A call, on the pool and the nodes held.
abbrev pub step : Call → NumaPool × List ℕ → NumaPool × List ℕ
step allocates s = let o = allocate s.0 in (o.0, hold o.1 s.1)
step (gives_back n) s = give_back (get_elem? s.1 n) n s

unfoldable pub run : List Call → NumaPool × List ℕ → NumaPool × List ℕ
unfolding allocate deallocate
run [] s = s
run (c ∷ cs) s = run cs (step c s)

-- How often a node stands in a list.
abbrev pub occurrences : ℕ → List ℕ → ℕ
occurrences i [] = 0
occurrences i (x ∷ xs) = (if x == i then 1 else 0) + occurrences i xs

-- The nodes that one reaches from a head are those of a list, in its order.
abbrev Chain : (ℕ → Option ℕ) → Option ℕ → List ℕ → Type 0
Chain next head [] = head ≡ none
Chain next head (x ∷ xs) = (head ≡ some x) × Chain next (next x) xs

-- The pool and the nodes held: each node of the pool is either held or free, once.
record IsSound (s : NumaPool × List ℕ) : Type 0 where
  free : List ℕ
  chain : Chain s.0.next s.0.free_head free
  once : (i : ℕ) → occurrences i s.1 + occurrences i free ≡ (if ltb i pool_size then 1 else 0)
  counted : s.0.allocated_count ≡ length s.1
  complete : length s.1 + length free ≡ pool_size

Chain-linked :
    (next : ℕ → Option ℕ) (node : ℕ) (old head : Option ℕ) (xs : List ℕ)
    → occurrences node xs ≡ 0
    → Chain next head xs
    → Chain (linked node old next) head xs
Chain-linked next node old head [] a c = c
Chain-linked next node old head (x ∷ xs) a c =
    let other : (x == node) ≡ false = ground arith in
    (c.0, rw other (Chain-linked next node old (next x) xs (omega arith) c.1))

take_first :
    (p : NumaPool) (held xs : List ℕ)
    → Chain p.next p.free_head xs
    → ((i : ℕ) → occurrences i held + occurrences i xs ≡ (if ltb i pool_size then 1 else 0))
    → p.allocated_count ≡ length held
    → length held + length xs ≡ pool_size
    → IsSound (step allocates (p, held))
unfolding allocate take_node
take_first p held [] chain once counted complete =
    rw chain
      (record { free = []; chain = refl; once = once; counted = counted; complete = complete })
take_first p held (x ∷ xs) chain once counted complete =
    let same : (x == x) ≡ true = ground arith in
    rw (chain.0, same)
      (record {
        free = xs;
        chain = chain.1;
        once = λ i.
            (let e : (if x == i then 1 else 0) + occurrences i held + occurrences i xs
                  ≡ occurrences i held + ((if x == i then 1 else 0) + occurrences i xs) =
                omega arith in
              e)
            ∙ once i;
        counted = omega arith;
        complete = omega arith;
      })

removed :
    (i n h : ℕ) (held : List ℕ)
    → get_elem? held n ≡ some h
    → (occurrences i held ≡ (if h == i then 1 else 0) + occurrences i (remove n held))
      × (length held ≡ suc (length (remove n held)))
removed i n h [] e = ground arith
removed i zero h (x ∷ held) e = (ground arith, refl)
removed i (suc n) h (x ∷ held) e =
    let r = removed i n h held e in (omega (arith, r.0), omega (arith, r.1))

put_back :
    (p : NumaPool) (held xs : List ℕ) (n h : ℕ)
    → get_elem? held n ≡ some h
    → Chain p.next p.free_head xs
    → ((i : ℕ) → occurrences i held + occurrences i xs ≡ (if ltb i pool_size then 1 else 0))
    → p.allocated_count ≡ length held
    → length held + length xs ≡ pool_size
    → IsSound (deallocate h p, remove n held)
unfolding deallocate
put_back p held xs n h e chain once counted complete =
    let same : (h == h) ≡ true = ground arith in
    let here = removed h n h held e in
    let one : occurrences h held ≡ 1 + occurrences h (remove n held) = rw same at (here.0) in
    let inside : leb pool_size h ≡ false = ground (arith, once h, one) in
    let absent : occurrences h xs ≡ 0 = ground (arith, once h, one) in
    rw inside (record {
      free = h ∷ xs;
      chain = (refl, rw same (Chain-linked p.next h p.free_head p.free_head xs absent chain));
      once = λ i.
          (let e : occurrences i (remove n held) + ((if h == i then 1 else 0) + occurrences i xs)
                ≡ occurrences i held + occurrences i xs =
              omega (arith, (removed i n h held e).0) in
            e)
          ∙ once i;
      counted = omega (arith, here.1);
      complete = omega (arith, here.1);
    })

step-IsSound :
    (c : Call) (p : NumaPool) (held : List ℕ) → IsSound (p, held) → IsSound (step c (p, held))
step-IsSound allocates p held v = take_first p held v.free v.chain v.once v.counted v.complete
step-IsSound (gives_back n) p held v = elim (Option-cases (get_elem? held n)) [
  | inl nothing ↦ rw nothing v
  | inr (h, e) ↦ rw e (put_back p held v.free n h e v.chain v.once v.counted v.complete)
]

run_from-IsSound :
    (cs : List Call) (p : NumaPool) (held : List ℕ) → IsSound (p, held) → IsSound (run cs (p, held))
unfolding run
run_from-IsSound [] p held v = v
run_from-IsSound (c ∷ cs) p held v =
    run_from-IsSound cs (step c (p, held)).0 (step c (p, held)).1 (step-IsSound c p held v)

-- The nodes from k on, m of them.
unfoldable nodes_from : ℕ → ℕ → List ℕ
nodes_from k zero = []
nodes_from k (suc m) = k ∷ nodes_from (k + 1) m

nodes_from-Chain :
    (k m : ℕ)
    → k + suc m ≡ pool_size
    → Chain (initialize_numa_pool.next) (some k) (nodes_from k (suc m))
unfolding initialize_numa_pool nodes_from
nodes_from-Chain k zero e = (refl, ground arith)
nodes_from-Chain k (suc m) e =
    let more : ltb k (pool_size - 1) ≡ true = ground arith in
    (refl, rw more (nodes_from-Chain (k + 1) m (omega arith)))

occurrences-nodes_from :
    (i k m : ℕ)
    → k + m ≡ pool_size
    → occurrences i (nodes_from k m) ≡ (if ltb i pool_size then (if ltb i k then 0 else 1) else 0)
unfolding nodes_from
occurrences-nodes_from i k zero e = ground arith
occurrences-nodes_from i k (suc m) e = ground (arith, occurrences-nodes_from i (k + 1) m)

length-nodes_from : (k m : ℕ) → length (nodes_from k m) ≡ m
unfolding nodes_from
length-nodes_from k zero = refl
length-nodes_from k (suc m) = ap suc (length-nodes_from (k + 1) m)

all_once : (i : ℕ) → 0 + occurrences i (nodes_from 0 pool_size) ≡ (if ltb i pool_size then 1 else 0)
all_once i =
    let here = occurrences-nodes_from i 0 pool_size refl in
    let none_below : ltb i 0 ≡ false = ground arith in rw (here, none_below) (omega arith)

initialize_numa_pool-IsSound : IsSound (initialize_numa_pool, [])
unfolding initialize_numa_pool
initialize_numa_pool-IsSound = record {
  free = nodes_from 0 pool_size;
  chain = nodes_from-Chain 0 (pool_size - 1) refl;
  once = all_once;
  counted = refl;
  complete = omega (arith, length-nodes_from 0 pool_size);
}

-- Whatever a client calls that gives back only what it holds: it never holds a node twice, and the
-- counter is the number of the nodes that it holds, which are at most those of the pool.
pub run_gives_once :
    (cs : List Call) (i : ℕ)
    → let s = run cs (initialize_numa_pool, []) in
      (occurrences i s.1 ≤ 1) × (s.0.allocated_count ≡ length s.1) × (length s.1 ≤ pool_size)
run_gives_once cs i =
    let v = run_from-IsSound cs initialize_numa_pool [] initialize_numa_pool-IsSound in
    (ground (arith, v.once i), v.counted, omega (arith, v.complete))
