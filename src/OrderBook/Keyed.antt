-- ===== src/OrderBook/Keyed.antt =====
-- What an ordered side map says of its entries (orderbook/src/orderbook/order_book.cpp: bids_ and
-- asks_ read through `begin()` and `find`), and that its lookups determine it.
use scratch.Prelude.{ℤ, [], ◌∷◌, some, none, false, ◌≡◌, refl, sym, arith, eq_of_parts, ◌∙◌}
use scratch.OrderBook.Level.{PriceLevel}
use scratch.OrderBook.SideMap.{Side, bid, ask, SideMap, before, find, Behind, Ordered, find-Behind}

module _ (P : ℤ → PriceLevel → Type 0) where
  find-Behind_P :
      (s : Side) (i k : ℤ) (m : SideMap) (l : PriceLevel)
      → Behind s P i m
      → find k m ≡ some l
      → P k l
  unfolding find
  find-Behind_P s i k [] l b e = cc
  find-Behind_P s i k ((j, v) ∷ m) l b e =
      ground (arith, eq_of_parts j k, find-Behind_P s j k m l b.2)

  -- Every stored level satisfies the predicate of the map.
  pub find-Ordered :
      (s : Side) (k : ℤ) (m : SideMap) (l : PriceLevel) → Ordered s P m → find k m ≡ some l → P k l
  unfolding find
  find-Ordered s k [] l o e = cc
  find-Ordered s k ((j, v) ∷ m) l o e = ground (arith, eq_of_parts j k, find-Behind_P s j k m l o.1)

  -- No stored price stands before the first one.
  pub first_lem :
      (s : Side) (j k : ℤ) (v : PriceLevel) (m : SideMap) (l : PriceLevel)
      → Ordered s P ((j, v) ∷ m)
      → find k ((j, v) ∷ m) ≡ some l
      → before s k j ≡ false
  unfolding find
  first_lem bid j k v m l o e = ground (arith, find-Behind P bid j k m o.1)
  first_lem ask j k v m l o e = ground (arith, find-Behind P ask j k m o.1)

find-head : (k : ℤ) (v : PriceLevel) (m : SideMap) → find k ((k, v) ∷ m) ≡ some v
unfolding find
find-head k v m = ground arith

antisym : (s : Side) (j k : ℤ) → before s j k ≡ false → before s k j ≡ false → j ≡ k
antisym bid j k p q = ground (arith, eq_of_parts j k)
antisym ask j k p q = ground (arith, eq_of_parts j k)

before_irrefl : (s : Side) (k : ℤ) → before s k k ≡ false
before_irrefl bid k = ground arith
before_irrefl ask k = ground arith

-- Without a first entry of the same key, the lookups of the rest are those of the whole.
find-tail :
    (j k q : ℤ) (v w : PriceLevel) (m n : SideMap)
    → j ≡ k
    → find k m ≡ none
    → find k n ≡ none
    → find q ((j, v) ∷ m) ≡ find q ((k, w) ∷ n)
    → find q m ≡ find q n
unfolding find
find-tail j k q v w m n same absent absent' e = ground (arith, eq_of_parts j q, eq_of_parts k q)

head_eq :
    (j k : ℤ) (v w : PriceLevel) (m n : SideMap)
    → j ≡ k
    → find k ((j, v) ∷ m) ≡ find k ((k, w) ∷ n)
    → v ≡ w
unfolding find
head_eq j k v w m n same e = ground arith

module _ (P : ℤ → PriceLevel → Type 0) where
  same_keys :
      (s : Side) (j k : ℤ) (v w : PriceLevel) (m n : SideMap)
      → Ordered s P ((j, v) ∷ m)
      → Ordered s P ((k, w) ∷ n)
      → ((q : ℤ) → find q ((j, v) ∷ m) ≡ find q ((k, w) ∷ n))
      → j ≡ k
  same_keys s j k v w m n b c e =
      antisym s j k (first_lem P s k j w n v c (sym (e j) ∙ find-head j v m))
        (first_lem P s j k v m w b (e k ∙ find-head k w n))

  -- Maps behind `i` and `h`, whose lookups agree, are one list.
  find-eq_Behind :
      (s : Side) (i h : ℤ) (m n : SideMap)
      → Behind s P i m
      → Behind s P h n
      → ((k : ℤ) → find k m ≡ find k n)
      → m ≡ n
  unfolding find
  find-eq_Behind s i h [] [] b c e = refl
  find-eq_Behind s i h [] ((k, v) ∷ n) b c e = cc (e k, find-head k v n)
  find-eq_Behind s i h ((k, v) ∷ m) [] b c e = cc (e k, find-head k v m)
  find-eq_Behind s i h ((j, v) ∷ m) ((k, w) ∷ n) b c e =
      let same = same_keys s j k v w m n (b.1, b.2) (c.1, c.2) e in
      let absent = find-Behind P s j k m b.2 (rw same (before_irrefl s k)) in
      let absent' = find-Behind P s k k n c.2 (before_irrefl s k) in
      let rest =
        find-eq_Behind s j k m n b.2 c.2 (λ q. find-tail j k q v w m n same absent absent' (e q)) in
      cc (same, head_eq j k v w m n same (e k), rest)

  -- An ordered map is determined by its lookups.
  pub find-eq :
      (s : Side) (m n : SideMap)
      → Ordered s P m
      → Ordered s P n
      → ((k : ℤ) → find k m ≡ find k n)
      → m ≡ n
  unfolding find
  find-eq s [] [] b c e = refl
  find-eq s [] ((k, v) ∷ n) b c e = cc (e k, find-head k v n)
  find-eq s ((k, v) ∷ m) [] b c e = cc (e k, find-head k v m)
  find-eq s ((j, v) ∷ m) ((k, w) ∷ n) b c e =
      let same = same_keys s j k v w m n b c e in
      let absent = find-Behind P s j k m b.1 (rw same (before_irrefl s k)) in
      let absent' = find-Behind P s k k n c.1 (before_irrefl s k) in
      let rest =
        find-eq_Behind s j k m n b.1 c.1 (λ q. find-tail j k q v w m n same absent absent' (e q)) in
      cc (same, head_eq j k v w m n same (e k), rest)
