-- ===== src/OrderBook/SideMap.antt =====
-- The std::map of one side of the book (orderbook/include/orderbook/order_book.hpp, bids_ and asks_)
-- as the list of its entries in iteration order, and the laws of its lookups.
use scratch.Prelude.{
  ℤ, List, [], ◌∷◌, Option, none, some, Bool, true, false, ◌≡◌, refl, arith, ltb_ℤ, eqb_ℤ,
  eq_of_parts, if◌then◌else◌,
}
use scratch.OrderBook.Level.{PriceLevel}

pub data Side : Type 0 where
  bid ask : Side

abbrev pub SideMap : Type 0
SideMap = List (ℤ × PriceLevel)

-- The comparator: std::greater for bids, std::less for asks.
abbrev pub before : Side → ℤ → ℤ → Bool
before bid a b = ltb_ℤ b a
before ask a b = ltb_ℤ a b

unfoldable pub find : ℤ → SideMap → Option PriceLevel
find k [] = none
find k ((j, v) ∷ m) = if eqb_ℤ j k then some v else find k m

-- `m[k] = v`.
unfoldable pub put : Side → ℤ → PriceLevel → SideMap → SideMap
put s k v [] = (k, v) ∷ []
put s k v ((j, w) ∷ m) =
    if eqb_ℤ j k
    then (k, v) ∷ m
    else if before s k j
    then (k, v) ∷ (j, w) ∷ m
    else (j, w) ∷ put s k v m

unfoldable pub erase : ℤ → SideMap → SideMap
erase k [] = []
erase k ((j, v) ∷ m) = if eqb_ℤ j k then m else (j, v) ∷ erase k m

pub find-put :
    (s : Side) (k j : ℤ) (v : PriceLevel) (m : SideMap)
    → find j (put s k v m) ≡ (if eqb_ℤ k j then some v else find j m)
unfolding find put
find-put s k j v [] = refl
find-put s k j v ((i, w) ∷ m) =
    ground (arith, find-put s k j v m, eq_of_parts i k, eq_of_parts i j, eq_of_parts k j)

-- The entries stand in the comparator's order, all behind `k`, and satisfy `P`.
abbrev pub Behind : Side → (ℤ → PriceLevel → Type 0) → ℤ → SideMap → Type 0
Behind s P k [] = Unit
Behind s P k ((j, v) ∷ m) = (before s k j ≡ true) × P j v × Behind s P j m

abbrev pub Ordered : Side → (ℤ → PriceLevel → Type 0) → SideMap → Type 0
Ordered s P [] = Unit
Ordered s P ((j, v) ∷ m) = P j v × Behind s P j m

module _ (P : ℤ → PriceLevel → Type 0) where
  Behind-trans :
      (s : Side) (i j : ℤ) (m : SideMap) → before s i j ≡ true → Behind s P j m → Behind s P i m
  Behind-trans s i j [] h b = tt
  Behind-trans bid i j ((k, v) ∷ m) h b = (ground arith, b.1, b.2)
  Behind-trans ask i j ((k, v) ∷ m) h b = (ground arith, b.1, b.2)

  -- A key that does not stand behind `k` is not in a map behind `k`.
  pub find-Behind :
      (s : Side) (k j : ℤ) (m : SideMap) → Behind s P k m → before s k j ≡ false → find j m ≡ none
  unfolding find
  find-Behind s k j [] b h = refl
  find-Behind bid k j ((i, v) ∷ m) b h = ground (arith, find-Behind bid i j m b.2)
  find-Behind ask k j ((i, v) ∷ m) b h = ground (arith, find-Behind ask i j m b.2)

  put-Behind :
      (s : Side) (i k : ℤ) (v : PriceLevel) (m : SideMap)
      → P k v
      → before s i k ≡ true
      → Behind s P i m
      → Behind s P i (put s k v m)
  unfolding put
  put-Behind s i k v [] p h b = (h, p, tt)
  put-Behind bid i k v ((j, w) ∷ m) p h b =
      ground (arith, eq_of_parts j k, put-Behind bid j k v m p)
  put-Behind ask i k v ((j, w) ∷ m) p h b =
      ground (arith, eq_of_parts j k, put-Behind ask j k v m p)

  pub put-Ordered :
      (s : Side) (k : ℤ) (v : PriceLevel) (m : SideMap)
      → P k v
      → Ordered s P m
      → Ordered s P (put s k v m)
  unfolding put
  put-Ordered s k v [] p o = (p, tt)
  put-Ordered bid k v ((j, w) ∷ m) p o = ground (arith, eq_of_parts j k, put-Behind bid j k v m p)
  put-Ordered ask k v ((j, w) ∷ m) p o = ground (arith, eq_of_parts j k, put-Behind ask j k v m p)

  erase-Behind : (s : Side) (i k : ℤ) (m : SideMap) → Behind s P i m → Behind s P i (erase k m)
  unfolding erase
  erase-Behind s i k [] b = tt
  erase-Behind s i k ((j, w) ∷ m) b =
      ground (arith, Behind-trans s i j m b.0 b.2, erase-Behind s j k m b.2)

  pub erase-Ordered : (s : Side) (k : ℤ) (m : SideMap) → Ordered s P m → Ordered s P (erase k m)
  unfolding erase
  erase-Ordered s k [] o = tt
  erase-Ordered s k ((j, w) ∷ m) o = ground (arith, erase-Behind s j k m o.1)

  -- In an ordered map a key has one entry, so erasing it leaves none and no other key is touched.
  find-erase-Behind :
      (s : Side) (i k j : ℤ) (m : SideMap)
      → Behind s P i m
      → find j (erase k m) ≡ (if eqb_ℤ k j then none else find j m)
  unfolding find erase
  find-erase-Behind s i k j [] b = ground arith
  find-erase-Behind bid i k j ((h, v) ∷ m) b = ground (
    arith,
    find-erase-Behind bid h k j m b.2,
    find-Behind bid h j m b.2,
    eq_of_parts h k,
    eq_of_parts h j,
    eq_of_parts k j,
  )
  find-erase-Behind ask i k j ((h, v) ∷ m) b = ground (
    arith,
    find-erase-Behind ask h k j m b.2,
    find-Behind ask h j m b.2,
    eq_of_parts h k,
    eq_of_parts h j,
    eq_of_parts k j,
  )

  pub find-erase :
      (s : Side) (k j : ℤ) (m : SideMap)
      → Ordered s P m
      → find j (erase k m) ≡ (if eqb_ℤ k j then none else find j m)
  unfolding find erase
  find-erase s k j [] o = ground arith
  find-erase bid k j ((h, v) ∷ m) o = ground (
    arith,
    find-erase-Behind bid h k j m o.1,
    find-Behind bid h j m o.1,
    eq_of_parts h k,
    eq_of_parts h j,
    eq_of_parts k j,
  )
  find-erase ask k j ((h, v) ∷ m) o = ground (
    arith,
    find-erase-Behind ask h k j m o.1,
    find-Behind ask h j m o.1,
    eq_of_parts h k,
    eq_of_parts h j,
    eq_of_parts k j,
  )

module _ (P Q : ℤ → PriceLevel → Type 0) (f : (k : ℤ) (l : PriceLevel) → P k l → Q k l) where
  Behind-map : (s : Side) (k : ℤ) (m : SideMap) → Behind s P k m → Behind s Q k m
  Behind-map s k [] b = tt
  Behind-map s k ((j, v) ∷ m) b = (b.0, f j v b.1, Behind-map s j m b.2)

  pub Ordered-map : (s : Side) (m : SideMap) → Ordered s P m → Ordered s Q m
  Ordered-map s [] o = tt
  Ordered-map s ((j, v) ∷ m) o = (f j v o.0, Behind-map s j m o.1)
