-- ===== src/OrderBook/Quotes.antt =====
-- The queries of orderbook/src/orderbook/order_book.cpp: best levels, spread, mid price, depth.
use scratch.Prelude.{
  ℕ, zero, suc, ◌+◌, ℤ, pos, ◌≤ℤ◌, ◌+ℤ◌, ◌-ℤ◌, List, [], ◌∷◌, ◌≡◌, refl, some, arith, true, false,
  map, take, length, min, length-take, length-map, zero-add, ap, ◌∙◌, div_ℤ, int_laws, InInt64,
  wrap64, wrap64_fits,
}
use scratch.OrderBook.Level.{PriceLevel}
use scratch.OrderBook.SideMap.{Side, bid, ask, SideMap, find, before, Ordered, Behind}
use scratch.OrderBook.Keyed.{first_lem}
use scratch.OrderBook.Book.{
  OrderBook, get_side_map, first_level, get_best_bid, get_best_ask, get_spread, get_mid_price,
  spread_of, mid_price_of, depth_from, get_depth, level_count,
}
use scratch.OrderBook.Validity.{IsLevel, IsValid, side-Ordered}
use scratch.OrderBook.Refinement.{level_at}

first_level_lem :
    (s : Side) (k : ℤ) (m : SideMap) (l : PriceLevel)
    → Ordered s IsLevel m
    → find k m ≡ some l
    → (before s k (first_level m).price ≡ false)
      × (find (first_level m).price m ≡ some (first_level m))
unfolding find
first_level_lem s k [] l o e = cc
first_level_lem s k ((j, v) ∷ m) l o e =
    (rw o.0.0 (first_lem IsLevel s j k v m l o e), rw o.0.0 (ground arith))

-- As soon as a valid book holds a bid, the best bid is a level of the book, and no bid is higher.
pub get_best_bid_max :
    (b : OrderBook) (k : ℤ) (l : PriceLevel)
    → IsValid b
    → level_at bid k b ≡ some l
    → (k ≤ℤ (get_best_bid b).price)
      × (level_at bid (get_best_bid b).price b ≡ some (get_best_bid b))
unfolding get_best_bid
get_best_bid_max b k l v e =
    let top = first_level_lem bid k b.bids l v.bids_ordered e in (ground arith, top.1)

-- As soon as a valid book holds an ask, the best ask is a level of the book, and no ask is lower.
pub get_best_ask_min :
    (b : OrderBook) (k : ℤ) (l : PriceLevel)
    → IsValid b
    → level_at ask k b ≡ some l
    → ((get_best_ask b).price ≤ℤ k)
      × (level_at ask (get_best_ask b).price b ≡ some (get_best_ask b))
unfolding get_best_ask
get_best_ask_min b k l v e =
    let top = first_level_lem ask k b.asks l v.asks_ordered e in (ground arith, top.1)

quotes_of :
    (bids asks : SideMap) (j k : ℤ) (v w : PriceLevel)
    → Ordered bid IsLevel bids
    → Ordered ask IsLevel asks
    → find j bids ≡ some v
    → find k asks ≡ some w
    → (spread_of bids asks ≡ wrap64 ((first_level asks).price -ℤ (first_level bids).price))
      × (mid_price_of bids asks
          ≡ div_ℤ (wrap64 ((first_level bids).price +ℤ (first_level asks).price)) 2)
unfolding spread_of mid_price_of find
quotes_of [] asks j k v w o o' e e' = cc
quotes_of (x ∷ bids) [] j k v w o o' e e' = cc
quotes_of ((p, x) ∷ bids) ((q, y) ∷ asks) j k v w o o' e e' =
    (rw (o.0.0, o'.0.0), rw (o.0.0, o'.0.0))

half_between : (a b : ℤ) → a ≤ℤ b → (a ≤ℤ div_ℤ (a +ℤ b) 2) × (div_ℤ (a +ℤ b) 2 ≤ℤ b)
unfolding ◌+ℤ◌
half_between a b h = ground arith

-- On a valid book with a bid and an ask that is not crossed, and whose best prices have a sum and a
-- difference that an int64_t holds, the spread is the best ask less the best bid and not negative, and
-- the mid price lies between the two.
pub get_spread-get_mid_price :
    (b : OrderBook) (j k : ℤ) (v w : PriceLevel)
    → IsValid b
    → level_at bid j b ≡ some v
    → level_at ask k b ≡ some w
    → (get_best_bid b).price ≤ℤ (get_best_ask b).price
    → InInt64 ((get_best_ask b).price -ℤ (get_best_bid b).price)
    → InInt64 ((get_best_bid b).price +ℤ (get_best_ask b).price)
    → (get_spread b ≡ (get_best_ask b).price -ℤ (get_best_bid b).price)
      × (pos 0 ≤ℤ get_spread b)
      × ((get_best_bid b).price ≤ℤ get_mid_price b)
      × (get_mid_price b ≤ℤ (get_best_ask b).price)
unfolding get_spread get_mid_price get_best_bid get_best_ask
get_spread-get_mid_price b j k v w i e e' h difference sum =
    let q = quotes_of b.bids b.asks j k v w i.bids_ordered i.asks_ordered e e' in
    let mid = half_between (first_level b.bids).price (first_level b.asks).price h in
    let spread = q.0 ∙ wrap64_fits _ difference in
    let middle = q.1 ∙ ap (λ z. div_ℤ z 2) (wrap64_fits _ sum) in
    (spread, rw spread (omega int_laws), rw middle mid.0, rw middle mid.1)

depth_from-take :
    (m : SideMap) (count left : ℕ)
    → depth_from count (count + left) m ≡ take left (map (λ e. e.1) m)
unfolding depth_from
depth_from-take [] count zero = refl
depth_from-take [] count (suc left) = refl
depth_from-take ((k, l) ∷ m) count zero = ground arith
depth_from-take ((k, l) ∷ m) count (suc left) =
    let further : count + suc left ≡ count + 1 + left = omega arith in
    let rest = depth_from-take m (count + 1) left in rw further (ground arith)

-- get_depth returns the first levels of the side in the order of the map, as many as it is asked
-- for, or all of them where there are fewer.
pub get_depth-take :
    (s : Side) (levels : ℕ) (b : OrderBook)
    → (get_depth s levels b ≡ take levels (map (λ e. e.1) (get_side_map s b)))
      × (length (get_depth s levels b) ≡ min levels (level_count s b))
unfolding get_depth level_count
get_depth-take s levels b =
    let cut : depth_from 0 levels (get_side_map s b)
        ≡ take levels (map (λ e. e.1) (get_side_map s b)) =
      rw zero-add at (depth_from-take (get_side_map s b) 0 levels) in
    (
      cut,
      rw cut (length-take levels _ ∙ ap (min levels) (length-map (λ e. e.1) (get_side_map s b))),
    )

-- Prices along a list of levels follow one another in the order of the side.
abbrev pub Follows : Side → ℤ → List PriceLevel → Type 0
Follows s k [] = Unit
Follows s k (l ∷ ls) = (before s k l.price ≡ true) × Follows s l.price ls

abbrev pub InOrder : Side → List PriceLevel → Type 0
InOrder s [] = Unit
InOrder s (l ∷ ls) = Follows s l.price ls

take-Follows :
    (s : Side) (k : ℤ) (n : ℕ) (m : SideMap)
    → Behind s IsLevel k m
    → Follows s k (take n (map (λ e. e.1) m))
take-Follows s k zero m b = tt
take-Follows s k (suc n) [] b = tt
take-Follows s k (suc n) ((j, l) ∷ m) b = (rw b.1.0 b.0, rw b.1.0 (take-Follows s j n m b.2))

take-InOrder :
    (s : Side) (n : ℕ) (m : SideMap) → Ordered s IsLevel m → InOrder s (take n (map (λ e. e.1) m))
take-InOrder s zero m o = tt
take-InOrder s (suc n) [] o = tt
take-InOrder s (suc n) ((j, l) ∷ m) o = rw o.0.0 (take-Follows s j n m o.1)

-- On a valid book the prices of the depth strictly fall on the bid side and strictly rise on the ask
-- side.
pub get_depth-InOrder :
    (s : Side) (levels : ℕ) (b : OrderBook) → IsValid b → InOrder s (get_depth s levels b)
get_depth-InOrder s levels b v =
    rw ((get_depth-take s levels b).0)
      (take-InOrder s levels (get_side_map s b) (side-Ordered IsLevel s v))

-- On a valid book with a bid at j and an ask at k that is not crossed, where an int64_t holds the sum
-- and the difference of the two best prices: the best bid and the best ask are levels of the book, j is
-- not above the one and k not below the other; the spread is the difference of their prices and not
-- negative, and the mid price lies between them. The depth of either side is its
-- first levels, as many as asked for or as there are, and their prices strictly fall on the bid side
-- and strictly rise on the ask side.
pub best_quotes :
    (b : OrderBook) (j k : ℤ) (v w : PriceLevel) (s : Side) (levels : ℕ)
    → IsValid b
    → level_at bid j b ≡ some v
    → level_at ask k b ≡ some w
    → (get_best_bid b).price ≤ℤ (get_best_ask b).price
    → InInt64 ((get_best_ask b).price -ℤ (get_best_bid b).price)
    → InInt64 ((get_best_bid b).price +ℤ (get_best_ask b).price)
    → ((j ≤ℤ (get_best_bid b).price)
        × (level_at bid (get_best_bid b).price b ≡ some (get_best_bid b)))
      × (((get_best_ask b).price ≤ℤ k)
          × (level_at ask (get_best_ask b).price b ≡ some (get_best_ask b)))
      × ((get_spread b ≡ (get_best_ask b).price -ℤ (get_best_bid b).price)
          × (pos 0 ≤ℤ get_spread b)
          × ((get_best_bid b).price ≤ℤ get_mid_price b)
          × (get_mid_price b ≤ℤ (get_best_ask b).price))
      × ((get_depth s levels b ≡ take levels (map (λ e. e.1) (get_side_map s b)))
          × InOrder s (get_depth s levels b))
best_quotes b j k v w s levels i e e' h difference sum = (
  get_best_bid_max b j v i e,
  get_best_ask_min b k w i e',
  get_spread-get_mid_price b j k v w i e e' h difference sum,
  ((get_depth-take s levels b).0, get_depth-InOrder s levels b i),
)
