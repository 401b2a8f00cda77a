-- ===== src/OrderBook/Book.antt =====
-- orderbook/src/orderbook/order_book.cpp: the operations of OrderBook.
-- The sums of an int64_t wrap as two's complement hardware does, where the source leaves an overflow
-- undefined; the unsigned order counters wrap as they do there.
use scratch.Prelude.{
  ℕ, ◌+◌, ◌-◌, ℤ, pos, List, [], ◌∷◌, length, none, some, Bool, true, false, ◌&&◌, ltb, leb_ℤ,
  if◌then◌else◌, ◌+ℤ◌, ◌-ℤ◌, negsuc, div_ℤ, inc32, Bytes, wrap64,
}
use scratch.OrderBook.Level.{PriceLevel, empty_level, price_level}
use scratch.OrderBook.SideMap.{Side, bid, ask, SideMap, find, put, erase}

pub record OrderBook : Type 0 where
  pub symbol : Bytes
  pub bids : SideMap
  pub asks : SideMap

unfoldable pub new_book : Bytes → OrderBook
new_book symbol = record { symbol = symbol; bids = []; asks = [] }

abbrev pub get_side_map : Side → OrderBook → SideMap
get_side_map bid b = b.bids
get_side_map ask b = b.asks

abbrev pub set_side_map : Side → SideMap → OrderBook → OrderBook
set_side_map bid m b = record b { bids = m }
set_side_map ask m b = record b { asks = m }

-- What a call makes of the level that it finds.
abbrev pub grown : ℤ → PriceLevel → PriceLevel
grown quantity l = record l {
  quantity = wrap64 (l.quantity +ℤ quantity);
  order_count = inc32 l.order_count;
}

abbrev pub changed : ℤ → PriceLevel → PriceLevel
changed delta l = record l { quantity = wrap64 (l.quantity +ℤ delta) }

abbrev pub reduced : ℤ → PriceLevel → PriceLevel
reduced quantity l = record l {
  quantity = wrap64 (l.quantity -ℤ quantity);
  order_count = if ltb 0 l.order_count then l.order_count - 1 else l.order_count;
}

-- One branch of add_order, on the map of its side.
unfoldable pub add_level : Side → ℤ → ℤ → SideMap → SideMap
add_level s price quantity m = elim (find price m) [
  | some l ↦ put s price (grown quantity l) m
  | none ↦ put s price (price_level price quantity 1) m
]

unfoldable pub add_order : Side → ℤ → ℤ → OrderBook → OrderBook
unfolding add_level
add_order s price quantity b =
    if leb_ℤ quantity (pos 0)
    then b
    else set_side_map s (add_level s price quantity (get_side_map s b)) b

-- The written-back level, or its removal once nothing is left.
abbrev pub put_or_erase : Side → ℤ → PriceLevel → SideMap → SideMap
put_or_erase s price l m = if leb_ℤ l.quantity (pos 0) then erase price m else put s price l m

unfoldable pub modify_level : Side → ℤ → ℤ → SideMap → SideMap
modify_level s price delta m = elim (find price m) [
  | some l ↦ put_or_erase s price (changed delta l) m
  | none ↦ m
]

unfoldable pub modify_order : Side → ℤ → ℤ → OrderBook → OrderBook
unfolding modify_level
modify_order s price delta b = set_side_map s (modify_level s price delta (get_side_map s b)) b

unfoldable pub delete_level : Side → ℤ → ℤ → SideMap → SideMap
delete_level s price quantity m = elim (find price m) [
  | some l ↦ put_or_erase s price (reduced quantity l) m
  | none ↦ m
]

unfoldable pub delete_order : Side → ℤ → ℤ → OrderBook → OrderBook
unfolding delete_level
delete_order s price quantity b =
    if leb_ℤ quantity (pos 0)
    then b
    else set_side_map s (delete_level s price quantity (get_side_map s b)) b

abbrev pub first_level : SideMap → PriceLevel
first_level [] = empty_level
first_level ((k, l) ∷ m) = l

unfoldable pub get_best_bid : OrderBook → PriceLevel
get_best_bid b = first_level b.bids

unfoldable pub get_best_ask : OrderBook → PriceLevel
get_best_ask b = first_level b.asks

-- -1 when a side is empty.
unfoldable pub spread_of : SideMap → SideMap → ℤ
spread_of [] asks = negsuc 0
spread_of (x ∷ bids) [] = negsuc 0
spread_of ((bid_price, _) ∷ _) ((ask_price, _) ∷ _) = wrap64 (ask_price -ℤ bid_price)

unfoldable pub get_spread : OrderBook → ℤ
unfolding spread_of
get_spread b = spread_of b.bids b.asks

-- 0 when a side is empty; the division rounds towards zero.
unfoldable pub mid_price_of : SideMap → SideMap → ℤ
mid_price_of [] asks = pos 0
mid_price_of (x ∷ bids) [] = pos 0
mid_price_of ((bid_price, _) ∷ _) ((ask_price, _) ∷ _) = div_ℤ (wrap64 (bid_price +ℤ ask_price)) 2

unfoldable pub get_mid_price : OrderBook → ℤ
unfolding mid_price_of
get_mid_price b = mid_price_of b.bids b.asks

-- The loop of get_depth: `count` levels are out already.
unfoldable pub depth_from : ℕ → ℕ → SideMap → List PriceLevel
depth_from count levels [] = []
depth_from count levels ((price, level) ∷ m) =
    let rest = depth_from (count + 1) levels m in if ltb count levels then level ∷ rest else []

unfoldable pub get_depth : Side → ℕ → OrderBook → List PriceLevel
unfolding depth_from
get_depth s levels b = depth_from 0 levels (get_side_map s b)

unfoldable pub clear : OrderBook → OrderBook
clear b = record b { bids = []; asks = [] }

unfoldable pub level_count : Side → OrderBook → ℕ
level_count s b = length (get_side_map s b)

abbrev is_nil : SideMap → Bool
is_nil [] = true
is_nil (x ∷ m) = false

unfoldable pub is_empty : OrderBook → Bool
is_empty b = is_nil b.bids && is_nil b.asks

-- The calls that change a book, and a history of them.
pub data Call : Type 0 where
  adds : Side → ℤ → ℤ → Call
  modifies : Side → ℤ → ℤ → Call
  deletes : Side → ℤ → ℤ → Call
  clears : Call

unfoldable pub step : OrderBook → Call → OrderBook
step b (adds s p q) = add_order s p q b
step b (modifies s p q) = modify_order s p q b
step b (deletes s p q) = delete_order s p q b
step b clears = clear b

unfoldable pub run : OrderBook → List Call → OrderBook
run b [] = b
run b (c ∷ cs) = run (step b c) cs
