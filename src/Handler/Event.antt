-- ===== src/Handler/Event.antt =====
-- orderbook/include/orderbook/market_event.hpp: the events, one constructor for each event type
-- (the type tag of the source is the constructor), over the type of prices `Double`.
use scratch.Prelude.{ℕ, ℤ, List, Bytes, ◌||◌, ◌==◌, if◌then◌else◌}
use scratch.OrderBook.SideMap.{Side, bid, ask}

-- The fields of the base struct MarketEvent.
pub record Header : Type 0 where
  pub sequence_number : ℕ
  pub timestamp_ns : ℕ
  pub symbol : Bytes

pub record NewOrder (Double : Type 0) : Type 0 where
  pub order_id : ℕ
  pub side : Side
  pub price : Double
  pub quantity : ℤ

pub record ModifyOrder (Double : Type 0) : Type 0 where
  pub order_id : ℕ
  pub side : Side
  pub price : Double
  pub new_quantity : ℤ
  pub quantity_delta : ℤ

pub record DeleteOrder (Double : Type 0) : Type 0 where
  pub order_id : ℕ
  pub side : Side
  pub price : Double
  pub quantity : ℤ

pub record Trade (Double : Type 0) : Type 0 where
  pub trade_id : ℕ
  pub buy_order_id : ℕ
  pub sell_order_id : ℕ
  pub price : Double
  pub quantity : ℤ
  pub aggressor_side : Side

pub record SnapshotLevel (Double : Type 0) : Type 0 where
  pub price : Double
  pub quantity : ℤ
  pub order_count : ℤ

pub record Snapshot (Double : Type 0) : Type 0 where
  pub bids : List (SnapshotLevel Double)
  pub asks : List (SnapshotLevel Double)

pub data MarketEvent (Double : Type 0) : Type 0 where
  new_order : Header → NewOrder Double → MarketEvent Double
  modify_order : Header → ModifyOrder Double → MarketEvent Double
  delete_order : Header → DeleteOrder Double → MarketEvent Double
  trade : Header → Trade Double → MarketEvent Double
  snapshot : Header → Snapshot Double → MarketEvent Double

abbrev pub header : {Double : Type 0} → MarketEvent Double → Header
header (new_order h e) = h
header (modify_order h e) = h
header (delete_order h e) = h
header (trade h e) = h
header (snapshot h e) = h

abbrev pub opposite : Side → Side
opposite bid = ask
opposite ask = bid

unfoldable pub side_to_char : Side → ℕ
side_to_char bid = b'B'
side_to_char ask = b'A'

unfoldable pub char_to_side : ℕ → Side
char_to_side c = if c == b'B' || c == b'b' || c == b'1' then bid else ask
