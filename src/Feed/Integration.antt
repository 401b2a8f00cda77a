-- ===== src/Feed/Integration.antt =====
-- orderbook/src/orderbook/feed_integration.cpp: FeedIntegration, which turns each tick into a new
-- order for the handler of its symbol. The std::unordered_map of handlers is an association list.
use scratch.Prelude.{
  ℕ, List, [], ◌∷◌, Option, none, some, Bool, true, false, ◌==◌, if◌then◌else◌, inc64, Bytes,
  bytes_eq, map,
}
use scratch.Doubles.{Doubles}
use scratch.Feed.Tick.{Tick, price_to_double}
use scratch.OrderBook.SideMap.{bid, ask}
use scratch.OrderBook.Book.{OrderBook}
use scratch.Handler.Event.{MarketEvent, new_order}
use scratch.Handler.State.{Handler, new_handler, process_event}

pub record Stats : Type 0 where
  pub ticks_processed : ℕ
  pub events_generated : ℕ
  pub errors : ℕ

abbrev pub Handlers : Type 0
Handlers = List (Bytes × Handler)

pub record Feed : Type 0 where
  pub handlers : Handlers
  pub stats : Stats

unfoldable pub new_feed : Feed
new_feed = record {
  handlers = [];
  stats = record { ticks_processed = 0; events_generated = 0; errors = 0 };
}

unfoldable pub find_handler : Bytes → Handlers → Option Handler
find_handler k [] = none
find_handler k ((j, h) ∷ m) = if bytes_eq j k then some h else find_handler k m

-- The write through the reference that get_handler returned, or the insertion of a new entry.
unfoldable pub put_handler : Bytes → Handler → Handlers → Handlers
put_handler k h [] = (k, h) ∷ []
put_handler k h ((j, g) ∷ m) = if bytes_eq j k then (j, h) ∷ m else (j, g) ∷ put_handler k h m

abbrev pub or_new : Bytes → Option Handler → Handler
or_new symbol none = new_handler symbol
or_new symbol (some h) = h

-- The handler of a symbol, created if there was none; the map then holds it.
unfoldable pub get_handler : Bytes → Handlers → Handler × Handlers
get_handler symbol m = elim (find_handler symbol m) [
  | none ↦ (new_handler symbol, put_handler symbol (new_handler symbol) m)
  | some h ↦ (h, m)
]

abbrev pub book_of : Option Handler → Option OrderBook
book_of none = none
book_of (some h) = some h.order_book

-- A null pointer for a symbol not seen.
unfoldable pub get_order_book : Bytes → Feed → Option OrderBook
get_order_book symbol f = book_of (find_handler symbol f.handlers)

unfoldable pub get_symbols : Feed → List Bytes
get_symbols f = map (λ e. e.0) f.handlers

unfoldable pub reset_stats : Feed → Feed
reset_stats f = record f {
  stats = record { ticks_processed = 0; events_generated = 0; errors = 0 };
}

module _ (d : Doubles) where
  open d use {Double}

  -- The timestamp serves as the sequence number and as the order id; the conversion never fails.
  unfoldable pub tick_to_event : Tick → Option (MarketEvent Double)
  tick_to_event t = some (
      new_order
        (record { sequence_number = t.timestamp; timestamp_ns = t.timestamp; symbol = t.symbol })
        (record {
          order_id = t.timestamp;
          side = if t.side == b'B' then bid else ask;
          price = price_to_double d t.price;
          quantity = t.qty;
        }))

  -- The statistics after one event, by its result.
  abbrev pub counted : Bool → Stats → Stats
  counted true s = record s { events_generated = inc64 s.events_generated }
  counted false s = record s { errors = inc64 s.errors }

  unfoldable pub process_tick : Tick → Feed → Feed × Bool
  unfolding tick_to_event
  process_tick t f =
      let stats : Stats = record (f.stats) { ticks_processed = inc64 (f.stats).ticks_processed } in
      let (h, m) = get_handler t.symbol f.handlers in
      elim (tick_to_event t) [
        | none ↦ (record { handlers = m; stats = counted false stats }, false)
        | some e ↦
            let (h', success) = process_event d h e in
            (
              record { handlers = put_handler t.symbol h' m; stats = counted success stats },
              success,
            )
      ]
