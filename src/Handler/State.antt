-- ===== src/Handler/State.antt =====
-- orderbook/src/orderbook/event_handler.cpp: OrderBookHandler, its state and its handlers.
use scratch.Prelude.{
  ℕ, ◌==◌, ℤ, pos, List, [], ◌∷◌, Bool, true, false, not, ◌||◌, ltb_ℤ, leb_ℤ, if◌then◌else◌, inc64,
  add64, sub64, Bytes, bytes_eq,
}
use scratch.Doubles.{Doubles}
use scratch.OrderBook.SideMap.{Side, bid, ask}
use scratch.OrderBook.Book.{OrderBook, new_book, add_order, clear}
use scratch.OrderBook.Book
use scratch.Handler.Event.{
  Header, NewOrder, ModifyOrder, DeleteOrder, Trade, SnapshotLevel, Snapshot, MarketEvent,
  new_order, modify_order, delete_order, trade, snapshot, header,
}

pub record EventStats : Type 0 where
  pub new_orders : ℕ
  pub modifications : ℕ
  pub deletions : ℕ
  pub trades : ℕ
  pub snapshots : ℕ
  pub errors : ℕ

pub record GapStats : Type 0 where
  pub gaps_detected : ℕ
  pub messages_dropped : ℕ

pub record Handler : Type 0 where
  pub symbol : Bytes
  pub order_book : OrderBook
  pub stats : EventStats
  pub last_sequence : ℕ
  pub gap_stats : GapStats

abbrev zero_stats : EventStats
zero_stats = record {
  new_orders = 0;
  modifications = 0;
  deletions = 0;
  trades = 0;
  snapshots = 0;
  errors = 0;
}

unfoldable pub new_handler : Bytes → Handler
new_handler symbol = record {
  symbol = symbol;
  order_book = new_book symbol;
  stats = zero_stats;
  last_sequence = 0;
  gap_stats = record { gaps_detected = 0; messages_dropped = 0 };
}

unfoldable pub reset_stats : Handler → Handler
reset_stats h = record h { stats = zero_stats }

-- `stats_.errors++; return false;`
abbrev pub refused : Handler → Handler × Bool
refused h = (record h { stats = record (h.stats) { errors = inc64 (h.stats).errors } }, false)

unfoldable pub validate_sequence : ℕ → Handler → Handler × Bool
validate_sequence seq h =
    if h.last_sequence == 0
    then (record h { last_sequence = seq }, true)
    else if not (seq == inc64 h.last_sequence)
    then (
      record h {
        gap_stats = record (h.gap_stats) {
          messages_dropped =
              add64 (h.gap_stats).messages_dropped (sub64 (sub64 seq h.last_sequence) 1);
        };
      },
      false,
    )
    else (record h { last_sequence = seq }, true)

-- A buy aggressor hits the ask side, a sell aggressor the bid side.
abbrev pub traded : Side → ℤ → ℤ → OrderBook → OrderBook
traded bid p q b = Book.delete_order ask p q b
traded ask p q b = Book.delete_order bid p q b

-- `gap_stats_.gaps_detected++; return false;`
abbrev pub gap_found : Handler → Handler × Bool
gap_found h = (
  record h {
    gap_stats = record (h.gap_stats) { gaps_detected = inc64 (h.gap_stats).gaps_detected };
  },
  false,
)

module _ (d : Doubles) where
  open d use {Double}

  -- The type-specific part of validate_event.
  abbrev pub valid_body : MarketEvent Double → Bool
  valid_body (new_order _ e) = not (d.le e.price d.zero_point || leb_ℤ e.quantity (pos 0))
  valid_body (modify_order _ e) = not (d.le e.price d.zero_point || ltb_ℤ e.new_quantity (pos 0))
  valid_body (delete_order _ e) = not (d.le e.price d.zero_point || leb_ℤ e.quantity (pos 0))
  valid_body (trade _ e) = not (d.le e.price d.zero_point || leb_ℤ e.quantity (pos 0))
  valid_body (snapshot _ e) = true

  unfoldable pub validate_event : Handler → MarketEvent Double → Bool
  validate_event h e =
      if not (bytes_eq (header e).symbol h.symbol)
      then false
      else if (header e).timestamp_ns == 0
      then false
      else valid_body e

  -- `static_cast<int64_t>(price * 100.0)`.
  abbrev pub price_fixed : Double → ℤ
  price_fixed p = d.to_int64 (d.mul p d.hundred)

  unfoldable pub on_new_order : Handler → Header → NewOrder Double → Handler × Bool
  on_new_order h hd e = if not (validate_event h (new_order hd e)) then refused h else (
    record h {
      order_book = add_order e.side (price_fixed e.price) e.quantity h.order_book;
      stats = record (h.stats) { new_orders = inc64 (h.stats).new_orders };
    },
    true,
  )

  unfoldable pub on_modify_order : Handler → Header → ModifyOrder Double → Handler × Bool
  on_modify_order h hd e = if not (validate_event h (modify_order hd e)) then refused h else (
    record h {
      order_book = Book.modify_order e.side (price_fixed e.price) e.new_quantity h.order_book;
      stats = record (h.stats) { modifications = inc64 (h.stats).modifications };
    },
    true,
  )

  unfoldable pub on_delete_order : Handler → Header → DeleteOrder Double → Handler × Bool
  on_delete_order h hd e = if not (validate_event h (delete_order hd e)) then refused h else (
    record h {
      order_book = Book.delete_order e.side (price_fixed e.price) e.quantity h.order_book;
      stats = record (h.stats) { deletions = inc64 (h.stats).deletions };
    },
    true,
  )

  unfoldable pub on_trade : Handler → Header → Trade Double → Handler × Bool
  on_trade h hd e = if not (validate_event h (trade hd e)) then refused h else (
    record h {
      order_book = traded e.aggressor_side (price_fixed e.price) e.quantity h.order_book;
      stats = record (h.stats) { trades = inc64 (h.stats).trades };
    },
    true,
  )

  -- One of the two rebuilding loops of on_snapshot.
  unfoldable pub rebuild : Side → List (SnapshotLevel Double) → OrderBook → OrderBook
  rebuild s [] b = b
  rebuild s (l ∷ ls) b = rebuild s ls (add_order s (price_fixed l.price) l.quantity b)

  unfoldable pub on_snapshot : Handler → Header → Snapshot Double → Handler × Bool
  on_snapshot h hd e = if not (validate_event h (snapshot hd e)) then refused h else (
    record h {
      order_book = rebuild ask e.asks (rebuild bid e.bids (clear h.order_book));
      last_sequence = hd.sequence_number;
      stats = record (h.stats) { snapshots = inc64 (h.stats).snapshots };
    },
    true,
  )

  unfoldable pub dispatch : Handler → MarketEvent Double → Handler × Bool
  dispatch h (new_order hd e) = on_new_order h hd e
  dispatch h (modify_order hd e) = on_modify_order h hd e
  dispatch h (delete_order hd e) = on_delete_order h hd e
  dispatch h (trade hd e) = on_trade h hd e
  dispatch h (snapshot hd e) = on_snapshot h hd e

  unfoldable pub process_event : Handler → MarketEvent Double → Handler × Bool
  process_event h e =
      let (h', in_order) = validate_sequence (header e).sequence_number h in
      if not in_order then gap_found h' else dispatch h' e
