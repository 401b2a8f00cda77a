-- ===== src/Feed/Routing.antt =====
-- Where a tick goes in orderbook/src/orderbook/feed_integration.cpp, and what is counted.
use scratch.Prelude.{
  List, [], ◌∷◌, Option, some, Bool, true, false, ◌==◌, if◌then◌else◌, inc64, Bytes, bytes_eq,
  bytes_eq_iff, ◌≡◌, ◌≢◌, refl, ap, ◌∙◌, arith, inl, inr, Option-cases, add64,
}
use scratch.Doubles.{Doubles}
use scratch.Feed.Tick.{Tick, price_to_double}
use scratch.OrderBook.SideMap.{bid, ask}
use scratch.Handler.Event.{MarketEvent, new_order}
use scratch.Handler.State.{Handler, new_handler, process_event}
use scratch.Handler.Sequence.{not_in_order, refused_book, refused_result}
use scratch.Feed.Integration.{
  Handlers, Feed, Stats, new_feed, find_handler, put_handler, or_new, get_handler, book_of,
  get_order_book, counted, process_tick,
}

pub find_handler-put_handler :
    (k j : Bytes) (h : Handler) (m : Handlers)
    → find_handler j (put_handler k h m) ≡ (if bytes_eq k j then some h else find_handler j m)
unfolding find_handler put_handler
find_handler-put_handler k j h [] = refl
find_handler-put_handler k j h ((i, g) ∷ m) =
    ground (
      arith,
      bytes_eq_iff i k,
      bytes_eq_iff i j,
      bytes_eq_iff k j,
      find_handler-put_handler k j h m,
    )

-- get_handler returns the handler that was there, or a new one, and the map then holds it.
get_handler_lem :
    (k j : Bytes) (m : Handlers)
    → ((get_handler k m).0 ≡ or_new k (find_handler k m))
      × (find_handler j (get_handler k m).1
          ≡ (if bytes_eq k j then some (or_new k (find_handler k m)) else find_handler j m))
unfolding get_handler
get_handler_lem k j m = elim (Option-cases (find_handler k m)) [
  | inl e ↦ rw (e, get_handler) (refl, find_handler-put_handler k j (new_handler k) m)
  | inr (h, e) ↦ rw (e, get_handler) (refl, ground (arith, bytes_eq_iff k j))
]

overwritten :
    (b : Bool) (h h' g : Handler) (o old : Option Handler)
    → h ≡ h'
    → o ≡ (if b then some g else old)
    → (if b then some h else o) ≡ (if b then some h' else old)
overwritten true h h' g o old e e' = ap some e
overwritten false h h' g o old e e' = e'

same_book :
    (b : Bool) (h h' : Handler) (o : Option Handler)
    → (b ≡ true → o ≡ some h)
    → h'.order_book ≡ h.order_book
    → book_of (if b then some h' else o) ≡ book_of o
same_book true h h' o p e = rw (p refl) (ap some e)
same_book false h h' o p e = refl

module _ (d : Doubles) where
  open d use {Double}

  abbrev pub event_of : Tick → MarketEvent Double
  event_of t =
      new_order
        (record { sequence_number = t.timestamp; timestamp_ns = t.timestamp; symbol = t.symbol })
        (record {
          order_id = t.timestamp;
          side = if t.side == b'B' then bid else ask;
          price = price_to_double d t.price;
          quantity = t.qty;
        })

  -- The handler of the tick's symbol, which is a new one for a symbol not seen yet, processes the
  -- tick as a new order, and its answer is the result; the handlers of all other symbols stay.
  pub process_tick_routes :
      (t : Tick) (f : Feed) (k : Bytes)
      → let answer =
          process_event d (or_new t.symbol (find_handler t.symbol f.handlers)) (event_of t) in
        ((process_tick d t f).1 ≡ answer.1)
        × (find_handler k (process_tick d t f).0.handlers
            ≡ (if bytes_eq t.symbol k then some answer.0 else find_handler k f.handlers))
  unfolding process_tick
  process_tick_routes t f k =
      let got = get_handler_lem t.symbol k f.handlers in
      (
        ap (λ h. (process_event d h (event_of t)).1) got.0,
        rw (find_handler-put_handler t.symbol k _ (get_handler t.symbol f.handlers).1) (
            overwritten (bytes_eq t.symbol k) _ _ _ _ _
              (ap (λ h. (process_event d h (event_of t)).0) got.0) got.1),
      )

  pub process_tick-stats :
      (t : Tick) (f : Feed)
      → (process_tick d t f).0.stats
        ≡ counted d
            (process_tick d t f).1
            (record (f.stats) { ticks_processed = inc64 (f.stats).ticks_processed })
  unfolding process_tick
  process_tick-stats t f = refl

  unfoldable pub process_ticks : List Tick → Feed → Feed
  process_ticks [] f = f
  process_ticks (t ∷ ts) f = process_ticks ts (process_tick d t f).0

  abbrev IsTallied : Feed → Type 0
  IsTallied f = (f.stats).ticks_processed ≡ add64 (f.stats).events_generated (f.stats).errors

  counted-tally :
      (ok : Bool) (s : Stats)
      → s.ticks_processed ≡ add64 s.events_generated s.errors
      → (counted d ok (record s { ticks_processed = inc64 s.ticks_processed })).ticks_processed
        ≡ add64
            (counted d ok (record s { ticks_processed = inc64 s.ticks_processed })).events_generated
            (counted d ok (record s { ticks_processed = inc64 s.ticks_processed })).errors
  counted-tally true s h = omega arith
  counted-tally false s h = omega arith

  process_ticks_from : (ts : List Tick) (f : Feed) → IsTallied f → IsTallied (process_ticks ts f)
  unfolding process_ticks
  process_ticks_from [] f h = h
  process_ticks_from (t ∷ ts) f h =
      process_ticks_from ts (process_tick d t f).0
        (rw (process_tick-stats t f) (counted-tally (process_tick d t f).1 f.stats h))

  -- From a new feed every tick is counted once as an event or as an error, modulo 2^64, whatever
  -- the ticks were.
  pub process_ticks-tally :
      (ts : List Tick)
      → let s = (process_ticks ts new_feed).stats in
        s.ticks_processed ≡ add64 s.events_generated s.errors
  unfolding new_feed
  process_ticks-tally ts = process_ticks_from ts new_feed refl

  -- A tick of a symbol whose handler has a last sequence number other than 0 is refused unless its
  -- timestamp is the next number, and then every order book stays as it was.
  pub process_tick_gap :
      (t : Tick) (f : Feed) (h : Handler) (k : Bytes)
      → find_handler t.symbol f.handlers ≡ some h
      → h.last_sequence ≢ 0
      → t.timestamp ≢ inc64 h.last_sequence
      → ((process_tick d t f).1 ≡ false)
        × (get_order_book k (process_tick d t f).0 ≡ get_order_book k f)
  unfolding get_order_book
  process_tick_gap t f h k found started gap =
      let r = rw found at (process_tick_routes t f k) in
      let closed = not_in_order d h (event_of t) started gap in
      (
        r.0 ∙ refused_result d h (event_of t) closed,
        ap book_of r.1
            ∙ same_book (bytes_eq t.symbol k) h _ (find_handler k f.handlers)
                (λ e. rw ((bytes_eq_iff t.symbol k).0 e) at found)
                (refused_book d h (event_of t) closed),
      )
