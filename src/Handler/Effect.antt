-- ===== src/Handler/Effect.antt =====
-- What the event handlers of orderbook/src/orderbook/event_handler.cpp do to the order book: the
-- calls that an accepted event makes of it, and nothing where an event is refused.
use scratch.Prelude.{
  ◌==◌, List, [], ◌∷◌, ◌++◌, Bool, true, false, not, ◌&&◌, ◌||◌, if◌then◌else◌, inc64, Bytes, arith,
  ◌≡◌, refl, sym, ◌∙◌, inl, inr, ◌⊎◌,
}
use scratch.Doubles.{Doubles}
use scratch.OrderBook.SideMap.{Side, bid, ask}
use scratch.OrderBook.Book.{OrderBook, Call, adds, modifies, deletes, clears, step, run, clear}
use scratch.OrderBook.Validity.{IsValid, AllFit, new_book-IsValid, run_from-IsValid}
use scratch.Handler.Event.{
  SnapshotLevel, MarketEvent, new_order, modify_order, delete_order, trade, snapshot, header,
  opposite,
}
use scratch.Handler.State.{
  Handler, new_handler, validate_sequence, validate_event, price_fixed, rebuild, on_new_order,
  on_modify_order, on_delete_order, on_trade, on_snapshot, dispatch, process_event, gap_found,
}

run-append : (b : OrderBook) (cs ds : List Call) → run b (cs ++ ds) ≡ run (run b cs) ds
unfolding run
run-append b [] ds = refl
run-append b (c ∷ cs) ds = run-append (step b c) cs ds

module _ (d : Doubles) where
  open d use {Double}

  abbrev pub level_calls : Side → List (SnapshotLevel Double) → List Call
  level_calls s [] = []
  level_calls s (l ∷ ls) = adds s (price_fixed d l.price) l.quantity ∷ level_calls s ls

  -- The calls of the book that an event stands for.
  abbrev pub calls : MarketEvent Double → List Call
  calls (new_order _ e) = adds e.side (price_fixed d e.price) e.quantity ∷ []
  calls (modify_order _ e) = modifies e.side (price_fixed d e.price) e.new_quantity ∷ []
  calls (delete_order _ e) = deletes e.side (price_fixed d e.price) e.quantity ∷ []
  calls (trade _ e) = deletes (opposite e.aggressor_side) (price_fixed d e.price) e.quantity ∷ []
  calls (snapshot _ e) = clears ∷ (level_calls bid e.bids ++ level_calls ask e.asks)

  rebuild-run :
      (s : Side) (ls : List (SnapshotLevel Double)) (b : OrderBook)
      → rebuild d s ls b ≡ run b (level_calls s ls)
  unfolding rebuild run step
  rebuild-run s [] b = refl
  rebuild-run s (l ∷ ls) b = rebuild-run s ls _

  rebuild-append :
      (xs ys : List (SnapshotLevel Double)) (b : OrderBook)
      → rebuild d ask ys (rebuild d bid xs b) ≡ run b (level_calls bid xs ++ level_calls ask ys)
  rebuild-append xs ys b =
      rw (rebuild-run bid xs b, rebuild-run ask ys (run b (level_calls bid xs)))
        (sym (run-append b (level_calls bid xs) (level_calls ask ys)))

  -- An event that is refused leaves the book alone; an accepted one makes its calls.
  abbrev pub Effect : Handler → MarketEvent Double → Handler × Bool → Type 0
  Effect h e r =
      (r.0.symbol ≡ h.symbol)
      × (((r.1 ≡ false) × (r.0.order_book ≡ h.order_book))
          ⊎ ((r.1 ≡ true) × (r.0.order_book ≡ run h.order_book (calls e))))

  dispatch-Effect : (h : Handler) (e : MarketEvent Double) → Effect h e (dispatch d h e)
  unfolding dispatch on_new_order on_modify_order on_delete_order on_trade on_snapshot run step
  dispatch-Effect h (new_order hd e) = ground arith
  dispatch-Effect h (modify_order hd e) = ground arith
  dispatch-Effect h (delete_order hd e) = ground arith
  dispatch-Effect h (trade hd e) = ground arith
  dispatch-Effect h (snapshot hd e) =
      ground (arith, rebuild-append e.bids e.asks (clear h.order_book))

  -- The messages that the sequence check lets through: the first one, and the next in order.
  abbrev pub in_order : Handler → MarketEvent Double → Bool
  in_order h e = h.last_sequence == 0 || (header e).sequence_number == inc64 h.last_sequence

  validate_sequence_lem :
      (h : Handler) (e : MarketEvent Double)
      → let r = validate_sequence (header e).sequence_number h in
        (r.1 ≡ in_order h e)
        × (r.0.symbol ≡ h.symbol)
        × (r.0.order_book ≡ h.order_book)
        × (r.0.stats ≡ h.stats)
  unfolding validate_sequence
  validate_sequence_lem h e = ground arith

  validate_event-symbol :
      (h h' : Handler) (e : MarketEvent Double)
      → h'.symbol ≡ h.symbol
      → validate_event d h' e ≡ validate_event d h e
  unfolding validate_event
  validate_event-symbol h h' e same = rw same

  dispatch_accepts :
      (h : Handler) (e : MarketEvent Double) → (dispatch d h e).1 ≡ validate_event d h e
  unfolding dispatch on_new_order on_modify_order on_delete_order on_trade on_snapshot
  dispatch_accepts h (new_order hd e) = ground arith
  dispatch_accepts h (modify_order hd e) = ground arith
  dispatch_accepts h (delete_order hd e) = ground arith
  dispatch_accepts h (trade hd e) = ground arith
  dispatch_accepts h (snapshot hd e) = ground arith

  -- The rest of process_event behind the sequence check.
  after_check :
      (h h' : Handler) (e : MarketEvent Double) (ok : Bool)
      → h'.symbol ≡ h.symbol
      → h'.order_book ≡ h.order_book
      → let r = if not ok then gap_found h' else dispatch d h' e in
        (r.1 ≡ (ok && validate_event d h e)) × Effect h e r
  after_check h h' e false s b = (refl, (s, inl (refl, b)))
  after_check h h' e true s b = (
    dispatch_accepts h' e ∙ validate_event-symbol h h' e s,
    ((dispatch-Effect h' e).0 ∙ s, ground (arith, dispatch-Effect h' e)),
  )

  -- process_event accepts exactly the events whose sequence number is in order and which pass the
  -- validation. Such an event makes its calls of the order book; any other leaves the book as it was.
  -- The handler's symbol stays.
  pub process_event-Effect :
      (h : Handler) (e : MarketEvent Double)
      → ((process_event d h e).1 ≡ (in_order h e && validate_event d h e))
        × Effect h e (process_event d h e)
  unfolding process_event
  process_event-Effect h e =
      let r = validate_sequence (header e).sequence_number h in
      let c = validate_sequence_lem h e in rw (← c.0) (after_check h r.0 e r.1 c.1 c.2)

  unfoldable pub process_all : Handler → List (MarketEvent Double) → Handler
  process_all h [] = h
  process_all h (e ∷ es) = process_all (process_event d h e).0 es

  process_event-IsValid :
      (h : Handler) (e : MarketEvent Double)
      → AllFit (calls e) h.order_book
      → IsValid h.order_book
      → IsValid (process_event d h e).0.order_book
  process_event-IsValid h e fits v = elim ((process_event-Effect h e).1.1) [
    | inl (_, same) ↦ rw same v
    | inr (_, made) ↦ rw made (run_from-IsValid (calls e) fits v)
  ]

  -- No sum overflows in the calls that the events stand for.
  abbrev pub EventsFit : Handler → List (MarketEvent Double) → Type 0
  EventsFit h [] = Unit
  EventsFit h (e ∷ es) = AllFit (calls e) h.order_book × EventsFit (process_event d h e).0 es

  process_all_from :
      (h : Handler) (es : List (MarketEvent Double))
      → EventsFit h es
      → IsValid h.order_book
      → IsValid (process_all h es).order_book
  unfolding process_all
  process_all_from h [] fits v = v
  process_all_from h (e ∷ es) fits v =
      process_all_from (process_event d h e).0 es fits.1 (process_event-IsValid h e fits.0 v)

  -- Whatever events reach a new handler, in whatever order, its book stays valid, if no sum of
  -- quantities overflows.
  pub process_all-IsValid :
      (symbol : Bytes) (es : List (MarketEvent Double))
      → EventsFit (new_handler symbol) es
      → IsValid (process_all (new_handler symbol) es).order_book
  unfolding new_handler
  process_all-IsValid symbol es fits =
      process_all_from (new_handler symbol) es fits (new_book-IsValid symbol)
