-- ===== src/Handler/Orders.antt =====
-- Order modifications and snapshots of orderbook/src/orderbook/event_handler.cpp, level by level.
use scratch.Prelude.{
  ℤ, pos, ◌≤ℤ◌, true, eqb_ℤ, some, Option, if◌then◌else◌, arith, ◌≡◌, ap, ◌∙◌, int_laws, ◌+ℤ◌,
  InInt64, wrap64_fits,
}
use scratch.Doubles.{Doubles}
use scratch.OrderBook.Level.{PriceLevel}
use scratch.OrderBook.SideMap.{Side, bid, ask}
use scratch.OrderBook.Keyed.{find-Ordered}
use scratch.OrderBook.Book.{OrderBook, get_side_map, clear, changed, modifies}
use scratch.OrderBook.Validity.{IsValid, IsLevel, IsValid-IsOrdered, side-Ordered}
use scratch.OrderBook.Refinement.{level_at, level_at-modify_order, spec, kept}
use scratch.Handler.Event.{Header, ModifyOrder, Snapshot, modify_order, snapshot}
use scratch.Handler.State.{
  Handler, validate_event, price_fixed, on_modify_order, on_snapshot, rebuild,
}

kept_here :
    (p : ℤ) (l : PriceLevel) (o : Option PriceLevel)
    → pos 1 ≤ℤ l.quantity
    → (if eqb_ℤ p p then kept l else o) ≡ some l
kept_here p l o h = ground arith

spec_modifies :
    (s : Side) (p q : ℤ) (l : PriceLevel)
    → pos 1 ≤ℤ l.quantity
    → pos 0 ≤ℤ q
    → InInt64 (l.quantity +ℤ q)
    → spec (modifies s p q) s p (some l) ≡ some (changed q l)
spec_modifies bid p q l h h' fits =
    kept_here p (changed q l) (some l) (rw (wrap64_fits _ fits) (omega int_laws))
spec_modifies ask p q l h h' fits =
    kept_here p (changed q l) (some l) (rw (wrap64_fits _ fits) (omega int_laws))

module _ (d : Doubles) where
  open d use {Double}

  validate_event-new_quantity :
      (h : Handler) (hd : Header) (e : ModifyOrder Double)
      → validate_event d h (modify_order hd e) ≡ true
      → pos 0 ≤ℤ e.new_quantity
  unfolding validate_event
  validate_event-new_quantity h hd e ok = ground arith

  on_modify_order-level :
      (h : Handler) (hd : Header) (e : ModifyOrder Double)
      → IsValid h.order_book
      → validate_event d h (modify_order hd e) ≡ true
      → level_at e.side (price_fixed d e.price) (on_modify_order d h hd e).0.order_book
        ≡ spec
            (modifies e.side (price_fixed d e.price) e.new_quantity)
            e.side
            (price_fixed d e.price)
            (level_at e.side (price_fixed d e.price) h.order_book)
  unfolding on_modify_order
  on_modify_order-level h hd e v ok = rw ok (
      level_at-modify_order e.side e.side (price_fixed d e.price) e.new_quantity
        (price_fixed d e.price) h.order_book (IsValid-IsOrdered v))

  -- On a valid book a valid modification of a level does not set its quantity to the new quantity
  -- of the event: it adds the new quantity to what stands there, where an int64_t holds the sum.
  pub on_modify_order_adds :
      (h : Handler) (hd : Header) (e : ModifyOrder Double) (l : PriceLevel)
      → IsValid h.order_book
      → validate_event d h (modify_order hd e) ≡ true
      → level_at e.side (price_fixed d e.price) h.order_book ≡ some l
      → InInt64 (l.quantity +ℤ e.new_quantity)
      → level_at e.side (price_fixed d e.price) (on_modify_order d h hd e).0.order_book
        ≡ some (changed e.new_quantity l)
  on_modify_order_adds h hd e l v ok found fits =
      let p = price_fixed d e.price in
      let old =
        find-Ordered IsLevel e.side p (get_side_map e.side h.order_book) l
          (side-Ordered IsLevel e.side v) found in
      on_modify_order-level h hd e v ok
      ∙ ap (spec (modifies e.side p e.new_quantity) e.side p) found
      ∙ spec_modifies e.side p e.new_quantity l old.1 (validate_event-new_quantity h hd e ok) fits

  clear_same : (a b : OrderBook) → a.symbol ≡ b.symbol → clear a ≡ clear b
  unfolding clear
  clear_same a b e = ground arith

  -- A snapshot that is valid for two handlers whose books bear one symbol leaves both with the same
  -- book: nothing of what a book held before remains.
  pub on_snapshot-forgets :
      (h h' : Handler) (hd : Header) (e : Snapshot Double)
      → validate_event d h (snapshot hd e) ≡ true
      → validate_event d h' (snapshot hd e) ≡ true
      → h.order_book.symbol ≡ h'.order_book.symbol
      → (on_snapshot d h hd e).0.order_book ≡ (on_snapshot d h' hd e).0.order_book
  unfolding on_snapshot
  on_snapshot-forgets h h' hd e ok ok' same =
      rw (ok, ok')
        (ap (λ b. rebuild d ask e.asks (rebuild d bid e.bids b))
          (clear_same h.order_book h'.order_book same))
