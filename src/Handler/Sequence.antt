-- ===== src/Handler/Sequence.antt =====
-- The sequence check of orderbook/src/orderbook/event_handler.cpp: gaps, and what follows one.
use scratch.Prelude.{
  ℕ, ◌+◌, ◌-◌, ◌<◌, ◌≤◌, ◌^◌, List, [], ◌∷◌, Bool, true, false, not, if◌then◌else◌, inc64, add64,
  arith, ◌≡◌, ◌≢◌, refl, sym, ◌∙◌, All,
}
use scratch.Doubles.{Doubles}
use scratch.Handler.Event.{
  MarketEvent, new_order, modify_order, delete_order, trade, snapshot, header,
}
use scratch.Handler.State.{
  Handler, validate_sequence, on_new_order, on_modify_order, on_delete_order, on_trade, on_snapshot,
  dispatch, process_event, gap_found,
}
use scratch.Handler.Effect.{in_order, process_all, process_event-Effect}

-- A message whose number is not ahead of the last one, which is not 0 and not the largest number,
-- is refused, such as a duplicate; and the counter of dropped messages grows by the difference
-- modulo 2^64, which is nearly 2^64.
pub validate_sequence_behind :
    (seq : ℕ) (h : Handler)
    → h.last_sequence ≢ 0
    → seq ≤ h.last_sequence
    → h.last_sequence + 1 < 2 ^ 64
    → ((validate_sequence seq h).1 ≡ false)
      × (((validate_sequence seq h).0.gap_stats).messages_dropped
          ≡ add64 (h.gap_stats).messages_dropped (2 ^ 64 - (h.last_sequence + 1 - seq)))
unfolding validate_sequence
validate_sequence_behind seq h started behind fits = ground arith

module _ (d : Doubles) where
  open d use {Double}

  dispatch-last_sequence :
      (h : Handler) (e : MarketEvent Double)
      → h.last_sequence ≡ (header e).sequence_number
      → (dispatch d h e).0.last_sequence ≡ (header e).sequence_number
  unfolding dispatch on_new_order on_modify_order on_delete_order on_trade on_snapshot
  dispatch-last_sequence h (new_order hd e) m = ground arith
  dispatch-last_sequence h (modify_order hd e) m = ground arith
  dispatch-last_sequence h (delete_order hd e) m = ground arith
  dispatch-last_sequence h (trade hd e) m = ground arith
  dispatch-last_sequence h (snapshot hd e) m = ground arith

  checked-last :
      (h : Handler) (e : MarketEvent Double)
      → (validate_sequence (header e).sequence_number h).0.last_sequence
        ≡ (if in_order d h e then (header e).sequence_number else h.last_sequence)
  unfolding validate_sequence
  checked-last h e = ground arith

  checked_true :
      (h : Handler) (e : MarketEvent Double)
      → (validate_sequence (header e).sequence_number h).1 ≡ true
      → (validate_sequence (header e).sequence_number h).0.last_sequence
        ≡ (header e).sequence_number
  unfolding validate_sequence
  checked_true h e ok = ground arith

  after_check-last :
      (h : Handler) (e : MarketEvent Double) (ok : Bool)
      → (ok ≡ true → h.last_sequence ≡ (header e).sequence_number)
      → (if not ok then gap_found h else dispatch d h e).0.last_sequence ≡ h.last_sequence
  after_check-last h e false m = refl
  after_check-last h e true m = dispatch-last_sequence h e (m refl) ∙ sym (m refl)

  -- The last sequence number moves to that of every message in order, also of one that fails its
  -- validation, and stays at any other message.
  pub process_event-last_sequence :
      (h : Handler) (e : MarketEvent Double)
      → (process_event d h e).0.last_sequence
        ≡ (if in_order d h e then (header e).sequence_number else h.last_sequence)
  unfolding process_event
  process_event-last_sequence h e =
      let r = validate_sequence (header e).sequence_number h in
      after_check-last r.0 e r.1 (checked_true h e) ∙ checked-last h e

  pub not_in_order :
      (h : Handler) (e : MarketEvent Double)
      → h.last_sequence ≢ 0
      → (header e).sequence_number ≢ inc64 h.last_sequence
      → in_order d h e ≡ false
  not_in_order h e started skipped = ground arith

  pub refused_result :
      (h : Handler) (e : MarketEvent Double)
      → in_order d h e ≡ false
      → (process_event d h e).1 ≡ false
  refused_result h e closed = ground (arith, process_event-Effect d h e)

  pub refused_book :
      (h : Handler) (e : MarketEvent Double)
      → in_order d h e ≡ false
      → (process_event d h e).0.order_book ≡ h.order_book
  refused_book h e closed = ground (arith, process_event-Effect d h e)

  -- Once a handler has a last sequence number other than 0, events none of which has the number
  -- right behind it never reach the book, snapshots neither: the book and the last sequence number
  -- stay as they are.
  pub process_all_gap :
      (h : Handler) (es : List (MarketEvent Double))
      → h.last_sequence ≢ 0
      → All (λ e. (header e).sequence_number ≢ inc64 h.last_sequence) es
      → ((process_all d h es).order_book ≡ h.order_book)
        × ((process_all d h es).last_sequence ≡ h.last_sequence)
  unfolding process_all
  process_all_gap h [] started skipped = (refl, refl)
  process_all_gap h (e ∷ es) started skipped =
      let closed = not_in_order h e started skipped.0 in
      let last = rw closed at (process_event-last_sequence h e) in
      let book = refused_book h e closed in
      let rest = process_all_gap (process_event d h e).0 es (rw last started) (rw last skipped.1) in
      (rest.0 ∙ book, rest.1 ∙ last)
