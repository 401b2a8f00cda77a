-- ===== src/Handler/Examples.antt =====
-- Runs of the handlers of orderbook/src/orderbook/event_handler.cpp, with decimal fixed point.
use scratch.Prelude.{
  ℕ, ℤ, pos, negsuc, List, [], ◌∷◌, true, ◌&&◌, some, ◌≡◌, ◌≢◌, ◌+◌, refl, arith, Bytes, All, inc64,
  bytes_eq, ◌+ℤ◌, InInt64,
}
use scratch.Doubles.{fixed_point}
use scratch.OrderBook.SideMap.{bid, find, put}
use scratch.OrderBook.Level.{price_level}
use scratch.OrderBook.Book.{new_book, add_order, changed}
use scratch.OrderBook.Validity.{IsValid}
use scratch.OrderBook.Refinement.{level_at}
use scratch.Handler.Event.{
  Header, NewOrder, ModifyOrder, Snapshot, MarketEvent, new_order, modify_order, snapshot, header,
}
use scratch.Handler.State.{
  Handler, new_handler, validate_sequence, validate_event, process_event, on_new_order,
  on_modify_order, dispatch, price_fixed,
}
use scratch.Handler.Effect.{
  Effect, in_order, process_all, process_event-Effect, process_all-IsValid, EventsFit,
}
use scratch.Handler.Sequence.{process_all_gap}
use scratch.Handler.Orders.{on_modify_order_adds}

abbrev name : Bytes
name = b'A' ∷ []

abbrev numbered : ℕ → Header
numbered n = record { sequence_number = n; timestamp_ns = 1000 + n; symbol = name }

-- A price of 12.34, which the handler turns into 1234.
abbrev order : NewOrder ℤ
order = record { order_id = 1; side = bid; price = pos 123400; quantity = pos 50 }

abbrev change : ModifyOrder ℤ
change = record {
  order_id = 1;
  side = bid;
  price = pos 123400;
  new_quantity = pos 30;
  quantity_delta = negsuc 19;
}

abbrev image : Snapshot ℤ
image = record {
  bids = record { price = pos 110000; quantity = pos 4; order_count = pos 3 } ∷ [];
  asks = record { price = pos 120000; quantity = pos 2; order_count = pos 1 } ∷ [];
}

abbrev events : List (MarketEvent ℤ)
events =
    new_order (numbered 7) order
    ∷ modify_order (numbered 8) change
    ∷ new_order (numbered 10) order
    ∷ snapshot (numbered 12) image
    ∷ []

-- The handler after its first message.
abbrev started : Handler
started = (process_event fixed_point (new_handler name) (new_order (numbered 7) order)).0

started_at : started.last_sequence ≡ 7
unfolding process_event new_handler validate_sequence dispatch on_new_order validate_event bytes_eq
started_at = refl

after_first : started.last_sequence ≢ 0
after_first = grind (arith, started_at)

process_event-Effect_example :
    ((process_event fixed_point (new_handler name) (new_order (numbered 7) order)).1 ≡ (
      in_order fixed_point (new_handler name) (new_order (numbered 7) order)
      && validate_event fixed_point (new_handler name) (new_order (numbered 7) order)))
    × Effect fixed_point
        (new_handler name)
        (new_order (numbered 7) order)
        (process_event fixed_point (new_handler name) (new_order (numbered 7) order))
process_event-Effect_example =
    process_event-Effect fixed_point (new_handler name) (new_order (numbered 7) order)

first-EventsFit : EventsFit fixed_point (new_handler name) (new_order (numbered 7) order ∷ [])
unfolding new_handler new_book find ◌+ℤ◌
first-EventsFit = omega arith

started-IsValid : IsValid started.order_book
unfolding process_all
started-IsValid =
    process_all-IsValid fixed_point name (new_order (numbered 7) order ∷ []) first-EventsFit

sum_fits : InInt64 (pos 50 +ℤ change.new_quantity)
unfolding ◌+ℤ◌
sum_fits = omega arith

abbrev late : List (MarketEvent ℤ)
late = new_order (numbered 9) order ∷ snapshot (numbered 12) image ∷ []

late-All : All (λ e. (header e).sequence_number ≢ inc64 started.last_sequence) late
late-All = (ground (arith, started_at), (ground (arith, started_at), tt))

process_all_gap_example :
    ((process_all fixed_point started late).order_book ≡ started.order_book)
    × ((process_all fixed_point started late).last_sequence ≡ started.last_sequence)
process_all_gap_example = process_all_gap fixed_point started late after_first late-All

valid_change : validate_event fixed_point started (modify_order (numbered 8) change) ≡ true
unfolding process_event new_handler validate_sequence dispatch on_new_order validate_event bytes_eq
valid_change = refl

fifty_there :
    level_at bid (price_fixed fixed_point change.price) started.order_book
    ≡ some (price_level (pos 1234) (pos 50) 1)
unfolding process_event new_handler validate_sequence dispatch on_new_order validate_event bytes_eq
    new_book add_order put find
fifty_there = refl

on_modify_order_adds_example :
    level_at bid
      (price_fixed fixed_point change.price)
      (on_modify_order fixed_point started (numbered 8) change).0.order_book
    ≡ some (changed (pos 30) (price_level (pos 1234) (pos 50) 1))
on_modify_order_adds_example =
    on_modify_order_adds fixed_point started (numbered 8) change (price_level (pos 1234) (pos 50) 1)
      started-IsValid valid_change fifty_there sum_fits

valid_image : validate_event fixed_point started (snapshot (numbered 8) image) ≡ true
unfolding process_event new_handler validate_sequence dispatch on_new_order validate_event bytes_eq
valid_image = refl

valid_new_image : validate_event fixed_point (new_handler name) (snapshot (numbered 8) image) ≡ true
unfolding new_handler validate_event bytes_eq
valid_new_image = refl

same_symbol : (started.order_book).symbol ≡ (new_handler name).order_book.symbol
unfolding process_event new_handler validate_sequence dispatch on_new_order validate_event bytes_eq
    new_book add_order
same_symbol = refl
