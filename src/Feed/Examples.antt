-- ===== src/Feed/Examples.antt =====
-- Runs of orderbook/src/orderbook/feed_integration.cpp, with decimal fixed point.
use scratch.Prelude.{
  ℕ, pos, [], ◌∷◌, true, false, some, ◌≡◌, ◌≢◌, refl, arith, Bytes, inc64, if◌then◌else◌, bytes_eq,
}
use scratch.Doubles.{fixed_point}
use scratch.Handler.State.{
  Handler, new_handler, process_event, validate_sequence, dispatch, on_new_order, validate_event,
}
use scratch.Feed.Tick.{Tick, is_valid, price_to_double}
use scratch.Feed.Integration.{
  Feed, new_feed, find_handler, put_handler, or_new, get_handler, get_order_book, process_tick,
  tick_to_event,
}
use scratch.Feed.Routing.{event_of, process_tick_routes, process_tick_gap}

abbrev name : Bytes
name = b'A' ∷ []

abbrev tick : ℕ → Tick
tick now = record { symbol = name; price = pos 123400; qty = pos 50; side = b'B'; timestamp = now }

tick-is_valid : is_valid (tick 7) ≡ true
unfolding is_valid
tick-is_valid = refl

abbrev feed : Feed
feed = (process_tick fixed_point (tick 7) new_feed).0

abbrev handler : Handler
handler = (process_event fixed_point (new_handler name) (event_of fixed_point (tick 7))).0

process_tick_routes_example :
    ((process_tick fixed_point (tick 7) new_feed).1
      ≡ (process_event fixed_point
          (or_new name (find_handler name new_feed.handlers))
          (event_of fixed_point (tick 7))).1)
    × (find_handler name (process_tick fixed_point (tick 7) new_feed).0.handlers ≡ (
        if bytes_eq name name
        then some
            (process_event fixed_point
              (or_new name (find_handler name new_feed.handlers))
              (event_of fixed_point (tick 7))).0
        else find_handler name new_feed.handlers))
process_tick_routes_example = process_tick_routes fixed_point (tick 7) new_feed name

has_handler : find_handler name feed.handlers ≡ some handler
unfolding process_tick new_feed get_handler find_handler put_handler bytes_eq tick_to_event
has_handler = refl

handler_at : handler.last_sequence ≡ 7
unfolding process_event new_handler validate_sequence dispatch on_new_order validate_event bytes_eq
    price_to_double
handler_at = refl

handler_started : handler.last_sequence ≢ 0
handler_started = grind (arith, handler_at)

not_next : (tick 9).timestamp ≢ inc64 handler.last_sequence
not_next = ground (arith, handler_at)

process_tick_gap_example :
    ((process_tick fixed_point (tick 9) feed).1 ≡ false)
    × (get_order_book name (process_tick fixed_point (tick 9) feed).0 ≡ get_order_book name feed)
process_tick_gap_example =
    process_tick_gap fixed_point (tick 9) feed handler name has_handler handler_started not_next
