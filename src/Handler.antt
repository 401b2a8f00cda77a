-- ===== src/Handler.antt =====
-- orderbook/src/orderbook/event_handler.cpp and its events in market_event.hpp. Event and State hold
-- the definitions; Effect, Sequence and Orders what the handlers do; Examples runs them.
pub mod Event
pub mod State
pub mod Effect
pub mod Sequence
pub mod Orders
pub mod Examples
