-- ===== src/Feed.antt =====
-- feedhandler/include/common/tick.hpp, and the integration of ticks with the books in
-- orderbook/src/orderbook/feed_integration.cpp. Routing holds what it does; Examples runs it.
pub mod Tick
pub mod Integration
pub mod Routing
pub mod Examples
