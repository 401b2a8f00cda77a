-- ===== src/OrderBook.antt =====
-- orderbook/: the book of one symbol. Level, SideMap and Book hold the definitions; Keyed and
-- Validity the invariant; Refinement, Algebra and Quotes what calls do to it; Examples runs it.
pub mod Level
pub mod SideMap
pub mod Keyed
pub mod Book
pub mod Validity
pub mod Refinement
pub mod Algebra
pub mod Quotes
pub mod Examples
