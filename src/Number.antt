-- ===== src/Number.antt =====
-- feedhandler/include/parser/fast_number_parser.hpp. Fast holds the definitions and Decimal the
-- numbers that the texts mean; Integers and Fixed compare the two; Examples runs the parsers.
pub mod Fast
pub mod Decimal
pub mod Integers
pub mod Fixed
pub mod Examples
