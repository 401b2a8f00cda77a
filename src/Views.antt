-- ===== src/Views.antt =====
-- The parsers of whole messages in memory: feedhandler/src/parser/stringview_fix_parser.cpp,
-- optimized_fix_parser.cpp, repeating_group_parser.cpp and naive_fix_parser.cpp. Fields, Lines,
-- Messages, Groups and Naive hold the code. Split cuts a text at a byte, and Extract and Lines hold the
-- loops against that; Variants compares the first two parsers, Printed, Kept and Agreement compare
-- with the streaming parser, Entries and Quotes are about the groups, Last about the naive parser.
-- Examples runs them.
pub mod Split
pub mod Fields
pub mod Extract
pub mod Lines
pub mod Messages
pub mod Variants
pub mod Groups
pub mod Entries
pub mod Quotes
pub mod Printed
pub mod Kept
pub mod Agreement
pub mod Examples
pub mod Naive
pub mod Last
