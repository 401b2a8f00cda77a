-- ===== src/Simd.antt =====
-- The vector FIX parser, feedhandler/src/parser/simd_fix_parser.cpp. Delimiters, Numbers and Parser
-- hold the code. Values holds the integers against those of the fast number parser; Fields, Contents,
-- Kept and Stream hold the parser against a machine that takes one byte at a time; Jammed is about a
-- full buffer, Sides about the ticks it makes. Examples runs it.
pub mod Delimiters
pub mod Numbers
pub mod Values
pub mod Parser
pub mod Fields
pub mod Contents
pub mod Kept
pub mod Stream
pub mod Jammed
pub mod Sides
pub mod Examples
