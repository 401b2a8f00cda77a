-- ===== src/Fsm.antt =====
-- feedhandler/src/parser/fsm_fix_parser.cpp. State and Recovery hold the definitions; Stream is about
-- cut streams and buffer bounds, Message about whole messages, Resync about garbage recovery, Flags
-- about what does not steer the parser; Examples runs it.
pub mod State
pub mod Stream
pub mod Recovery
pub mod Resync
pub mod Message
pub mod Flags
pub mod Examples
