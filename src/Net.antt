-- ===== src/Net.antt =====
-- feedhandler/src/net/receive_buffer.cpp and feedhandler/src/parser/streaming_fix_handler.cpp. Memory
-- is the array of bytes; ReceiveBuffer and Streaming hold the definitions; Fifo and Delivery what they
-- do; Examples runs them.
pub mod Memory
pub mod ReceiveBuffer
pub mod Fifo
pub mod Streaming
pub mod Delivery
pub mod Examples
