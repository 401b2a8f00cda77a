-- ===== src/Network.antt =====
-- The network clients and the event loop, feedhandler/src/net. Sockets is the interface to the
-- operating system; TcpClient, WebSocketClient and EventLoop hold the code. Owned is about the
-- descriptors of a client, Watched about the set that the loop watches. Examples runs them.
pub mod Sockets
pub mod TcpClient
pub mod WebSocketClient
pub mod EventLoop
pub mod Owned
pub mod Watched
pub mod Examples
