-- ===== src/Connection.antt =====
-- src/LowLevel/Connection.cpp and ConnectionStream.cpp: the streams of one connection, the waiters
-- for their messages and the messages that nobody waits for yet.
pub mod Stream
pub mod State
pub mod Order
pub mod Receive
pub mod Waiting
pub mod Fifo
