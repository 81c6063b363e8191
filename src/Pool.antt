-- ===== src/Pool.antt =====
-- src/LowLevel/ConnectionPool.cpp: which connection a request gets, who waits for one, and how many
-- connections there are.
pub mod State
pub mod Steps
pub mod Choice
pub mod Requests
pub mod Grants
pub mod Feeding
pub mod Growth
pub mod Dropping
pub mod Reach
