-- ===== src/Session.antt =====
-- src/HighLevel/Session.cpp: commands sent with preparation and retries.
pub mod Cache
pub mod Retry
pub mod Attempt
pub mod Loop
pub mod Rounds
pub mod Guarantees
pub mod Decisions
pub mod Batch
pub mod BatchLoop
pub mod BatchIds
pub mod BatchErrors
