-- ===== src/ResultMetadata/RoundTrip.antt =====
-- Decoding the metadata of a result undoes encoding it, but for what an object keeps of its last use.
pub mod Columns
pub mod Whole
