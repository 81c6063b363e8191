-- ===== src/ColumnOption/RoundTrip.antt =====
-- Decoding undoes encoding for the column types in which no container stands inside one of its kind.
pub mod Frames
pub mod Elements
pub mod Vectors
pub mod Objects
pub mod Whole
