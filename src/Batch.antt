-- ===== src/Batch.antt =====
-- The body of a BATCH request: src/LowLevel/RequestMessages/BatchMessage.cpp and
-- src/LowLevel/ProtocolTypes/ProtocolBatchParameters.cpp.
pub mod Parameters
pub mod RoundTrip
pub mod Body
pub mod Statements
