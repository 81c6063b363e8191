-- ===== src/Protocol.antt =====
-- src/LowLevel/ProtocolTypes: the data types of the binary protocol.
pub mod Integer
pub mod SizedString
pub mod Lists
pub mod VariableInteger
pub mod Maps
pub mod Timestamp
