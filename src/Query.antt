-- ===== src/Query.antt =====
-- src/Common/Command.cpp, ProtocolQueryParameters.cpp of src/LowLevel/ProtocolTypes, and the requests
-- of src/LowLevel/RequestMessages that send a command.
pub mod Parameters
pub mod Requests
pub mod Startup
