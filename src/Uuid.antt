-- ===== src/Uuid.antt =====
-- src/Common/Utility/UUIDUtils.cpp, the hexadecimal functions of
-- include/CQLDriver/Common/Utility/StringUtils.hpp, and ProtocolUUID.cpp.
pub mod Text
pub mod RoundTrip
pub mod Time
pub mod Laws
pub mod Generator
