-- ===== src/Query/Startup.antt =====
-- src/LowLevel/RequestMessages/StartupMessage.cpp: the options with which a connection begins.
use cpv_cql_driver.Common.{[], ◌∷◌, if◌then◌else◌, Option, none, some, Result, Bytes}
use cpv_cql_driver.Protocol.SizedString.{SizedString}
use cpv_cql_driver.Protocol.Maps.{Entries, Rehash, string_map, same_string, emplace, encode_map}

abbrev pub string_of : Bytes → SizedString
string_of text = record { state = 0; value = text }

-- "CQL_VERSION", "COMPRESSION" and "3.0.0".
abbrev pub version_key : SizedString
version_key = string_of (67 ∷ 81 ∷ 76 ∷ 95 ∷ 86 ∷ 69 ∷ 82 ∷ 83 ∷ 73 ∷ 79 ∷ 78 ∷ [])

abbrev pub compression_key : SizedString
compression_key = string_of (67 ∷ 79 ∷ 77 ∷ 80 ∷ 82 ∷ 69 ∷ 83 ∷ 83 ∷ 73 ∷ 79 ∷ 78 ∷ [])

abbrev pub version_value : SizedString
version_value = string_of (51 ∷ 46 ∷ 48 ∷ 46 ∷ 48 ∷ [])

abbrev pub Options : Type 0
Options = Entries string_map

-- `unordered_map::erase`
unfoldable pub erase : SizedString → Options → Options
erase key [] = []
erase key ((k, v) ∷ options) =
    let rest = erase key options in if same_string k key then rest else (k, v) ∷ rest

module _ (order : Rehash string_map) where
  -- `StartupMessage::reset`
  unfoldable pub reset_options : Options → Options
  reset_options options = emplace string_map order version_key version_value []

  -- `setCompression`, where `none` is the null pointer.
  unfoldable pub set_compression : Option Bytes → Options → Options
  set_compression none options = erase compression_key options
  set_compression (some algorithm) options =
      emplace string_map order compression_key (string_of algorithm) options

-- `StartupMessage::encodeBody`
unfoldable pub encode_startup_body : Options → Bytes → Result Bytes
encode_startup_body options buffer = encode_map string_map 2 options buffer
