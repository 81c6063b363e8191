-- ===== src/Query/Parameters.antt =====
-- src/Common/Command.cpp and src/LowLevel/ProtocolTypes/ProtocolQueryParameters.cpp: the values of a
-- command that a request carries, and the flags that announce them. The object holds a reference to
-- the command, its own or the caller's: the model has the command that is referred to.
pub mod Parts
pub mod RoundTrip
use cpv_cql_driver.Common.{
  ℕ, zero, suc, ◌+◌, ◌-◌, ◌%◌, ◌^◌, List, [], ◌∷◌, ◌++◌, Bool, true, false, not, ◌&&◌, ◌||◌, ltb,
  ◌==◌, if◌then◌else◌, length, take, drop, Option, none, some, map_option, Result, ok, err, ◌>>=◌,
  ◌>>◌, require, logic_exception, decode_exception, not_implemented_exception, Bytes, has_flag,
  add_flag, remove_flag,
}
use cpv_cql_driver.Protocol.Integer.{is_negative}
use cpv_cql_driver.Protocol.Integer
use cpv_cql_driver.Protocol.SizedString.{SizedString, decode_bytes}
use cpv_cql_driver.Protocol.Timestamp.{microseconds_of, time_point_of}
use cpv_cql_driver.Batch.Parameters.{has_value, value_of, encode_flagged, decode_flagged}

-- CommandData
pub record Command : Type 0 where
  pub is_valid : Bool
  pub query : Bytes
  pub need_prepare : Option Bool
  pub consistency : Option ℕ
  pub page_size : Option ℕ
  pub paging_state : Bytes
  pub parameter_count : ℕ
  pub parameters : Bytes
  pub serial_consistency : Option ℕ
  -- Nanoseconds since 1970, in 64 signed bits.
  pub default_timestamp : Option ℕ
  pub max_retries : ℕ

-- `Command(query)`
abbrev pub new_command : Bytes → Command
new_command query = record {
  is_valid = true;
  query = query;
  need_prepare = none;
  consistency = none;
  page_size = none;
  paging_state = [];
  parameter_count = 0;
  parameters = [];
  serial_consistency = none;
  default_timestamp = none;
  max_retries = 0;
}

-- `addParameter`, given the encoding of the parameter.
unfoldable pub add_parameter : Bytes → Command → Command
add_parameter encoded c = record c {
  parameters = c.parameters ++ encoded;
  parameter_count = c.parameter_count + 1;
}

-- The setters of a valid command.
unfoldable pub prepare_query : Bool → Command → Command
prepare_query value c = record c { need_prepare = some value }

unfoldable pub set_consistency : ℕ → Command → Command
set_consistency level c = record c { consistency = some level }

unfoldable pub set_page_size : ℕ → Command → Command
set_page_size size c = record c { page_size = some size }

unfoldable pub set_paging_state : Bytes → Command → Command
set_paging_state state c = record c { paging_state = state }

unfoldable pub set_serial_consistency : ℕ → Command → Command
set_serial_consistency level c = record c { serial_consistency = some level }

unfoldable pub set_default_timestamp : ℕ → Command → Command
set_default_timestamp time c = record c { default_timestamp = some time }

unfoldable pub set_max_retries : ℕ → Command → Command
set_max_retries retries c = record c { max_retries = retries }

-- The enumerators of QueryParametersFlags.
abbrev pub with_values : ℕ
with_values = 1

abbrev pub skip_metadata : ℕ
skip_metadata = 2

abbrev pub with_page_size : ℕ
with_page_size = 4

abbrev pub with_paging_state : ℕ
with_paging_state = 8

abbrev pub with_serial_consistency : ℕ
with_serial_consistency = 16

abbrev pub with_default_timestamp : ℕ
with_default_timestamp = 32

abbrev pub with_names_for_value : ℕ
with_names_for_value = 64

-- ProtocolQueryParameters
pub record QueryParameters : Type 0 where
  pub flags : ℕ
  pub command : Command

unfoldable pub set_skip_metadata : Bool → QueryParameters → QueryParameters
set_skip_metadata value p = record p {
  flags = if value then add_flag p.flags skip_metadata else remove_flag p.flags skip_metadata;
}

abbrev is_empty : Bytes → Bool
is_empty bs = length bs == 0

-- The flags that `setCommandRef` sets: SkipMetadata stays as it was.
unfoldable pub command_flags : ℕ → Command → ℕ
command_flags flags c =
    let flags₀ : ℕ = if has_flag flags skip_metadata then skip_metadata else 0 in
    let flags₁ : ℕ = if ltb 0 c.parameter_count then add_flag flags₀ with_values else flags₀ in
    let flags₂ : ℕ = if has_value c.page_size then add_flag flags₁ with_page_size else flags₁ in
    let flags₃ : ℕ =
      if has_value c.page_size && not (is_empty c.paging_state)
      then add_flag flags₂ with_paging_state
      else flags₂ in
    let flags₄ : ℕ =
      if has_value c.serial_consistency then add_flag flags₃ with_serial_consistency else flags₃ in
    if has_value c.default_timestamp then add_flag flags₄ with_default_timestamp else flags₄

-- `setCommandRef`, and `setCommand` of a command that is moved in.
unfoldable pub set_command_ref : Command → QueryParameters → Result QueryParameters
set_command_ref c p = do
  require c.is_valid logic_exception
  require (has_value c.consistency) logic_exception
  ok (record { flags = command_flags p.flags c; command = c })

unfoldable pub encode_parameters : ℕ → Command → Bytes → Result Bytes
encode_parameters flags c buffer = if not (has_flag flags with_values) then ok buffer else do
  require (c.parameter_count % 2 ^ 16 == c.parameter_count) logic_exception
  ok (Integer.encode 2 (c.parameter_count % 2 ^ 16) buffer ++ c.parameters)

-- The page size becomes an `int`.
unfoldable pub encode_page_size : ℕ → Command → Bytes → Result Bytes
encode_page_size flags c buffer =
    if not (has_flag flags with_page_size)
    then ok buffer
    else do size ← value_of c.page_size; ok (Integer.encode 4 (size % 2 ^ 32) buffer)

unfoldable pub encode_paging_state : ℕ → Command → Bytes → Bytes
encode_paging_state flags c buffer =
    if has_flag flags with_paging_state
    then Integer.encode 4 (length c.paging_state % 2 ^ 32) buffer ++ c.paging_state
    else buffer

-- `ProtocolQueryParameters::encode`
unfoldable pub encode_query_parameters : QueryParameters → Bytes → Result Bytes
encode_query_parameters p buffer = do
  require p.command.is_valid logic_exception
  consistency ← value_of p.command.consistency
  let start = Integer.encode 1 p.flags (Integer.encode 2 consistency buffer)
  b₁ ← encode_parameters p.flags p.command start
  b₂ ← encode_page_size p.flags p.command b₁
  let b₃ = encode_paging_state p.flags p.command b₂
  b₄ ← encode_flagged p.flags with_serial_consistency 2 p.command.serial_consistency b₃
  encode_flagged p.flags with_default_timestamp 8
      (map_option microseconds_of p.command.default_timestamp) b₄

-- The loop over the parameters, which collects their encoding.
unfoldable pub decode_each_parameter : ℕ → Bytes → Bytes → Result (Bytes × Bytes)
decode_each_parameter zero encoded bs = ok (encoded, bs)
decode_each_parameter (suc n) encoded bs = do
  (size, r) ← Integer.decode 4 bs
  let encoded' = Integer.encode 4 size encoded
  let here = decode_each_parameter n encoded' r
  let after = decode_each_parameter n (encoded' ++ take size r) (drop size r)
  if is_negative 4 size || size == 0
      then here
      else if ltb (length r) size
      then err decode_exception
      else after

unfoldable pub decode_parameters : ℕ → Bytes → Result (ℕ × Bytes × Bytes)
decode_parameters flags bs = if not (has_flag flags with_values) then ok (0, [], bs) else do
  require (not (has_flag flags with_names_for_value)) not_implemented_exception
  (count, r₁) ← Integer.decode 2 bs
  (encoded, r₂) ← decode_each_parameter count [] r₁
  ok (count, encoded, r₂)

-- `static_cast<std::size_t>(int)`, where a negative number is extended to 64 bits.
abbrev to_size_t : ℕ → ℕ
to_size_t n = if is_negative 4 n then n + (2 ^ 64 - 2 ^ 32) else n

unfoldable pub decode_page_size : ℕ → Bytes → Result (Option ℕ × Bytes)
decode_page_size flags bs =
    if not (has_flag flags with_page_size)
    then ok (none, bs)
    else do (size, r) ← Integer.decode 4 bs; ok (some (to_size_t size), r)

unfoldable pub decode_paging_state : ℕ → Bytes → Result (Bytes × Bytes)
decode_paging_state flags bs =
    if not (has_flag flags with_paging_state)
    then ok ([], bs)
    else do (state, r) ← decode_bytes bs; ok (state.value, r)

-- `ProtocolQueryParameters::decode`
unfoldable pub decode_query_parameters : Bytes → Result (QueryParameters × Bytes)
decode_query_parameters bs = do
  (consistency, r₁) ← Integer.decode 2 bs
  (flags, r₂) ← Integer.decode 1 r₁
  (count, encoded, r₃) ← decode_parameters flags r₂
  (page_size, r₄) ← decode_page_size flags r₃
  (paging_state, r₅) ← decode_paging_state flags r₄
  (serial, r₆) ← decode_flagged flags with_serial_consistency 2 r₅
  (timestamp, r₇) ← decode_flagged flags with_default_timestamp 8 r₆
  ok (
    record {
      flags = flags;
      command = record (new_command []) {
        consistency = some consistency;
        page_size = page_size;
        paging_state = paging_state;
        parameter_count = count;
        parameters = encoded;
        serial_consistency = serial;
        default_timestamp = map_option time_point_of timestamp;
      };
    },
    r₇,
  )
