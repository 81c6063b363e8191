-- ===== src/Batch/Parameters.antt =====
-- ProtocolBatchParameters: consistency, flags, and what the flags announce.
use cpv_cql_driver.Common.{
  ℕ, ◌^◌, ◌<◌, ◌≡◌, refl, sym, ap, List, [], ◌++◌, append-nil, Bool, true, false, not,
  if◌then◌else◌, Option, none, some, map_option, Result, ok, err, ◌>>=◌, logic_exception,
  out_of_range, Bytes, has_flag, add_flag,
}
use cpv_cql_driver.Protocol.Integer.{be_bytes}
use cpv_cql_driver.Protocol.Integer
use cpv_cql_driver.Protocol.Timestamp.{microseconds_of, time_point_of}
use cpv_cql_driver.Protocol.Integer.RoundTrip.{decode-be_bytes}

pub record BatchQueryData : Type 0 where
  pub query_str : Bytes
  -- For each set, how many parameters there are, and their encoding.
  pub parameter_sets : List (ℕ × Bytes)

pub record BatchCommand : Type 0 where
  pub is_valid : Bool
  pub batch_type : ℕ
  pub consistency : Option ℕ
  pub queries : List BatchQueryData
  pub serial_consistency : Option ℕ
  -- Nanoseconds since 1970, in 64 signed bits.
  pub default_timestamp : Option ℕ

-- `BatchCommand()`: type "Logged", the rest empty.
abbrev pub new_command : BatchCommand
new_command = record {
  is_valid = true;
  batch_type = 0;
  consistency = none;
  queries = [];
  serial_consistency = none;
  default_timestamp = none;
}

-- The enumerators of BatchParametersFlags.
abbrev pub with_serial_consistency : ℕ
with_serial_consistency = 16

abbrev pub with_default_timestamp : ℕ
with_default_timestamp = 32

abbrev pub has_value : Option ℕ → Bool
has_value none = false
has_value (some v) = true

pub record BatchParameters : Type 0 where
  pub flags : ℕ
  pub command : BatchCommand

-- `setBatchCommandRef`
unfoldable pub set_batch_command_ref : BatchCommand → Result BatchParameters
set_batch_command_ref command =
    let flags₁ : ℕ =
      if has_value command.serial_consistency then add_flag 0 with_serial_consistency else 0 in
    let flags₂ : ℕ =
      if has_value command.default_timestamp
      then add_flag flags₁ with_default_timestamp
      else flags₁ in
    if not command.is_valid
    then err logic_exception
    else if not (has_value command.consistency)
    then err logic_exception
    else ok (record { flags = flags₂; command = command })

-- `*optional`, which is undefined on an empty one.
abbrev pub value_of : Option ℕ → Result ℕ
value_of none = err out_of_range
value_of (some v) = ok v

-- A value that is encoded where its flag is set, and one that is decoded there.
unfoldable pub encode_flagged : ℕ → ℕ → ℕ → Option ℕ → Bytes → Result Bytes
encode_flagged flags f width value buffer =
    if has_flag flags f
    then (value_of value >>= λ v. ok (Integer.encode width v buffer))
    else ok buffer

unfoldable pub decode_flagged : ℕ → ℕ → ℕ → Bytes → Result (Option ℕ × Bytes)
decode_flagged flags f width bs =
    if has_flag flags f
    then (Integer.decode width bs >>= λ r. ok (some r.0, r.1))
    else ok (none, bs)

-- `ProtocolBatchParameters::encode`
unfoldable pub encode_parameters : BatchParameters → Bytes → Result Bytes
encode_parameters p buffer = if not p.command.is_valid then err logic_exception else do
  consistency ← value_of p.command.consistency
  let start = Integer.encode 1 p.flags (Integer.encode 2 consistency buffer)
  buffer' ← encode_flagged p.flags with_serial_consistency 2 p.command.serial_consistency start
  encode_flagged p.flags with_default_timestamp 8
      (map_option microseconds_of p.command.default_timestamp) buffer'

-- `ProtocolBatchParameters::decode`
unfoldable pub decode_parameters : Bytes → Result (BatchParameters × Bytes)
decode_parameters bs = do
  (consistency, r₁) ← Integer.decode 2 bs
  (flags, r₂) ← Integer.decode 1 r₁
  (serial, r₃) ← decode_flagged flags with_serial_consistency 2 r₂
  (timestamp, r₄) ← decode_flagged flags with_default_timestamp 8 r₃
  ok (
    record {
      flags = flags;
      command = record new_command {
        consistency = some consistency;
        serial_consistency = serial;
        default_timestamp = map_option time_point_of timestamp;
      };
    },
    r₄,
  )

abbrev pub Fits : ℕ → Option ℕ → Type 0
Fits width none = Unit {0}
Fits width (some v) = v < 256 ^ width

abbrev pub flagged_bytes : ℕ → Option ℕ → Bytes
flagged_bytes width none = []
flagged_bytes width (some v) = be_bytes width v

pub encode_flagged_lem :
    (flags f width : ℕ) (value : Option ℕ) (buffer : Bytes)
    → has_flag flags f ≡ has_value value
    → encode_flagged flags f width value buffer ≡ ok (buffer ++ flagged_bytes width value)
unfolding encode_flagged Integer.encode
encode_flagged_lem flags f width none buffer h = rw h (ap ok (sym (append-nil buffer)))
encode_flagged_lem flags f width (some v) buffer h = rw h refl

pub decode_flagged_lem :
    (flags f width : ℕ) (value : Option ℕ) (rest : Bytes)
    → has_flag flags f ≡ has_value value
    → Fits width value
    → decode_flagged flags f width (flagged_bytes width value ++ rest) ≡ ok (value, rest)
unfolding decode_flagged
decode_flagged_lem flags f width none rest h k = rw h refl
decode_flagged_lem flags f width (some v) rest h k = rw (h, decode-be_bytes width v rest k) refl
