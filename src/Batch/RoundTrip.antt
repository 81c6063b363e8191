-- ===== src/Batch/RoundTrip.antt =====
-- The parameters of a batch as they are sent and read back, and the timestamps of any command.
use cpv_cql_driver.Common.{
  ℕ, ◌^◌, ◌<◌, ◌≡◌, ◌∙◌, refl, sym, ap, ap₂, arith, ◌++◌, append_assoc, true, if◌then◌else◌, Option,
  none, some, map_option, ok, ◌>>=◌, Bytes, has_flag, add_flag,
}
use cpv_cql_driver.Protocol.Integer.{be_bytes}
use cpv_cql_driver.Protocol.Integer.RoundTrip.{decode-be_bytes}
use cpv_cql_driver.Protocol.Integer
use cpv_cql_driver.Protocol.Timestamp.{
  microseconds_of, time_point_of, cut_to_microseconds, microseconds_of-lt, time_point-microseconds,
}
use cpv_cql_driver.Batch.Parameters.{
  BatchCommand, BatchParameters, new_command, has_value, with_serial_consistency,
  with_default_timestamp, set_batch_command_ref, encode_flagged, encode_parameters,
  decode_parameters, Fits, flagged_bytes, encode_flagged_lem, decode_flagged_lem,
}

pub has_value-map : (o : Option ℕ) → has_value (map_option microseconds_of o) ≡ has_value o
has_value-map none = refl
has_value-map (some t) = refl

pub Fits-microseconds : (o : Option ℕ) → Fits 8 o → Fits 8 (map_option microseconds_of o)
Fits-microseconds none h = tt
Fits-microseconds (some t) h = microseconds_of-lt t h

pub time_points-microseconds :
    (o : Option ℕ)
    → Fits 8 o
    → map_option time_point_of (map_option microseconds_of o) ≡ map_option cut_to_microseconds o
time_points-microseconds none h = refl
time_points-microseconds (some t) h = ap some (time_point-microseconds t h)

-- The flags that `setBatchCommandRef` sets.
abbrev flags_for : Option ℕ → Option ℕ → ℕ
flags_for serial timestamp =
    let flags₁ : ℕ = if has_value serial then add_flag 0 with_serial_consistency else 0 in
    if has_value timestamp then add_flag flags₁ with_default_timestamp else flags₁

flags_for_lem :
    (serial timestamp : Option ℕ)
    → let flags = flags_for serial timestamp in
      (flags < 256)
      × (has_flag flags with_serial_consistency ≡ has_value serial)
      × (has_flag flags with_default_timestamp ≡ has_value timestamp)
flags_for_lem none none = (omega arith, refl, refl)
flags_for_lem none (some t) = (omega arith, refl, refl)
flags_for_lem (some c) none = (omega arith, refl, refl)
flags_for_lem (some c) (some t) = (omega arith, refl, refl)

module _ (flags c : ℕ) (serial timestamp : Option ℕ)
    (h : has_flag flags with_serial_consistency ≡ has_value serial)
    (k : has_flag flags with_default_timestamp ≡ has_value timestamp) where
  parameter_bytes : Bytes
  parameter_bytes =
      be_bytes 2 c ++ (be_bytes 1 flags ++ (flagged_bytes 2 serial ++ flagged_bytes 8 timestamp))

  encode_values :
      (buffer : Bytes)
      → (encode_flagged flags with_serial_consistency 2 serial
            ((buffer ++ be_bytes 2 c) ++ be_bytes 1 flags)
          >>= encode_flagged flags with_default_timestamp 8 timestamp)
        ≡ ok (buffer ++ parameter_bytes)
  unfolding parameter_bytes
  encode_values buffer =
      let a = be_bytes 2 c in
      let b = be_bytes 1 flags in
      let s = flagged_bytes 2 serial in
      let t = flagged_bytes 8 timestamp in
      rw (encode_flagged_lem flags 16 2 serial ((buffer ++ a) ++ b) h) (
        encode_flagged_lem flags 32 8 timestamp (((buffer ++ a) ++ b) ++ s) k
        ∙ ap ok (
            append_assoc ((buffer ++ a) ++ b) s t
            ∙ append_assoc (buffer ++ a) b (s ++ t)
            ∙ append_assoc buffer a (b ++ (s ++ t))))

  decode_values :
      (rest : Bytes)
      → c < 2 ^ 16
      → flags < 256
      → Fits 2 serial
      → Fits 8 timestamp
      → decode_parameters (parameter_bytes ++ rest)
        ≡ ok (
          record {
            flags = flags;
            command = record new_command {
              consistency = some c;
              serial_consistency = serial;
              default_timestamp = map_option time_point_of timestamp;
            };
          },
          rest,
        )
  unfolding decode_parameters parameter_bytes
  decode_values rest small byte s t =
      rw
        (
          append_assoc (be_bytes 2 c)
              (be_bytes 1 flags ++ (flagged_bytes 2 serial ++ flagged_bytes 8 timestamp)) rest,
          append_assoc (be_bytes 1 flags) (flagged_bytes 2 serial ++ flagged_bytes 8 timestamp)
              rest,
          append_assoc (flagged_bytes 2 serial) (flagged_bytes 8 timestamp) rest,
          decode-be_bytes 2 c _ small,
          decode-be_bytes 1 flags _ byte,
          decode_flagged_lem flags 16 2 serial (flagged_bytes 8 timestamp ++ rest) h s,
          decode_flagged_lem flags 32 8 timestamp rest k t,
        )
        refl

-- The parameters of a valid batch command with a consistency are encoded to the end of any buffer,
-- if its values fit their widths, and are decoded from the front of any bytes to the same flags and
-- values, the timestamp cut to microseconds; the queries are not among them.
pub decode-encode_parameters :
    (command : BatchCommand) (consistency : ℕ) (buffer rest : Bytes)
    → command.is_valid ≡ true
    → command.consistency ≡ some consistency
    → consistency < 2 ^ 16
    → Fits 2 command.serial_consistency
    → Fits 8 command.default_timestamp
    → (p : BatchParameters) × (out : Bytes) × (set_batch_command_ref command ≡ ok p)
      × (encode_parameters p buffer ≡ ok (buffer ++ out))
      × (decode_parameters (out ++ rest)
          ≡ ok (
            record p {
              command = record new_command {
                consistency = command.consistency;
                serial_consistency = command.serial_consistency;
                default_timestamp = map_option cut_to_microseconds command.default_timestamp;
              };
            },
            rest,
          ))
unfolding set_batch_command_ref encode_parameters decode_parameters Integer.encode
decode-encode_parameters command consistency buffer rest valid e small s t =
    let serial = command.serial_consistency in
    let timestamp = command.default_timestamp in
    let flags = flags_for serial timestamp in
    let sent = map_option microseconds_of timestamp in
    let (byte, h, k) = flags_for_lem serial timestamp in
    let k' = k ∙ sym (has_value-map timestamp) in
    (
      record { flags = flags; command = command },
      parameter_bytes flags consistency serial sent h k',
      simp (valid, e),
      simp (valid, e) (encode_values flags consistency serial sent h k' buffer),
      decode_values flags consistency serial sent h k' rest small byte s
            (Fits-microseconds timestamp t)
          ∙ ap₂
              (λ o u. ok (
                record {
                  flags = flags;
                  command = record new_command {
                    consistency = o;
                    serial_consistency = serial;
                    default_timestamp = u;
                  };
                },
                rest,
              ))
              (sym e) (time_points-microseconds timestamp t),
    )
