-- ===== src/Frame.antt =====
-- Frames: src/LowLevel/MessageHeader.cpp, src/LowLevel/ConnectionInfo.cpp and
-- Connection::encodeMessage of src/LowLevel/Connection.cpp. A frame is a header and a body.
pub mod RoundTrip
use cpv_cql_driver.Common.{
  ℕ, ◌+◌, ◌-◌, ◌*◌, ◌%◌, ◌^◌, List, [], ◌∷◌, ◌++◌, Bool, true, false, not, ltb, ◌==◌, if◌then◌else◌,
  length, take, drop, bit_and, bit_or, Option, none, some, Result, ok, err, ◌>>=◌, logic_exception,
  not_implemented_exception, Bytes,
}
use cpv_cql_driver.Protocol.Integer.{is_negative}
use cpv_cql_driver.Protocol.Integer

pub record ConnectionInfo : Type 0 where
  pub version : ℕ
  pub header_size : ℕ
  pub maximum_message_body_size : ℕ

-- `ConnectionInfo::useVersion`; the header is version 1, flags 1, stream 2, opcode 1 and length 4.
unfoldable pub use_version : ℕ → Result ConnectionInfo
use_version version =
    if version == 4
    then ok (record {
      version = version;
      header_size = 9;
      maximum_message_body_size = 256 * 1024 * 1024;
    })
    else err not_implemented_exception

pub data MessageDirection : Type 0 where
  request response : MessageDirection

-- The enumerators of MessageDirection; `Mask_` is that of `response`.
abbrev pub direction_value : MessageDirection → ℕ
direction_value request = 0
direction_value response = 0x80

-- The fields as bit patterns of their widths.
pub record MessageHeader : Type 0 where
  pub flags : ℕ
  pub stream_id : ℕ
  pub op_code : ℕ
  pub direction : MessageDirection
  pub body_length : ℕ

-- MessageHeaderFlags::Compression
abbrev pub compression : ℕ
compression = 1

-- `encodeHeaderPre`
unfoldable pub encode_header_pre : ConnectionInfo → MessageHeader → Bytes → Result Bytes
encode_header_pre info h (b ∷ data') = err logic_exception
encode_header_pre info h [] =
    let version = bit_or info.version (direction_value h.direction) % 256 in
    ok (
      Integer.encode 4 h.body_length (
        Integer.encode 1 h.op_code
          (Integer.encode 2 h.stream_id (Integer.encode 1 h.flags (Integer.encode 1 version [])))))

-- `encodeHeaderPost`: the length of the body is written over the last four bytes of the header.
unfoldable pub encode_header_post : ConnectionInfo → Bytes → Result Bytes
encode_header_post info buffer =
    if ltb (length buffer) info.header_size
    then err logic_exception
    else ok (
        take (info.header_size - 4) buffer
        ++ Integer.encode 4 ((length buffer - info.header_size) % 2 ^ 32) []
        ++ drop info.header_size buffer)

-- `version.get() & Mask_`, which is one of the two enumerators.
unfoldable pub direction_of : ℕ → MessageDirection
direction_of version = if bit_and version 0x80 == 0 then request else response

-- `decodeHeader`
unfoldable pub decode_header : Bytes → Result MessageHeader
unfolding direction_of
decode_header buffer = do
  (version, r₁) ← Integer.decode 1 buffer
  (flags, r₂) ← Integer.decode 1 r₁
  (stream_id, r₃) ← Integer.decode 2 r₂
  (op_code, r₄) ← Integer.decode 1 r₃
  (body_length, _) ← Integer.decode 4 r₄
  ok (record {
    flags = flags;
    stream_id = stream_id;
    op_code = op_code;
    direction = direction_of version;
    body_length = body_length;
  })

-- `getBodyLength`; [int] is signed.
unfoldable pub get_body_length : MessageHeader → Result ℕ
get_body_length h = if is_negative 4 h.body_length then err logic_exception else ok h.body_length

-- `setStreamId`; the field is set before the check.
unfoldable pub set_stream_id : MessageHeader → ℕ → MessageHeader × Result (Unit {0})
set_stream_id h stream_id =
    let kept = stream_id % 2 ^ 16 in
    (record h { stream_id = kept }, if not (kept == stream_id) then err logic_exception else ok tt)

-- `Connection::encodeMessage`: the header, with the flag of the compression if it is on, and the
-- bytes to send. The compressor is that of another library; the body is encoded before.
unfoldable pub encode_message :
    ConnectionInfo
    → Bool
    → Option (Bytes → Bytes)
    → MessageHeader
    → Bytes
    → Result (MessageHeader × Bytes)
encode_message info is_ready compressor h body =
    let plain : Result (MessageHeader × Bytes) = do
      pre ← encode_header_pre info h []
      frame ← encode_header_post info (pre ++ body)
      ok (h, frame)
    in if not is_ready then plain else (elim compressor [
      | none ↦ plain
      | some compress ↦
          let h' : MessageHeader = record h { flags = bit_or h.flags compression } in
          do
            pre ← encode_header_pre info h' []
            frame ← encode_header_post info (pre ++ compress body)
            ok (h', frame)
    ])
