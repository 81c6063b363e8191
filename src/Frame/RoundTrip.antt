-- ===== src/Frame/RoundTrip.antt =====
-- A frame that is sent can be read back.
use cpv_cql_driver.Common.{
  ℕ, ◌-◌, ◌*◌, ◌%◌, ◌^◌, ◌≤◌, ◌<◌, ◌≡◌, ◌⊎◌, refl, sym, ap, subst, inl, inr, [], ◌++◌, Bool, true,
  false, arith, ltb, le→ltb, eq→==, Bool-cases, length, take, drop, bit_or, Option, none, some, ok,
  err, logic_exception, Bytes,
}
use cpv_cql_driver.Protocol.Integer.{be_bytes, is_negative}
use cpv_cql_driver.Protocol.Integer
use cpv_cql_driver.Protocol.Integer.RoundTrip.{decode-be_bytes}
use cpv_cql_driver.Frame.{
  ConnectionInfo, use_version, MessageDirection, request, response, direction_value, MessageHeader,
  compression, encode_header_pre, encode_header_post, direction_of, decode_header, get_body_length,
  set_stream_id, encode_message,
}

abbrev pub version_four : ConnectionInfo
version_four = record {
  version = 4;
  header_size = 9;
  maximum_message_body_size = 256 * 1024 * 1024;
}

-- The nine bytes of a header.
abbrev header_bytes : ℕ → ℕ → ℕ → ℕ → ℕ → Bytes
header_bytes v f s o l =
    be_bytes 1 v ++ be_bytes 1 f ++ be_bytes 2 s ++ be_bytes 1 o ++ be_bytes 4 l

abbrev version_byte : MessageDirection → ℕ
version_byte d = bit_or 4 (direction_value d) % 256

direction-version_byte :
    (d : MessageDirection) → (version_byte d < 256) × (direction_of (version_byte d) ≡ d)
unfolding direction_of
direction-version_byte request = (omega arith, refl)
direction-version_byte response = (omega arith, refl)

encode_header_pre_lem :
    (h : MessageHeader)
    → encode_header_pre version_four h []
      ≡ ok (header_bytes (version_byte h.direction) h.flags h.stream_id h.op_code h.body_length)
unfolding encode_header_pre Integer.encode be_bytes
encode_header_pre_lem h = refl

encode_header_post_lem :
    (v f s o l : ℕ) (body : Bytes)
    → length body < 2 ^ 32
    → encode_header_post version_four (header_bytes v f s o l ++ body)
      ≡ ok (header_bytes v f s o (length body) ++ body)
unfolding encode_header_post Integer.encode be_bytes
encode_header_post_lem v f s o l body h =
    let buffer : Bytes = header_bytes v f s o l ++ body in
    let fits : (length buffer - 9) % 2 ^ 32 ≡ length body = omega arith in
    rw (le→ltb (length buffer) 9 (omega arith), encode_header_post)
      (ap
        (λ n.
          ok (be_bytes 1 v ++ be_bytes 1 f ++ be_bytes 2 s ++ be_bytes 1 o ++ be_bytes 4 n ++ body))
        fits)

decode_header_lem :
    (h : MessageHeader) (l : ℕ) (rest : Bytes)
    → h.flags < 256
    → h.stream_id < 2 ^ 16
    → h.op_code < 256
    → l < 2 ^ 32
    → decode_header
        (header_bytes (version_byte h.direction) h.flags h.stream_id h.op_code l ++ rest)
      ≡ ok (record h { body_length = l })
unfolding decode_header Integer.decode be_bytes
decode_header_lem h l rest f s o b =
    let (small, way) = direction-version_byte h.direction in
    rw
      (
        decode-be_bytes 1 (version_byte h.direction) _ small,
        decode-be_bytes 1 h.flags _ f,
        decode-be_bytes 2 h.stream_id _ s,
        decode-be_bytes 1 h.op_code _ o,
        decode-be_bytes 4 l rest b,
      )
      (ap (λ d. ok (record h { direction = d; body_length = l })) way)

-- The header with its flags, and the body, as they are sent.
abbrev pub sent : Bool → Option (Bytes → Bytes) → MessageHeader → Bytes → MessageHeader × Bytes
sent false compressor h body = (h, body)
sent true none h body = (h, body)
sent true (some compress) h body = (record h { flags = bit_or h.flags compression }, compress body)

-- The bytes on the wire start with a header of `header_size` bytes that is read back with the
-- length of the body, and end with the body.
abbrev pub IsFrame : ConnectionInfo → MessageHeader → Bytes → Bytes → Type 0
IsFrame info h body wire =
    let read : MessageHeader = record h { body_length = length body } in
    (decode_header (take info.header_size wire) ≡ ok read)
    × (get_body_length read ≡ ok (length body))
    × (drop info.header_size wire ≡ body)

plain-IsFrame :
    (h : MessageHeader) (body : Bytes)
    → h.flags < 256
    → h.stream_id < 2 ^ 16
    → h.op_code < 256
    → length body < 2 ^ 31
    → IsFrame version_four h body (
        header_bytes (version_byte h.direction) h.flags h.stream_id h.op_code (length body) ++ body)
unfolding be_bytes get_body_length
plain-IsFrame h body f s o b =
    (decode_header_lem h (length body) [] f s o (omega arith), ground arith, refl)

encode_message_lem :
    (is_ready : Bool) (compressor : Option (Bytes → Bytes)) (h : MessageHeader) (body : Bytes)
    → let (h', body') = sent is_ready compressor h body in
      length body' < 2 ^ 31
      → encode_message version_four is_ready compressor h body
        ≡ ok (
          h',
          header_bytes (version_byte h'.direction) h'.flags h'.stream_id h'.op_code (length body')
              ++ body',
        )
unfolding encode_message
encode_message_lem false compressor h body b =
    rw (encode_header_pre_lem h) (rw (encode_header_post_lem _ _ _ _ _ body (omega arith)) refl)
encode_message_lem true none h body b =
    rw (encode_header_pre_lem h) (rw (encode_header_post_lem _ _ _ _ _ body (omega arith)) refl)
encode_message_lem true (some compress) h body b =
    rw (encode_header_pre_lem (record h { flags = bit_or h.flags compression }))
      (rw (encode_header_post_lem _ _ _ _ _ (compress body) (omega arith)) refl)

use_version_lem :
    (version : ℕ) (info : ConnectionInfo) → use_version version ≡ ok info → info ≡ version_four
unfolding use_version
use_version_lem version info e = ground arith

-- A message is encoded, whether it is compressed or not, to a frame from which the header is read
-- back, with the length of the body that follows it, if the fields fit their widths and the body as
-- it is sent is shorter than 2 ^ 31 bytes.
pub encode_message-IsFrame :
    (version : ℕ) (info : ConnectionInfo) (is_ready : Bool) (compressor : Option (Bytes → Bytes))
    (h : MessageHeader) (body : Bytes)
    → let (h', body') = sent is_ready compressor h body in
      use_version version ≡ ok info
      → h'.flags < 256
      → h'.stream_id < 2 ^ 16
      → h'.op_code < 256
      → length body' < 2 ^ 31
      → (wire : Bytes) × (encode_message info is_ready compressor h body ≡ ok (h', wire))
        × IsFrame info h' body' wire
encode_message-IsFrame version info is_ready compressor h body v f s o b =
    let (h', body') = sent is_ready compressor h body in
    subst
      (λ i.
        (wire : Bytes) × (encode_message i is_ready compressor h body ≡ ok (h', wire))
        × IsFrame i h' body' wire)
      (sym (use_version_lem version info v))
      (_, encode_message_lem is_ready compressor h body b, plain-IsFrame h' body' f s o b)

-- `setStreamId` keeps a stream id up to 0xffff and refuses any other.
pub set_stream_id_lem :
    (h : MessageHeader) (stream_id : ℕ)
    → ((stream_id < 2 ^ 16)
        × (set_stream_id h stream_id ≡ (record h { stream_id = stream_id }, ok tt)))
      ⊎ ((2 ^ 16 ≤ stream_id) × ((set_stream_id h stream_id).1 ≡ err logic_exception))
unfolding set_stream_id
set_stream_id_lem h stream_id = elim (Bool-cases (ltb stream_id (2 ^ 16))) [
  | inl small ↦
      let e : stream_id % 2 ^ 16 ≡ stream_id = ground (arith, small) in
      inl (ground (arith, small), rw (e, eq→== stream_id stream_id refl) refl)
  | inr big ↦ inr (ground (arith, big), ground (arith, big))
]
