-- ===== src/Response/Frames/Prefix.antt =====
-- What the server may send before a body: a tracing id, a custom payload and warnings.
use cpv_cql_driver.Common.{
  ℕ, ◌+◌, ◌^◌, ◌≤◌, ◌<◌, ◌≡◌, refl, arith, List, [], ◌++◌, append_assoc, Bool, true, false,
  if◌then◌else◌, length, length-append, leb, le→leb, All, Option, none, some, err, logic_exception,
  ◌>>=◌, Result, ok, Bytes, has_flag,
}
use cpv_cql_driver.Protocol.Integer.{be_bytes, max_length}
use cpv_cql_driver.Protocol.Integer.RoundTrip.{decode-be_bytes, length-be_bytes}
use cpv_cql_driver.Protocol.Integer
use cpv_cql_driver.Protocol.Lists.{string_element, encode_list, decode_list}
use cpv_cql_driver.Protocol.Lists.RoundTrip.{IsCoded, decode-encode_list}
use cpv_cql_driver.Protocol.Maps.{Entries, Rehash, encode_map, decode_map}
use cpv_cql_driver.Protocol.Maps.RoundTrip.{PairIsCoded, decode-encode_map}
use cpv_cql_driver.Protocol.SizedString.{SizedString}
use cpv_cql_driver.ColumnOption.{Store}
use cpv_cql_driver.Response.{string_multi_map, bytes_map}
use cpv_cql_driver.Response.Frames.{
  ResponseMessage, tracing, custom_payload, warning, decode_body, decode_content, discard_tracing,
  discard_payload, discard_warnings, decode_message,
}
use cpv_cql_driver.Uuid.Text.{Uuid, encode_uuid, decode_uuid}

-- Bytes that are there if a flag is.
abbrev pub given : Bool → Bytes → Bytes
given present bs = if present then bs else []

decode-encode_uuid :
    (u : Uuid) (rest : Bytes)
    → u.high < 2 ^ 64
    → u.low < 2 ^ 64
    → decode_uuid (encode_uuid u [] ++ rest) ≡ ok (u, rest)
unfolding decode_uuid encode_uuid Integer.encode
decode-encode_uuid u rest h k =
    let a = be_bytes 8 u.high in
    let b = be_bytes 8 u.low in
    let long : leb 16 (length ((a ++ b) ++ rest)) ≡ true =
      rw
        (
          length-append (a ++ b) rest,
          length-append a b,
          length-be_bytes 8 u.high,
          length-be_bytes 8 u.low,
        )
        (le→leb 16 (8 + 8 + length rest) (omega arith)) in
    rw
      (
        long,
        append_assoc a b rest,
        decode-be_bytes 8 u.high (b ++ rest) (omega arith),
        decode-be_bytes 8 u.low rest (omega arith),
      )
      refl

discard_tracing_lem :
    (flags : ℕ) (bs rest : Bytes) (u : Uuid)
    → decode_uuid (bs ++ rest) ≡ ok (u, rest)
    → (present : Bool) → has_flag flags tracing ≡ present
    → discard_tracing flags (given present bs ++ rest) ≡ ok rest
unfolding discard_tracing
discard_tracing_lem flags bs rest u e true h = rw (h, e) refl
discard_tracing_lem flags bs rest u e false h = rw h refl

discard_payload_lem :
    (order : Rehash bytes_map) (flags : ℕ) (bs rest : Bytes) (m : Entries bytes_map)
    → decode_map bytes_map order 2 (bs ++ rest) ≡ ok (m, rest)
    → (present : Bool) → has_flag flags custom_payload ≡ present
    → discard_payload order flags (given present bs ++ rest) ≡ ok rest
unfolding discard_payload
discard_payload_lem order flags bs rest m e true h = rw (h, e) refl
discard_payload_lem order flags bs rest m e false h = rw h refl

discard_warnings_lem :
    (old : List SizedString) (flags : ℕ) (bs rest : Bytes) (ws : List SizedString)
    → decode_list string_element 2 false old (bs ++ rest) ≡ ok (ws, rest)
    → (present : Bool) → has_flag flags warning ≡ present
    → discard_warnings old flags (given present bs ++ rest) ≡ ok rest
unfolding discard_warnings
discard_warnings_lem old flags bs rest ws e true h = rw (h, e) refl
discard_warnings_lem old flags bs rest ws e false h = rw h refl

-- The body after its decompression, if the frame is compressed.
abbrev pub plain_body : Bool → Option (Bytes → Result Bytes) → Bytes → Result Bytes
plain_body false compressor body = ok body
plain_body true none body = err logic_exception
plain_body true (some decompress) body = decompress body

decode_content_lem :
    (order : Rehash string_multi_map) (compressor : Option (Bytes → Result Bytes)) (flags : ℕ)
    (message : ResponseMessage) (body : Bytes) (s : Store) (compressed : Bool)
    → has_flag flags 1 ≡ compressed
    → decode_content order compressor flags message body s
      ≡ (plain_body compressed compressor body >>= λ b. decode_body order message b s)
unfolding decode_content
decode_content_lem order compressor flags message body s false h = rw h refl
decode_content_lem order none flags message body s true h = rw h refl
decode_content_lem order (some d) flags message body s true h = rw h refl

-- A tracing id of 128 bits, a custom payload and warnings that the header's flags announce, as the
-- types of the protocol encode them (each of at most 65535 entries, whose parts can be encoded and
-- decoded), are dropped from before the body in that order, whatever the static objects held: the
-- message is decoded from exactly the body if the compression flag is not set, from what the
-- decompressor makes of the body if it is; without a decompressor a LogicException is thrown then, and
-- an exception of the decompressor is passed on.
pub decode_message-drops_prefix :
    (order : Rehash string_multi_map) (payload_order : Rehash bytes_map)
    (compressor : Option (Bytes → Result Bytes)) (old : List SizedString) (flags : ℕ)
    (message : ResponseMessage) (body : Bytes) (s : Store) (u : Uuid) (payload : Entries bytes_map)
    (warnings : List SizedString)
    → u.high < 2 ^ 64
    → u.low < 2 ^ 64
    → length payload ≤ max_length 2 false
    → All (PairIsCoded bytes_map) payload
    → length warnings ≤ max_length 2 false
    → All (IsCoded string_element) warnings
    → (ps ws : Bytes) × (encode_map bytes_map 2 payload [] ≡ ok ps)
      × (encode_list string_element 2 false warnings [] ≡ ok ws)
      × (decode_message order payload_order compressor old flags message
            (given (has_flag flags 2) (encode_uuid u [])
              ++ (given (has_flag flags 4) ps ++ (given (has_flag flags 8) ws ++ body)))
            s
          ≡ (plain_body (has_flag flags 1) compressor body >>= λ b. decode_body order message b s))
unfolding decode_message
decode_message-drops_prefix order payload_order compressor old flags message body s u payload
      warnings high low few coded few' coded' =
    let (ws, e₁, d₁) =
      decode-encode_list string_element 2 false warnings old [] body (omega arith) few' coded' in
    let after_payload = given (has_flag flags warning) ws ++ body in
    let (ps, m, e₂, d₂, _, _, _) =
      decode-encode_map bytes_map payload_order 2 payload [] after_payload (omega arith) few
        coded in
    let after_tracing = given (has_flag flags custom_payload) ps ++ after_payload in
    (
      ps,
      ws,
      e₂,
      e₁,
      rw
          (
            discard_tracing_lem flags (encode_uuid u []) after_tracing u
                (decode-encode_uuid u after_tracing high low) (has_flag flags tracing) refl,
            discard_payload_lem payload_order flags ps after_payload m d₂
                (has_flag flags custom_payload) refl,
            discard_warnings_lem old flags ws body warnings d₁ (has_flag flags warning) refl,
          )
          (decode_content_lem order compressor flags message body s (has_flag flags 1) refl),
    )
