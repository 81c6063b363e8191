-- ===== src/Response/Frames.antt =====
-- `ResponseMessageFactory::makeResponseMessage`, the `decodeBody` of a message of any kind, and
-- `Connection::decodeMessage`, which drops what precedes a body.
pub mod Prefix
use cpv_cql_driver.Common.{
  ℕ, Bool, true, false, ◌==◌, if◌then◌else◌, List, [], Option, none, some, Result, ok, err, ◌>>=◌,
  logic_exception, not_implemented_exception, Bytes, has_flag,
}
use cpv_cql_driver.Protocol.Lists.{string_element, decode_list}
use cpv_cql_driver.Protocol.Maps.{Entries, Rehash, decode_map}
use cpv_cql_driver.Protocol.SizedString.{SizedString, decode_bytes, decode_string}
use cpv_cql_driver.ColumnOption.{Store}
use cpv_cql_driver.Frame.{compression}
use cpv_cql_driver.Response.{
  ErrorMessage, EventMessage, ResultMessage, reset_result, decode_error_body, decode_event_body,
  decode_result_body, string_multi_map, bytes_map,
}
use cpv_cql_driver.Uuid.Text.{decode_uuid}

-- The subclasses of ResponseMessageBase with what their bodies hold.
pub data ResponseMessage : Type 0 where
  result : ResultMessage → ResponseMessage
  error : Option ErrorMessage → ResponseMessage
  event : Option EventMessage → ResponseMessage
  ready : ResponseMessage
  supported : Entries string_multi_map → ResponseMessage
  authenticate : Option SizedString → ResponseMessage
  auth_success : Option SizedString → ResponseMessage
  auth_challenge : Option SizedString → ResponseMessage

-- `makeResponseMessage` of an operation code; `used` is the result message that was freed last, the
-- other classes being emptied by their `reset`.
unfoldable pub make_response_message : ResultMessage → ℕ → Result ResponseMessage
make_response_message used op_code =
    if op_code == 8
    then ok (result (reset_result used))
    else if op_code == 0
    then ok (error none)
    else if op_code == 0xc
    then ok (event none)
    else if op_code == 2
    then ok ready
    else if op_code == 6
    then ok (supported [])
    else if op_code == 3
    then ok (authenticate none)
    else if op_code == 0x10
    then ok (auth_success none)
    else if op_code == 0xe
    then ok (auth_challenge none)
    else err not_implemented_exception

-- MessageHeaderFlags; `Compression` is with the frames.
abbrev pub tracing : ℕ
tracing = 2

abbrev pub custom_payload : ℕ
custom_payload = 4

abbrev pub warning : ℕ
warning = 8

module _ (order : Rehash string_multi_map) where
  -- `decodeBody`
  unfoldable pub decode_body : ResponseMessage → Bytes → Store → Result (ResponseMessage × Store)
  decode_body (result m) bs s = do (m', s') ← decode_result_body m bs s; ok (result m', s')
  decode_body (error old) bs s = do m ← decode_error_body bs; ok (error (some m), s)
  decode_body (event old) bs s = do m ← decode_event_body bs; ok (event (some m), s)
  decode_body ready bs s = ok (ready, s)
  decode_body (supported old) bs s = do
    (options, _) ← decode_map string_multi_map order 2 bs
    ok (supported options, s)
  decode_body (authenticate old) bs s = do
    (name, _) ← decode_string bs
    ok (authenticate (some name), s)
  decode_body (auth_success old) bs s = do
    (token, _) ← decode_bytes bs
    ok (auth_success (some token), s)
  decode_body (auth_challenge old) bs s = do
    (token, _) ← decode_bytes bs
    ok (auth_challenge (some token), s)

  -- The last part of `decodeMessage`; the decompressor is that of another library.
  unfoldable pub decode_content :
      Option (Bytes → Result Bytes)
      → ℕ
      → ResponseMessage
      → Bytes
      → Store
      → Result (ResponseMessage × Store)
  decode_content compressor flags message buffer s =
      if has_flag flags compression
      then (elim compressor [
        | none ↦ err logic_exception
        | some decompress ↦ do output ← decompress buffer; decode_body message output s
      ])
      else decode_body message buffer s

unfoldable pub discard_tracing : ℕ → Bytes → Result Bytes
discard_tracing flags buffer =
    if has_flag flags tracing then (do (_, r) ← decode_uuid buffer; ok r) else ok buffer

unfoldable pub discard_payload : Rehash bytes_map → ℕ → Bytes → Result Bytes
discard_payload order flags buffer =
    if has_flag flags custom_payload
    then (do (_, r) ← decode_map bytes_map order 2 buffer; ok r)
    else ok buffer

-- `old` is what the static list of warnings held.
unfoldable pub discard_warnings : List SizedString → ℕ → Bytes → Result Bytes
discard_warnings old flags buffer =
    if has_flag flags warning
    then (do (_, r) ← decode_list string_element 2 false old buffer; ok r)
    else ok buffer

-- `Connection::decodeMessage`
unfoldable pub decode_message :
    Rehash string_multi_map
    → Rehash bytes_map
    → Option (Bytes → Result Bytes)
    → List SizedString
    → ℕ
    → ResponseMessage
    → Bytes
    → Store
    → Result (ResponseMessage × Store)
decode_message order payload_order compressor old flags message buffer s = do
  b₁ ← discard_tracing flags buffer
  b₂ ← discard_payload payload_order flags b₁
  b₃ ← discard_warnings old flags b₂
  decode_content order compressor flags message b₃ s
