-- ===== src/Tests/FrameRuns.antt =====
-- Runs of the frames, of lists and of the body of a batch.
use cpv_cql_driver.Common.{
  ◌^◌, ◌≡◌, refl, List, [], ◌∷◌, ◌++◌, true, false, arith, ltb, if◌then◌else◌, length, All, some,
  ok, err, logic_exception, Bytes, ◌>>=◌, ◌%◌,
}
use cpv_cql_driver.Frame.{request, MessageHeader, encode_message, use_version}
use cpv_cql_driver.Frame.RoundTrip.{version_four, IsFrame, sent, encode_message-IsFrame}
use cpv_cql_driver.Protocol.Integer.{be_bytes}
use cpv_cql_driver.Protocol.Integer
use cpv_cql_driver.Protocol.SizedString.{SizedString}
use cpv_cql_driver.Protocol.Lists.{string_element, to_size, encode_list, decode_list}
use cpv_cql_driver.Protocol.Lists.Reference.{decode_plain, decode_list_lem}
use cpv_cql_driver.Protocol.Lists.RoundTrip.{IsCoded, string-IsCoded, decode-encode_list}
use cpv_cql_driver.Batch.Parameters.{BatchCommand, BatchParameters, new_command, encode_parameters}
use cpv_cql_driver.Batch.Body.{encode_body}
use cpv_cql_driver.Batch.Statements.{statements, is_any_too_long, all_bytes, encode_body_lem}

abbrev header : MessageHeader
header = record { flags = 0; stream_id = 258; op_code = 7; direction = request; body_length = 0 }

abbrev shrink : Bytes → Bytes
shrink body = 1 ∷ []

version_known : use_version 4 ≡ ok version_four
unfolding use_version
version_known = refl

encode_message-IsFrame_example :
    (wire : Bytes) × (encode_message version_four true (some shrink) header (5 ∷ 6 ∷ [])
      ≡ ok ((sent true (some shrink) header (5 ∷ 6 ∷ [])).0, wire))
    × IsFrame version_four (sent true (some shrink) header (5 ∷ 6 ∷ [])).0 (1 ∷ []) wire
encode_message-IsFrame_example =
    encode_message-IsFrame 4 version_four true (some shrink) header (5 ∷ 6 ∷ []) version_known
      (omega arith) (omega arith) (omega arith) (omega arith)

abbrev letter : SizedString
letter = record { state = 0; value = 65 ∷ [] }

abbrev letters : List SizedString
letters = letter ∷ letter ∷ []

letters-IsCoded : All (IsCoded string_element) letters
letters-IsCoded =
    (string-IsCoded letter refl (omega arith), (string-IsCoded letter refl (omega arith), tt))

decode_list_lem_example : decode_list string_element 2 false letters (0 ∷ 1 ∷ 0 ∷ 0 ∷ []) ≡ (
    Integer.decode 2 (0 ∷ 1 ∷ 0 ∷ 0 ∷ []) >>= λ r.
    decode_plain string_element (to_size 2 false r.0) r.1)
decode_list_lem_example = decode_list_lem string_element 2 false letters (0 ∷ 1 ∷ 0 ∷ 0 ∷ [])

decode-encode_list_example :
    (out : Bytes) × (encode_list string_element 2 false letters (9 ∷ []) ≡ ok ((9 ∷ []) ++ out))
    × (decode_list string_element 2 false [] (out ++ 7 ∷ []) ≡ ok (letters, 7 ∷ []))
decode-encode_list_example =
    decode-encode_list string_element 2 false letters [] (9 ∷ []) (7 ∷ []) (omega arith)
      (omega arith) letters-IsCoded

abbrev batch : BatchCommand
batch = record new_command {
  consistency = some 4;
  default_timestamp = some 77;
  queries =
      record { query_str = 97 ∷ []; parameter_sets = (1, 0 ∷ 0 ∷ 0 ∷ 0 ∷ []) ∷ [] }
      ∷ record { query_str = 98 ∷ []; parameter_sets = [] }
      ∷ [];
}

abbrev parameters : BatchParameters
parameters = record { flags = 32; command = batch }

encode_body_lem_example :
    let xs = statements ([] ∷ (5 ∷ []) ∷ []) batch.queries in
    encode_body parameters ([] ∷ (5 ∷ []) ∷ []) [] ≡ (
      if ltb (length xs) (2 ^ 16)
      then (if is_any_too_long xs
          then err logic_exception
          else encode_parameters parameters
              ((([] ++ be_bytes 1 (0 % 256)) ++ be_bytes 2 (length xs)) ++ all_bytes xs))
      else err logic_exception)
encode_body_lem_example = encode_body_lem parameters ([] ∷ (5 ∷ []) ∷ []) [] refl
