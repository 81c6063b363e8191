-- ===== src/Tests/ResponseRuns.antt =====
-- Runs of the messages of the server.
use cpv_cql_driver.Common.{
  ◌≡◌, refl, arith, [], ◌∷◌, ◌++◌, ◌>>=◌, false, none, some, ok, err, logic_exception, Bytes,
  has_flag, not_implemented_exception, decode_exception, length,
}
use cpv_cql_driver.Protocol.Integer.{be_bytes}
use cpv_cql_driver.Protocol.Lists.{string_element, encode_list}
use cpv_cql_driver.Protocol.Lists.RoundTrip.{string-IsCoded}
use cpv_cql_driver.Protocol.Maps.{Rehash, encode_map}
use cpv_cql_driver.Protocol.SizedString.{SizedString}
use cpv_cql_driver.ColumnOption.{Store}
use cpv_cql_driver.ResultMetadata.{new_rows_metadata, encode_rows_metadata}
use cpv_cql_driver.ResultMetadata.RoundTrip.Whole.{metadata_of}
use cpv_cql_driver.Response.{
  ResultMessage, new_result, string_multi_map, bytes_map, kind_rows, decode_result_body,
}
use cpv_cql_driver.Response.Rows.{pages_of, decode_result_body-rows}
use cpv_cql_driver.Response.Frames.{
  ResponseMessage, error, ready, make_response_message, decode_body, decode_content, decode_message,
  tracing, custom_payload, warning,
}
use cpv_cql_driver.Response.Frames
use cpv_cql_driver.Response.Frames.Prefix.{given, plain_body, decode_message-drops_prefix}
use cpv_cql_driver.Tests.ColumnRuns.{page, page-Fits, unused}
use cpv_cql_driver.Uuid.Text.{Uuid, encode_uuid, decode_uuid}

decode_result_body-rows_example :
    (head : Bytes) × (decoded : ResultMessage) × (s' : Store) × (encode_rows_metadata
        (metadata_of page)
        (be_bytes 4 kind_rows)
      ≡ ok head)
    × (decode_result_body new_result (head ++ (be_bytes 4 2 ++ 7 ∷ 8 ∷ [])) unused
        ≡ ok (decoded, s'))
    × (decoded.result_set
        ≡ some (record {
          rows_count = 2;
          columns_count = length page.columns;
          paging_state = pages_of page new_rows_metadata;
          cells = 7 ∷ 8 ∷ [];
        }))
    × (decoded.rows_metadata.paging_state.value ≡ [])
decode_result_body-rows_example =
    decode_result_body-rows page new_result 2 (7 ∷ 8 ∷ []) unused page-Fits (omega arith)

abbrev options_order : Rehash string_multi_map
options_order = record {
  arrange = λ m. m;
  arrange-IsDistinct = λ m h. h;
  lookup-arrange = λ m h j. refl;
}

abbrev payload_order : Rehash bytes_map
payload_order = record {
  arrange = λ m. m;
  arrange-IsDistinct = λ m h. h;
  lookup-arrange = λ m h j. refl;
}

abbrev trace : Uuid
trace = record { high = 5; low = 6 }

abbrev advice : SizedString
advice = record { state = 0; value = 65 ∷ 66 ∷ [] }

abbrev code_and_text : Bytes
code_and_text = 0 ∷ 0 ∷ 0 ∷ 10 ∷ 0 ∷ 1 ∷ 67 ∷ []

decode_message-drops_prefix_example :
    (ps ws : Bytes) × (encode_map bytes_map 2 [] [] ≡ ok ps)
    × (encode_list string_element 2 false (advice ∷ []) [] ≡ ok ws)
    × (decode_message options_order payload_order none [] 10
          (error none)
          (given (has_flag 10 2) (encode_uuid trace [])
            ++ (given (has_flag 10 4) ps ++ (given (has_flag 10 8) ws ++ code_and_text)))
          unused
        ≡ (plain_body (has_flag 10 1) none code_and_text >>= λ b.
            decode_body options_order (error none) b unused))
decode_message-drops_prefix_example =
    decode_message-drops_prefix options_order payload_order none [] 10 (error none) code_and_text
      unused trace [] (advice ∷ []) (omega arith) (omega arith) (omega arith) tt (omega arith)
      (string-IsCoded advice refl (omega arith), tt)

-- A compressed frame on a connection without a compressor.
refuses_compression :
    decode_message options_order payload_order none [] 1 (error none) code_and_text unused
    ≡ err logic_exception
unfolding decode_message decode_content Frames.discard_tracing Frames.discard_payload
    Frames.discard_warnings
refuses_compression = refl

-- The tracing id of a compressed frame is taken from the compressed bytes.
traces_before_decompression :
    decode_message options_order payload_order
      (some (λ bs. ok code_and_text))
      []
      3
      (error none)
      (1 ∷ 2 ∷ 3 ∷ [])
      unused
    ≡ err decode_exception
unfolding decode_message Frames.discard_tracing decode_uuid
traces_before_decompression = refl

unknown_op_code : make_response_message new_result 7 ≡ err not_implemented_exception
unfolding make_response_message
unknown_op_code = refl
