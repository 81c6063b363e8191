-- ===== src/Response/Rows.antt =====
-- The result of a select: what ResultMessage makes of its body.
use cpv_cql_driver.Common.{
  ℕ, ◌^◌, ◌<◌, ◌≡◌, refl, arith, [], append_assoc, false, ◌++◌, some, ok, lt→leb, length, Bytes,
  if◌then◌else◌, has_flag,
}
use cpv_cql_driver.Protocol.Integer.{be_bytes, is_negative}
use cpv_cql_driver.Protocol.Integer.RoundTrip.{decode-be_bytes}
use cpv_cql_driver.Protocol.Lists.{to_size}
use cpv_cql_driver.ColumnOption.{Store}
use cpv_cql_driver.ColumnOption.RoundTrip.Elements.{normal_string}
use cpv_cql_driver.ResultMetadata.{
  RowsMetadata, encode_rows_metadata, has_more_pages, get_columns_count,
}
use cpv_cql_driver.ResultMetadata.RoundTrip.Whole.{
  RowsSpec, Fits, metadata_of, read_over, decode-encode_rows_metadata,
}
use cpv_cql_driver.Response.{ResultMessage, ResultSet, kind_rows, decode_rows, decode_result_body}

-- The paging state of the result set: that of the response, if it carries one.
abbrev pub pages_of : RowsSpec → RowsMetadata → Bytes
pages_of m old =
    let pages =
      if has_flag m.flags has_more_pages then normal_string m.paging_state else old.paging_state in
    pages.value

abbrev set_of : RowsSpec → RowsMetadata → ℕ → Bytes → ResultSet
set_of m old count cells = record {
  rows_count = count;
  columns_count = length m.columns;
  paging_state = pages_of m old;
  cells = cells;
}

abbrev message_of : RowsSpec → ResultMessage → ℕ → Bytes → ResultMessage
message_of m old count cells =
    let metadata = read_over m old.rows_metadata in
    record old {
      kind = kind_rows;
      rows_metadata = record metadata {
        paging_state = record metadata.paging_state { value = [] };
      };
      rows_count = count;
      result_set = some (set_of m old.rows_metadata count cells);
    }

-- The body of a result with rows (its kind, metadata that fits, a row count that is not negative, and
-- the cells) is decoded into any message so that the result set has the counts of rows and columns of
-- the response, exactly its cells, and its paging state if it carries one, else the one that the
-- message's metadata held; the metadata is left without a paging state.
pub decode_result_body-rows :
    (m : RowsSpec) (old : ResultMessage) (count : ℕ) (cells : Bytes) (s : Store)
    → Fits m
    → count < 2 ^ 31
    → (head : Bytes) × (decoded : ResultMessage) × (s' : Store) × (encode_rows_metadata
          (metadata_of m)
          (be_bytes 4 kind_rows)
        ≡ ok head)
      × (decode_result_body old (head ++ (be_bytes 4 count ++ cells)) s ≡ ok (decoded, s'))
      × (decoded.result_set
          ≡ some (record {
            rows_count = count;
            columns_count = length m.columns;
            paging_state = pages_of m old.rows_metadata;
            cells = cells;
          }))
      × (decoded.rows_metadata.paging_state.value ≡ [])
unfolding decode_result_body decode_rows get_columns_count to_size
decode_result_body-rows m old count cells s fits small =
    let tail = be_bytes 4 count ++ cells in
    let (out, s', encoded, decoded) =
      decode-encode_rows_metadata m fits old.rows_metadata (be_bytes 4 kind_rows) tail s in
    let few : is_negative 4 (length m.columns) ≡ false =
      lt→leb (2 ^ 31) (length m.columns) fits.count_fits in
    let positive : is_negative 4 count ≡ false = lt→leb (2 ^ 31) count small in
    (
      be_bytes 4 kind_rows ++ out,
      message_of m old count cells,
      s',
      encoded,
      rw
          (
            append_assoc (be_bytes 4 kind_rows) out tail,
            decode-be_bytes 4 kind_rows (out ++ tail) (omega arith),
            decoded,
            decode-be_bytes 4 count cells (omega arith),
            few,
            positive,
          )
          refl,
      refl,
      refl,
    )
