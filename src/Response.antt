-- ===== src/Response.antt =====
-- src/LowLevel/ResponseMessages: the messages that the server sends, ResponseMessageFactory and
-- Connection::decodeMessage of src/LowLevel/Connection.cpp.
pub mod Frames
pub mod Rows
use cpv_cql_driver.Common.{
  ℕ, ◌+◌, ◌-◌, ◌^◌, ◌≡◌, ◌∙◌, refl, sym, List, [], ◌∷◌, Bool, true, false, ◌==◌, if◌then◌else◌,
  Option, none, some, Result, ok, err, ◌>>=◌, logic_exception, not_implemented_exception, Bytes,
  has_flag,
}
use cpv_cql_driver.Protocol.Integer
use cpv_cql_driver.Protocol.Lists.{ElementCodec, string_element, to_size, encode_list, decode_list}
use cpv_cql_driver.Protocol.Lists.Reference.{decode_list_lem}
use cpv_cql_driver.Protocol.Maps.{
  MapCodec, Entries, Rehash, decode_map, same_string, same_string-congruent,
}
use cpv_cql_driver.Protocol.SizedString.{
  SizedString, bytes_traits, string_traits, decode_bytes, decode_string,
}
use cpv_cql_driver.Protocol.SizedString
use cpv_cql_driver.ColumnOption.{Store}
use cpv_cql_driver.ResultMetadata.{
  RowsMetadata, PreparedMetadata, new_rows_metadata, new_prepared_metadata, reset_rows,
  reset_prepared, get_columns_count, decode_rows_metadata, decode_prepared_metadata,
}
use cpv_cql_driver.Uuid.Text.{decode_uuid}

-- ErrorMessage
pub record ErrorMessage : Type 0 where
  pub error_code : ℕ
  pub error_message : SizedString
  pub extra_contents : Bytes

-- `ErrorMessage::decodeBody`
unfoldable pub decode_error_body : Bytes → Result ErrorMessage
decode_error_body buffer = do
  (error_code, r₁) ← Integer.decode 4 buffer
  (error_message, r₂) ← decode_string r₁
  ok (record { error_code = error_code; error_message = error_message; extra_contents = r₂ })

-- EventMessage
pub record EventMessage : Type 0 where
  pub type : SizedString
  pub data' : Bytes

-- `EventMessage::decodeBody`
unfoldable pub decode_event_body : Bytes → Result EventMessage
decode_event_body buffer = do
  (type, r) ← decode_string buffer
  ok (record { type = type; data' = r })

-- The enumerators of ResultKind.
abbrev pub kind_void : ℕ
kind_void = 1

abbrev pub kind_rows : ℕ
kind_rows = 2

abbrev pub kind_set_key_space : ℕ
kind_set_key_space = 3

abbrev pub kind_prepared : ℕ
kind_prepared = 4

abbrev pub kind_schema_change : ℕ
kind_schema_change = 5

-- ResultSetData; the cells are what lies between `decodePtr` and `decodeEnd`.
pub record ResultSet : Type 0 where
  pub rows_count : ℕ
  pub columns_count : ℕ
  pub paging_state : Bytes
  pub cells : Bytes

-- ResultMessage
pub record ResultMessage : Type 0 where
  pub kind : ℕ
  pub rows_metadata : RowsMetadata
  pub rows_count : ℕ
  pub result_set : Option ResultSet
  pub key_space_set : SizedString
  pub prepared_query_id : SizedString
  pub prepared_metadata : PreparedMetadata
  pub prepared_rows_metadata : RowsMetadata
  pub schema_change_type : SizedString
  pub schema_change_target : SizedString
  pub schema_change_options : Bytes

-- `ResultMessage::ResultMessage`
abbrev pub new_result : ResultMessage
new_result = record {
  kind = 0;
  rows_metadata = new_rows_metadata;
  rows_count = 0;
  result_set = none;
  key_space_set = SizedString.reset string_traits;
  prepared_query_id = SizedString.reset string_traits;
  prepared_metadata = new_prepared_metadata;
  prepared_rows_metadata = new_rows_metadata;
  schema_change_type = SizedString.reset string_traits;
  schema_change_target = SizedString.reset string_traits;
  schema_change_options = [];
}

-- `ResultMessage::reset` of a message that was used before.
unfoldable pub reset_result : ResultMessage → ResultMessage
reset_result m = record new_result {
  rows_metadata = reset_rows m.rows_metadata;
  prepared_metadata = reset_prepared m.prepared_metadata;
  prepared_rows_metadata = reset_rows m.prepared_rows_metadata;
}

-- The branch for `ResultKind::Rows`. The paging state moves to the result set; a string that was
-- moved from is left empty by the standard library in use.
unfoldable pub decode_rows : ResultMessage → Bytes → Store → Result (ResultMessage × Store)
decode_rows m bs s = do
  (metadata, s', r₁) ← decode_rows_metadata m.rows_metadata bs s
  (rows_count, r₂) ← Integer.decode 4 r₁
  ok (
    record m {
      rows_metadata = record metadata {
        paging_state = record metadata.paging_state { value = [] };
      };
      rows_count = rows_count;
      result_set = some (record {
        rows_count = to_size 4 true rows_count;
        columns_count = get_columns_count metadata;
        paging_state = metadata.paging_state.value;
        cells = r₂;
      });
    },
    s',
  )

-- The branch for `ResultKind::Prepared`.
unfoldable pub decode_prepared : ResultMessage → Bytes → Store → Result (ResultMessage × Store)
decode_prepared m bs s = do
  (id, r₁) ← decode_string bs
  (metadata, s₁, r₂) ← decode_prepared_metadata m.prepared_metadata r₁ s
  (rows, s₂, _) ← decode_rows_metadata m.prepared_rows_metadata r₂ s₁
  ok (
    record m {
      prepared_query_id = id;
      prepared_metadata = metadata;
      prepared_rows_metadata = rows;
    },
    s₂,
  )

-- The branch for `ResultKind::SetKeySpace`.
unfoldable pub decode_set_key_space : ResultMessage → Bytes → Result ResultMessage
decode_set_key_space m bs = do
  (key_space, _) ← decode_string bs
  ok (record m { key_space_set = key_space })

-- The branch for `ResultKind::SchemaChange`.
unfoldable pub decode_schema_change : ResultMessage → Bytes → Result ResultMessage
decode_schema_change m bs = do
  (type, r₁) ← decode_string bs
  (target, r₂) ← decode_string r₁
  ok (record m {
    schema_change_type = type;
    schema_change_target = target;
    schema_change_options = r₂;
  })

-- `ResultMessage::decodeBody`
unfoldable pub decode_result_body : ResultMessage → Bytes → Store → Result (ResultMessage × Store)
decode_result_body old buffer s = do
  (kind, r) ← Integer.decode 4 buffer
  let m = record old { kind = kind }
  if kind == kind_void
      then ok (m, s)
      else if kind == kind_rows
      then decode_rows m r s
      else if kind == kind_set_key_space
      then (do m' ← decode_set_key_space m r; ok (m', s))
      else if kind == kind_prepared
      then decode_prepared m r s
      else if kind == kind_schema_change
      then (do m' ← decode_schema_change m r; ok (m', s))
      else err logic_exception

-- The values of ProtocolStringMultiMap.
abbrev pub string_list_element : ElementCodec
string_list_element = record {
  Element = List SizedString;
  fresh = [];
  encode = encode_list string_element 2 false;
  decode = decode_list string_element 2 false;
  decode-overwrites = λ e bs.
      decode_list_lem string_element 2 false e bs
      ∙ sym (decode_list_lem string_element 2 false [] bs);
}

-- ProtocolStringMultiMap
abbrev pub string_multi_map : MapCodec
string_multi_map = record {
  keys = string_element;
  values = string_list_element;
  is_same = same_string;
  is_same-congruent = same_string-congruent;
}

-- The values of ProtocolBytesMap.
abbrev pub bytes_element : ElementCodec
bytes_element = record {
  Element = SizedString;
  fresh = SizedString.reset bytes_traits;
  encode = SizedString.encode bytes_traits;
  decode = λ e. decode_bytes;
  decode-overwrites = λ e bs. refl;
}

-- ProtocolBytesMap
abbrev pub bytes_map : MapCodec
bytes_map = record {
  keys = string_element;
  values = bytes_element;
  is_same = same_string;
  is_same-congruent = same_string-congruent;
}
