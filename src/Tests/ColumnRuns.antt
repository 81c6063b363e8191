-- ===== src/Tests/ColumnRuns.antt =====
-- Runs of column options and result metadata.
use cpv_cql_driver.Common.{
  ◌≡◌, ◌≢◌, refl, [], ◌∷◌, ◌++◌, false, arith, ok, err, destroyed_object, Bytes,
}
use cpv_cql_driver.Protocol.Integer.{be_bytes, be_value}
use cpv_cql_driver.Protocol.Integer
use cpv_cql_driver.ColumnOption.{
  list_type, udt_type, ColumnOption, new_option, Store, locate, this_object, requires_payload,
  encode_option, decode, decode_option, decode_payload, decode_tuple, decode_types, encode_types,
  encode_into, encode_count, append_payload, read, write, clear, emplace_back,
}
use cpv_cql_driver.ColumnOption.Types.{
  ColumnType, simple, list_of, map_of, set_of, udt_of, no_fields, field, IsPlain, type_bytes,
  payload_bytes, option_of,
}
use cpv_cql_driver.ColumnOption.RoundTrip.Whole.{decode-encode_option}
use cpv_cql_driver.ColumnOption.RoundTrip.Elements.{normal_string}
use cpv_cql_driver.ColumnOption.Nested.{decode-list_of_lists}
use cpv_cql_driver.ColumnOption.Fuel.{Leaves, decode-fuel}
use cpv_cql_driver.ColumnOption.Payloads.{
  udt_payload, set_udt_payload, get_udt_payload, get-set_udt_payload,
}
use cpv_cql_driver.ResultMetadata.{new_rows_metadata, encode_rows_metadata, decode_rows_metadata}
use cpv_cql_driver.ResultMetadata.RoundTrip.Whole.{
  RowsSpec, Fits, metadata_of, read_over, decode-encode_rows_metadata,
}

abbrev pub unused : Store
unused k = record {
  key_space = normal_string [];
  udt_name = normal_string [];
  names = λ i. normal_string [];
  options = λ i. new_option;
  size = 0;
  clears = 0;
}

-- map<int, list<set<varchar>>>
abbrev deep : ColumnType
deep = map_of (simple 9) (list_of (set_of (simple 13)))

int-simple : requires_payload 9 ≡ false
unfolding requires_payload
int-simple = refl

varchar-simple : requires_payload 13 ≡ false
unfolding requires_payload
varchar-simple = refl

deep-IsPlain : IsPlain deep
deep-IsPlain = (
  tt,
  (omega arith, (omega arith, tt)),
  (omega arith, int-simple),
  ((omega arith, tt), (tt, (omega arith, varchar-simple))),
)

decode-encode_option_example :
    (s' : Store) × (encode_option (option_of deep) (1 ∷ []) ≡ ok (1 ∷ [] ++ type_bytes deep))
    × (decode_option (type_bytes deep ++ 7 ∷ []) new_option unused
        ≡ ok (option_of deep, s', 7 ∷ []))
decode-encode_option_example =
    decode-encode_option deep new_option unused (1 ∷ []) (7 ∷ []) deep-IsPlain

-- list<list<int>> is read as a list of int, with an encoding that goes on after it.
abbrev misread : ColumnOption
misread = record {
  type = list_type;
  payload =
      be_bytes 2 9
      ++ ((payload_bytes (simple 9) ++ be_bytes 2 9) ++ (payload_bytes (simple 9) ++ be_bytes 2 9));
}

decode-list_of_lists_example :
    (s' : Store) × (decode_option
        (type_bytes (list_of (list_of (simple 9))) ++ 7 ∷ [])
        new_option
        unused
      ≡ ok (misread, s', 7 ∷ []))
    × (misread ≢ option_of (list_of (list_of (simple 9))))
decode-list_of_lists_example =
    decode-list_of_lists (simple 9) new_option unused (7 ∷ []) (omega arith, int-simple) tt

-- The bytes of a tuple in a tuple: the inner call destroys the option that it is called on.
tuple_of_tuples :
    decode_option (0 ∷ 0x31 ∷ 0 ∷ 1 ∷ 0 ∷ 0x31 ∷ 0 ∷ 1 ∷ 0 ∷ 9 ∷ []) new_option unused
    ≡ err destroyed_object
unfolding decode_option decode decode_payload decode_tuple decode_types encode_types encode_into
    encode_count append_payload read write clear emplace_back requires_payload Integer.decode
    Integer.encode be_bytes be_value
tuple_of_tuples = refl

decode-fuel_example :
    (decode 9 (locate this_object 0 unused) (0 ∷ 0x20 ∷ 0 ∷ 0x20 ∷ 0 ∷ 9 ∷ []) unused
      ≡ decode 6 (locate this_object 0 unused) (0 ∷ 0x20 ∷ 0 ∷ 0x20 ∷ 0 ∷ 9 ∷ []) unused)
    × Leaves 6 (decode 9 (locate this_object 0 unused) (0 ∷ 0x20 ∷ 0 ∷ 0x20 ∷ 0 ∷ 9 ∷ []) unused)
decode-fuel_example =
    decode-fuel 9 (locate this_object 0 unused) (0 ∷ 0x20 ∷ 0 ∷ 0x20 ∷ 0 ∷ 9 ∷ []) unused
      (omega arith)

get-set_udt_payload_example :
    (s' : Store) × (set_udt_payload
        (record { type = udt_type; payload = [] })
        (udt_payload (1 ∷ []) (2 ∷ []) (field (3 ∷ []) (simple 9) no_fields))
      ≡ ok (option_of (udt_of (1 ∷ []) (2 ∷ []) (field (3 ∷ []) (simple 9) no_fields))))
    × (get_udt_payload
          (option_of (udt_of (1 ∷ []) (2 ∷ []) (field (3 ∷ []) (simple 9) no_fields)))
          unused
        ≡ ok (udt_payload (1 ∷ []) (2 ∷ []) (field (3 ∷ []) (simple 9) no_fields), s'))
get-set_udt_payload_example =
    get-set_udt_payload (record { type = udt_type; payload = [] }) (1 ∷ []) (2 ∷ [])
      (field (3 ∷ []) (simple 9) no_fields) unused refl
      (
        omega arith,
        omega arith,
        omega arith,
        (tt, tt),
        (omega arith, (omega arith, int-simple), tt),
      )

-- A page of one column in a table that is named once, with more pages to come.
abbrev pub page : RowsSpec
page = record {
  flags = 3;
  paging_state = 5 ∷ 6 ∷ [];
  global_key_space = 1 ∷ [];
  global_table = 2 ∷ [];
  columns = record { key_space = []; table = []; name = 3 ∷ []; type = deep } ∷ [];
}

pub page-Fits : Fits page
page-Fits = record {
  flags_fit = omega arith;
  count_fits = omega arith;
  pages_fit = omega arith;
  key_space_fits = omega arith;
  table_fits = omega arith;
  columns_plain = ((omega arith, omega arith, omega arith, deep-IsPlain), tt);
}

decode-encode_rows_metadata_example :
    (out : Bytes) × (s' : Store) × (encode_rows_metadata (metadata_of page) [] ≡ ok ([] ++ out))
    × (decode_rows_metadata new_rows_metadata (out ++ 9 ∷ []) unused
        ≡ ok (read_over page new_rows_metadata, s', 9 ∷ []))
decode-encode_rows_metadata_example =
    decode-encode_rows_metadata page page-Fits new_rows_metadata [] (9 ∷ []) unused
