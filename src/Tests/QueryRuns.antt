-- ===== src/Tests/QueryRuns.antt =====
-- Runs of query parameters, requests and maps.
use cpv_cql_driver.Common.{
  ◌≡◌, refl, List, [], ◌∷◌, ◌++◌, true, arith, none, some, ok, Bytes, has_flag,
}
use cpv_cql_driver.Protocol.SizedString.{SizedString, decode_long_string}
use cpv_cql_driver.Protocol.Lists.RoundTrip.{string-IsCoded}
use cpv_cql_driver.Protocol.Maps.{
  Entries, IsDistinct, Rehash, lookup, emplace, string_map, encode_map, decode_map, bytes_eq,
}
use cpv_cql_driver.Protocol.Maps.RoundTrip.{view, decode-encode_map}
use cpv_cql_driver.Query.Parameters.{
  Command, QueryParameters, new_command, skip_metadata, set_command_ref, encode_query_parameters,
  decode_query_parameters,
}
use cpv_cql_driver.Query.Parameters.Parts.{Value, present, absent, values_bytes, Fits}
use cpv_cql_driver.Query.Parameters.RoundTrip.{decode-encode_query_parameters}
use cpv_cql_driver.Query.Requests.{encode_query_body, query_body-IsRead}
use cpv_cql_driver.Query.Startup.{reset_options, set_compression, erase}

abbrev two_values : List Value
two_values = present (7 ∷ []) ∷ absent 0xffff_ffff ∷ []

abbrev command : Command
command = record (new_command (65 ∷ [])) {
  consistency = some 4;
  page_size = some 100;
  paging_state = 1 ∷ 2 ∷ [];
  parameter_count = 2;
  parameters = values_bytes two_values;
  default_timestamp = some 1500000000123456789;
}

abbrev skipping : QueryParameters
skipping = record { flags = skip_metadata; command = new_command [] }

command-Fits : Fits command two_values
command-Fits = record {
  parameters_given = refl;
  count_given = refl;
  count_fits = omega arith;
  values_fit = (omega arith, (omega arith, tt));
  page_size_fits = omega arith;
  state_fits = omega arith;
  serial_fits = tt;
  timestamp_fits = omega arith;
}

abbrev received : Command
received = record command { query = []; default_timestamp = some 1500000000123456000 }

decode-encode_query_parameters_example :
    (q : QueryParameters) × (out : Bytes) × (set_command_ref command skipping ≡ ok q)
    × (has_flag q.flags skip_metadata ≡ true)
    × (encode_query_parameters q (9 ∷ []) ≡ ok (9 ∷ [] ++ out))
    × (decode_query_parameters (out ++ 8 ∷ []) ≡ ok (record q { command = received }, 8 ∷ []))
decode-encode_query_parameters_example =
    decode-encode_query_parameters skipping command 4 two_values (9 ∷ []) (8 ∷ []) refl refl
      (omega arith) command-Fits

query_body-IsRead_example :
    (q : QueryParameters) × (out : Bytes) × (left : Bytes) × (set_command_ref command skipping
      ≡ ok q)
    × (encode_query_body q [] ≡ ok ([] ++ out))
    × (decode_long_string (out ++ 8 ∷ []) ≡ ok (record { state = 0; value = 65 ∷ [] }, left))
    × (decode_query_parameters left ≡ ok (record q { command = received }, 8 ∷ []))
query_body-IsRead_example =
    query_body-IsRead skipping command 4 two_values [] (8 ∷ []) refl refl (omega arith)
      (omega arith) command-Fits

-- A container that puts every new entry first.
abbrev newest_first : Rehash string_map
newest_first = record {
  arrange = λ m. m;
  arrange-IsDistinct = λ m h. h;
  lookup-arrange = λ m h j. refl;
}

abbrev text : Bytes → SizedString
text bs = record { state = 0; value = bs }

-- Two entries with one key.
abbrev entries : Entries string_map
entries = (text (1 ∷ []), text (2 ∷ [])) ∷ (text (1 ∷ []), text (3 ∷ [])) ∷ []

decode-encode_map_example :
    (out : Bytes) × (m : Entries string_map) × (encode_map string_map 2 entries [] ≡ ok ([] ++ out))
    × (decode_map string_map newest_first 2 (out ++ 8 ∷ []) ≡ ok (m, 8 ∷ []))
    × IsDistinct string_map m
    × (view string_map m ≡ view string_map entries)
    × ((j : SizedString) → lookup string_map j m ≡ lookup string_map j entries)
decode-encode_map_example =
    decode-encode_map string_map newest_first 2 entries [] (8 ∷ []) (omega arith) (omega arith) (
      (
        string-IsCoded (text (1 ∷ [])) refl (omega arith),
        string-IsCoded (text (2 ∷ [])) refl (omega arith),
      ),
      (
        (
          string-IsCoded (text (1 ∷ [])) refl (omega arith),
          string-IsCoded (text (3 ∷ [])) refl (omega arith),
        ),
        tt,
      ),
    )

-- A compression that is set and unset leaves the options of a new message.
unset :
    set_compression newest_first none
      (set_compression newest_first (some (5 ∷ [])) (reset_options newest_first []))
    ≡ reset_options newest_first []
unfolding set_compression reset_options emplace erase lookup bytes_eq
unset = refl
