-- ===== src/ResultMetadata.antt =====
-- ProtocolResultColumn, ProtocolResultRowsMetadata and ProtocolResultPreparedMetadata of
-- src/LowLevel/ProtocolTypes: what precedes the rows of a result. Their `decode` overwrites what the
-- flags announce, and leaves the rest of an object that was used before.
pub mod RoundTrip
use cpv_cql_driver.Common.{
  ℕ, zero, suc, ◌+◌, ◌-◌, ◌%◌, ◌^◌, List, [], ◌∷◌, Bool, true, false, not, ◌||◌, ◌==◌,
  if◌then◌else◌, length, Result, ok, ◌>>=◌, ◌>>◌, require, logic_exception, Bytes, has_flag,
  add_flag, remove_flag,
}
use cpv_cql_driver.Protocol.Integer.{is_negative}
use cpv_cql_driver.Protocol.Integer
use cpv_cql_driver.Protocol.SizedString.{
  SizedString, bytes_traits, string_traits, decode_bytes, decode_string,
}
use cpv_cql_driver.Protocol.SizedString
use cpv_cql_driver.ColumnOption.{ColumnOption, new_option, Store, encode_option, decode_option}

-- ProtocolResultColumn
pub record ResultColumn : Type 0 where
  pub key_space : SizedString
  pub table : SizedString
  pub name : SizedString
  pub type : ColumnOption

abbrev pub new_column : ResultColumn
new_column = record {
  key_space = SizedString.reset string_traits;
  table = SizedString.reset string_traits;
  name = SizedString.reset string_traits;
  type = new_option;
}

-- `encode` of two strings that a flag announces.
unfoldable pub encode_names : Bool → SizedString → SizedString → Bytes → Result Bytes
encode_names present key_space table buffer =
    if present
    then (SizedString.encode string_traits key_space buffer
        >>= SizedString.encode string_traits table)
    else ok buffer

unfoldable pub decode_names :
    Bool → SizedString → SizedString → Bytes → Result (SizedString × SizedString × Bytes)
decode_names present key_space table bs =
    if present
    then (do
      (key_space', r₁) ← decode_string bs
      (table', r₂) ← decode_string r₁
      ok (key_space', table', r₂))
    else ok (key_space, table, bs)

-- `ProtocolResultColumn::encode`
unfoldable pub encode_column : Bool → ResultColumn → Bytes → Result Bytes
encode_column contains_table_spec c buffer = do
  b₁ ← encode_names contains_table_spec c.key_space c.table buffer
  b₂ ← SizedString.encode string_traits c.name b₁
  encode_option c.type b₂

-- `ProtocolResultColumn::decode` of a column that holds `old`.
unfoldable pub decode_column :
    Bool → ResultColumn → Bytes → Store → Result (ResultColumn × Store × Bytes)
decode_column contains_table_spec old bs s = do
  (key_space, table, r₁) ← decode_names contains_table_spec old.key_space old.table bs
  (name, r₂) ← decode_string r₁
  (type, s', r₃) ← decode_option r₂ old.type s
  ok (record { key_space = key_space; table = table; name = name; type = type }, s', r₃)

unfoldable pub encode_columns : Bool → List ResultColumn → Bytes → Result Bytes
encode_columns contains_table_spec [] buffer = ok buffer
encode_columns contains_table_spec (c ∷ columns) buffer = do
  buffer' ← encode_column contains_table_spec c buffer
  encode_columns contains_table_spec columns buffer'

-- The loop over the columns that the vector has, and those that `emplace_back()` adds; what is left of
-- the vector goes at `resize`.
unfoldable pub decode_columns :
    Bool → ℕ → List ResultColumn → Bytes → Store → Result (List ResultColumn × Store × Bytes)
decode_columns contains_table_spec zero old bs s = ok ([], s, bs)
decode_columns contains_table_spec (suc n) [] bs s = do
  (c, s₁, r₁) ← decode_column contains_table_spec new_column bs s
  (columns, s₂, r₂) ← decode_columns contains_table_spec n [] r₁ s₁
  ok (c ∷ columns, s₂, r₂)
decode_columns contains_table_spec (suc n) (c ∷ old) bs s = do
  (c', s₁, r₁) ← decode_column contains_table_spec c bs s
  (columns, s₂, r₂) ← decode_columns contains_table_spec n old r₁ s₁
  ok (c' ∷ columns, s₂, r₂)

-- The enumerators of ResultRowsMetadataFlags; ResultPreparedMetadataFlags has the first.
abbrev pub global_table_spec : ℕ
global_table_spec = 1

abbrev pub has_more_pages : ℕ
has_more_pages = 2

abbrev pub no_metadata : ℕ
no_metadata = 4

pub record RowsMetadata : Type 0 where
  pub flags : ℕ
  pub columns_count : ℕ
  pub paging_state : SizedString
  pub global_key_space : SizedString
  pub global_table : SizedString
  pub columns : List ResultColumn

-- `ProtocolResultRowsMetadata::ProtocolResultRowsMetadata`
abbrev pub new_rows_metadata : RowsMetadata
new_rows_metadata = record {
  flags = no_metadata;
  columns_count = 0;
  paging_state = SizedString.reset bytes_traits;
  global_key_space = SizedString.reset string_traits;
  global_table = SizedString.reset string_traits;
  columns = [];
}

-- `reset` leaves the strings and the columns.
unfoldable pub reset_rows : RowsMetadata → RowsMetadata
reset_rows m = record m { flags = no_metadata; columns_count = 0 }

unfoldable pub set_paging_state : Bytes → RowsMetadata → RowsMetadata
set_paging_state state m = record m {
  paging_state = SizedString.set_value bytes_traits state;
  flags = add_flag m.flags has_more_pages;
}

unfoldable pub set_global_key_space_and_table : Bytes → Bytes → RowsMetadata → RowsMetadata
set_global_key_space_and_table key_space table m = record m {
  global_key_space = SizedString.set_value string_traits key_space;
  global_table = SizedString.set_value string_traits table;
  flags = add_flag m.flags global_table_spec;
}

-- `columnsCount_.set` takes an `int`.
unfoldable pub set_columns : List ResultColumn → RowsMetadata → RowsMetadata
set_columns columns m = record m {
  columns_count = length columns % 2 ^ 32;
  columns = columns;
  flags = remove_flag m.flags no_metadata;
}

-- `getColumnsCount`, where the sign of the `int` is extended.
unfoldable pub get_columns_count : RowsMetadata → ℕ
get_columns_count m =
    if is_negative 4 m.columns_count then m.columns_count + (2 ^ 64 - 2 ^ 32) else m.columns_count

-- What follows the paging state.
unfoldable pub encode_specs : RowsMetadata → Bytes → Result Bytes
encode_specs m buffer = if has_flag m.flags no_metadata then ok buffer else do
  let is_global = has_flag m.flags global_table_spec
  buffer' ← encode_names is_global m.global_key_space m.global_table buffer
  require (get_columns_count m == length m.columns) logic_exception
  encode_columns (not is_global) m.columns buffer'

-- `ProtocolResultRowsMetadata::encode`
unfoldable pub encode_rows_metadata : RowsMetadata → Bytes → Result Bytes
encode_rows_metadata m buffer = do
  let start = Integer.encode 4 m.columns_count (Integer.encode 4 m.flags buffer)
  buffer' ←
      (if has_flag m.flags has_more_pages
        then SizedString.encode bytes_traits m.paging_state start
        else ok start)
  encode_specs m buffer'

unfoldable pub decode_paging_state : ℕ → SizedString → Bytes → Result (SizedString × Bytes)
decode_paging_state flags old bs =
    if has_flag flags has_more_pages then decode_bytes bs else ok (old, bs)

unfoldable pub decode_specs : RowsMetadata → Bytes → Store → Result (RowsMetadata × Store × Bytes)
decode_specs m bs s = if has_flag m.flags no_metadata then ok (m, s, bs) else do
  let is_global = has_flag m.flags global_table_spec
  (key_space, table, r₁) ← decode_names is_global m.global_key_space m.global_table bs
  require (not (is_negative 4 m.columns_count)) logic_exception
  (columns, s', r₂) ← decode_columns (not is_global) m.columns_count m.columns r₁ s
  ok (record m { global_key_space = key_space; global_table = table; columns = columns }, s', r₂)

-- `ProtocolResultRowsMetadata::decode` into an object that holds `old`.
unfoldable pub decode_rows_metadata :
    RowsMetadata → Bytes → Store → Result (RowsMetadata × Store × Bytes)
decode_rows_metadata old bs s = do
  (flags, r₁) ← Integer.decode 4 bs
  (count, r₂) ← Integer.decode 4 r₁
  (paging_state, r₃) ← decode_paging_state flags old.paging_state r₂
  decode_specs (record old { flags = flags; columns_count = count; paging_state = paging_state }) r₃
      s

-- ProtocolResultPreparedMetadata
pub record PreparedMetadata : Type 0 where
  pub flags : ℕ
  pub partition_key_indexes : List ℕ
  pub global_key_space : SizedString
  pub global_table : SizedString
  pub columns : List ResultColumn

abbrev pub new_prepared_metadata : PreparedMetadata
new_prepared_metadata = record {
  flags = 0;
  partition_key_indexes = [];
  global_key_space = SizedString.reset string_traits;
  global_table = SizedString.reset string_traits;
  columns = [];
}

unfoldable pub reset_prepared : PreparedMetadata → PreparedMetadata
reset_prepared m = new_prepared_metadata

unfoldable pub set_prepared_key_space_and_table :
    Bytes → Bytes → PreparedMetadata → PreparedMetadata
set_prepared_key_space_and_table key_space table m = record m {
  global_key_space = SizedString.set_value string_traits key_space;
  global_table = SizedString.set_value string_traits table;
  flags = add_flag m.flags global_table_spec;
}

unfoldable pub encode_indexes : List ℕ → Bytes → Bytes
encode_indexes [] buffer = buffer
encode_indexes (i ∷ indexes) buffer = encode_indexes indexes (Integer.encode 2 i buffer)

unfoldable pub decode_indexes : ℕ → Bytes → Result (List ℕ × Bytes)
decode_indexes zero bs = ok ([], bs)
decode_indexes (suc n) bs = do
  (i, r₁) ← Integer.decode 2 bs
  (indexes, r₂) ← decode_indexes n r₁
  ok (i ∷ indexes, r₂)

-- `count.get() < 0 || static_cast<std::size_t>(count.get()) != size` of an `int` made from a size.
abbrev count_fits : ℕ → Bool
count_fits size = let count = size % 2 ^ 32 in not (is_negative 4 count || not (count == size))

-- `ProtocolResultPreparedMetadata::encode`
unfoldable pub encode_prepared_metadata : PreparedMetadata → Bytes → Result Bytes
encode_prepared_metadata m buffer = do
  require (count_fits (length m.columns)) logic_exception
  require (count_fits (length m.partition_key_indexes)) logic_exception
  let b₁ = Integer.encode 4 (length m.columns % 2 ^ 32) (Integer.encode 4 m.flags buffer)
  let b₂ = Integer.encode 4 (length m.partition_key_indexes % 2 ^ 32) b₁
  let b₃ = encode_indexes m.partition_key_indexes b₂
  let is_global = has_flag m.flags global_table_spec
  b₄ ← encode_names is_global m.global_key_space m.global_table b₃
  encode_columns (not is_global) m.columns b₄

-- `ProtocolResultPreparedMetadata::decode`, which clears the indexes and the columns.
unfoldable pub decode_prepared_metadata :
    PreparedMetadata → Bytes → Store → Result (PreparedMetadata × Store × Bytes)
decode_prepared_metadata old bs s = do
  (flags, r₁) ← Integer.decode 4 bs
  (columns_count, r₂) ← Integer.decode 4 r₁
  (indexes_count, r₃) ← Integer.decode 4 r₂
  require (not (is_negative 4 columns_count)) logic_exception
  require (not (is_negative 4 indexes_count)) logic_exception
  (indexes, r₄) ← decode_indexes indexes_count r₃
  let is_global = has_flag flags global_table_spec
  (key_space, table, r₅) ← decode_names is_global old.global_key_space old.global_table r₄
  (columns, s', r₆) ← decode_columns (not is_global) columns_count [] r₅ s
  ok (
    record {
      flags = flags;
      partition_key_indexes = indexes;
      global_key_space = key_space;
      global_table = table;
      columns = columns;
    },
    s',
    r₆,
  )
