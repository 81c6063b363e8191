-- ===== src/ResultMetadata/RoundTrip/Whole.antt =====
-- The metadata of a rows result and of a prepared query.
use cpv_cql_driver.Common.{
  ℕ, suc, ◌^◌, ◌<◌, ◌≡◌, ◌∙◌, refl, sym, ap, arith, List, [], ◌∷◌, ◌++◌, map, append-nil,
  append_assoc, Bool, true, false, not, eq→==, lt→leb, if◌then◌else◌, length, All, ok, Bytes,
  has_flag,
}
use cpv_cql_driver.Protocol.Integer.{be_bytes, is_negative}
use cpv_cql_driver.Protocol.Integer.RoundTrip.{decode-be_bytes}
use cpv_cql_driver.Protocol.Integer
use cpv_cql_driver.Protocol.SizedString.{SizedString, bytes_traits, decode, decode_bytes}
use cpv_cql_driver.Protocol.SizedString
use cpv_cql_driver.Protocol.SizedString.RoundTrip.{encode_normal, decode_normal}
use cpv_cql_driver.ColumnOption.{Store}
use cpv_cql_driver.ColumnOption.Types.{FitsShort}
use cpv_cql_driver.ColumnOption.RoundTrip.Elements.{normal_string}
use cpv_cql_driver.ResultMetadata.{
  RowsMetadata, global_table_spec, has_more_pages, no_metadata, encode_specs, decode_specs,
  encode_rows_metadata, decode_paging_state, decode_rows_metadata, get_columns_count,
}
use cpv_cql_driver.ResultMetadata.RoundTrip.Columns.{
  ColumnSpec, IsPlainColumn, column_of, overwritten_each, names_bytes, columns_bytes,
  encode_names_lem, decode_names_lem, encode_columns_lem, decode_columns_lem,
}

length-map : (specs : List ColumnSpec) → length (map column_of specs) ≡ length specs
length-map [] = refl
length-map (c ∷ specs) = ap suc (length-map specs)

pub record RowsSpec : Type 0 where
  pub flags : ℕ
  pub paging_state : Bytes
  pub global_key_space : Bytes
  pub global_table : Bytes
  pub columns : List ColumnSpec

-- The metadata with what a specification says.
abbrev pub metadata_of : RowsSpec → RowsMetadata
metadata_of m = record {
  flags = m.flags;
  columns_count = length m.columns;
  paging_state = normal_string m.paging_state;
  global_key_space = normal_string m.global_key_space;
  global_table = normal_string m.global_table;
  columns = map column_of m.columns;
}

pub record Fits (m : RowsSpec) : Type 0 where
  pub flags_fit : m.flags < 2 ^ 32
  pub count_fits : length m.columns < 2 ^ 31
  pub pages_fit : length m.paging_state < 2 ^ 31
  pub key_space_fits : FitsShort (length m.global_key_space)
  pub table_fits : FitsShort (length m.global_table)
  pub columns_plain : All IsPlainColumn m.columns

-- An object that held `old` after the metadata was read into it: what no flag announces is left.
abbrev pub read_over : RowsSpec → RowsMetadata → RowsMetadata
read_over m old =
    let is_global = has_flag m.flags global_table_spec in
    let none = has_flag m.flags no_metadata in
    record {
      flags = m.flags;
      columns_count = length m.columns;
      paging_state =
          if has_flag m.flags has_more_pages
          then normal_string m.paging_state
          else old.paging_state;
      global_key_space =
          if none
          then old.global_key_space
          else if is_global
          then normal_string m.global_key_space
          else old.global_key_space;
      global_table =
          if none
          then old.global_table
          else if is_global
          then normal_string m.global_table
          else old.global_table;
      columns =
          if none then old.columns else overwritten_each (not is_global) old.columns m.columns;
    }

module _ (m : RowsSpec) (fits : Fits m) where
  abbrev pages_bytes : Bool → Bytes
  pages_bytes true = be_bytes 4 (length m.paging_state) ++ m.paging_state
  pages_bytes false = []

  encode_pages :
      (present : Bool) (buffer : Bytes)
      → (if present
          then SizedString.encode bytes_traits (normal_string m.paging_state) buffer
          else ok buffer)
        ≡ ok (buffer ++ pages_bytes present)
  encode_pages true buffer =
      encode_normal bytes_traits (normal_string m.paging_state) (omega arith) refl
        (omega (arith, fits.pages_fit)) buffer
  encode_pages false buffer = ap ok (sym (append-nil buffer))

  decode_pages :
      (present : Bool) (old : SizedString) (rest : Bytes)
      → (if present
          then decode_bytes (pages_bytes present ++ rest)
          else ok (old, pages_bytes present ++ rest))
        ≡ ok (if present then normal_string m.paging_state else old, rest)
  unfolding decode_bytes
  decode_pages true old rest =
      rw
        (decode_normal bytes_traits (normal_string m.paging_state) (omega arith) refl
          (omega (arith, fits.pages_fit)) rest)
        refl
  decode_pages false old rest = refl

  abbrev specs_bytes : Bool → Bool → Bytes
  specs_bytes true is_global = []
  specs_bytes false is_global =
      names_bytes is_global m.global_key_space m.global_table
      ++ columns_bytes (not is_global) m.columns

  encode_specs_lem :
      (none : Bool) (buffer : Bytes)
      → has_flag m.flags no_metadata ≡ none
      → encode_specs (metadata_of m) buffer
        ≡ ok (buffer ++ specs_bytes none (has_flag m.flags global_table_spec))
  unfolding encode_specs get_columns_count
  encode_specs_lem true buffer h = rw h (ap ok (sym (append-nil buffer)))
  encode_specs_lem false buffer h =
      let is_global = has_flag m.flags global_table_spec in
      let names = names_bytes is_global m.global_key_space m.global_table in
      let positive : is_negative 4 (length m.columns) ≡ false =
        lt→leb (2 ^ 31) (length m.columns) fits.count_fits in
      rw
        (
          h,
          encode_names_lem m.global_key_space m.global_table fits.key_space_fits fits.table_fits
              is_global buffer,
          positive,
          length-map m.columns,
          eq→== (length m.columns) (length m.columns) refl,
        )
        (encode_columns_lem (not is_global) m.columns (buffer ++ names) fits.columns_plain
          ∙ ap ok (append_assoc buffer names (columns_bytes (not is_global) m.columns)))

  decode_specs_lem :
      (none : Bool) (old : RowsMetadata) (rest : Bytes) (s : Store)
      → has_flag m.flags no_metadata ≡ none
      → let pages =
          if has_flag m.flags has_more_pages
          then normal_string m.paging_state
          else old.paging_state in
        let given = record old {
          flags = m.flags;
          columns_count = length m.columns;
          paging_state = pages;
        } in
        (s' : Store) × (decode_specs given
            (specs_bytes none (has_flag m.flags global_table_spec) ++ rest)
            s
          ≡ ok (read_over m old, s', rest))
  unfolding decode_specs
  decode_specs_lem true old rest s h = (s, rw h refl)
  decode_specs_lem false old rest s h =
      let is_global = has_flag m.flags global_table_spec in
      let names = names_bytes is_global m.global_key_space m.global_table in
      let positive : is_negative 4 (length m.columns) ≡ false =
        lt→leb (2 ^ 31) (length m.columns) fits.count_fits in
      let (s', e) =
        decode_columns_lem (not is_global) m.columns old.columns rest s fits.columns_plain in
      (
        s',
        rw
            (
              h,
              append_assoc names (columns_bytes (not is_global) m.columns) rest,
              decode_names_lem m.global_key_space m.global_table fits.key_space_fits fits.table_fits
                  is_global old.global_key_space old.global_table
                  (columns_bytes (not is_global) m.columns ++ rest),
              positive,
              e,
            )
            refl,
      )

  -- Rows metadata that fits (flags and count to an [int] that is not negative, strings to their
  -- lengths, columns of types in which no container stands inside one of its kind) is encoded to the
  -- end of any buffer, and is decoded from the front of any bytes into any object: what the flags
  -- announce is as it was written, and what they do not announce (the paging state, the key space
  -- and table of the whole or of each column, the columns) is as the object held it before.
  pub decode-encode_rows_metadata :
      (old : RowsMetadata) (buffer rest : Bytes) (s : Store)
      → (out : Bytes) × (s' : Store) × (encode_rows_metadata (metadata_of m) buffer
          ≡ ok (buffer ++ out))
        × (decode_rows_metadata old (out ++ rest) s ≡ ok (read_over m old, s', rest))
  unfolding encode_rows_metadata decode_rows_metadata decode_paging_state Integer.encode
  decode-encode_rows_metadata old buffer rest s =
      let a = be_bytes 4 m.flags in
      let b = be_bytes 4 (length m.columns) in
      let more = has_flag m.flags has_more_pages in
      let none = has_flag m.flags no_metadata in
      let p = pages_bytes more in
      let q = specs_bytes none (has_flag m.flags global_table_spec) in
      let (s', e) = decode_specs_lem none old rest s refl in
      let start = (buffer ++ a) ++ b in
      (
        a ++ (b ++ (p ++ q)),
        s',
        rw (encode_pages more start) (
            encode_specs_lem none (start ++ p) refl
            ∙ ap ok (
                append_assoc start p q
                ∙ append_assoc (buffer ++ a) b (p ++ q)
                ∙ append_assoc buffer a (b ++ (p ++ q)))),
        rw
            (
              append_assoc a (b ++ (p ++ q)) rest,
              append_assoc b (p ++ q) rest,
              append_assoc p q rest,
              decode-be_bytes 4 m.flags (b ++ (p ++ (q ++ rest))) fits.flags_fit,
              decode-be_bytes 4 (length m.columns) (p ++ (q ++ rest))
                  (omega (arith, fits.count_fits)),
              decode_pages more old.paging_state (q ++ rest),
            )
            e,
      )
