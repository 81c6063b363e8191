-- ===== src/ResultMetadata/RoundTrip/Columns.antt =====
-- The columns of a result.
use cpv_cql_driver.Common.{
  ◌≡◌, ◌∙◌, refl, sym, ap, List, [], ◌∷◌, ◌++◌, map, append-nil, append_assoc, Bool, true, false,
  if◌then◌else◌, length, All, ok, Bytes,
}
use cpv_cql_driver.Protocol.SizedString.{SizedString}
use cpv_cql_driver.ColumnOption.{Store}
use cpv_cql_driver.ColumnOption.Types.{
  ColumnType, option_of, type_bytes, string_bytes, IsPlain, FitsShort,
}
use cpv_cql_driver.ColumnOption.RoundTrip.Elements.{
  normal_string, decode_string_lem, encode_string_lem,
}
use cpv_cql_driver.ColumnOption.RoundTrip.Whole.{encode_option_lem, decode-encode_option}
use cpv_cql_driver.ResultMetadata.{
  ResultColumn, new_column, encode_names, decode_names, encode_column, decode_column,
  encode_columns, decode_columns,
}

pub record ColumnSpec : Type 0 where
  pub key_space : Bytes
  pub table : Bytes
  pub name : Bytes
  pub type : ColumnType

abbrev pub column_of : ColumnSpec → ResultColumn
column_of c = record {
  key_space = normal_string c.key_space;
  table = normal_string c.table;
  name = normal_string c.name;
  type = option_of c.type;
}

abbrev pub IsPlainColumn : ColumnSpec → Type 0
IsPlainColumn c =
    FitsShort (length c.key_space)
    × FitsShort (length c.table)
    × FitsShort (length c.name)
    × IsPlain c.type

-- A column that held `old` after a specification was read into it, with the table or without.
abbrev pub overwritten : Bool → ResultColumn → ColumnSpec → ResultColumn
overwritten contains old c = record (column_of c) {
  key_space = if contains then normal_string c.key_space else old.key_space;
  table = if contains then normal_string c.table else old.table;
}

abbrev pub overwritten_each : Bool → List ResultColumn → List ColumnSpec → List ResultColumn
overwritten_each contains old [] = []
overwritten_each contains [] (c ∷ specs) =
    overwritten contains new_column c ∷ overwritten_each contains [] specs
overwritten_each contains (o ∷ old) (c ∷ specs) =
    overwritten contains o c ∷ overwritten_each contains old specs

abbrev pub names_bytes : Bool → Bytes → Bytes → Bytes
names_bytes true a b = string_bytes a ++ string_bytes b
names_bytes false a b = []

abbrev pub column_bytes : Bool → ColumnSpec → Bytes
column_bytes contains c =
    names_bytes contains c.key_space c.table ++ (string_bytes c.name ++ type_bytes c.type)

abbrev pub columns_bytes : Bool → List ColumnSpec → Bytes
columns_bytes contains [] = []
columns_bytes contains (c ∷ specs) = column_bytes contains c ++ columns_bytes contains specs

module _ (a b : Bytes) (fits : FitsShort (length a)) (fits' : FitsShort (length b)) where
  pub encode_names_lem :
      (present : Bool) (buffer : Bytes)
      → encode_names present (normal_string a) (normal_string b) buffer
        ≡ ok (buffer ++ names_bytes present a b)
  unfolding encode_names
  encode_names_lem true buffer = rw (encode_string_lem a buffer fits) (
      encode_string_lem b (buffer ++ string_bytes a) fits'
      ∙ ap ok (append_assoc buffer (string_bytes a) (string_bytes b)))
  encode_names_lem false buffer = ap ok (sym (append-nil buffer))

  -- The names after reading: those that were written, or the old ones.
  pub decode_names_lem :
      (present : Bool) (old old' : SizedString) (rest : Bytes)
      → decode_names present old old' (names_bytes present a b ++ rest)
        ≡ ok (
          if present then normal_string a else old,
          if present then normal_string b else old',
          rest,
        )
  unfolding decode_names
  decode_names_lem true old old' rest =
      rw
        (
          append_assoc (string_bytes a) (string_bytes b) rest,
          decode_string_lem a (string_bytes b ++ rest) fits,
          decode_string_lem b rest fits',
        )
        refl
  decode_names_lem false old old' rest = refl

encode_column_lem :
    (contains : Bool) (c : ColumnSpec) (buffer : Bytes)
    → IsPlainColumn c
    → encode_column contains (column_of c) buffer ≡ ok (buffer ++ column_bytes contains c)
unfolding encode_column
encode_column_lem contains c buffer (fits_a, fits_b, fits_c, plain) =
    let names = names_bytes contains c.key_space c.table in
    rw
      (
        encode_names_lem c.key_space c.table fits_a fits_b contains buffer,
        encode_string_lem c.name (buffer ++ names) fits_c,
      )
      (encode_option_lem c.type ((buffer ++ names) ++ string_bytes c.name) plain
        ∙ ap ok (
            append_assoc (buffer ++ names) (string_bytes c.name) (type_bytes c.type)
            ∙ append_assoc buffer names (string_bytes c.name ++ type_bytes c.type)))

decode_column_lem :
    (contains : Bool) (c : ColumnSpec) (old : ResultColumn) (rest : Bytes) (s : Store)
    → IsPlainColumn c
    → (s' : Store) × (decode_column contains old (column_bytes contains c ++ rest) s
        ≡ ok (overwritten contains old c, s', rest))
unfolding decode_column
decode_column_lem contains c old rest s (fits_a, fits_b, fits_c, plain) =
    let (s', e, e') = decode-encode_option c.type old.type s [] rest plain in
    let names = names_bytes contains c.key_space c.table in
    (
      s',
      rw
          (
            append_assoc names (string_bytes c.name ++ type_bytes c.type) rest,
            append_assoc (string_bytes c.name) (type_bytes c.type) rest,
            decode_names_lem c.key_space c.table fits_a fits_b contains old.key_space old.table
                (string_bytes c.name ++ (type_bytes c.type ++ rest)),
            decode_string_lem c.name (type_bytes c.type ++ rest) fits_c,
            e',
          )
          refl,
    )

pub encode_columns_lem :
    (contains : Bool) (specs : List ColumnSpec) (buffer : Bytes)
    → All IsPlainColumn specs
    → encode_columns contains (map column_of specs) buffer
      ≡ ok (buffer ++ columns_bytes contains specs)
unfolding encode_columns
encode_columns_lem contains [] buffer plain = ap ok (sym (append-nil buffer))
encode_columns_lem contains (c ∷ specs) buffer plain =
    rw (encode_column_lem contains c buffer plain.0) (
      encode_columns_lem contains specs (buffer ++ column_bytes contains c) plain.1
      ∙ ap ok (append_assoc buffer (column_bytes contains c) (columns_bytes contains specs)))

pub decode_columns_lem :
    (contains : Bool) (specs : List ColumnSpec) (old : List ResultColumn) (rest : Bytes) (s : Store)
    → All IsPlainColumn specs
    → (s' : Store) × (decode_columns contains
          (length specs)
          old
          (columns_bytes contains specs ++ rest)
          s
        ≡ ok (overwritten_each contains old specs, s', rest))
unfolding decode_columns
decode_columns_lem contains [] old rest s plain = (s, refl)
decode_columns_lem contains (c ∷ specs) [] rest s plain =
    let left = columns_bytes contains specs in
    let (s₁, e) = decode_column_lem contains c new_column (left ++ rest) s plain.0 in
    let (s₂, e') = decode_columns_lem contains specs [] rest s₁ plain.1 in
    (s₂, rw (append_assoc (column_bytes contains c) left rest, e, e') refl)
decode_columns_lem contains (c ∷ specs) (o ∷ old) rest s plain =
    let left = columns_bytes contains specs in
    let (s₁, e) = decode_column_lem contains c o (left ++ rest) s plain.0 in
    let (s₂, e') = decode_columns_lem contains specs old rest s₁ plain.1 in
    (s₂, rw (append_assoc (column_bytes contains c) left rest, e, e') refl)
