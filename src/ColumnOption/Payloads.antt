-- ===== src/ColumnOption/Payloads.antt =====
-- The setters and getters of an option's payload. A getter decodes into a payload object of its own,
-- and the calls below that go through the static ones.
use cpv_cql_driver.Common.{
  ℕ, zero, suc, ◌%◌, ◌^◌, ◌≡◌, ◌∙◌, refl, sym, ap, ap₂, arith, List, [], ◌∷◌, ◌++◌, append-nil,
  append_assoc, true, ◌==◌, eq→==, length, Result, ok, ◌>>=◌, ◌>>◌, require, logic_exception, Bytes,
}
use cpv_cql_driver.Protocol.Integer.{be_bytes}
use cpv_cql_driver.Protocol.Integer.RoundTrip.{decode-be_bytes}
use cpv_cql_driver.Protocol.Integer
use cpv_cql_driver.Protocol.SizedString.{SizedString, string_traits, decode_string}
use cpv_cql_driver.Protocol.SizedString
use cpv_cql_driver.ColumnOption.{
  custom_type, map_type, udt_type, tuple_type, ColumnOption, new_option, Store, encode_option,
  decode_option,
}
use cpv_cql_driver.ColumnOption.Types.{
  udt_of, Fields, no_fields, field, count_fields, payload_bytes, field_bytes, option_of, type_bytes,
  string_bytes, IsPlain, FieldsArePlain,
}
use cpv_cql_driver.ColumnOption.RoundTrip.Elements.{decode_string_lem, encode_string_lem}
use cpv_cql_driver.ColumnOption.RoundTrip.Elements.{normal_string}
use cpv_cql_driver.ColumnOption.RoundTrip.Whole.{encode_option_lem, decode-encode_option}

abbrev pub Entry : Type 0
Entry = SizedString × ColumnOption

abbrev requires_type : ColumnOption → ℕ → Result (Unit {0})
requires_type o type = require (o.type == type) logic_exception

-- `setCustomPayload` and `getCustomPayload`
unfoldable pub set_custom_payload : ColumnOption → SizedString → Result ColumnOption
set_custom_payload o str = do
  requires_type o custom_type
  bytes ← SizedString.encode string_traits str []
  ok (record o { payload = bytes })

unfoldable pub get_custom_payload : ColumnOption → Result SizedString
get_custom_payload o = do requires_type o custom_type; (str, rest) ← decode_string o.payload; ok str

-- `setListPayload`, `setSetPayload`, `getListPayload` and `getSetPayload`
unfoldable pub set_element_payload : ℕ → ColumnOption → ColumnOption → Result ColumnOption
set_element_payload k o element = do
  requires_type o k
  bytes ← encode_option element []
  ok (record o { payload = bytes })

unfoldable pub get_element_payload : ℕ → ColumnOption → Store → Result (ColumnOption × Store)
get_element_payload k o s = do
  requires_type o k
  (element, s', rest) ← decode_option o.payload new_option s
  ok (element, s')

-- `setMapPayload` and `getMapPayload`
unfoldable pub set_map_payload : ColumnOption → ColumnOption → ColumnOption → Result ColumnOption
set_map_payload o key value = do
  requires_type o map_type
  bytes ← encode_option key []
  bytes' ← encode_option value bytes
  ok (record o { payload = bytes' })

unfoldable pub get_map_payload : ColumnOption → Store → Result (ColumnOption × ColumnOption × Store)
get_map_payload o s = do
  requires_type o map_type
  (key, s₁, r₁) ← decode_option o.payload new_option s
  (value, s₂, r₂) ← decode_option r₁ new_option s₁
  ok (key, value, s₂)

unfoldable pub encode_each_type : List ColumnOption → Bytes → Result Bytes
encode_each_type [] buffer = ok buffer
encode_each_type (o ∷ types) buffer = do
  buffer' ← encode_option o buffer
  encode_each_type types buffer'

-- `emplace_back()` and `decode` of the new element.
unfoldable pub decode_each_type : ℕ → Bytes → Store → Result (List ColumnOption × Store × Bytes)
decode_each_type zero bs s = ok ([], s, bs)
decode_each_type (suc n) bs s = do
  (o, s₁, r₁) ← decode_option bs new_option s
  (types, s₂, r₂) ← decode_each_type n r₁ s₁
  ok (o ∷ types, s₂, r₂)

-- `setTuplePayload` and `getTuplePayload`
unfoldable pub set_tuple_payload : ColumnOption → List ColumnOption → Result ColumnOption
set_tuple_payload o types = do
  requires_type o tuple_type
  require (length types % 2 ^ 16 == length types) logic_exception
  bytes ← encode_each_type types (Integer.encode 2 (length types % 2 ^ 16) [])
  ok (record o { payload = bytes })

unfoldable pub get_tuple_payload : ColumnOption → Store → Result (List ColumnOption × Store)
get_tuple_payload o s = do
  requires_type o tuple_type
  (n, r) ← Integer.decode 2 o.payload
  (types, s', rest) ← decode_each_type n r s
  ok (types, s')

unfoldable pub encode_each_field : List Entry → Bytes → Result Bytes
encode_each_field [] buffer = ok buffer
encode_each_field ((name, o) ∷ entries) buffer = do
  buffer₁ ← SizedString.encode string_traits name buffer
  buffer₂ ← encode_option o buffer₁
  encode_each_field entries buffer₂

unfoldable pub decode_each_field : ℕ → Bytes → Store → Result (List Entry × Store × Bytes)
decode_each_field zero bs s = ok ([], s, bs)
decode_each_field (suc n) bs s = do
  (name, r₁) ← decode_string bs
  (o, s₁, r₂) ← decode_option r₁ new_option s
  (entries, s₂, r₃) ← decode_each_field n r₂ s₁
  ok ((name, o) ∷ entries, s₂, r₃)

-- ProtocolColumnOptionUDTPayload
pub record UdtPayload : Type 0 where
  pub key_space : SizedString
  pub udt_name : SizedString
  pub fields : List Entry

-- `setUDTPayload` and `getUDTPayload`
unfoldable pub set_udt_payload : ColumnOption → UdtPayload → Result ColumnOption
set_udt_payload o p = do
  requires_type o udt_type
  require (length p.fields % 2 ^ 16 == length p.fields) logic_exception
  b₁ ← SizedString.encode string_traits p.key_space []
  b₂ ← SizedString.encode string_traits p.udt_name b₁
  b₃ ← encode_each_field p.fields (Integer.encode 2 (length p.fields % 2 ^ 16) b₂)
  ok (record o { payload = b₃ })

unfoldable pub get_udt_payload : ColumnOption → Store → Result (UdtPayload × Store)
get_udt_payload o s = do
  requires_type o udt_type
  (key_space, r₁) ← decode_string o.payload
  (udt_name, r₂) ← decode_string r₁
  (n, r₃) ← Integer.decode 2 r₂
  (entries, s', rest) ← decode_each_field n r₃ s
  ok (record { key_space = key_space; udt_name = udt_name; fields = entries }, s')

-- The entries of a UDT that stand for its fields.
abbrev pub entries_of : Fields → List Entry
entries_of no_fields = []
entries_of (field name t fs) = (normal_string name, option_of t) ∷ entries_of fs

abbrev pub udt_payload : Bytes → Bytes → Fields → UdtPayload
udt_payload ks name fs = record {
  key_space = normal_string ks;
  udt_name = normal_string name;
  fields = entries_of fs;
}

length-entries_of : (fs : Fields) → length (entries_of fs) ≡ count_fields fs
length-entries_of no_fields = refl
length-entries_of (field name t fs) = ap suc (length-entries_of fs)

encode_each_field_lem :
    (fs : Fields) (buffer : Bytes)
    → FieldsArePlain fs
    → encode_each_field (entries_of fs) buffer ≡ ok (buffer ++ field_bytes fs)
unfolding encode_each_field field_bytes
encode_each_field_lem no_fields buffer plain = ap ok (sym (append-nil buffer))
encode_each_field_lem (field name t fs) buffer plain =
    let b₁ = buffer ++ string_bytes name in
    rw (encode_string_lem name buffer plain.0, encode_option_lem t b₁ plain.1)
      (encode_each_field_lem fs (b₁ ++ type_bytes t) plain.2
        ∙ ap ok (
            append_assoc b₁ (type_bytes t) (field_bytes fs)
            ∙ append_assoc buffer (string_bytes name) (type_bytes t ++ field_bytes fs)))

decode_each_field_lem :
    (fs : Fields) (rest : Bytes) (s : Store)
    → FieldsArePlain fs
    → (s' : Store) × (decode_each_field (count_fields fs) (field_bytes fs ++ rest) s
        ≡ ok (entries_of fs, s', rest))
unfolding decode_each_field field_bytes
decode_each_field_lem no_fields rest s plain = (s, refl)
decode_each_field_lem (field name t fs) rest s plain =
    let (s₁, e, e₁) = decode-encode_option t new_option s [] (field_bytes fs ++ rest) plain.1 in
    let (s₂, e₂) = decode_each_field_lem fs rest s₁ plain.2 in
    (
      s₂,
      rw
          (
            append_assoc (string_bytes name) (type_bytes t ++ field_bytes fs) rest,
            append_assoc (type_bytes t) (field_bytes fs) rest,
            decode_string_lem name (type_bytes t ++ (field_bytes fs ++ rest)) plain.0,
            e₁,
            e₂,
          )
          refl,
    )

-- Setting the payload of a UDT option to the names and types of a type in which no container stands
-- inside one of its kind gives the option that stands for the type, and getting the payload back
-- gives the same names and types, whatever the static payload objects hold.
pub get-set_udt_payload :
    (o : ColumnOption) (ks name : Bytes) (fs : Fields) (s : Store)
    → o.type ≡ udt_type
    → IsPlain (udt_of ks name fs)
    → (s' : Store) × (set_udt_payload o (udt_payload ks name fs)
        ≡ ok (option_of (udt_of ks name fs)))
      × (get_udt_payload (option_of (udt_of ks name fs)) s ≡ ok (udt_payload ks name fs, s'))
unfolding set_udt_payload get_udt_payload payload_bytes Integer.encode
get-set_udt_payload o ks name fs s is_udt (fits_ks, fits_name, fits, lacks, plain) =
    let n = count_fields fs in
    let a = string_bytes ks in
    let b = string_bytes name in
    let body = field_bytes fs in
    let size = length-entries_of fs in
    let same : n % 2 ^ 16 ≡ n = omega arith in
    let udt : (o.type == udt_type) ≡ true = eq→== o.type udt_type is_udt in
    let (s', e) = decode_each_field_lem fs [] s plain in
    (
      s',
      rw
          (
            udt,
            size,
            same,
            eq→== n n refl,
            encode_string_lem ks [] fits_ks,
            encode_string_lem name a fits_name,
            encode_each_field_lem fs ((a ++ b) ++ be_bytes 2 n) plain,
          )
          (ap₂ (λ (x : ℕ) (y : Bytes). ok (record { type = x; payload = y })) is_udt
            (append_assoc (a ++ b) (be_bytes 2 n) body ∙ append_assoc a b (be_bytes 2 n ++ body))),
      rw
          (
            sym (append-nil (a ++ (b ++ (be_bytes 2 n ++ body)))),
            append_assoc a (b ++ (be_bytes 2 n ++ body)) [],
            append_assoc b (be_bytes 2 n ++ body) [],
            append_assoc (be_bytes 2 n) body [],
            decode_string_lem ks (b ++ (be_bytes 2 n ++ (body ++ []))) fits_ks,
            decode_string_lem name (be_bytes 2 n ++ (body ++ [])) fits_name,
            decode-be_bytes 2 n (body ++ []) fits,
            e,
          )
          refl,
    )
