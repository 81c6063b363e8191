-- ===== src/ColumnOption/Types.antt =====
-- Column types as trees, and the bytes that the protocol's specification gives them (section 4.2.5.2
-- of native_protocol_v4.spec), written without the code's options and stores.
use cpv_cql_driver.Common.{
  ℕ, ◌+◌, ◌≡◌, ◌≢◌, ◌<◌, [], ◌++◌, arith, suc, length, length-append, Bytes, false,
}
use cpv_cql_driver.Protocol.Integer.{be_bytes}
use cpv_cql_driver.Protocol.Integer.RoundTrip.{length-be_bytes}
use cpv_cql_driver.ColumnOption.{
  custom_type, list_type, map_type, set_type, udt_type, tuple_type, ColumnOption, requires_payload,
}

mutual
  pub data ColumnType : Type 0 where
    simple : ℕ → ColumnType
    custom : Bytes → ColumnType
    list_of : ColumnType → ColumnType
    map_of : ColumnType → ColumnType → ColumnType
    set_of : ColumnType → ColumnType
    udt_of : Bytes → Bytes → Fields → ColumnType
    tuple_of : Types → ColumnType

  pub data Fields : Type 0 where
    no_fields : Fields
    field : Bytes → ColumnType → Fields → Fields

  pub data Types : Type 0 where
    no_types : Types
    component : ColumnType → Types → Types

abbrev pub type_id : ColumnType → ℕ
type_id (simple i) = i
type_id (custom name) = custom_type
type_id (list_of t) = list_type
type_id (map_of k v) = map_type
type_id (set_of t) = set_type
type_id (udt_of ks name fs) = udt_type
type_id (tuple_of ts) = tuple_type

abbrev pub count_fields : Fields → ℕ
count_fields no_fields = 0
count_fields (field name t fs) = suc (count_fields fs)

abbrev pub count_types : Types → ℕ
count_types no_types = 0
count_types (component t ts) = suc (count_types ts)

abbrev pub string_bytes : Bytes → Bytes
string_bytes str = be_bytes 2 (length str) ++ str

unfoldable mutual
  pub payload_bytes : ColumnType → Bytes
  payload_bytes (simple i) = []
  payload_bytes (custom name) = string_bytes name
  payload_bytes (list_of t) = be_bytes 2 (type_id t) ++ payload_bytes t
  payload_bytes (map_of k v) =
      (be_bytes 2 (type_id k) ++ payload_bytes k) ++ (be_bytes 2 (type_id v) ++ payload_bytes v)
  payload_bytes (set_of t) = be_bytes 2 (type_id t) ++ payload_bytes t
  payload_bytes (udt_of ks name fs) =
      string_bytes ks ++ (string_bytes name ++ (be_bytes 2 (count_fields fs) ++ field_bytes fs))
  payload_bytes (tuple_of ts) = be_bytes 2 (count_types ts) ++ component_bytes ts

  pub field_bytes : Fields → Bytes
  field_bytes no_fields = []
  field_bytes (field name t fs) =
      string_bytes name ++ ((be_bytes 2 (type_id t) ++ payload_bytes t) ++ field_bytes fs)

  pub component_bytes : Types → Bytes
  component_bytes no_types = []
  component_bytes (component t ts) =
      (be_bytes 2 (type_id t) ++ payload_bytes t) ++ component_bytes ts

abbrev pub type_bytes : ColumnType → Bytes
type_bytes t = be_bytes 2 (type_id t) ++ payload_bytes t

-- The option that stands for a type.
abbrev pub option_of : ColumnType → ColumnOption
option_of t = record { type = type_id t; payload = payload_bytes t }

-- No option in the type has the id `k`.
abbrev mutual
  pub Lacks : ℕ → ColumnType → Type 0
  Lacks k (simple i) = Unit {0}
  Lacks k (custom name) = Unit {0}
  Lacks k (list_of t) = (list_type ≢ k) × Lacks k t
  Lacks k (map_of key v) = (map_type ≢ k) × Lacks k key × Lacks k v
  Lacks k (set_of t) = (set_type ≢ k) × Lacks k t
  Lacks k (udt_of ks name fs) = (udt_type ≢ k) × FieldsLack k fs
  Lacks k (tuple_of ts) = (tuple_type ≢ k) × TypesLack k ts

  pub FieldsLack : ℕ → Fields → Type 0
  FieldsLack k no_fields = Unit {0}
  FieldsLack k (field name t fs) = Lacks k t × FieldsLack k fs

  pub TypesLack : ℕ → Types → Type 0
  TypesLack k no_types = Unit {0}
  TypesLack k (component t ts) = Lacks k t × TypesLack k ts

abbrev pub FitsShort : ℕ → Type 0
FitsShort n = n < 65536

-- Every id, length and number of components fits its [short], and no container type stands inside
-- another of its kind.
abbrev mutual
  pub IsPlain : ColumnType → Type 0
  IsPlain (simple i) = FitsShort i × (requires_payload i ≡ false)
  IsPlain (custom name) = FitsShort (length name)
  IsPlain (list_of t) = Lacks list_type t × IsPlain t
  IsPlain (map_of k v) = Lacks map_type k × Lacks map_type v × IsPlain k × IsPlain v
  IsPlain (set_of t) = Lacks set_type t × IsPlain t
  IsPlain (udt_of ks name fs) =
      FitsShort (length ks)
      × FitsShort (length name)
      × FitsShort (count_fields fs)
      × FieldsLack udt_type fs
      × FieldsArePlain fs
  IsPlain (tuple_of ts) = FitsShort (count_types ts) × TypesLack tuple_type ts × TypesArePlain ts

  pub FieldsArePlain : Fields → Type 0
  FieldsArePlain no_fields = Unit {0}
  FieldsArePlain (field name t fs) = FitsShort (length name) × IsPlain t × FieldsArePlain fs

  pub TypesArePlain : Types → Type 0
  TypesArePlain no_types = Unit {0}
  TypesArePlain (component t ts) = IsPlain t × TypesArePlain ts

pub type_id-lt : (t : ColumnType) → IsPlain t → type_id t < 65536
type_id-lt (simple i) p = p.0
type_id-lt (custom name) p = omega arith
type_id-lt (list_of t) p = omega arith
type_id-lt (map_of k v) p = omega arith
type_id-lt (set_of t) p = omega arith
type_id-lt (udt_of ks name fs) p = omega arith
type_id-lt (tuple_of ts) p = omega arith

pub length-short : (n : ℕ) (bs : Bytes) → length (be_bytes 2 n ++ bs) ≡ 2 + length bs
length-short n bs = omega (arith, length-append (be_bytes 2 n) bs, length-be_bytes 2 n)
