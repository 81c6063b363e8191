-- ===== src/ColumnOption.antt =====
-- src/LowLevel/ProtocolTypes/ProtocolColumnOption.hpp and .cpp: the type of a column, an id and the
-- encoding of what the id announces. `decode` works through one static object for each container
-- type, which a type inside another of the same kind therefore shares with it: the model keeps these
-- objects in a store, and an option is reached by its location.
pub mod Types
pub mod StoreLaws
pub mod RoundTrip
pub mod Nested
pub mod Fuel
pub mod Payloads
use cpv_cql_driver.Common.{
  ℕ, zero, suc, ◌+◌, ◌%◌, ◌^◌, List, [], ◌∷◌, ◌++◌, Bool, true, false, not, ◌&&◌, ◌||◌, ◌==◌,
  if◌then◌else◌, length, Result, ok, err, ◌>>=◌, ◌>>◌, require, decode_exception, encode_exception,
  logic_exception, destroyed_object, Bytes,
}
use cpv_cql_driver.Protocol.Integer
use cpv_cql_driver.Protocol.SizedString.{SizedString, string_traits, decode_string}
use cpv_cql_driver.Protocol.SizedString

-- The enumerators of ColumnType that have a payload.
abbrev pub custom_type : ℕ
custom_type = 0x00

abbrev pub list_type : ℕ
list_type = 0x20

abbrev pub map_type : ℕ
map_type = 0x21

abbrev pub set_type : ℕ
set_type = 0x22

abbrev pub udt_type : ℕ
udt_type = 0x30

abbrev pub tuple_type : ℕ
tuple_type = 0x31

-- ProtocolColumnOption
pub record ColumnOption : Type 0 where
  pub type : ℕ
  pub payload : Bytes

abbrev pub new_option : ColumnOption
new_option = record { type = custom_type; payload = [] }

-- What a payload object holds: its options by position (the element type at 0, or the key and value
-- types at 0 and 1, or those of a vector), the names of a UDT, and how often its vector was cleared.
pub record PayloadObject : Type 0 where
  pub key_space : SizedString
  pub udt_name : SizedString
  pub names : ℕ → SizedString
  pub options : ℕ → ColumnOption
  pub size : ℕ
  pub clears : ℕ

-- The static objects of `decode` by the id of their type. The option on which the caller calls
-- `decode` is the only one of the object at `this_object`.
abbrev pub Store : Type 0
Store = ℕ → PayloadObject

abbrev pub this_object : ℕ
this_object = 0

pub record Location : Type 0 where
  pub object : ℕ
  pub index : ℕ
  -- The vector is cleared when `clears` differs from that of the object: the option is gone.
  pub made_at : ℕ

abbrev pub locate : ℕ → ℕ → Store → Location
locate k i s = record { object = k; index = i; made_at = (s k).clears }

abbrev pub update {ℓ} : {A : Type ℓ} → ℕ → A → (ℕ → A) → ℕ → A
update k v f j = if k == j then v else f j

abbrev pub with_option : PayloadObject → ℕ → ColumnOption → PayloadObject
with_option p i o = record p { options = update i o p.options }

abbrev pub put : Location → ColumnOption → Store → Store
put loc o s = update loc.object (with_option (s loc.object) loc.index o) s

abbrev pub is_alive : Location → Store → Bool
is_alive loc s = loc.made_at == (s loc.object).clears

unfoldable pub read : Location → Store → Result ColumnOption
read loc s = if is_alive loc s then ok ((s loc.object).options loc.index) else err destroyed_object

unfoldable pub write : Location → ColumnOption → Store → Result Store
write loc o s = if is_alive loc s then ok (put loc o s) else err destroyed_object

-- `payload_` as the buffer that another object's `encode` appends to.
unfoldable pub append_payload : Location → Bytes → Store → Result Store
append_payload loc bytes s = do
  o ← read loc s
  write loc (record o { payload = o.payload ++ bytes }) s

unfoldable pub requires_payload : ℕ → Bool
requires_payload type =
    type == custom_type
    || type == list_type
    || type == map_type
    || type == set_type
    || type == udt_type
    || type == tuple_type

-- `ProtocolColumnOption::encode` of a caller's option.
unfoldable pub encode_option : ColumnOption → Bytes → Result Bytes
encode_option o buffer =
    if requires_payload o.type && length o.payload == 0
    then err encode_exception
    else ok (Integer.encode 2 o.type buffer ++ o.payload)

-- The same of the option at `source` into the payload of the one at `target`. The two may be one
-- object, whose payload then grows before it is read.
unfoldable pub encode_into : Location → Location → Store → Result Store
encode_into source target s = do
  o ← read source s
  require (not (requires_payload o.type && length o.payload == 0)) encode_exception
  s' ← append_payload target (Integer.encode 2 o.type []) s
  o' ← read source s'
  append_payload target o'.payload s'

-- `encode` of a string into the payload at `target`.
unfoldable pub encode_string_into : SizedString → Location → Store → Result Store
encode_string_into str target s = do
  bytes ← SizedString.encode string_traits str []
  append_payload target bytes s

-- `emplace_back()` and `clear()` on the vector of an object.
unfoldable pub emplace_back : ℕ → Store → Store
emplace_back k s =
    let p = s k in
    update k (record p { options = update p.size new_option p.options; size = p.size + 1 }) s

unfoldable pub clear : ℕ → Store → Store
clear k s = update k (record (s k) { size = 0; clears = (s k).clears + 1 }) s

-- `decode` of the option at a location.
abbrev pub Decoder : Type 0
Decoder = Location → Bytes → Store → Result (Store × Bytes)

-- ProtocolColumnOptionListPayload and ProtocolColumnOptionSetPayload, whose code is the same.
unfoldable pub decode_element : Decoder → ℕ → Location → Bytes → Store → Result (Store × Bytes)
decode_element decode k loc bs s = do
  (s₁, r) ← decode (locate k 0 s) bs s
  s₂ ← encode_into (locate k 0 s₁) loc s₁
  ok (s₂, r)

-- ProtocolColumnOptionMapPayload
unfoldable pub decode_map : Decoder → Location → Bytes → Store → Result (Store × Bytes)
decode_map decode loc bs s = do
  (s₁, r₁) ← decode (locate map_type 0 s) bs s
  (s₂, r₂) ← decode (locate map_type 1 s₁) r₁ s₁
  s₃ ← encode_into (locate map_type 0 s₂) loc s₂
  s₄ ← encode_into (locate map_type 1 s₃) loc s₃
  ok (s₄, r₂)

-- The loop of `ProtocolColumnOptionTuplePayload::decode`.
unfoldable pub decode_types : Decoder → ℕ → Bytes → Store → Result (Store × Bytes)
decode_types decode zero bs s = ok (s, bs)
decode_types decode (suc n) bs s =
    let s₁ = emplace_back tuple_type s in
    do (s₂, r) ← decode (locate tuple_type (s tuple_type).size s₁) bs s₁; decode_types decode n r s₂

-- The loop of `ProtocolColumnOptionTuplePayload::encode`, `n` types being left from `i` on.
unfoldable pub encode_types : ℕ → ℕ → Location → Store → Result Store
encode_types zero i loc s = ok s
encode_types (suc n) i loc s = do
  s' ← encode_into (locate tuple_type i s) loc s
  encode_types n (i + 1) loc s'

unfoldable pub encode_count : ℕ → Location → Store → Result Store
encode_count size loc s = append_payload loc (Integer.encode 2 (size % 2 ^ 16) []) s

unfoldable pub decode_tuple : Decoder → Location → Bytes → Store → Result (Store × Bytes)
decode_tuple decode loc bs s = do
  (n, r₁) ← Integer.decode 2 bs
  (s₁, r₂) ← decode_types decode n r₁ (clear tuple_type s)
  let size = (s₁ tuple_type).size
  require (size % 2 ^ 16 == size) logic_exception
  s₂ ← encode_count size loc s₁
  s₃ ← encode_types size 0 loc s₂
  ok (s₃, r₂)

-- The loop of `ProtocolColumnOptionUDTPayload::decode`.
unfoldable pub decode_fields : Decoder → ℕ → Bytes → Store → Result (Store × Bytes)
decode_fields decode zero bs s = ok (s, bs)
decode_fields decode (suc n) bs s =
    let i = (s udt_type).size in
    let s₁ = emplace_back udt_type s in
    do
      (name, r₁) ← decode_string bs
      let p = s₁ udt_type
      let s₂ = update udt_type (record p { names = update i name p.names }) s₁
      (s₃, r₂) ← decode (locate udt_type i s₂) r₁ s₂
      decode_fields decode n r₂ s₃

-- The loop of `ProtocolColumnOptionUDTPayload::encode`.
unfoldable pub encode_fields : ℕ → ℕ → Location → Store → Result Store
encode_fields zero i loc s = ok s
encode_fields (suc n) i loc s = do
  s₁ ← encode_string_into ((s udt_type).names i) loc s
  s₂ ← encode_into (locate udt_type i s₁) loc s₁
  encode_fields n (i + 1) loc s₂

unfoldable pub decode_udt : Decoder → Location → Bytes → Store → Result (Store × Bytes)
decode_udt decode loc bs s = do
  (key_space, r₁) ← decode_string bs
  (udt_name, r₂) ← decode_string r₁
  (n, r₃) ← Integer.decode 2 r₂
  let p = record (s udt_type) { key_space = key_space; udt_name = udt_name }
  (s₁, r₄) ← decode_fields decode n r₃ (clear udt_type (update udt_type p s))
  let size = (s₁ udt_type).size
  require (size % 2 ^ 16 == size) logic_exception
  s₂ ← encode_string_into (s₁ udt_type).key_space loc s₁
  s₃ ← encode_string_into (s₂ udt_type).udt_name loc s₂
  s₄ ← encode_count size loc s₃
  s₅ ← encode_fields size 0 loc s₄
  ok (s₅, r₄)

unfoldable pub decode_custom : Location → Bytes → Store → Result (Store × Bytes)
decode_custom loc bs s = do
  (str, r) ← decode_string bs
  s' ← encode_string_into str loc s
  ok (s', r)

unfoldable pub decode_payload : Decoder → ℕ → Location → Bytes → Store → Result (Store × Bytes)
decode_payload decode type loc bs s =
    if type == custom_type
    then decode_custom loc bs s
    else if type == list_type
    then decode_element decode list_type loc bs s
    else if type == map_type
    then decode_map decode loc bs s
    else if type == set_type
    then decode_element decode set_type loc bs s
    else if type == udt_type
    then decode_udt decode loc bs s
    else if type == tuple_type
    then decode_tuple decode loc bs s
    else ok (s, bs)

-- `ProtocolColumnOption::decode`, with fuel for its recursion: a call takes two bytes before it calls
-- again, so that with as much fuel as there are bytes none are left where the fuel ends, and the
-- source throws there too.
unfoldable pub decode : ℕ → Decoder
decode zero loc bs s = err decode_exception
decode (suc fuel) loc bs s = do
  (type, r) ← Integer.decode 2 bs
  s' ← write loc (record { type = type; payload = [] }) s
  decode_payload (decode fuel) type loc r s'

-- The call on a caller's option that holds `old`: the option, and the static objects as it leaves
-- them.
unfoldable pub decode_option : Bytes → ColumnOption → Store → Result (ColumnOption × Store × Bytes)
decode_option bs old s =
    let this = locate this_object 0 s in
    do (s', rest) ← decode (length bs) this bs (put this old s); o ← read this s'; ok (o, s', rest)
