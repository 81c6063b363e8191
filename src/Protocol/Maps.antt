-- ===== src/Protocol/Maps.antt =====
-- src/LowLevel/ProtocolTypes/ProtocolMapBase.hpp: a number and that many pairs of a key and a value.
-- The map is an unordered_map of the standard library: its entries in the order in which it is gone
-- through, which an insertion may change.
pub mod RoundTrip
use cpv_cql_driver.Common.{
  ℕ, zero, suc, ◌%◌, ◌^◌, ◌≡◌, refl, ap, ap₂, inl, inr, ◌&&◌, ◌==◌, ==→eq, Bool-cases, List, [],
  ◌∷◌, Bool, true, false, ltb, if◌then◌else◌, length, Option, none, some, Result, ok, err, ◌>>=◌,
  encode_exception, Bytes,
}
use cpv_cql_driver.Protocol.Integer.{max_length}
use cpv_cql_driver.Protocol.Integer
use cpv_cql_driver.Protocol.Lists.{ElementCodec, string_element}
use cpv_cql_driver.Protocol.SizedString.{SizedString}

-- The types of keys and values, and the `PredType` of the map, which tells no two keys apart that
-- are equal to it.
pub record MapCodec : Type 1 where
  pub keys : ElementCodec
  pub values : ElementCodec
  pub is_same : keys.Element → keys.Element → Bool
  pub is_same-congruent :
      (j k : keys.Element) → is_same k j ≡ true → (a : keys.Element) → is_same a k ≡ is_same a j

abbrev pub Entries : MapCodec → Type 0
Entries C = List (C.keys.Element × C.values.Element)

module _ (C : MapCodec) where
  -- `find`
  unfoldable pub lookup : C.keys.Element → Entries C → Option C.values.Element
  lookup j [] = none
  lookup j ((k, v) ∷ entries) = if C.is_same k j then some v else lookup j entries

  abbrev pub IsDistinct : Entries C → Type 0
  IsDistinct [] = Unit {0}
  IsDistinct ((k, v) ∷ entries) = (lookup k entries ≡ none) × IsDistinct entries

  -- The order after an insertion: any that has the same entries.
  pub record Rehash : Type 0 where
    pub arrange : Entries C → Entries C
    pub arrange-IsDistinct : (m : Entries C) → IsDistinct m → IsDistinct (arrange m)
    pub lookup-arrange :
        (m : Entries C) → IsDistinct m → (j : C.keys.Element) → lookup j (arrange m) ≡ lookup j m

  unfoldable pub encode_pairs : Entries C → Bytes → Result Bytes
  encode_pairs [] buffer = ok buffer
  encode_pairs ((k, v) ∷ entries) buffer = do
    b₁ ← C.keys.encode k buffer
    b₂ ← C.values.encode v b₁
    encode_pairs entries b₂

  -- `ProtocolMapBase::encode`
  unfoldable pub encode_map : ℕ → Entries C → Bytes → Result Bytes
  encode_map width entries buffer =
      if ltb (max_length width false) (length entries)
      then err encode_exception
      else encode_pairs entries (Integer.encode width (length entries % 256 ^ width) buffer)

  module _ (order : Rehash) where
    -- `unordered_map::emplace`, which keeps the entry of a key that is there.
    unfoldable pub emplace : C.keys.Element → C.values.Element → Entries C → Entries C
    emplace k v m = elim (lookup k m) [ some there ↦ m | none ↦ order.arrange ((k, v) ∷ m) ]

    -- The loop, whose `key` and `value` are used again for each pair.
    unfoldable pub decode_pairs :
        ℕ → C.keys.Element → C.values.Element → Entries C → Bytes → Result (Entries C × Bytes)
    decode_pairs zero key value m bs = ok (m, bs)
    decode_pairs (suc n) key value m bs = do
      (key', r₁) ← C.keys.decode key bs
      (value', r₂) ← C.values.decode value r₁
      decode_pairs n key' value' (emplace key' value' m) r₂

    -- `ProtocolMapBase::decode`, which clears the map.
    unfoldable pub decode_map : ℕ → Bytes → Result (Entries C × Bytes)
    decode_map width bs = do
      (size, r) ← Integer.decode width bs
      decode_pairs size C.keys.fresh C.values.fresh [] r

-- `std::string::operator==`
unfoldable pub bytes_eq : Bytes → Bytes → Bool
bytes_eq [] [] = true
bytes_eq [] (y ∷ ys) = false
bytes_eq (x ∷ xs) [] = false
bytes_eq (x ∷ xs) (y ∷ ys) = x == y && bytes_eq xs ys

pub bytes_eq-eq : (xs ys : Bytes) → bytes_eq xs ys ≡ true → xs ≡ ys
unfolding bytes_eq
bytes_eq-eq [] [] h = refl
bytes_eq-eq [] (y ∷ ys) h = cc (h)
bytes_eq-eq (x ∷ xs) [] h = cc (h)
bytes_eq-eq (x ∷ xs) (y ∷ ys) h = elim (Bool-cases (x == y)) [
  | inl e ↦
      let rest : bytes_eq xs ys ≡ true = rw e at h in ap₂ ◌∷◌ (==→eq x y e) (bytes_eq-eq xs ys rest)
  | inr e ↦ let off : false ≡ true = rw e at h in cc (off)
]

-- `ProtocolMapBaseDefaultPred`, which compares `get()`.
abbrev pub same_string : SizedString → SizedString → Bool
same_string a b = bytes_eq a.value b.value

pub same_string-congruent :
    (j k : SizedString)
    → same_string k j ≡ true
    → (a : SizedString) → same_string a k ≡ same_string a j
same_string-congruent j k h a = ap (bytes_eq a.value) (bytes_eq-eq k.value j.value h)

-- ProtocolStringMap
abbrev pub string_map : MapCodec
string_map = record {
  keys = string_element;
  values = string_element;
  is_same = same_string;
  is_same-congruent = same_string-congruent;
}
