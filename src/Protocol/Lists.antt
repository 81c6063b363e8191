-- ===== src/Protocol/Lists.antt =====
-- src/LowLevel/ProtocolTypes/ProtocolListBase.hpp: a length and that many elements. An element's
-- `decode` is a member function of an object that may hold something already.
pub mod Reference
pub mod RoundTrip
use cpv_cql_driver.Common.{
  ℕ, zero, suc, ◌+◌, ◌-◌, ◌%◌, ◌^◌, ◌≡◌, refl, List, [], ◌∷◌, ◌++◌, Bool, true, false, ◌&&◌, ltb,
  leb, if◌then◌else◌, length, get_elem?, set, take, replicate, Option, none, some, Result, ok, err,
  ◌>>=◌, encode_exception, out_of_range, Bytes,
}
use cpv_cql_driver.Protocol.Integer.{is_negative, max_length}
use cpv_cql_driver.Protocol.Integer
use cpv_cql_driver.Protocol.SizedString.{SizedString, string_traits, decode_string}
use cpv_cql_driver.Protocol.SizedString

-- What a list asks of its elements: what the default constructor makes, and the two functions.
-- `decode` overwrites what the element held.
pub record ElementCodec : Type 1 where
  pub Element : Type 0
  pub fresh : Element
  pub encode : Element → Bytes → Result Bytes
  pub decode : Element → Bytes → Result (Element × Bytes)
  pub decode-overwrites : (e : Element) (bs : Bytes) → decode e bs ≡ decode fresh bs

abbrev pub small_size_boundary : ℕ
small_size_boundary = 255

-- `static_cast<std::size_t>(size)`, where a negative size is extended to 64 bits.
unfoldable pub to_size : ℕ → Bool → ℕ → ℕ
to_size width signed size =
    if signed && is_negative width size then size + (2 ^ 64 - 256 ^ width) else size

module _ (C : ElementCodec) where
  -- `vector::resize`
  unfoldable pub resize : ℕ → List C.Element → List C.Element
  resize n xs = take n xs ++ replicate (n - length xs) C.fresh

  unfoldable pub encode_each : List C.Element → Bytes → Result Bytes
  encode_each [] buffer = ok buffer
  encode_each (e ∷ elements) buffer = do buffer' ← C.encode e buffer; encode_each elements buffer'

  -- `ProtocolListBase::encode`
  unfoldable pub encode_list : ℕ → Bool → List C.Element → Bytes → Result Bytes
  encode_list width signed elements buffer =
      if ltb (max_length width signed) (length elements)
      then err encode_exception
      else encode_each elements (Integer.encode width (length elements % 256 ^ width) buffer)

  -- The loop over a vector that has its size.
  unfoldable pub decode_each : List C.Element → Bytes → Result (List C.Element × Bytes)
  decode_each [] bs = ok ([], bs)
  decode_each (e ∷ elements) bs = do
    (e', bs₁) ← C.decode e bs
    (elements', bs₂) ← decode_each elements bs₁
    ok (e' ∷ elements', bs₂)

  -- The loop over a vector that grows, `n` elements being left from index `i` on.
  unfoldable pub decode_growing : ℕ → ℕ → List C.Element → Bytes → Result (List C.Element × Bytes)
  decode_growing zero i elements bs = ok (elements, bs)
  decode_growing (suc n) i elements bs = elim (get_elem? elements i) [
    | some e ↦ do (e', bs') ← C.decode e bs; decode_growing n (i + 1) (set elements i e') bs'
    | none ↦ do (e', bs') ← C.decode C.fresh bs; decode_growing n (i + 1) (elements ++ e' ∷ []) bs'
  ]

  -- `ProtocolListBase::decode` into a list that holds `old`.
  unfoldable pub decode_list : ℕ → Bool → List C.Element → Bytes → Result (List C.Element × Bytes)
  decode_list width signed old bs = do
    (size, rest) ← Integer.decode width bs
    let n = to_size width signed size
    if leb n small_size_boundary
        then decode_each (resize n old) rest
        else decode_growing n 0 (resize small_size_boundary old) rest

-- The elements of ProtocolStringList, a list with a [short] length of [string].
abbrev pub string_element : ElementCodec
string_element = record {
  Element = SizedString;
  fresh = SizedString.reset string_traits;
  encode = SizedString.encode string_traits;
  decode = λ e. decode_string;
  decode-overwrites = λ e bs. refl;
}
