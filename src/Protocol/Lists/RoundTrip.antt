-- ===== src/Protocol/Lists/RoundTrip.antt =====
-- A list that is encoded is decoded again, if its elements are.
use cpv_cql_driver.Common.{
  ℕ, ◌≤◌, ◌<◌, ◌≡◌, refl, sym, ap, ◌∙◌, List, [], ◌∷◌, ◌++◌, append-nil, append_assoc, Bool, true,
  false, not, ◌||◌, arith, length, All, le→ltb, ok, Bytes,
}
use cpv_cql_driver.Protocol.Integer.{be_bytes, is_negative, max_length}
use cpv_cql_driver.Protocol.Integer
use cpv_cql_driver.Protocol.Integer.RoundTrip.{decode-be_bytes}
use cpv_cql_driver.Protocol.SizedString.{SizedString, normal, string_traits, decode_string}
use cpv_cql_driver.Protocol.SizedString.RoundTrip.{fits, encode_normal, decode_normal}
use cpv_cql_driver.Protocol.Lists.{
  ElementCodec, string_element, to_size, encode_each, encode_list, decode_list,
}
use cpv_cql_driver.Protocol.Lists.Reference.{decode_plain, decode_list_lem}

-- An element goes to the end of any buffer, and comes back from the front of any bytes.
pub record IsCoded (C : ElementCodec) (e : C.Element) : Type 0 where
  pub out : Bytes
  pub encoded : (buffer : Bytes) → C.encode e buffer ≡ ok (buffer ++ out)
  pub decoded : (rest : Bytes) → C.decode C.fresh (out ++ rest) ≡ ok (e, rest)

pub string-IsCoded :
    (s : SizedString)
    → s.state ≡ normal
    → length s.value ≤ max_length 2 false
    → IsCoded string_element s
unfolding decode_string
string-IsCoded s e h = record {
  out = be_bytes 2 (length s.value) ++ s.value;
  encoded = encode_normal string_traits s (omega arith) e h;
  decoded = decode_normal string_traits s (omega arith) e h;
}

to_size_lem :
    (w n : ℕ) (signed : Bool)
    → (not signed || not (is_negative w n)) ≡ true
    → to_size w signed n ≡ n
unfolding to_size
to_size_lem w n false h = refl
to_size_lem w n true h = ground (arith, h)

module _ (C : ElementCodec) where
  elements-IsCoded :
      (elements : List C.Element)
      → All (IsCoded C) elements
      → (out : Bytes) × ((buffer : Bytes) → encode_each C elements buffer ≡ ok (buffer ++ out))
        × ((rest : Bytes) → decode_plain C (length elements) (out ++ rest) ≡ ok (elements, rest))
  unfolding encode_each decode_plain
  elements-IsCoded [] h = ([], λ buffer. ap ok (sym (append-nil buffer)), λ rest. refl)
  elements-IsCoded (e ∷ elements) (c, h) =
      let (out, coded, back) = elements-IsCoded elements h in
      (
        c.out ++ out,
        λ buffer.
            rw (c.encoded buffer) (coded (buffer ++ c.out) ∙ ap ok (append_assoc buffer c.out out)),
        λ rest. rw (append_assoc c.out out rest, c.decoded (out ++ rest), back rest) refl,
      )

  -- A list of coded elements that is not too long for its length is encoded to the end of any
  -- buffer, and decoded from the front of any bytes, whatever the list held before.
  pub decode-encode_list :
      (width : ℕ) (signed : Bool) (elements old : List C.Element) (buffer rest : Bytes)
      → 0 < width
      → length elements ≤ max_length width signed
      → All (IsCoded C) elements
      → (out : Bytes) × (encode_list C width signed elements buffer ≡ ok (buffer ++ out))
        × (decode_list C width signed old (out ++ rest) ≡ ok (elements, rest))
  unfolding encode_list Integer.encode
  decode-encode_list width signed elements old buffer rest w h v =
      let n = length elements in
      let (lt, same, positive) = fits width n signed w h in
      let (out, coded, back) = elements-IsCoded elements v in
      (
        be_bytes width n ++ out,
        rw (le→ltb (max_length width signed) n h, same)
            (coded (buffer ++ be_bytes width n)
              ∙ ap ok (append_assoc buffer (be_bytes width n) out)),
        decode_list_lem C width signed old ((be_bytes width n ++ out) ++ rest)
            ∙ rw
                (append_assoc (be_bytes width n) out rest, decode-be_bytes width n (out ++ rest) lt)
                (rw (to_size_lem width n signed positive) (back rest)),
      )
