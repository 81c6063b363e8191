-- ===== src/Protocol/SizedString/RoundTrip.antt =====
-- Decoding undoes encoding for every sized string.
use cpv_cql_driver.Common.{
  ℕ, ◌%◌, zero, suc, ◌^◌, ◌≤◌, ◌<◌, ◌≡◌, ◌≢◌, refl, sym, ap, ap₂, [], ◌++◌, append_assoc, Bool,
  true, false, arith, not, ◌||◌, le→ltb, le→leb, eq→==, ne→==, length, length-append,
  take-length_append, drop-length_append, ok, Bytes,
}
use native.Mathlib.Nat.{pow-suc, mod-eq_of_lt, one-le-pow}
use cpv_cql_driver.Protocol.Integer.{is_negative, max_length, be_bytes}
use cpv_cql_driver.Protocol.Integer.RoundTrip.{decode-be_bytes}
use cpv_cql_driver.Protocol.Integer
use cpv_cql_driver.Protocol.SizedString.{Traits, SizedString, encode, decode, decode_body}

-- What the class can send and read back: a normal value that fits the length type, or one of the
-- negative states of a 4-byte signed length, with nothing in it.
pub data IsSendable (t : Traits) (s : SizedString) : Type 0 where
  normal_state :
      s.state ≡ t.normal_state → length s.value ≤ max_length t.width t.is_signed → IsSendable t s
  other_state :
      t.width ≡ 4
      → t.is_signed ≡ true
      → s.state ≢ t.normal_state
      → 2 ^ 31 ≤ s.state
      → s.state < 2 ^ 32
      → s.value ≡ []
      → IsSendable t s

pow-ge : (w : ℕ) → 0 < w → 256 ≤ 256 ^ w
pow-ge zero h = absurd (omega arith)
pow-ge (suc w) h = rw (pow-suc 256 w) (omega (arith, one-le-pow w 256 (omega arith)))

-- A length that passes the check of `encode` is written unchanged and is read back as non-negative.
pub fits :
    (w n : ℕ) (signed : Bool)
    → 0 < w
    → n ≤ max_length w signed
    → (n < 256 ^ w) × (n % 256 ^ w ≡ n) × ((not signed || not (is_negative w n)) ≡ true)
fits w n true h k =
    let lt : n < 256 ^ w = omega (arith, pow-ge w h) in
    (lt, mod-eq_of_lt lt, ground (arith, pow-ge w h))
fits w n false h k = let lt : n < 256 ^ w = omega (arith, pow-ge w h) in (lt, mod-eq_of_lt lt, refl)

module _ (t : Traits) (s : SizedString) (w : 0 < t.width) where
  module _ (e : s.state ≡ t.normal_state)
      (h : length s.value ≤ max_length t.width t.is_signed) where
    pub encode_normal :
        (buffer : Bytes)
        → encode t s buffer ≡ ok (buffer ++ (be_bytes t.width (length s.value) ++ s.value))
    unfolding encode Integer.encode
    encode_normal buffer =
        let n = length s.value in
        let (lt, same, pos) = fits t.width n t.is_signed w h in
        rw (eq→== _ _ e, le→ltb (max_length t.width t.is_signed) n h, same)
          (ap ok (append_assoc buffer (be_bytes t.width n) s.value))

    pub decode_normal :
        (rest : Bytes)
        → decode t ((be_bytes t.width (length s.value) ++ s.value) ++ rest) ≡ ok (s, rest)
    unfolding decode decode_body
    decode_normal rest =
        let n = length s.value in
        let (lt, same, pos) = fits t.width n t.is_signed w h in
        rw
          (
            append_assoc (be_bytes t.width n) s.value rest,
            decode-be_bytes t.width n (s.value ++ rest) lt,
          )
          (rw
            (
              pos,
              le→ltb (length (s.value ++ rest)) n (omega (arith, length-append s.value rest)),
              take-length_append s.value rest,
              drop-length_append s.value rest,
            )
            (ap (λ (x : ℕ). ok (record { state = x; value = s.value }, rest)) (sym e)))

  module _ (w4 : t.width ≡ 4) (sg : t.is_signed ≡ true) (lo : 2 ^ 31 ≤ s.state)
      (hi : s.state < 2 ^ 32) where
    encode_other :
        (buffer : Bytes)
        → s.state ≢ t.normal_state
        → encode t s buffer ≡ ok (buffer ++ be_bytes 4 s.state)
    unfolding encode Integer.encode
    encode_other buffer ne =
        let same : s.state % 2 ^ 32 ≡ s.state = omega arith in rw (ne→== _ _ ne, w4, same)

    decode_other :
        (rest : Bytes) → s.value ≡ [] → decode t (be_bytes 4 s.state ++ rest) ≡ ok (s, rest)
    unfolding decode decode_body
    decode_other rest empty =
        rw (w4, decode-be_bytes 4 s.state rest hi)
          (rw (sg, le→leb (2 ^ 31) s.state lo)
            (ap₂ (λ (x : ℕ) (y : Bytes). ok (record { state = x; value = y }, rest)) (omega arith)
              (sym empty)))

-- A string in the normal state that is not too long, or in another state (a negative pattern of 32
-- bits, of a type with a signed length of four bytes, with an empty value), is encoded to the end of
-- any buffer, and is decoded from the front of any bytes that follow.
pub decode-encode_sized :
    (t : Traits) (s : SizedString) (buffer rest : Bytes)
    → 0 < t.width
    → IsSendable t s
    → (out : Bytes) × (encode t s buffer ≡ ok (buffer ++ out))
      × (decode t (out ++ rest) ≡ ok (s, rest))
decode-encode_sized t s buffer rest w (normal_state e h) = (
  be_bytes t.width (length s.value) ++ s.value,
  encode_normal t s w e h buffer,
  decode_normal t s w e h rest,
)
decode-encode_sized t s buffer rest w (other_state w4 sg ne lo hi empty) = (
  be_bytes 4 s.state,
  encode_other t s w w4 sg lo hi buffer ne,
  decode_other t s w w4 sg lo hi rest empty,
)
