-- ===== src/Protocol/Integer/RoundTrip.antt =====
-- What encoding and decoding of a fixed-width integer do to one another.
use cpv_cql_driver.Common.{
  ℕ, zero, suc, ◌+◌, ◌*◌, ◌/◌, ◌%◌, ◌^◌, ◌≤◌, ◌<◌, ◌≡◌, refl, sym, ap, ◌∙◌, [], ◌∷◌, ◌++◌,
  append-nil, append_assoc, arith, lt→ltb, le→ltb, length, length-append, take, drop,
  take-length_append, drop-length_append, take-append-drop, length-take, All, All-append, ap₂, ok,
  err, decode_exception, IsByte, Bytes,
}
use cpv_cql_driver.Protocol.Integer.{be_bytes, be_value, encode, decode}
use native.Mathlib.Nat.{pow-suc}

pub length-be_bytes : (w v : ℕ) → length (be_bytes w v) ≡ w
unfolding be_bytes
length-be_bytes zero v = refl
length-be_bytes (suc w) v =
    omega
      (arith, length-append (be_bytes w (v / 256)) ((v % 256) ∷ []), length-be_bytes w (v / 256))

be_value-append :
    (acc : ℕ) (xs ys : Bytes) → be_value acc (xs ++ ys) ≡ be_value (be_value acc xs) ys
unfolding be_value
be_value-append acc [] ys = refl
be_value-append acc (x ∷ xs) ys = be_value-append (acc * 256 + x) xs ys

pub be_value-be_bytes : (w v : ℕ) → v < 256 ^ w → be_value 0 (be_bytes w v) ≡ v
unfolding be_bytes be_value
be_value-be_bytes zero v h = omega arith
be_value-be_bytes (suc w) v h =
    be_value-append 0 (be_bytes w (v / 256)) ((v % 256) ∷ [])
    ∙ omega (arith, be_value-be_bytes w (v / 256) (omega (arith, pow-suc 256 w)))

be_bytes_step :
    (m acc b : ℕ) (bs : Bytes)
    → b < 256
    → be_bytes (suc m) (acc * 256 + b) ++ bs ≡ be_bytes m acc ++ b ∷ bs
unfolding be_bytes
be_bytes_step m acc b bs h =
    let p : (acc * 256 + b) / 256 ≡ acc = omega arith in
    let q : (acc * 256 + b) % 256 ≡ b = omega arith in rw (p, q, append_assoc)

be_bytes-be_value :
    (m acc : ℕ) (bs : Bytes)
    → All IsByte bs
    → be_bytes (m + length bs) (be_value acc bs) ≡ be_bytes m acc ++ bs
unfolding be_value
be_bytes-be_value m acc [] h =
    ap (λ n. be_bytes n acc) (omega arith) ∙ sym (append-nil (be_bytes m acc))
be_bytes-be_value m acc (b ∷ bs) h =
    ap (λ n. be_bytes n (be_value (acc * 256 + b) bs)) (omega arith)
    ∙ be_bytes-be_value (suc m) (acc * 256 + b) bs h.1
    ∙ be_bytes_step m acc b bs h.0

mul_mono : (a b p : ℕ) → a ≤ b → a * p ≤ b * p
mul_mono a b p h = grind arith

pub be_value-lt :
    (acc : ℕ) (bs : Bytes) → All IsByte bs → be_value acc bs < (acc + 1) * 256 ^ length bs
unfolding be_value
be_value-lt acc [] h = omega arith
be_value-lt acc (b ∷ bs) h = rw (pow-suc 256 (length bs)) (
    omega (
      arith,
      be_value-lt (acc * 256 + b) bs h.1,
      mul_mono (acc * 256 + b + 1) ((acc + 1) * 256) (256 ^ length bs) (omega arith),
    ))

pub be_bytes-IsByte : (w v : ℕ) → All IsByte (be_bytes w v)
unfolding be_bytes
be_bytes-IsByte zero v = tt
be_bytes-IsByte (suc w) v =
    All-append IsByte (be_bytes w (v / 256)) _ (be_bytes-IsByte w (v / 256)) (omega arith)

pub decode-be_bytes :
    (w v : ℕ) (rest : Bytes) → v < 256 ^ w → decode w (be_bytes w v ++ rest) ≡ ok (v, rest)
unfolding decode
decode-be_bytes w v rest h =
    let e = length-be_bytes w v in
    rw
      (le→ltb (length (be_bytes w v ++ rest)) w
        (omega (arith, length-append (be_bytes w v) rest, e)))
      (ap₂ (λ x y. ok (x, y))
        (ap (be_value 0) (rw e at (take-length_append (be_bytes w v) rest))
          ∙ be_value-be_bytes w v h)
        (rw e at (drop-length_append (be_bytes w v) rest)))

pub decode_short : (w : ℕ) (bs : Bytes) → length bs < w → decode w bs ≡ err decode_exception
unfolding decode
decode_short w bs h = rw (lt→ltb (length bs) w h)

-- Reading back an integer that fits its width gives the integer and leaves what follows it.
pub decode-encode_integer :
    (w v : ℕ) (buffer rest : Bytes)
    → v < 256 ^ w
    → decode w (drop (length buffer) (encode w v buffer) ++ rest) ≡ ok (v, rest)
unfolding encode
decode-encode_integer w v buffer rest h =
    rw (drop-length_append buffer) (decode-be_bytes w v rest h)

decode_ok :
    (w v : ℕ) (bs rest : Bytes)
    → decode w bs ≡ ok (v, rest)
    → (w ≤ length bs) × (be_value 0 (take w bs) ≡ v) × (drop w bs ≡ rest)
unfolding decode
decode_ok w v bs rest e = ground arith

All-take : (n : ℕ) (bs : Bytes) → All IsByte bs → All IsByte (take n bs)
All-take zero bs h = tt
All-take (suc n) [] h = tt
All-take (suc n) (b ∷ bs) h = (h.0, All-take n bs h.1)

-- Whenever decoding succeeds, the bytes that it took are what encoding the result writes, and the
-- result fits the width.
pub decode_exact :
    (w v : ℕ) (bs rest : Bytes)
    → All IsByte bs
    → decode w bs ≡ ok (v, rest)
    → (bs ≡ be_bytes w v ++ rest) × (v < 256 ^ w)
unfolding be_bytes
decode_exact w v bs rest h e =
    let (le, val, left) = decode_ok w v bs rest e in
    let len : length (take w bs) ≡ w = length-take w bs le in
    let front : be_bytes (0 + length (take w bs)) (be_value 0 (take w bs)) ≡ take w bs =
      be_bytes-be_value 0 0 (take w bs) (All-take w bs h) in
    let bound = be_value-lt 0 (take w bs) (All-take w bs h) in
    let len0 : 0 + length (take w bs) ≡ w = omega arith in
    (
      sym (take-append-drop w bs) ∙ ap₂ ◌++◌ (sym front ∙ ap₂ be_bytes len0 val) left,
      omega (arith, rw len at (rw val at bound)),
    )
