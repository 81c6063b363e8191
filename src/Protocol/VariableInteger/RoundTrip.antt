-- ===== src/Protocol/VariableInteger/RoundTrip.antt =====
-- A variable integer that is encoded is decoded again.
use cpv_cql_driver.Common.{
  ℕ, zero, suc, ◌+◌, ◌-◌, ◌*◌, ◌%◌, ◌^◌, ◌≤◌, ◌<◌, ◌≡◌, inl, inr, refl, sym, ap, ap₂, ◌∙◌, subst,
  [], ◌∷◌, ◌++◌, Bool, true, false, ◌&&◌, arith, ltb, ◌==◌, if◌then◌else◌, Bool-cases, ==→eq,
  le→ltb, length, length-append, take, drop, take-length_append, drop-length_append, All, bit_and,
  bit_or, ok, err, decode_exception, IsByte, Bytes,
}
use cpv_cql_driver.Protocol.Integer.{be_bytes, be_value}
use cpv_cql_driver.Protocol.Integer.RoundTrip.{length-be_bytes, be_value-be_bytes, be_bytes-IsByte}
use cpv_cql_driver.Protocol.VariableInteger.{
  extra_bytes_header, trim, embed, encode_variable, leading_ones, extra_bytes, payload,
  append_bytes, decode_variable, vint_get, vint_set,
}

-- What the first byte says to the decoder, for `total` bytes of which the first is `b`.
is_readable : ℕ → ℕ → Bool
is_readable total b =
    let own = extra_bytes_header total in
    let shared = bit_or b (extra_bytes_header (total - 1)) in
    if bit_and own b == 0
    then extra_bytes shared == total - 1 && payload shared == b
    else extra_bytes own == total && payload own == 0

and_left : (a b : Bool) → (a && b) ≡ true → a ≡ true
and_left true b h = refl
and_left false b h = cc (h)

and_right : (a b : Bool) → (a && b) ≡ true → b ≡ true
and_right true b h = h
and_right false b h = cc (h)

all_below : (ℕ → Bool) → ℕ → Bool
all_below test zero = true
all_below test (suc n) = let rest = all_below test n in test n && rest

all_below_lem : (test : ℕ → Bool) (n k : ℕ) → all_below test n ≡ true → k < n → test k ≡ true
unfolding all_below
all_below_lem test zero k e h = absurd (omega arith)
all_below_lem test (suc n) k e h = elim (Bool-cases (k == n)) [
  | inl same ↦
      subst (λ j. test j ≡ true) (sym (==→eq k n same)) (and_left (test n) (all_below test n) e)
  | inr less ↦
      all_below_lem test n k (and_right (test n) (all_below test n) e) (ground (arith, less))
]

readable_1 : all_below (is_readable 1) 256 ≡ true
unfolding all_below is_readable extra_bytes_header leading_ones
readable_1 = refl

readable_2 : all_below (is_readable 2) 256 ≡ true
unfolding all_below is_readable extra_bytes_header leading_ones
readable_2 = refl

readable_3 : all_below (is_readable 3) 256 ≡ true
unfolding all_below is_readable extra_bytes_header leading_ones
readable_3 = refl

readable_4 : all_below (is_readable 4) 256 ≡ true
unfolding all_below is_readable extra_bytes_header leading_ones
readable_4 = refl

readable_5 : all_below (is_readable 5) 256 ≡ true
unfolding all_below is_readable extra_bytes_header leading_ones
readable_5 = refl

readable_6 : all_below (is_readable 6) 256 ≡ true
unfolding all_below is_readable extra_bytes_header leading_ones
readable_6 = refl

readable_7 : all_below (is_readable 7) 256 ≡ true
unfolding all_below is_readable extra_bytes_header leading_ones
readable_7 = refl

readable_8 : all_below (is_readable 8) 256 ≡ true
unfolding all_below is_readable extra_bytes_header leading_ones
readable_8 = refl

readable : (total b : ℕ) → 0 < total → total ≤ 8 → b < 256 → is_readable total b ≡ true
readable zero b h k l = absurd (omega arith)
readable (suc zero) b h k l = all_below_lem (is_readable 1) 256 b readable_1 l
readable (suc (suc zero)) b h k l = all_below_lem (is_readable 2) 256 b readable_2 l
readable (suc (suc (suc zero))) b h k l = all_below_lem (is_readable 3) 256 b readable_3 l
readable (suc (suc (suc (suc zero)))) b h k l = all_below_lem (is_readable 4) 256 b readable_4 l
readable (suc (suc (suc (suc (suc zero))))) b h k l =
    all_below_lem (is_readable 5) 256 b readable_5 l
readable (suc (suc (suc (suc (suc (suc zero)))))) b h k l =
    all_below_lem (is_readable 6) 256 b readable_6 l
readable (suc (suc (suc (suc (suc (suc (suc zero))))))) b h k l =
    all_below_lem (is_readable 7) 256 b readable_7 l
readable (suc (suc (suc (suc (suc (suc (suc (suc zero)))))))) b h k l =
    all_below_lem (is_readable 8) 256 b readable_8 l
readable (suc (suc (suc (suc (suc (suc (suc (suc (suc n))))))))) b h k l = absurd (omega arith)

be_value-trim : (bs : Bytes) → be_value 0 (trim bs) ≡ be_value 0 bs
unfolding trim be_value
be_value-trim [] = refl
be_value-trim (b ∷ bs) = elim (Bool-cases (b == 0)) [
  | inr e ↦ rw (e, trim) refl
  | inl e ↦ rw (e, trim) (be_value-trim bs ∙ ap (λ n. be_value n bs) (ground (arith, e)))
]

length-trim : (bs : Bytes) → length (trim bs) ≤ length bs
unfolding trim
length-trim [] = omega arith
length-trim (b ∷ bs) = ground (arith, length-trim bs)

trim-IsByte : (bs : Bytes) → All IsByte bs → All IsByte (trim bs)
unfolding trim
trim-IsByte [] h = tt
trim-IsByte (b ∷ bs) h = elim (Bool-cases (b == 0)) [
  | inl e ↦ rw (e, trim) (trim-IsByte bs h.1)
  | inr e ↦ rw (e, trim) h
]

be_value-ge : (value : ℕ) (bs : Bytes) → value ≤ be_value value bs
unfolding be_value
be_value-ge value [] = omega arith
be_value-ge value (b ∷ bs) = omega (arith, be_value-ge (value * 256 + b) bs)

append_bytes_lem :
    (value : ℕ) (bs : Bytes)
    → be_value value bs < 2 ^ 64
    → append_bytes value bs ≡ be_value value bs
unfolding be_value append_bytes
append_bytes_lem value [] h = refl
append_bytes_lem value (b ∷ bs) h =
    let e : value * 256 % 2 ^ 64 + b ≡ value * 256 + b =
      omega (arith, be_value-ge (value * 256 + b) bs) in
    ap (λ n. append_bytes n bs) e ∙ append_bytes_lem (value * 256 + b) bs h

decode_first :
    (first p : ℕ) (bytes rest : Bytes)
    → extra_bytes first ≡ length bytes
    → payload first ≡ p
    → be_value p bytes < 2 ^ 64
    → decode_variable (first ∷ (bytes ++ rest)) ≡ ok (be_value p bytes, rest)
unfolding decode_variable
decode_first first p bytes rest e q h =
    ap₂
      (λ n k.
        if ltb (length (bytes ++ rest)) n
        then err decode_exception
        else ok (append_bytes k (take n (bytes ++ rest)), drop n (bytes ++ rest)))
      e q
    ∙ rw
        (
          le→ltb (length (bytes ++ rest)) (length bytes) (omega (arith, length-append bytes rest)),
          take-length_append bytes rest,
          drop-length_append bytes rest,
          append_bytes_lem p bytes h,
        )
        refl

embedded :
    (bs : Bytes)
    → All IsByte bs
    → length bs ≤ 8
    → be_value 0 bs < 2 ^ 64
    → (out : Bytes) × ((buffer : Bytes) → embed bs buffer ≡ buffer ++ out)
      × ((rest : Bytes) → decode_variable (out ++ rest) ≡ ok (be_value 0 bs, rest))
unfolding embed be_value
embedded [] v k h = (
  0 ∷ [],
  λ buffer. refl,
  λ rest. decode_first 0 0 [] rest (unfold leading_ones in refl) (unfold leading_ones in refl) h,
)
embedded (b ∷ bs) (byte, v) k h =
    let total = length (b ∷ bs) in
    let own = extra_bytes_header total in
    let shared = bit_or b (extra_bytes_header (total - 1)) in
    let good : is_readable total b ≡ true = readable total b (omega arith) k byte in
    elim (Bool-cases (bit_and own b == 0)) [
      | inl free ↦
          let good' : (extra_bytes shared == total - 1 && payload shared == b) ≡ true =
            unfold is_readable in rw free at good in
          (
            shared ∷ bs,
            λ buffer. rw (free) refl,
            λ rest.
                decode_first shared (0 * 256 + b) bs rest
                  (==→eq (extra_bytes shared) (total - 1) (and_left _ _ good') ∙ omega arith)
                  (==→eq (payload shared) b (and_right _ _ good') ∙ omega arith) h,
          )
      | inr taken ↦
          let good' : (extra_bytes own == total && payload own == 0) ≡ true =
            unfold is_readable in rw taken at good in
          (
            own ∷ (b ∷ bs),
            λ buffer. rw taken refl,
            λ rest.
                decode_first own 0 (b ∷ bs) rest
                  (==→eq (extra_bytes own) total (and_left _ _ good'))
                  (==→eq (payload own) 0 (and_right _ _ good')) h,
          )
    ]

-- A number of 64 bits is encoded to the end of any buffer, and is decoded from the front of any
-- bytes.
pub decode-encode_variable :
    (value : ℕ) (buffer rest : Bytes)
    → value < 2 ^ 64
    → (out : Bytes) × (encode_variable value buffer ≡ buffer ++ out)
      × (decode_variable (out ++ rest) ≡ ok (value, rest))
unfolding encode_variable
decode-encode_variable value buffer rest h =
    let bs = be_bytes 8 value in
    let same : be_value 0 (trim bs) ≡ value = be_value-trim bs ∙ be_value-be_bytes 8 value h in
    let (out, coded, back) =
      embedded (trim bs) (trim-IsByte bs (be_bytes-IsByte 8 value))
        (omega (arith, length-trim bs, length-be_bytes 8 value)) (omega (arith, same, h)) in
    (out, coded buffer, back rest ∙ ap (λ n. ok (n, rest)) same)

-- Zig-zag coding maps the patterns of 64 bits one to one to themselves.
pub vint_get-set :
    (value : ℕ)
    → value < 2 ^ 64
    → (vint_set value < 2 ^ 64)
      × (vint_get (vint_set value) ≡ value)
      × (vint_set (vint_get value) ≡ value)
unfolding vint_get vint_set
vint_get-set value h = (ground arith, ground arith, ground arith)
