-- ===== src/ColumnOption/Fuel.antt =====
-- The recursion of `decode` ends: as much fuel as there are bytes is enough for any input, however
-- deep its types are nested, and whatever the static payload objects alias.
use cpv_cql_driver.Common.{
  ℕ, zero, suc, ◌-◌, ◌%◌, ◌^◌, ◌≤◌, ◌≡◌, refl, sym, arith, [], ◌==◌, length, length-drop,
  Bool-cases, ltb, lt→ltb, Result-cases, inl, inr, Result, ok, err, ◌>>=◌, require, logic_exception,
  Bytes,
}
use cpv_cql_driver.Protocol.Integer
use cpv_cql_driver.Protocol.SizedString.{SizedString, string_traits, decode_string}
use cpv_cql_driver.Protocol.SizedString
use cpv_cql_driver.ColumnOption.{
  list_type, set_type, map_type, tuple_type, udt_type, Store, Location, locate, encode_into,
  encode_string_into, encode_types, encode_fields, encode_count, write, emplace_back, clear,
  Decoder, decode, decode_payload, decode_element, decode_map, decode_types, decode_tuple,
  decode_fields, decode_udt, decode_custom,
}

-- At most `n` bytes are left, if the call returns.
abbrev pub Leaves : {A : Type 0} → ℕ → Result (A × Bytes) → Type 0
Leaves n (err e) = Unit {0}
Leaves n (ok (a, rest)) = length rest ≤ n

-- Two runs end alike, and leave no more than `n` bytes.
abbrev Alike : ℕ → Result (Store × Bytes) → Result (Store × Bytes) → Type 0
Alike n r r' = (r ≡ r') × Leaves n r'

Alike-bind :
    {A : Type 0} (n k : ℕ) (m : Result (A × Bytes)) (f g : A × Bytes → Result (Store × Bytes))
    → Leaves k m
    → ((a : A) (rest : Bytes) → length rest ≤ k → Alike n (f (a, rest)) (g (a, rest)))
    → Alike n (m >>= f) (m >>= g)
Alike-bind n k (err e) f g h next = (refl, tt)
Alike-bind n k (ok (a, rest)) f g h next = next a rest h

Alike-call :
    (n k : ℕ) (m m' : Result (Store × Bytes)) (f g : Store × Bytes → Result (Store × Bytes))
    → Alike k m m'
    → ((s : Store) (rest : Bytes) → length rest ≤ k → Alike n (f (s, rest)) (g (s, rest)))
    → Alike n (m >>= f) (m' >>= g)
Alike-call n k m m' f g (e, h) next = rw e (Alike-bind n k m' f g h next)

abbrev fitting : ℕ → Result (Unit {0})
fitting size = require (size % 2 ^ 16 == size) logic_exception

-- A step that does not read.
Leaves-bind :
    {A : Type 0} (n : ℕ) (m : Result A) (f : A → Result (Store × Bytes))
    → ((a : A) → Leaves n (f a))
    → Leaves n (m >>= f)
Leaves-bind n (err e) f h = tt
Leaves-bind n (ok a) f h = h a

Leaves-decode : (w : ℕ) (bs : Bytes) → Leaves (length bs - w) (Integer.decode w bs)
unfolding Integer.decode
Leaves-decode w bs = elim (Bool-cases (ltb (length bs) w)) [
  | inl short ↦ rw short tt
  | inr enough ↦ rw enough (omega (arith, length-drop w bs))
]

Leaves-body :
    (n size : ℕ) (rest : Bytes)
    → length rest ≤ n
    → Leaves n (SizedString.decode_body string_traits size rest)
unfolding SizedString.decode_body
Leaves-body n size rest h = elim (Bool-cases (ltb (length rest) size)) [
  | inl short ↦ rw short tt
  | inr enough ↦ rw enough (omega (arith, length-drop size rest))
]

Leaves-string : (bs : Bytes) → Leaves (length bs) (decode_string bs)
unfolding decode_string SizedString.decode
Leaves-string bs = elim (Result-cases (Integer.decode 2 bs)) [
  | inl ((size, rest), e) ↦ rw e (
      Leaves-body (length bs) size rest
        (let left : length rest ≤ length bs - 2 = rw e at (Leaves-decode 2 bs) in omega arith))
  | inr (thrown, e) ↦ rw e tt
]

abbrev AgreeBelow : ℕ → Decoder → Decoder → Type 0
AgreeBelow n d d' =
    (loc : Location) (bs : Bytes) (s : Store)
    → length bs ≤ n
    → Alike (length bs) (d loc bs s) (d' loc bs s)

Leaves-mono : {A : Type 0} (n k : ℕ) (m : Result (A × Bytes)) → n ≤ k → Leaves n m → Leaves k m
Leaves-mono n k (err e) le h = tt
Leaves-mono n k (ok (a, rest)) le h = omega arith

module _ (n : ℕ) (d d' : Decoder) (agree : AgreeBelow n d d') where
  decode_types-Alike :
      (count : ℕ) (bs : Bytes) (s : Store)
      → length bs ≤ n
      → Alike (length bs) (decode_types d count bs s) (decode_types d' count bs s)
  unfolding decode_types
  decode_types-Alike zero bs s h = (refl, omega arith)
  decode_types-Alike (suc count) bs s h =
      Alike-call (length bs) (length bs) _ _ _ _
        (agree (locate tuple_type (s tuple_type).size (emplace_back tuple_type s)) bs _ h)
        (λ s₂ r le.
          let (same, leaves) = decode_types-Alike count r s₂ (omega arith) in
          (same, Leaves-mono (length r) (length bs) _ le leaves))

  decode_fields-Alike :
      (count : ℕ) (bs : Bytes) (s : Store)
      → length bs ≤ n
      → Alike (length bs) (decode_fields d count bs s) (decode_fields d' count bs s)
  unfolding decode_fields
  decode_fields-Alike zero bs s h = (refl, omega arith)
  decode_fields-Alike (suc count) bs s h =
      Alike-bind (length bs) (length bs) _ _ _ (Leaves-string bs) (λ name r₁ le₁.
        Alike-call (length bs) (length r₁) _ _ _ _ (agree _ r₁ _ (omega arith)) (λ s₃ r₂ le₂.
          let (same, leaves) = decode_fields-Alike count r₂ s₃ (omega arith) in
          (same, Leaves-mono (length r₂) (length bs) _ (omega arith) leaves)))

module _ (n : ℕ) (d d' : Decoder) (agree : AgreeBelow n d d') (loc : Location) where
  decode_element-Alike :
      (k : ℕ) (bs : Bytes) (s : Store)
      → length bs ≤ n
      → Alike (length bs) (decode_element d k loc bs s) (decode_element d' k loc bs s)
  unfolding decode_element
  decode_element-Alike k bs s h =
      Alike-call (length bs) (length bs) _ _ _ _ (agree (locate k 0 s) bs s h) (λ s₁ r le.
        (refl, Leaves-bind (length bs) (encode_into (locate k 0 s₁) loc s₁) _ (λ s₂. le)))

  decode_map-Alike :
      (bs : Bytes) (s : Store)
      → length bs ≤ n
      → Alike (length bs) (decode_map d loc bs s) (decode_map d' loc bs s)
  unfolding decode_map
  decode_map-Alike bs s h =
      Alike-call (length bs) (length bs) _ _ _ _ (agree (locate map_type 0 s) bs s h) (λ s₁ r₁ le.
        Alike-call (length bs) (length r₁) _ _ _ _
          (agree (locate map_type 1 s₁) r₁ s₁ (omega arith))
          (λ s₂ r₂ le'. (
            refl,
            Leaves-bind (length bs) (encode_into (locate map_type 0 s₂) loc s₂) _ (λ s₃.
                Leaves-bind (length bs) (encode_into (locate map_type 1 s₃) loc s₃) _
                  (λ s₄. omega arith)),
          )))

  decode_tuple-Alike :
      (bs : Bytes) (s : Store)
      → length bs ≤ n
      → Alike (length bs) (decode_tuple d loc bs s) (decode_tuple d' loc bs s)
  unfolding decode_tuple
  decode_tuple-Alike bs s h =
      Alike-bind (length bs) (length bs - 2) _ _ _ (Leaves-decode 2 bs) (λ count r₁ le.
        Alike-call (length bs) (length r₁) _ _ _ _
          (decode_types-Alike n d d' agree count r₁ (clear tuple_type s) (omega arith))
          (λ s₁ r₂ le'. (
            refl,
            Leaves-bind (length bs) (fitting (s₁ tuple_type).size) _ (λ done.
                Leaves-bind (length bs) (encode_count (s₁ tuple_type).size loc s₁) _ (λ s₂.
                  Leaves-bind (length bs) (encode_types (s₁ tuple_type).size 0 loc s₂) _
                    (λ s₃. omega arith))),
          )))

  decode_udt-Alike :
      (bs : Bytes) (s : Store)
      → length bs ≤ n
      → Alike (length bs) (decode_udt d loc bs s) (decode_udt d' loc bs s)
  unfolding decode_udt
  decode_udt-Alike bs s h =
      Alike-bind (length bs) (length bs) _ _ _ (Leaves-string bs) (λ key_space r₁ le₁.
        Alike-bind (length bs) (length r₁) _ _ _ (Leaves-string r₁) (λ udt_name r₂ le₂.
          Alike-bind (length bs) (length r₂ - 2) _ _ _ (Leaves-decode 2 r₂) (λ count r₃ le₃.
            Alike-call (length bs) (length r₃) _ _ _ _
              (decode_fields-Alike n d d' agree count r₃ _ (omega arith))
              (λ s₁ r₄ le₄.
                let size = (s₁ udt_type).size in
                (
                  refl,
                  Leaves-bind (length bs) (fitting size) _ (λ done.
                      Leaves-bind (length bs) (encode_string_into (s₁ udt_type).key_space loc s₁) _
                        (λ s₂.
                          Leaves-bind (length bs) (encode_string_into (s₂ udt_type).udt_name loc s₂)
                            _
                            (λ s₃. Leaves-bind (length bs) (encode_count size loc s₃) _ (λ s₄.
                              Leaves-bind (length bs) (encode_fields size 0 loc s₄) _
                                (λ s₅. omega arith))))),
                )))))

  decode_payload-Alike :
      (type : ℕ) (bs : Bytes) (s : Store)
      → length bs ≤ n
      → Alike (length bs) (decode_payload d type loc bs s) (decode_payload d' type loc bs s)
  unfolding decode_payload decode_custom
  decode_payload-Alike type bs s h = elim (Bool-cases (type == 0x00)) [
    | inl e ↦ rw e (
        Alike-bind (length bs) (length bs) _ _ _ (Leaves-string bs)
          (λ str r le. (refl, Leaves-bind (length bs) (encode_string_into str loc s) _ (λ s'. le))))
    | inr e ↦ rw e (elim (Bool-cases (type == list_type)) [
      | inl e ↦ rw e (decode_element-Alike list_type bs s h)
      | inr e ↦ rw e (elim (Bool-cases (type == map_type)) [
        | inl e ↦ rw e (decode_map-Alike bs s h)
        | inr e ↦ rw e (elim (Bool-cases (type == set_type)) [
          | inl e ↦ rw e (decode_element-Alike set_type bs s h)
          | inr e ↦ rw e (elim (Bool-cases (type == udt_type)) [
            | inl e ↦ rw e (decode_udt-Alike bs s h)
            | inr e ↦ rw e (elim (Bool-cases (type == tuple_type)) [
              | inl e ↦ rw e (decode_tuple-Alike bs s h)
              | inr e ↦ rw e (refl, omega arith)
            ])
          ])
        ])
      ])
    ])
  ]

fuels_agree : (f g : ℕ) → f ≤ g → AgreeBelow f (decode f) (decode g)
unfolding decode Integer.decode
fuels_agree zero zero le loc bs s h = (refl, tt)
fuels_agree zero (suc g) le loc bs s h = rw (lt→ltb (length bs) 2 (omega arith)) (refl, tt)
fuels_agree (suc f) zero le loc bs s h = absurd (omega arith)
fuels_agree (suc f) (suc g) le loc bs s h =
    Alike-bind (length bs) (length bs - 2) _ _ _ (Leaves-decode 2 bs) (λ type r left.
      elim (Result-cases (write loc (record { type = type; payload = [] }) s)) [
        | inr (thrown, e) ↦ rw e (refl, tt)
        | inl (s', e) ↦ rw e (
            let (same, leaves) =
              decode_payload-Alike f (decode f) (decode g) (fuels_agree f g (omega arith)) loc type
                r s' (omega arith) in
            (same, Leaves-mono (length r) (length bs) _ (omega arith) leaves))
      ])

-- Decoding any bytes gives with any amount of fuel that is not below their number what it gives with
-- as much fuel as there are bytes, and leaves no more bytes than it was given.
pub decode-fuel :
    (fuel : ℕ) (loc : Location) (bs : Bytes) (s : Store)
    → length bs ≤ fuel
    → (decode fuel loc bs s ≡ decode (length bs) loc bs s)
      × Leaves (length bs) (decode fuel loc bs s)
decode-fuel fuel loc bs s h =
    let (same, leaves) = fuels_agree (length bs) fuel h loc bs s (omega arith) in (sym same, leaves)
