-- ===== src/Protocol/Maps/RoundTrip.antt =====
-- What is read from the pairs of a map, as a map without an order.
use mathlib.Core.Quot
use mathlib.Core.Quot.{Quot}
use cpv_cql_driver.Common.{
  ℕ, ◌≤◌, ◌<◌, ◌≡◌, ◌∙◌, refl, sym, ap, [], ◌∷◌, ◌++◌, append-nil, append_assoc, Bool-cases, inl,
  inr, true, false, Bool, if◌then◌else◌, length, All, le→ltb, Option, Option-cases, none, some, ok,
  Bytes,
}
use cpv_cql_driver.Protocol.Integer.{be_bytes, max_length}
use cpv_cql_driver.Protocol.Integer
use cpv_cql_driver.Protocol.Integer.RoundTrip.{decode-be_bytes}
use cpv_cql_driver.Protocol.SizedString.RoundTrip.{fits}
use cpv_cql_driver.Protocol.Lists.RoundTrip.{IsCoded}
use cpv_cql_driver.Protocol.Maps.{
  MapCodec, Entries, lookup, IsDistinct, Rehash, encode_pairs, encode_map, emplace, decode_pairs,
  decode_map,
}

module _ (C : MapCodec) where
  -- Two lists of entries find the same value for each key.
  abbrev pub SameMap : Entries C → Entries C → Type 0
  SameMap m m' = (j : C.keys.Element) → lookup C j m ≡ lookup C j m'

  -- The map that a list of entries stands for, whatever their order.
  abbrev pub AbstractMap : Type 0
  AbstractMap = Quot SameMap

  abbrev pub view : Entries C → AbstractMap
  view m = Quot.mk m

  abbrev pub or_else : Option C.values.Element → Option C.values.Element → Option C.values.Element
  or_else none other = other
  or_else (some v) other = some v

  or_else-none : (o : Option C.values.Element) → or_else o none ≡ o
  or_else-none none = refl
  or_else-none (some v) = refl

  lookup-congruent :
      (j k : C.keys.Element) (m : Entries C) → C.is_same k j ≡ true → lookup C k m ≡ lookup C j m
  unfolding lookup
  lookup-congruent j k [] same = refl
  lookup-congruent j k ((a, v) ∷ m) same =
      rw (C.is_same-congruent j k same a)
        (ap (λ x. if C.is_same a j then some v else x) (lookup-congruent j k m same))

  absent :
      (k : C.keys.Element) (v : C.values.Element) (m : Entries C)
      → lookup C k m ≡ none
      → (j : C.keys.Element)
      → (if C.is_same k j then some v else lookup C j m)
        ≡ or_else (lookup C j m) (if C.is_same k j then some v else none)
  absent k v m e j = elim (Bool-cases (C.is_same k j)) [
    | inl same ↦ rw (same, sym (lookup-congruent j k m same) ∙ e) refl
    | inr other ↦ rw other (sym (or_else-none (lookup C j m)))
  ]

  kept :
      (k : C.keys.Element) (v : C.values.Element) (m : Entries C) (there : C.values.Element)
      → lookup C k m ≡ some there
      → (j : C.keys.Element)
      → lookup C j m ≡ or_else (lookup C j m) (if C.is_same k j then some v else none)
  kept k v m there e j = elim (Bool-cases (C.is_same k j)) [
    | inl same ↦ rw (same, sym (lookup-congruent j k m same) ∙ e) refl
    | inr other ↦ rw other (sym (or_else-none (lookup C j m)))
  ]

  or_else_assoc :
      (a b c : Option C.values.Element) → or_else (or_else a b) c ≡ or_else a (or_else b c)
  or_else_assoc none b c = refl
  or_else_assoc (some v) b c = refl

  or_else_if :
      (b : Bool) (v : C.values.Element) (o : Option C.values.Element)
      → or_else (if b then some v else none) o ≡ (if b then some v else o)
  or_else_if true v o = refl
  or_else_if false v o = refl

  abbrev pub PairIsCoded : C.keys.Element × C.values.Element → Type 0
  PairIsCoded (k, v) = IsCoded C.keys k × IsCoded C.values v

  abbrev pairs_bytes : (entries : Entries C) → All PairIsCoded entries → Bytes
  pairs_bytes [] h = []
  pairs_bytes ((k, v) ∷ entries) (h, hs) = h.0.out ++ (h.1.out ++ pairs_bytes entries hs)

  encode_pairs_lem :
      (entries : Entries C) (h : All PairIsCoded entries) (buffer : Bytes)
      → encode_pairs C entries buffer ≡ ok (buffer ++ pairs_bytes entries h)
  unfolding encode_pairs
  encode_pairs_lem [] h buffer = ap ok (sym (append-nil buffer))
  encode_pairs_lem ((k, v) ∷ entries) (h, hs) buffer =
      rw (h.0.encoded buffer, h.1.encoded (buffer ++ h.0.out))
        (encode_pairs_lem entries hs ((buffer ++ h.0.out) ++ h.1.out)
          ∙ ap ok (
              append_assoc (buffer ++ h.0.out) h.1.out (pairs_bytes entries hs)
              ∙ append_assoc buffer h.0.out (h.1.out ++ pairs_bytes entries hs)))

  module _ (order : Rehash C) where
    pub emplace_lem :
        (k : C.keys.Element) (v : C.values.Element) (m : Entries C)
        → IsDistinct C m
        → IsDistinct C (emplace C order k v m)
          × ((j : C.keys.Element)
              → lookup C j (emplace C order k v m)
                ≡ or_else (lookup C j m) (if C.is_same k j then some v else none))
    unfolding emplace lookup
    emplace_lem k v m distinct = elim (Option-cases (lookup C k m)) [
      | inl e ↦
          let grown : IsDistinct C ((k, v) ∷ m) = (e, distinct) in
          rw (e, emplace)
            (
              order.arrange-IsDistinct ((k, v) ∷ m) grown,
              λ j. order.lookup-arrange ((k, v) ∷ m) grown j ∙ absent k v m e j,
            )
      | inr (there, e) ↦ rw (e, emplace) (distinct, λ j. kept k v m there e j)
    ]

    decode_pairs_lem :
        (entries : Entries C) (h : All PairIsCoded entries) (key : C.keys.Element)
        (value : C.values.Element) (m : Entries C) (rest : Bytes)
        → IsDistinct C m
        → (m' : Entries C) × (decode_pairs C order
              (length entries)
              key
              value
              m
              (pairs_bytes entries h ++ rest)
            ≡ ok (m', rest))
          × IsDistinct C m'
          × ((j : C.keys.Element) → lookup C j m' ≡ or_else (lookup C j m) (lookup C j entries))
    unfolding decode_pairs lookup
    decode_pairs_lem [] h key value m rest distinct =
        (m, refl, distinct, λ j. sym (or_else-none (lookup C j m)))
    decode_pairs_lem ((k, v) ∷ entries) (h, hs) key value m rest distinct =
        let left = pairs_bytes entries hs in
        let (distinct₁, found) = emplace_lem k v m distinct in
        let (m', e, distinct', found') =
          decode_pairs_lem entries hs k v (emplace C order k v m) rest distinct₁ in
        (
          m',
          rw
              (
                append_assoc h.0.out (h.1.out ++ left) rest,
                append_assoc h.1.out left rest,
                C.keys.decode-overwrites key (h.0.out ++ (h.1.out ++ (left ++ rest))),
                h.0.decoded (h.1.out ++ (left ++ rest)),
                C.values.decode-overwrites value (h.1.out ++ (left ++ rest)),
                h.1.decoded (left ++ rest),
              )
              e,
          distinct',
          λ j.
              found' j
              ∙ ap (λ o. or_else o (lookup C j entries)) (found j)
              ∙ or_else_assoc (lookup C j m) _ (lookup C j entries)
              ∙ ap (or_else (lookup C j m)) (or_else_if (C.is_same k j) v (lookup C j entries)),
        )

    -- Entries that are coded, and not more than the length can say, are encoded to the end of any
    -- buffer, and are decoded from the front of any bytes into entries that stand for the same map
    -- without an order, the first of several entries with one key being kept, with no key twice,
    -- whatever order the container has after each insertion.
    pub decode-encode_map :
        (width : ℕ) (entries : Entries C) (buffer rest : Bytes)
        → 0 < width
        → length entries ≤ max_length width false
        → All PairIsCoded entries
        → (out : Bytes) × (m : Entries C) × (encode_map C width entries buffer ≡ ok (buffer ++ out))
          × (decode_map C order width (out ++ rest) ≡ ok (m, rest))
          × IsDistinct C m
          × (view m ≡ view entries)
          × ((j : C.keys.Element) → lookup C j m ≡ lookup C j entries)
    unfolding encode_map decode_map lookup Integer.encode
    decode-encode_map width entries buffer rest w h coded =
        let n = length entries in
        let (lt, same, positive) = fits width n false w h in
        let out = pairs_bytes entries coded in
        let (m, e, distinct, found) =
          decode_pairs_lem entries coded C.keys.fresh C.values.fresh [] rest tt in
        (
          be_bytes width n ++ out,
          m,
          rw (le→ltb (max_length width false) n h, same)
              (encode_pairs_lem entries coded (buffer ++ be_bytes width n)
                ∙ ap ok (append_assoc buffer (be_bytes width n) out)),
          rw (append_assoc (be_bytes width n) out rest, decode-be_bytes width n (out ++ rest) lt) e,
          distinct,
          Quot.sound found,
          found,
        )
