-- ===== src/ColumnOption/RoundTrip/Vectors.antt =====
-- The loops over the vectors of a tuple and of a UDT.
use cpv_cql_driver.Common.{
  ℕ, suc, ◌+◌, ◌≤◌, ◌<◌, ◌≡◌, ◌≢◌, ◌∙◌, refl, sym, ap, subst, arith, ◌++◌, append-nil, append_assoc,
  true, ne→==, length, length-append, ok, Bytes,
}
use cpv_cql_driver.Protocol.SizedString.{SizedString}
use cpv_cql_driver.ColumnOption.{
  tuple_type, udt_type, new_option, ColumnOption, PayloadObject, Store, Location, locate, update,
  is_alive, decode, emplace_back, decode_types, encode_types, decode_fields, encode_fields,
}
use cpv_cql_driver.ColumnOption.Types.{
  Types, no_types, component, Fields, no_fields, field, count_types, count_fields, component_bytes,
  field_bytes, option_of, type_bytes, string_bytes, TypesLack, FieldsLack, TypesArePlain,
  FieldsArePlain,
}
use cpv_cql_driver.ColumnOption.StoreLaws.{
  ==_refl, put_at, put_off, writing, encode_into_lem, encode_string_into_lem,
}
use cpv_cql_driver.ColumnOption.RoundTrip.Frames.{Decodes}
use cpv_cql_driver.ColumnOption.RoundTrip.Elements.{normal_string, decode_string_lem}

abbrev pub TypesDecode : Types → Type 0
TypesDecode no_types = Unit {0}
TypesDecode (component t ts) = Decodes t × TypesDecode ts

abbrev pub FieldsDecode : Fields → Type 0
FieldsDecode no_fields = Unit {0}
FieldsDecode (field name t fs) = Decodes t × FieldsDecode fs

-- The object holds these types, or these fields, from a position on.
abbrev pub HoldsTypes : Types → ℕ → PayloadObject → Type 0
HoldsTypes no_types i p = Unit {0}
HoldsTypes (component t ts) i p = (p.options i ≡ option_of t) × HoldsTypes ts (i + 1) p

abbrev pub HoldsFields : Fields → ℕ → PayloadObject → Type 0
HoldsFields no_fields i p = Unit {0}
HoldsFields (field name t fs) i p =
    (p.names i ≡ normal_string name) × (p.options i ≡ option_of t) × HoldsFields fs (i + 1) p

-- `n` entries were added at the end of the vector of `p`.
pub record IsExtended (p p' : PayloadObject) (n : ℕ) : Type 0 where
  pub grows : p'.size ≡ p.size + n
  pub not_cleared : p'.clears ≡ p.clears
  pub options_kept : (i : ℕ) → i < p.size → p'.options i ≡ p.options i
  pub names_kept : (i : ℕ) → i < p.size → p'.names i ≡ p.names i
  pub key_space_same : p'.key_space ≡ p.key_space
  pub udt_name_same : p'.udt_name ≡ p.udt_name

IsExtended-refl : (p : PayloadObject) → IsExtended p p 0
IsExtended-refl p = record {
  grows = omega arith;
  not_cleared = refl;
  options_kept = λ i h. refl;
  names_kept = λ i h. refl;
  key_space_same = refl;
  udt_name_same = refl;
}

IsExtended-step :
    (p q r : PayloadObject) (n : ℕ) → IsExtended p q 1 → IsExtended q r n → IsExtended p r (suc n)
IsExtended-step p q r n a b = record {
  grows = omega (arith, a.grows, b.grows);
  not_cleared = b.not_cleared ∙ a.not_cleared;
  options_kept = λ i h. b.options_kept i (omega (arith, a.grows)) ∙ a.options_kept i h;
  names_kept = λ i h. b.names_kept i (omega (arith, a.grows)) ∙ a.names_kept i h;
  key_space_same = b.key_space_same ∙ a.key_space_same;
  udt_name_same = b.udt_name_same ∙ a.udt_name_same;
}

-- An entry was made at the end and given its option, and maybe its name.
IsExtended-entry :
    (p q : PayloadObject) (names : ℕ → SizedString) (o : ColumnOption)
    → q ≡ record p {
      names = names;
      options = update p.size o (update p.size new_option p.options);
      size = p.size + 1;
    }
    → ((i : ℕ) → i < p.size → names i ≡ p.names i)
    → IsExtended p q 1
IsExtended-entry p q names o e same = record {
  grows = ap (λ x. x.size) e;
  not_cleared = ap (λ x. x.clears) e;
  options_kept =
      λ i h. ap (λ x. x.options i) e ∙ rw (ne→== p.size i (λ d. absurd (omega (arith, d)))) refl;
  names_kept = λ i h. ap (λ x. x.names i) e ∙ same i h;
  key_space_same = ap (λ x. x.key_space) e;
  udt_name_same = ap (λ x. x.udt_name) e;
}

module _ (fuel : ℕ) (rest : Bytes) where
  pub decode_types_lem :
      (ts : Types) (s : Store)
      → TypesArePlain ts
      → TypesDecode ts
      → TypesLack tuple_type ts
      → length (component_bytes ts) ≤ fuel
      → (s' : Store) × (decode_types (decode fuel) (count_types ts) (component_bytes ts ++ rest) s
          ≡ ok (s', rest))
        × IsExtended (s tuple_type) (s' tuple_type) (count_types ts)
        × HoldsTypes ts (s tuple_type).size (s' tuple_type)
        × ((j : ℕ) → tuple_type ≢ j → TypesLack j ts → s' j ≡ s j)
  unfolding decode_types component_bytes emplace_back
  decode_types_lem no_types s plain decodes lacks enough =
      (s, refl, IsExtended-refl (s tuple_type), tt, λ j ne l. refl)
  decode_types_lem (component t ts) s plain decodes lacks enough =
      let len = length-append (type_bytes t) (component_bytes ts) in
      let m = (s tuple_type).size in
      let s₁ = emplace_back tuple_type s in
      let e₁ = locate tuple_type m s₁ in
      let (s₂, e, became) =
        decodes.0 fuel e₁ (component_bytes ts ++ rest) s₁ (omega (arith, len)) (==_refl e₁.made_at)
          lacks.0 in
      let at_tuple = became tuple_type lacks.0 ∙ put_at e₁ s₁ (option_of t) in
      let (s₃, e', ext, holds, others) =
        decode_types_lem ts s₂ plain.1 decodes.1 lacks.1 (omega (arith, len)) in
      let first =
        IsExtended-entry (s tuple_type) (s₂ tuple_type) (s tuple_type).names (option_of t) at_tuple
          (λ i h. refl) in
      let here =
        ext.options_kept m (omega (arith, first.grows))
        ∙ ap (λ p. p.options m) at_tuple
        ∙ rw (==_refl m) refl in
      (
        s₃,
        rw (append_assoc (type_bytes t) (component_bytes ts) rest, e, e') refl,
        IsExtended-step (s tuple_type) (s₂ tuple_type) (s₃ tuple_type) (count_types ts) first ext,
        (here, subst (λ n. HoldsTypes ts n (s₃ tuple_type)) first.grows holds),
        λ j ne l.
            others j ne l.1
            ∙ became j l.0
            ∙ put_off e₁ s₁ (option_of t) j ne
            ∙ rw (ne→== tuple_type j ne) refl,
      )

  pub decode_fields_lem :
      (fs : Fields) (s : Store)
      → FieldsArePlain fs
      → FieldsDecode fs
      → FieldsLack udt_type fs
      → length (field_bytes fs) ≤ fuel
      → (s' : Store) × (decode_fields (decode fuel) (count_fields fs) (field_bytes fs ++ rest) s
          ≡ ok (s', rest))
        × IsExtended (s udt_type) (s' udt_type) (count_fields fs)
        × HoldsFields fs (s udt_type).size (s' udt_type)
        × ((j : ℕ) → udt_type ≢ j → FieldsLack j fs → s' j ≡ s j)
  unfolding decode_fields field_bytes emplace_back
  decode_fields_lem no_fields s plain decodes lacks enough =
      (s, refl, IsExtended-refl (s udt_type), tt, λ j ne l. refl)
  decode_fields_lem (field name t fs) s plain decodes lacks enough =
      let len = length-append (type_bytes t) (field_bytes fs) in
      let len' = length-append (string_bytes name) (type_bytes t ++ field_bytes fs) in
      let m = (s udt_type).size in
      let p = emplace_back udt_type s udt_type in
      let names = update m (normal_string name) (s udt_type).names in
      let s₁ = update udt_type (record p { names = names }) (emplace_back udt_type s) in
      let e₁ = locate udt_type m s₁ in
      let (s₂, e, became) =
        decodes.0 fuel e₁ (field_bytes fs ++ rest) s₁ (omega (arith, len, len'))
          (==_refl e₁.made_at) lacks.0 in
      let at_udt = became udt_type lacks.0 ∙ put_at e₁ s₁ (option_of t) in
      let (s₃, e', ext, holds, others) =
        decode_fields_lem fs s₂ plain.2 decodes.1 lacks.1 (omega (arith, len, len')) in
      let first =
        IsExtended-entry (s udt_type) (s₂ udt_type) names (option_of t) at_udt
          (λ i h. rw (ne→== m i (λ d. absurd (omega (arith, d)))) refl) in
      let option_here : (s₃ udt_type).options m ≡ option_of t =
        ext.options_kept m (omega (arith, first.grows))
        ∙ ap (λ q. q.options m) at_udt
        ∙ rw (==_refl m) refl in
      let name_here : (s₃ udt_type).names m ≡ normal_string name =
        ext.names_kept m (omega (arith, first.grows))
        ∙ ap (λ q. q.names m) at_udt
        ∙ rw (==_refl m) refl in
      (
        s₃,
        rw
            (
              append_assoc (string_bytes name) (type_bytes t ++ field_bytes fs) rest,
              append_assoc (type_bytes t) (field_bytes fs) rest,
              decode_string_lem name (type_bytes t ++ (field_bytes fs ++ rest)) plain.0,
              e,
              e',
            )
            refl,
        IsExtended-step (s udt_type) (s₂ udt_type) (s₃ udt_type) (count_fields fs) first ext,
        (name_here, option_here, subst (λ n. HoldsFields fs n (s₃ udt_type)) first.grows holds),
        λ j ne l.
            others j ne l.1
            ∙ became j l.0
            ∙ put_off e₁ s₁ (option_of t) j ne
            ∙ rw (ne→== udt_type j ne) refl,
      )

module _ (loc : Location) (s : Store) (alive : is_alive loc s ≡ true) (type : ℕ) where
  pub encode_types_lem :
      (ts : Types) (i : ℕ) (before : Bytes)
      → loc.object ≢ tuple_type
      → TypesArePlain ts
      → HoldsTypes ts i (s tuple_type)
      → encode_types (count_types ts) i loc (writing loc type before s)
        ≡ ok (writing loc type (before ++ component_bytes ts) s)
  unfolding encode_types component_bytes
  encode_types_lem no_types i before apart plain holds =
      ap (λ x. ok (writing loc type x s)) (sym (append-nil before))
  encode_types_lem (component t ts) i before apart plain holds =
      let e = locate tuple_type i (writing loc type before s) in
      let made : e.made_at ≡ (s tuple_type).clears =
        ap (λ p. p.clears) (put_off loc s _ tuple_type apart) in
      rw
        (encode_into_lem loc s alive type before e t plain.0 apart
          (rw made (==_refl (s tuple_type).clears)) holds.0)
        (encode_types_lem ts (i + 1) (before ++ type_bytes t) apart plain.1 holds.1
          ∙ ap (λ x. ok (writing loc type x s))
              (append_assoc before (type_bytes t) (component_bytes ts)))

  pub encode_fields_lem :
      (fs : Fields) (i : ℕ) (before : Bytes)
      → loc.object ≢ udt_type
      → FieldsArePlain fs
      → HoldsFields fs i (s udt_type)
      → encode_fields (count_fields fs) i loc (writing loc type before s)
        ≡ ok (writing loc type (before ++ field_bytes fs) s)
  unfolding encode_fields field_bytes
  encode_fields_lem no_fields i before apart plain holds =
      ap (λ x. ok (writing loc type x s)) (sym (append-nil before))
  encode_fields_lem (field name t fs) i before apart plain holds =
      let s₁ = writing loc type (before ++ string_bytes name) s in
      let e = locate udt_type i s₁ in
      let made : e.made_at ≡ (s udt_type).clears =
        ap (λ p. p.clears) (put_off loc s _ udt_type apart) in
      let name_here : (writing loc type before s udt_type).names i ≡ normal_string name =
        ap (λ p. p.names i) (put_off loc s _ udt_type apart) ∙ holds.0 in
      rw
        (
          name_here,
          encode_string_into_lem loc s alive type before (normal_string name) refl plain.0,
          encode_into_lem loc s alive type (before ++ string_bytes name) e t plain.1 apart
              (rw made (==_refl (s udt_type).clears)) holds.1,
        )
        (encode_fields_lem fs (i + 1) ((before ++ string_bytes name) ++ type_bytes t) apart plain.2
            holds.2
          ∙ ap (λ x. ok (writing loc type x s))
              (append_assoc (before ++ string_bytes name) (type_bytes t) (field_bytes fs)
                ∙ append_assoc before (string_bytes name) (type_bytes t ++ field_bytes fs)))
