-- ===== src/ColumnOption/RoundTrip/Elements.antt =====
-- The payloads with a fixed number of options, and the custom one.
use cpv_cql_driver.Common.{
  ℕ, ◌≤◌, ◌<◌, ◌≡◌, ◌≢◌, ◌∙◌, refl, sym, ap, arith, [], ◌++◌, true, length, length-append, ok,
  Bytes,
}
use cpv_cql_driver.Protocol.SizedString.{SizedString, string_traits, decode_string}
use cpv_cql_driver.Protocol.SizedString
use cpv_cql_driver.Protocol.SizedString.RoundTrip.{encode_normal, decode_normal}
use cpv_cql_driver.ColumnOption.{
  map_type, ColumnOption, Store, Location, locate, put, is_alive, encode_into, decode,
  decode_element, decode_map, decode_custom,
}
use cpv_cql_driver.ColumnOption.Types.{
  ColumnType, option_of, type_bytes, string_bytes, Lacks, IsPlain,
}
use cpv_cql_driver.ColumnOption.StoreLaws.{
  ==_refl, put_at, put_off, writing, encode_into_lem, encode_string_into_lem,
}
use cpv_cql_driver.ColumnOption.RoundTrip.Frames.{Decodes, resume, put_over}

abbrev pub normal_string : Bytes → SizedString
normal_string str = record { state = 0; value = str }

pub encode_string_lem :
    (str buffer : Bytes)
    → length str < 65536
    → SizedString.encode string_traits (normal_string str) buffer ≡ ok (buffer ++ string_bytes str)
encode_string_lem str buffer fits =
    encode_normal string_traits (normal_string str) (omega arith) refl (omega arith) buffer

pub decode_string_lem :
    (str rest : Bytes)
    → length str < 65536
    → decode_string (string_bytes str ++ rest) ≡ ok (normal_string str, rest)
unfolding decode_string
decode_string_lem str rest fits =
    decode_normal string_traits (record { state = 0; value = str }) (omega arith) refl (omega arith)
      rest

module _ (loc : Location) (s : Store) (alive : is_alive loc s ≡ true) where
  pub decode_custom_lem :
      (type : ℕ) (name rest : Bytes)
      → length name < 65536
      → decode_custom loc (string_bytes name ++ rest) (writing loc type [] s)
        ≡ ok (writing loc type (string_bytes name) s, rest)
  unfolding decode_custom
  decode_custom_lem type name rest fits =
      let str : SizedString = record { state = 0; value = name } in
      rw
        (decode_string_lem name rest fits, encode_string_into_lem loc s alive type [] str refl fits)
        refl

  module _ (fuel k : ℕ) (rest : Bytes) (apart : k ≢ loc.object) where
    pub decode_element_lem :
        (t : ColumnType)
        → IsPlain t
        → Decodes t
        → Lacks k t
        → Lacks loc.object t
        → length (type_bytes t) ≤ fuel
        → (s' : Store) × (decode_element
              (decode fuel)
              k
              loc
              (type_bytes t ++ rest)
              (writing loc k [] s)
            ≡ ok (s', rest))
          × ((j : ℕ) → k ≢ j → Lacks j t → s' j ≡ writing loc k (type_bytes t) s j)
    unfolding decode_element
    decode_element_lem t plain decodes lacks outer enough =
        let o : ColumnOption = record { type = k; payload = [] } in
        let s₁ = put loc o s in
        let e₁ = locate k 0 s₁ in
        let (s₂, e, became) = decodes fuel e₁ rest s₁ enough (==_refl e₁.made_at) lacks in
        let at_loc = became loc.object outer ∙ put_off e₁ s₁ (option_of t) loc.object apart in
        let (same, alive₂) = resume loc o s s₂ at_loc alive in
        let at_k = became k lacks ∙ put_at e₁ s₁ (option_of t) in
        let e₂ = locate k 0 s₂ in
        let written =
          ap (λ x. encode_into e₂ loc x) (sym same)
          ∙ encode_into_lem loc s₂ alive₂ k [] e₂ t plain (λ h. apart (sym h)) (==_refl e₂.made_at)
              (ap (λ p. p.options 0) at_k) in
        (
          writing loc k (type_bytes t) s₂,
          rw (e, written) refl,
          λ j ne lack.
              put_over loc o s s₂ (record { type = k; payload = type_bytes t }) j
                (became j lack ∙ put_off e₁ s₁ (option_of t) j ne),
        )

  module _ (fuel : ℕ) (rest : Bytes) (apart : map_type ≢ loc.object) where
    pub decode_map_lem :
        (key v : ColumnType)
        → IsPlain key
        → IsPlain v
        → Decodes key
        → Decodes v
        → Lacks map_type key
        → Lacks map_type v
        → Lacks loc.object key
        → Lacks loc.object v
        → length (type_bytes key ++ type_bytes v) ≤ fuel
        → (s' : Store) × (decode_map
              (decode fuel)
              loc
              (type_bytes key ++ (type_bytes v ++ rest))
              (writing loc map_type [] s)
            ≡ ok (s', rest))
          × ((j : ℕ)
              → map_type ≢ j
              → Lacks j key
              → Lacks j v
              → s' j ≡ writing loc map_type (type_bytes key ++ type_bytes v) s j)
    unfolding decode_map
    decode_map_lem key v plain plain' decodes decodes' lacks lacks' outer outer' enough =
        let len = length-append (type_bytes key) (type_bytes v) in
        let o : ColumnOption = record { type = map_type; payload = [] } in
        let s₁ = put loc o s in
        let e₁ = locate map_type 0 s₁ in
        let (s₂, e, became) =
          decodes fuel e₁ (type_bytes v ++ rest) s₁ (omega (arith, len)) (==_refl e₁.made_at)
            lacks in
        let e₂ = locate map_type 1 s₂ in
        let (s₃, e', became') =
          decodes' fuel e₂ rest s₂ (omega (arith, len)) (==_refl e₂.made_at) lacks' in
        let at_map = became' map_type lacks' ∙ put_at e₂ s₂ (option_of v) in
        let at_map₂ = became map_type lacks ∙ put_at e₁ s₁ (option_of key) in
        let others = λ (j : ℕ) (ne : map_type ≢ j) (l : Lacks j key) (l' : Lacks j v).
          became' j l'
          ∙ put_off e₂ s₂ (option_of v) j ne
          ∙ became j l
          ∙ put_off e₁ s₁ (option_of key) j ne in
        let (same, alive₃) = resume loc o s s₃ (others loc.object apart outer outer') alive in
        let f₀ = locate map_type 0 s₃ in
        let written =
          ap (λ x. encode_into f₀ loc x) (sym same)
          ∙ encode_into_lem loc s₃ alive₃ map_type [] f₀ key plain (λ h. apart (sym h))
              (==_refl f₀.made_at) (ap (λ p. p.options 0) at_map ∙ ap (λ p. p.options 0) at_map₂) in
        let s₄ = writing loc map_type (type_bytes key) s₃ in
        let f₁ = locate map_type 1 s₄ in
        let made : f₁.made_at ≡ (s₃ map_type).clears =
          ap (λ p. p.clears) (put_off loc s₃ _ map_type (λ h. apart (sym h))) in
        let written' =
          encode_into_lem loc s₃ alive₃ map_type (type_bytes key) f₁ v plain' (λ h. apart (sym h))
            (rw made (==_refl (s₃ map_type).clears)) (ap (λ p. p.options 1) at_map) in
        (
          writing loc map_type (type_bytes key ++ type_bytes v) s₃,
          rw (e, e', written, written') refl,
          λ j ne l l'. put_over loc o s s₃ _ j (others j ne l l'),
        )
