-- ===== src/Handshake/Startup.antt =====
-- The options of STARTUP, and the compressor that both sides have.
use cpv_cql_driver.Common.{
  ◌≡◌, ◌∙◌, ◌⊎◌, inl, inr, refl, sym, ap, List, [], ◌∷◌, ◌++◌, Bool, true, false, Bool-cases,
  if◌then◌else◌, Option, none, some, map_option, Option-cases, Bytes,
}
use cpv_cql_driver.Protocol.Maps.{
  Entries, Rehash, lookup, string_map, same_string, bytes_eq, bytes_eq-eq,
}
use cpv_cql_driver.Protocol.Maps.RoundTrip.{emplace_lem}
use cpv_cql_driver.Protocol.SizedString.{SizedString}
use cpv_cql_driver.Query.Startup.{
  Options, string_of, version_key, version_value, compression_key, reset_options, set_compression,
}
use cpv_cql_driver.Response.{string_multi_map}
use cpv_cql_driver.Handshake.{lz4, has_lz4, get_compressor}

-- The server's options list "lz4" under COMPRESSION.
abbrev pub Offers : Entries string_multi_map → Type 0
Offers found =
    (before : List SizedString) × (a : SizedString) × (after : List SizedString) × (lookup
        string_multi_map compression_key found
      ≡ some (before ++ a ∷ after))
    × (a.value ≡ lz4)

-- Compression with "lz4" when it is wanted and offered, else none.
abbrev pub IsAgreed : Bool → Entries string_multi_map → Option Bytes → Type 0
IsAgreed wanted found (some name) = (name ≡ lz4) × (wanted ≡ true) × Offers found
IsAgreed wanted found none = (wanted ≡ false) ⊎ ¬ (Offers found)

-- CQL_VERSION is 3.0.0, COMPRESSION is the compressor if there is one, and nothing else is there.
abbrev pub IsStartup : Option Bytes → Options → Type 0
IsStartup compressor o =
    (j : SizedString)
    → lookup string_map j o ≡ (
        if same_string version_key j
        then some version_value
        else if same_string compression_key j
        then map_option string_of compressor
        else none)

has_lz4-found :
    (xs : List SizedString)
    → has_lz4 xs ≡ true
    → (before : List SizedString) × (a : SizedString) × (after : List SizedString) × (xs
        ≡ before ++ a ∷ after)
      × (a.value ≡ lz4)
unfolding has_lz4
has_lz4-found [] h = cc (h)
has_lz4-found (x ∷ xs) h = elim (Bool-cases (bytes_eq x.value lz4)) [
  | inl e ↦ ([], x, xs, refl, bytes_eq-eq x.value lz4 e)
  | inr e ↦
      let later : has_lz4 xs ≡ true = rw e at h in
      let (before, a, after, split, named) = has_lz4-found xs later in
      (x ∷ before, a, after, ap (◌∷◌ x) split, named)
]

lz4-same : bytes_eq lz4 lz4 ≡ true
unfolding bytes_eq
lz4-same = refl

has_lz4-finds :
    (before : List SizedString) (a : SizedString) (after : List SizedString)
    → a.value ≡ lz4
    → has_lz4 (before ++ a ∷ after) ≡ true
unfolding has_lz4
has_lz4-finds [] a after h = rw (h, lz4-same) refl
has_lz4-finds (x ∷ before) a after h = elim (Bool-cases (bytes_eq x.value lz4)) [
  | inl e ↦ rw e refl
  | inr e ↦ rw e (has_lz4-finds before a after h)
]

none_offered :
    (found : Entries string_multi_map) (xs : List SizedString)
    → lookup string_multi_map compression_key found ≡ some xs
    → has_lz4 xs ≡ false
    → ¬ (Offers found)
none_offered found xs e has (before, a, after, at, named) =
    let finds = has_lz4-finds before a after named in absurd (cc (e, at, has, finds))

pub get_compressor-IsAgreed :
    (found : Entries string_multi_map) → IsAgreed true found (get_compressor found)
unfolding get_compressor
get_compressor-IsAgreed found =
    elim (Option-cases (lookup string_multi_map compression_key found)) [
      | inl e ↦ rw (e, get_compressor) (inr (λ o. let no = sym o.3 ∙ e in absurd (cc (no))))
      | inr (xs, e) ↦ elim (Bool-cases (has_lz4 xs)) [
        | inl has ↦
            let (before, a, after, split, named) = has_lz4-found xs has in
            rw (e, get_compressor, has) (refl, refl, (before, a, after, e ∙ ap some split, named))
        | inr has ↦ rw (e, get_compressor, has) (inr (λ o. none_offered found xs e has o))
      ]
    ]

module _ (order : Rehash string_map) where
  abbrev pub start_options : Option Bytes → Options
  start_options none = reset_options order []
  start_options (some name) = set_compression order (some name) (reset_options order [])

  reset_found :
      (j : SizedString)
      → lookup string_map j (reset_options order [])
        ≡ (if same_string version_key j then some version_value else none)
  unfolding reset_options lookup
  reset_found = (emplace_lem string_map order version_key version_value [] tt).1

  pub start_options-IsStartup :
      (compressor : Option Bytes) → IsStartup compressor (start_options compressor)
  unfolding reset_options set_compression
  start_options-IsStartup none j =
      reset_found j ∙ (elim (Bool-cases (same_string compression_key j)) [
        | inl c ↦ rw c refl
        | inr c ↦ rw c refl
      ])
  start_options-IsStartup (some name) j =
      let distinct = (emplace_lem string_map order version_key version_value [] tt).0 in
      (emplace_lem string_map order compression_key (string_of name) (reset_options order [])
          distinct).1
        j
      ∙ rw (reset_found j)
          (elim (Bool-cases (same_string version_key j)) [ inl v ↦ rw v refl | inr v ↦ rw v refl ])
