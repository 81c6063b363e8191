-- ===== src/ColumnOption/Nested.antt =====
-- What `decode` makes of a list of lists: both calls work on the one static list payload.
use cpv_cql_driver.Common.{
  ℕ, ◌+◌, ◌≤◌, ◌<◌, ◌≡◌, ◌≢◌, ◌∙◌, refl, sym, ap, arith, suc, zero, [], ◌++◌, append_assoc, true,
  false, ◌&&◌, ◌==◌, length, length-append, ok, Bytes,
}
use cpv_cql_driver.Protocol.Integer.{be_bytes}
use cpv_cql_driver.Protocol.Integer.RoundTrip.{decode-be_bytes}
use cpv_cql_driver.Protocol.Integer
use cpv_cql_driver.ColumnOption.{
  list_type, this_object, ColumnOption, Store, locate, put, is_alive, read, encode_into, decode,
  decode_payload, decode_element, decode_option, requires_payload,
}
use cpv_cql_driver.ColumnOption.Types.{
  ColumnType, simple, custom, list_of, map_of, set_of, udt_of, tuple_of, type_id, type_id-lt,
  payload_bytes, option_of, type_bytes, Lacks, IsPlain, length-short,
}
use cpv_cql_driver.ColumnOption.StoreLaws.{
  ==_refl, has_payload, put_at, put_off, read-put, writing, write_lem, encode_any_into,
  encode_into_self,
}
use cpv_cql_driver.ColumnOption.RoundTrip.Whole.{Lacks-this, decodes_plain}
use cpv_cql_driver.ColumnOption.RoundTrip.Frames.{resume}

module _ (t : ColumnType) (plain : IsPlain t) (lacks : Lacks list_type t) where
  -- The payload of the option that stands for `t`, after it was appended to itself.
  abbrev pub doubled : Bytes
  doubled =
      (payload_bytes t ++ be_bytes 2 (type_id t)) ++ (payload_bytes t ++ be_bytes 2 (type_id t))

  -- The inner list, decoded into the element of the list payload.
  inner :
      (fuel : ℕ) (rest : Bytes) (s : Store)
      → length (type_bytes t) ≤ fuel
      → let e = locate list_type 0 s in
        (s' : Store) × (decode (suc fuel) e (type_bytes (list_of t) ++ rest) s
          ≡ ok (writing e (type_id t) doubled s', rest))
        × (is_alive e s' ≡ true)
        × ((s' list_type).clears ≡ (s list_type).clears)
        × (s' this_object ≡ s this_object)
  unfolding decode decode_payload decode_element payload_bytes
  inner fuel rest s enough =
      let e = locate list_type 0 s in
      let o : ColumnOption = record { type = list_type; payload = [] } in
      let s₂ = put e o s in
      let (s₃, eq, became) =
        decodes_plain t plain fuel e rest s₂ enough (==_refl e.made_at) lacks in
      let at_list = became list_type lacks ∙ put_at e s₂ (option_of t) in
      let clears : (s₃ list_type).clears ≡ (s list_type).clears = ap (λ p. p.clears) at_list in
      let source : locate list_type 0 s₃ ≡ e =
        ap (λ n. record { object = list_type; index = 0; made_at = n }) clears in
      let (same, alive) =
        resume e (option_of t) s₂ s₃ (became list_type lacks) (==_refl e.made_at) in
      let written = ap (encode_into e e) (sym same) ∙ encode_into_self e s₃ t alive plain in
      (
        s₃,
        rw
            (
              append_assoc (be_bytes 2 list_type) (type_bytes t) rest,
              decode-be_bytes 2 list_type (type_bytes t ++ rest) (omega arith),
              write_lem e s (==_refl e.made_at) o,
              eq,
              source,
              written,
            )
            refl,
        alive,
        clears,
        became this_object (Lacks-this t) ∙ put_off e s₂ (option_of t) this_object (omega arith),
      )

  module _ (s : Store) (rest : Bytes) where
    misread : ColumnOption
    misread = record { type = list_type; payload = be_bytes 2 (type_id t) ++ doubled }

    outer :
        (fuel : ℕ)
        → length (type_bytes t) ≤ fuel
        → let this = locate this_object 0 s in
          (s' : Store) × (decode (suc (suc fuel)) this (type_bytes (list_of (list_of t)) ++ rest) s
            ≡ ok (s', rest))
          × (read this s' ≡ ok misread)
    unfolding decode decode_payload decode_element payload_bytes misread
    outer fuel enough =
        let this = locate this_object 0 s in
        let o : ColumnOption = record { type = list_type; payload = [] } in
        let s₁ = put this o s in
        let e = locate list_type 0 s₁ in
        let (s₃, eq, alive, clears, kept) = inner fuel rest s₁ enough in
        let s₄ = writing e (type_id t) doubled s₃ in
        let (same, alive') = resume this o s s₄ kept (==_refl this.made_at) in
        let source : locate list_type 0 s₄ ≡ e =
          ap (λ n. record { object = list_type; index = 0; made_at = n }) clears in
        let last : ColumnOption = record { type = type_id t; payload = doubled } in
        let full : (requires_payload (type_id t) && length doubled == 0) ≡ false = ground (
          arith,
          has_payload t plain,
          length-append (payload_bytes t) (be_bytes 2 (type_id t)),
          length-append (payload_bytes t ++ be_bytes 2 (type_id t))
              (payload_bytes t ++ be_bytes 2 (type_id t)),
        ) in
        let written =
          ap (encode_into e this) (sym same)
          ∙ encode_any_into this s₄ alive' list_type [] e last full (omega arith)
              (ap (λ n. e.made_at == n) clears ∙ ==_refl e.made_at) refl in
        (
          writing this list_type (be_bytes 2 (type_id t) ++ doubled) s₄,
          rw
              (
                append_assoc (be_bytes 2 list_type) (type_bytes (list_of t)) rest,
                decode-be_bytes 2 list_type (type_bytes (list_of t) ++ rest) (omega arith),
                write_lem this s (==_refl this.made_at) o,
                eq,
                source,
                written,
              )
              refl,
          read-put this s₄ alive' misread,
        )

    outer_any :
        (fuel : ℕ)
        → length (type_bytes t) + 2 ≤ fuel
        → let this = locate this_object 0 s in
          (s' : Store) × (decode fuel this (type_bytes (list_of (list_of t)) ++ rest) s
            ≡ ok (s', rest))
          × (read this s' ≡ ok misread)
    outer_any zero enough = absurd (omega (arith, length-short (type_id t) (payload_bytes t)))
    outer_any (suc zero) enough = absurd (omega (arith, length-short (type_id t) (payload_bytes t)))
    outer_any (suc (suc fuel)) enough = outer fuel (omega arith)

type_id-ne-list : (t : ColumnType) → IsPlain t → Lacks list_type t → type_id t ≢ list_type
unfolding requires_payload
type_id-ne-list (simple i) plain lacks e =
    let known : requires_payload i ≡ true = rw e refl in cc (known, plain.1)
type_id-ne-list (custom name) plain lacks e = absurd (omega (arith, e))
type_id-ne-list (list_of t) plain lacks e = absurd (lacks.0 refl)
type_id-ne-list (map_of k v) plain lacks e = absurd (omega (arith, e))
type_id-ne-list (set_of t) plain lacks e = absurd (omega (arith, e))
type_id-ne-list (udt_of ks name fs) plain lacks e = absurd (omega (arith, e))
type_id-ne-list (tuple_of ts) plain lacks e = absurd (omega (arith, e))

-- The first [short] of some bytes is determined by them.
first_short :
    (a b : ℕ) (xs ys : Bytes)
    → a < 65536
    → b < 65536
    → be_bytes 2 a ++ xs ≡ be_bytes 2 b ++ ys
    → a ≡ b
first_short a b xs ys fits fits' e =
    cc (decode-be_bytes 2 a xs fits, decode-be_bytes 2 b ys fits', ap (Integer.decode 2) e)

length-nested :
    (t : ColumnType) (rest : Bytes)
    → length (type_bytes t) + 4 ≤ length (type_bytes (list_of (list_of t)) ++ rest)
unfolding payload_bytes
length-nested t rest = omega (
  arith,
  length-append (type_bytes (list_of (list_of t))) rest,
  length-short list_type (type_bytes (list_of t)),
  length-short list_type (type_bytes t),
)

-- A list of lists of any type that has no list in it (and is otherwise as the round trip asks) does
-- not decode into the option that stands for it: the payload begins with the id of the element type
-- in the place of the inner list's, and then holds the payload and id of the element type twice.
pub decode-list_of_lists :
    (t : ColumnType) (old : ColumnOption) (s : Store) (rest : Bytes)
    → IsPlain t
    → Lacks list_type t
    → let id = be_bytes 2 (type_id t) in
      let got : ColumnOption = record {
        type = list_type;
        payload = id ++ ((payload_bytes t ++ id) ++ (payload_bytes t ++ id));
      } in
      (s' : Store) × (decode_option (type_bytes (list_of (list_of t)) ++ rest) old s
        ≡ ok (got, s', rest))
      × (got ≢ option_of (list_of (list_of t)))
unfolding decode_option misread payload_bytes
decode-list_of_lists t old s rest plain lacks =
    let bs = type_bytes (list_of (list_of t)) ++ rest in
    let this = locate this_object 0 s in
    let len : length (type_bytes t) + 4 ≤ length bs = length-nested t rest in
    let (s', e, found) = outer_any t plain lacks (put this old s) rest (length bs) (omega arith) in
    (
      s',
      rw e (rw found refl),
      λ same. type_id-ne-list t plain lacks (
          first_short (type_id t) list_type _ _ (type_id-lt t plain) (omega arith)
            (ap (λ o. o.payload) same)),
    )
