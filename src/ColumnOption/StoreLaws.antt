-- ===== src/ColumnOption/StoreLaws.antt =====
-- How reads, writes and appends act on the store of the static payload objects.
use cpv_cql_driver.Common.{
  ℕ, ◌%◌, ◌^◌, ◌<◌, ◌≡◌, ◌≢◌, ◌∙◌, refl, sym, ap, arith, [], ◌++◌, append_assoc, true, false, ◌&&◌,
  ◌==◌, eq→==, ne→==, ==→eq, Bool-cases, inl, inr, length, ok, Bytes, length-append,
}
use mathlib.Core.Path.{fun_ext}
use cpv_cql_driver.Protocol.Integer.{be_bytes}
use cpv_cql_driver.Protocol.Integer
use cpv_cql_driver.Protocol.SizedString.{SizedString, string_traits}
use cpv_cql_driver.Protocol.SizedString.RoundTrip.{encode_normal}
use cpv_cql_driver.ColumnOption.{
  ColumnOption, PayloadObject, Store, Location, with_option, put, is_alive, read, write,
  append_payload, encode_into, encode_string_into, requires_payload, encode_count,
}
use cpv_cql_driver.ColumnOption.Types.{
  ColumnType, simple, custom, list_of, map_of, set_of, udt_of, tuple_of, type_id, payload_bytes,
  option_of, type_bytes, string_bytes, count_fields, field_bytes, count_types, component_bytes,
  IsPlain, length-short,
}

pub ==_refl : (k : ℕ) → (k == k) ≡ true
==_refl k = eq→== k k refl

pub with_option-twice :
    (p : PayloadObject) (i : ℕ) (a b : ColumnOption)
    → with_option (with_option p i a) i b ≡ with_option p i b
with_option-twice p i a b =
    ap (λ f. record p { options = f })
      (fun_ext (λ j. elim (Bool-cases (i == j)) [ inl e ↦ rw e | inr e ↦ rw e ]))

module _ (loc : Location) (s : Store) where
  pub put_at : (o : ColumnOption) → put loc o s loc.object ≡ with_option (s loc.object) loc.index o
  put_at o = rw (==_refl loc.object)

  pub put_off : (o : ColumnOption) (k : ℕ) → loc.object ≢ k → put loc o s k ≡ s k
  put_off o k h = rw (ne→== loc.object k h)

  pub put-put : (a b : ColumnOption) → put loc a (put loc b s) ≡ put loc a s
  put-put a b = fun_ext (λ k. elim (Bool-cases (loc.object == k)) [
    | inl e ↦ rw (e, ==_refl loc.object) (with_option-twice (s loc.object) loc.index b a)
    | inr e ↦ rw e
  ])

  pub put_same :
      (p : PayloadObject) (o : ColumnOption)
      → s loc.object ≡ with_option p loc.index o
      → put loc o s ≡ s
  put_same p o h = fun_ext (λ k. elim (Bool-cases (loc.object == k)) [
    | inl e ↦ rw e (
        ap (λ q. with_option q loc.index o) h
        ∙ with_option-twice p loc.index o o
        ∙ sym h
        ∙ ap s (==→eq loc.object k e))
    | inr e ↦ rw e
  ])

  module _ (alive : is_alive loc s ≡ true) where
    pub put-alive : (o : ColumnOption) → is_alive loc (put loc o s) ≡ true
    put-alive o = rw (==_refl loc.object) alive

    pub read-put : (o : ColumnOption) → read loc (put loc o s) ≡ ok o
    unfolding read
    read-put o = rw (==_refl loc.object, alive, ==_refl loc.index) refl

    pub write_lem : (o : ColumnOption) → write loc o s ≡ ok (put loc o s)
    unfolding write
    write_lem o = rw alive refl

    pub append_payload-put :
        (type : ℕ) (before bytes : Bytes)
        → append_payload loc bytes (put loc (record { type = type; payload = before }) s)
          ≡ ok (put loc (record { type = type; payload = before ++ bytes }) s)
    unfolding append_payload write
    append_payload-put type before bytes =
        rw (read-put (record { type = type; payload = before }))
          (rw (put-alive (record { type = type; payload = before })) (ap ok (put-put _ _)))

pub has_payload :
    (t : ColumnType)
    → IsPlain t
    → (requires_payload (type_id t) && length (payload_bytes t) == 0) ≡ false
unfolding requires_payload payload_bytes
has_payload (simple i) p = rw p.1 refl
has_payload (custom name) p = ground (arith, length-short (length name) name)
has_payload (list_of t) p = ground (arith, length-short (type_id t) (payload_bytes t))
has_payload (map_of k v) p =
    ground (
      arith,
      length-append (type_bytes k) (type_bytes v),
      length-short (type_id k) (payload_bytes k),
    )
has_payload (set_of t) p = ground (arith, length-short (type_id t) (payload_bytes t))
has_payload (udt_of ks name fs) p =
    let rest = string_bytes name ++ (be_bytes 2 (count_fields fs) ++ field_bytes fs) in
    ground (arith, length-append (string_bytes ks) rest, length-short (length ks) ks)
has_payload (tuple_of ts) p = ground (arith, length-short (count_types ts) (component_bytes ts))

-- The option at `target` while its payload is being written.
abbrev pub writing : Location → ℕ → Bytes → Store → Store
writing target type written s = put target (record { type = type; payload = written }) s

module _ (target : Location) (s : Store) (alive : is_alive target s ≡ true) (type : ℕ)
    (before : Bytes) where
  pub encode_any_into :
      (source : Location) (o : ColumnOption)
      → (requires_payload o.type && length o.payload == 0) ≡ false
      → target.object ≢ source.object
      → is_alive source s ≡ true
      → (s source.object).options source.index ≡ o
      → encode_into source target (writing target type before s)
        ≡ ok (writing target type (before ++ (be_bytes 2 o.type ++ o.payload)) s)
  unfolding encode_into read Integer.encode
  encode_any_into source o full apart here e =
      let off = put_off target s in
      let id = be_bytes 2 o.type in
      rw (off _ source.object apart, here, e)
        (rw (full, append_payload-put target s alive type before id)
          (rw (off _ source.object apart, here, e)
            (append_payload-put target s alive type (before ++ id) o.payload
              ∙ ap (λ x. ok (writing target type x s)) (append_assoc before id o.payload))))

  pub encode_into_lem :
      (source : Location) (t : ColumnType)
      → IsPlain t
      → target.object ≢ source.object
      → is_alive source s ≡ true
      → (s source.object).options source.index ≡ option_of t
      → encode_into source target (writing target type before s)
        ≡ ok (writing target type (before ++ type_bytes t) s)
  encode_into_lem source t plain = encode_any_into source (option_of t) (has_payload t plain)

  pub encode_string_into_lem :
      (str : SizedString)
      → str.state ≡ 0
      → length str.value < 65536
      → encode_string_into str target (writing target type before s)
        ≡ ok (writing target type (before ++ string_bytes str.value) s)
  unfolding encode_string_into
  encode_string_into_lem str normal fits =
      rw (encode_normal string_traits str (omega arith) normal (omega arith) [])
        (append_payload-put target s alive type before (string_bytes str.value))

  pub encode_count_lem :
      (n : ℕ)
      → n < 65536
      → encode_count n target (writing target type before s)
        ≡ ok (writing target type (before ++ be_bytes 2 n) s)
  unfolding encode_count Integer.encode
  encode_count_lem n fits =
      let same : n % 2 ^ 16 ≡ n = omega arith in
      rw same (append_payload-put target s alive type before (be_bytes 2 n))

-- An option that is encoded into itself: its id is appended to its payload, and then what the payload
-- has become.
pub encode_into_self :
    (loc : Location) (s : Store) (t : ColumnType)
    → is_alive loc s ≡ true
    → IsPlain t
    → let grown = payload_bytes t ++ be_bytes 2 (type_id t) in
      encode_into loc loc (put loc (option_of t) s)
      ≡ ok (writing loc (type_id t) (grown ++ grown) s)
unfolding encode_into Integer.encode
encode_into_self loc s t alive plain =
    let id = be_bytes 2 (type_id t) in
    let grown = payload_bytes t ++ id in
    rw (read-put loc s alive (option_of t)) (
      rw
        (
          has_payload t plain,
          append_payload-put loc s alive (type_id t) (payload_bytes t) id,
          read-put loc s alive (record { type = type_id t; payload = grown }),
        )
        (append_payload-put loc s alive (type_id t) grown grown))
