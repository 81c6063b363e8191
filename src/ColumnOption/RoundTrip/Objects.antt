-- ===== src/ColumnOption/RoundTrip/Objects.antt =====
-- The payloads that hold a vector: a tuple and a UDT.
use cpv_cql_driver.Common.{
  ℕ, ◌%◌, ◌^◌, ◌≤◌, ◌≡◌, ◌≢◌, ◌∙◌, refl, sym, ap, arith, [], ◌++◌, append_assoc, true, ◌==◌, ne→==,
  eq→==, length, length-append, ok, Bytes,
}
use cpv_cql_driver.Protocol.Integer.{be_bytes}
use cpv_cql_driver.Protocol.Integer.RoundTrip.{decode-be_bytes}
use cpv_cql_driver.ColumnOption.{
  tuple_type, udt_type, ColumnOption, Store, Location, put, update, is_alive, encode_count,
  encode_string_into, decode, decode_tuple, decode_udt, clear,
}
use cpv_cql_driver.ColumnOption.Types.{
  udt_of, tuple_of, Types, Fields, count_types, count_fields, payload_bytes, component_bytes,
  field_bytes, string_bytes, Lacks, TypesLack, FieldsLack, IsPlain, length-short,
}
use cpv_cql_driver.ColumnOption.StoreLaws.{
  put_off, writing, encode_string_into_lem, encode_count_lem,
}
use cpv_cql_driver.ColumnOption.RoundTrip.Frames.{resume, put_over}
use cpv_cql_driver.ColumnOption.RoundTrip.Elements.{normal_string, decode_string_lem}
use cpv_cql_driver.ColumnOption.RoundTrip.Vectors.{
  TypesDecode, FieldsDecode, decode_types_lem, decode_fields_lem, encode_types_lem,
  encode_fields_lem,
}

module _ (loc : Location) (s : Store) (alive : is_alive loc s ≡ true) (fuel : ℕ)
    (rest : Bytes) where
  pub decode_tuple_lem :
      (ts : Types)
      → IsPlain (tuple_of ts)
      → TypesDecode ts
      → Lacks loc.object (tuple_of ts)
      → length (payload_bytes (tuple_of ts)) ≤ fuel
      → (s' : Store) × (decode_tuple
            (decode fuel)
            loc
            (payload_bytes (tuple_of ts) ++ rest)
            (writing loc tuple_type [] s)
          ≡ ok (s', rest))
        × ((j : ℕ)
            → Lacks j (tuple_of ts)
            → s' j ≡ writing loc tuple_type (payload_bytes (tuple_of ts)) s j)
  unfolding decode_tuple payload_bytes clear
  decode_tuple_lem ts (fits, lacks, plain) decodes (apart, outer) enough =
      let n = count_types ts in
      let len = length-short n (component_bytes ts) in
      let o : ColumnOption = record { type = tuple_type; payload = [] } in
      let s₁ = put loc o s in
      let c = clear tuple_type s₁ in
      let (s₂, e, ext, holds, others) =
        decode_types_lem fuel rest ts c plain decodes lacks (omega (arith, len)) in
      let off = λ (j : ℕ) (ne : tuple_type ≢ j) (l : TypesLack j ts).
        let cleared : c j ≡ s₁ j = rw (ne→== tuple_type j ne) refl in others j ne l ∙ cleared in
      let (same, alive₂) = resume loc o s s₂ (off loc.object apart outer) alive in
      let size : (s₂ tuple_type).size ≡ n = omega (arith, ext.grows) in
      let fitting : (n % 2 ^ 16 == n) ≡ true = eq→== (n % 2 ^ 16) n (omega arith) in
      let counted =
        ap (encode_count n loc) (sym same) ∙ encode_count_lem loc s₂ alive₂ tuple_type [] n fits in
      let written =
        encode_types_lem loc s₂ alive₂ tuple_type ts 0 (be_bytes 2 n) (λ h. apart (sym h)) plain
          holds in
      (
        writing loc tuple_type (be_bytes 2 n ++ component_bytes ts) s₂,
        rw
            (
              append_assoc (be_bytes 2 n) (component_bytes ts) rest,
              decode-be_bytes 2 n (component_bytes ts ++ rest) fits,
              e,
              size,
              fitting,
              counted,
              written,
            )
            refl,
        λ j l. put_over loc o s s₂ _ j (off j l.0 l.1),
      )

  pub decode_udt_lem :
      (ks name : Bytes) (fs : Fields)
      → IsPlain (udt_of ks name fs)
      → FieldsDecode fs
      → Lacks loc.object (udt_of ks name fs)
      → length (payload_bytes (udt_of ks name fs)) ≤ fuel
      → (s' : Store) × (decode_udt
            (decode fuel)
            loc
            (payload_bytes (udt_of ks name fs) ++ rest)
            (writing loc udt_type [] s)
          ≡ ok (s', rest))
        × ((j : ℕ)
            → Lacks j (udt_of ks name fs)
            → s' j ≡ writing loc udt_type (payload_bytes (udt_of ks name fs)) s j)
  unfolding decode_udt payload_bytes clear
  decode_udt_lem ks name fs (fits_ks, fits_name, fits, lacks, plain) decodes (apart, outer) enough =
      let n = count_fields fs in
      let a = string_bytes ks in
      let b = string_bytes name in
      let body = field_bytes fs in
      let len = length-short n body in
      let len_b = length-append b (be_bytes 2 n ++ body) in
      let len_a = length-append a (b ++ (be_bytes 2 n ++ body)) in
      let o : ColumnOption = record { type = udt_type; payload = [] } in
      let s₁ = put loc o s in
      let p = record (s₁ udt_type) {
        key_space = normal_string ks;
        udt_name = normal_string name;
      } in
      let c = clear udt_type (update udt_type p s₁) in
      let (s₂, e, ext, holds, others) =
        decode_fields_lem fuel rest fs c plain decodes lacks (omega (arith, len, len_a, len_b)) in
      let off = λ (j : ℕ) (ne : udt_type ≢ j) (l : FieldsLack j fs).
        let cleared : c j ≡ s₁ j = rw (ne→== udt_type j ne) refl in others j ne l ∙ cleared in
      let (same, alive₂) = resume loc o s s₂ (off loc.object apart outer) alive in
      let size : (s₂ udt_type).size ≡ n = omega (arith, ext.grows) in
      let fitting : (n % 2 ^ 16 == n) ≡ true = eq→== (n % 2 ^ 16) n (omega arith) in
      let other : loc.object ≢ udt_type = λ h. apart (sym h) in
      let name_kept : (writing loc udt_type a s₂ udt_type).udt_name ≡ normal_string name =
        ap (λ q. q.udt_name) (put_off loc s₂ _ udt_type other) ∙ ext.udt_name_same in
      let spaced =
        ap (encode_string_into (normal_string ks) loc) (sym same)
        ∙ encode_string_into_lem loc s₂ alive₂ udt_type [] (normal_string ks) refl fits_ks in
      let named =
        encode_string_into_lem loc s₂ alive₂ udt_type a (normal_string name) refl fits_name in
      let counted = encode_count_lem loc s₂ alive₂ udt_type (a ++ b) n fits in
      let written =
        encode_fields_lem loc s₂ alive₂ udt_type fs 0 ((a ++ b) ++ be_bytes 2 n) other plain
          holds in
      let whole : ((a ++ b) ++ be_bytes 2 n) ++ body ≡ a ++ (b ++ (be_bytes 2 n ++ body)) =
        append_assoc (a ++ b) (be_bytes 2 n) body ∙ append_assoc a b (be_bytes 2 n ++ body) in
      (
        writing loc udt_type (a ++ (b ++ (be_bytes 2 n ++ body))) s₂,
        rw
            (
              append_assoc a (b ++ (be_bytes 2 n ++ body)) rest,
              append_assoc b (be_bytes 2 n ++ body) rest,
              append_assoc (be_bytes 2 n) body rest,
              decode_string_lem ks (b ++ (be_bytes 2 n ++ (body ++ rest))) fits_ks,
              decode_string_lem name (be_bytes 2 n ++ (body ++ rest)) fits_name,
              decode-be_bytes 2 n (body ++ rest) fits,
              e,
              size,
              fitting,
              ext.key_space_same,
              spaced,
              name_kept,
              named,
              counted,
              written,
            )
            (ap (λ x. ok (writing loc udt_type x s₂, rest)) whole),
        λ j l. put_over loc o s s₂ _ j (off j l.0 l.1),
      )
