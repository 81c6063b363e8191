-- ===== src/ColumnOption/RoundTrip/Whole.antt =====
-- The recursion over a column type, and the call that the rest of the driver makes.
use cpv_cql_driver.Common.{
  ℕ, ◌≡◌, refl, ap, arith, [], ◌++◌, append_assoc, false, length, length-append, ok, Bytes,
}
use cpv_cql_driver.Protocol.Integer.{be_bytes}
use cpv_cql_driver.Protocol.Integer
use cpv_cql_driver.ColumnOption.{
  list_type, set_type, this_object, ColumnOption, Store, Location, locate, put, read, encode_option,
  decode, decode_payload, decode_option, requires_payload,
}
use cpv_cql_driver.ColumnOption.Types.{
  ColumnType, simple, custom, list_of, map_of, set_of, udt_of, tuple_of, Types, no_types, component,
  Fields, no_fields, field, type_id, payload_bytes, option_of, type_bytes, string_bytes, Lacks,
  TypesLack, FieldsLack, IsPlain, TypesArePlain, FieldsArePlain,
}
use cpv_cql_driver.ColumnOption.StoreLaws.{==_refl, has_payload, writing}
use cpv_cql_driver.ColumnOption.RoundTrip.Frames.{Decodes, DecodesPayload, decode_by_payload}
use cpv_cql_driver.ColumnOption.RoundTrip.Elements.{
  decode_custom_lem, decode_element_lem, decode_map_lem,
}
use cpv_cql_driver.ColumnOption.RoundTrip.Vectors.{TypesDecode, FieldsDecode}
use cpv_cql_driver.ColumnOption.RoundTrip.Objects.{decode_tuple_lem, decode_udt_lem}

decode_simple :
    (fuel type : ℕ) (loc : Location) (bs : Bytes) (s : Store)
    → requires_payload type ≡ false
    → decode_payload (decode fuel) type loc bs s ≡ ok (s, bs)
unfolding decode_payload requires_payload
decode_simple fuel type loc bs s h = ground arith

mutual
  unfolding payload_bytes decode_payload

  reads : (t : ColumnType) → IsPlain t → DecodesPayload t
  reads (simple i) p fuel loc rest s enough alive lacks =
      (writing loc i [] s, decode_simple fuel i loc rest (writing loc i [] s) p.1, λ k l. refl)
  reads (custom name) p fuel loc rest s enough alive lacks = (
    writing loc 0 (string_bytes name) s,
    decode_custom_lem loc s alive 0 name rest p,
    λ k l. refl,
  )
  reads (list_of t) p fuel loc rest s enough alive lacks =
      let (s', e, others) =
        decode_element_lem loc s alive fuel list_type rest lacks.0 t p.1
          (decode_by_payload t p.1 (reads t p.1)) p.0 lacks.1 enough in
      (s', e, λ k l. others k l.0 l.1)
  reads (map_of key v) p fuel loc rest s enough alive lacks =
      let (s', e, others) =
        decode_map_lem loc s alive fuel rest lacks.0 key v p.2 p.3
          (decode_by_payload key p.2 (reads key p.2)) (decode_by_payload v p.3 (reads v p.3)) p.0
          p.1 lacks.1 lacks.2 enough in
      (s', rw (append_assoc (type_bytes key) (type_bytes v) rest) e, λ k l. others k l.0 l.1 l.2)
  reads (set_of t) p fuel loc rest s enough alive lacks =
      let (s', e, others) =
        decode_element_lem loc s alive fuel set_type rest lacks.0 t p.1
          (decode_by_payload t p.1 (reads t p.1)) p.0 lacks.1 enough in
      (s', e, λ k l. others k l.0 l.1)
  reads (udt_of ks name fs) p fuel loc rest s enough alive lacks =
      decode_udt_lem loc s alive fuel rest ks name fs p (fields_read fs p.4) lacks enough
  reads (tuple_of ts) p fuel loc rest s enough alive lacks =
      decode_tuple_lem loc s alive fuel rest ts p (types_read ts p.2) lacks enough

  fields_read : (fs : Fields) → FieldsArePlain fs → FieldsDecode fs
  fields_read no_fields p = tt
  fields_read (field name t fs) p = (decode_by_payload t p.1 (reads t p.1), fields_read fs p.2)

  types_read : (ts : Types) → TypesArePlain ts → TypesDecode ts
  types_read no_types p = tt
  types_read (component t ts) p = (decode_by_payload t p.0 (reads t p.0), types_read ts p.1)

-- No option type has the id that stands for the caller's option.
mutual
  pub Lacks-this : (t : ColumnType) → Lacks this_object t
  Lacks-this (simple i) = tt
  Lacks-this (custom name) = tt
  Lacks-this (list_of t) = (omega arith, Lacks-this t)
  Lacks-this (map_of key v) = (omega arith, Lacks-this key, Lacks-this v)
  Lacks-this (set_of t) = (omega arith, Lacks-this t)
  Lacks-this (udt_of ks name fs) = (omega arith, FieldsLack-this fs)
  Lacks-this (tuple_of ts) = (omega arith, TypesLack-this ts)

  FieldsLack-this : (fs : Fields) → FieldsLack this_object fs
  FieldsLack-this no_fields = tt
  FieldsLack-this (field name t fs) = (Lacks-this t, FieldsLack-this fs)

  TypesLack-this : (ts : Types) → TypesLack this_object ts
  TypesLack-this no_types = tt
  TypesLack-this (component t ts) = (Lacks-this t, TypesLack-this ts)

pub decodes_plain : (t : ColumnType) → IsPlain t → Decodes t
decodes_plain t plain = decode_by_payload t plain (reads t plain)

pub encode_option_lem :
    (t : ColumnType) (buffer : Bytes)
    → IsPlain t
    → encode_option (option_of t) buffer ≡ ok (buffer ++ type_bytes t)
unfolding encode_option Integer.encode
encode_option_lem t buffer plain =
    rw (has_payload t plain)
      (ap ok (append_assoc buffer (be_bytes 2 (type_id t)) (payload_bytes t)))

-- An option that stands for a type (a tree of ids, names and component types whose ids, lengths and
-- counts fit a [short], and in which no container type stands inside one of its own kind) is encoded
-- to the end of any buffer as the protocol specifies, and is decoded from the front of any bytes into
-- any option, whatever the static payload objects hold from earlier calls.
pub decode-encode_option :
    (t : ColumnType) (old : ColumnOption) (s : Store) (buffer rest : Bytes)
    → IsPlain t
    → (s' : Store) × (encode_option (option_of t) buffer ≡ ok (buffer ++ type_bytes t))
      × (decode_option (type_bytes t ++ rest) old s ≡ ok (option_of t, s', rest))
unfolding encode_option decode_option Integer.encode read
decode-encode_option t old s buffer rest plain =
    let this = locate this_object 0 s in
    let bs = type_bytes t ++ rest in
    let (s', e, became) =
      decodes_plain t plain (length bs) this rest (put this old s)
        (omega (arith, length-append (type_bytes t) rest)) (==_refl this.made_at) (Lacks-this t) in
    let here = became this_object (Lacks-this t) in
    (
      s',
      encode_option_lem t buffer plain,
      rw e (rw here (rw (==_refl (s this_object).clears) refl)),
    )
