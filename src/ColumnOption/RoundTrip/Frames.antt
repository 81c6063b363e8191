-- ===== src/ColumnOption/RoundTrip/Frames.antt =====
-- What a call of `decode` leaves alone, and how its caller resumes.
use cpv_cql_driver.Common.{
  ℕ, ◌≤◌, ◌≡◌, ◌∙◌, sym, ap, arith, [], ◌++◌, append_assoc, true, ◌==◌, Bool-cases, inl, inr,
  length, ok, Bytes, suc, zero, ==→eq, ==→ne,
}
use cpv_cql_driver.Protocol.Integer.{be_bytes}
use cpv_cql_driver.Protocol.Integer.RoundTrip.{decode-be_bytes}
use cpv_cql_driver.ColumnOption.{
  ColumnOption, Store, Location, put, is_alive, decode, decode_payload, with_option,
}
use cpv_cql_driver.ColumnOption.Types.{
  ColumnType, type_id, type_id-lt, payload_bytes, option_of, type_bytes, Lacks, IsPlain,
  length-short,
}
use cpv_cql_driver.ColumnOption.StoreLaws.{
  with_option-twice, put_same, put_at, put_off, write_lem, writing,
}

-- `s'` is `s` with the option of `t` at `loc`, but for the objects that `t` goes through.
abbrev pub Became : ColumnType → Location → Store → Store → Type 0
Became t loc s s' = (k : ℕ) → Lacks k t → s' k ≡ put loc (option_of t) s k

abbrev pub Decodes : ColumnType → Type 0
Decodes t =
    (fuel : ℕ) (loc : Location) (rest : Bytes) (s : Store)
    → length (type_bytes t) ≤ fuel
    → is_alive loc s ≡ true
    → Lacks loc.object t
    → (s' : Store) × (decode fuel loc (type_bytes t ++ rest) s ≡ ok (s', rest)) × Became t loc s s'

-- The same after the id was read and written.
abbrev pub DecodesPayload : ColumnType → Type 0
DecodesPayload t =
    (fuel : ℕ) (loc : Location) (rest : Bytes) (s : Store)
    → length (payload_bytes t) ≤ fuel
    → is_alive loc s ≡ true
    → Lacks loc.object t
    → (s' : Store) × (decode_payload (decode fuel) (type_id t) loc (payload_bytes t ++ rest)
          (writing loc (type_id t) [] s)
        ≡ ok (s', rest))
      × Became t loc s s'

pub decode_by_payload : (t : ColumnType) → IsPlain t → DecodesPayload t → Decodes t
unfolding decode
decode_by_payload t plain payload zero loc rest s enough alive lacks =
    absurd (omega (arith, length-short (type_id t) (payload_bytes t)))
decode_by_payload t plain payload (suc fuel) loc rest s enough alive lacks =
    let (s', e, became) =
      payload fuel loc rest s (omega (arith, length-short (type_id t) (payload_bytes t))) alive
        lacks in
    (
      s',
      rw
          (
            append_assoc (be_bytes 2 (type_id t)) (payload_bytes t) rest,
            decode-be_bytes 2 (type_id t) (payload_bytes t ++ rest) (type_id-lt t plain),
            write_lem loc s alive (record { type = type_id t; payload = [] }),
          )
          e,
      became,
    )

-- The caller had written `o` at `loc`, and what it called left that object alone.
module _ (loc : Location) (o : ColumnOption) (s s' : Store) where
  pub resume :
      s' loc.object ≡ put loc o s loc.object
      → is_alive loc s ≡ true
      → (put loc o s' ≡ s') × (is_alive loc s' ≡ true)
  resume h alive =
      let e = h ∙ put_at loc s o in
      (put_same loc s' (s loc.object) o e, ap (λ p. loc.made_at == p.clears) e ∙ alive)

  pub put_over :
      (o' : ColumnOption) (k : ℕ) → s' k ≡ put loc o s k → put loc o' s' k ≡ put loc o' s k
  put_over o' k h = elim (Bool-cases (loc.object == k)) [
    | inl e ↦
        let same = ==→eq loc.object k e in
        let q : s' loc.object ≡ with_option (s loc.object) loc.index o =
          ap s' same ∙ h ∙ ap (put loc o s) (sym same) ∙ put_at loc s o in
        rw e
          (ap (λ p. with_option p loc.index o') q ∙ with_option-twice (s loc.object) loc.index o o')
    | inr e ↦ rw e (h ∙ put_off loc s o k (==→ne loc.object k e))
  ]
