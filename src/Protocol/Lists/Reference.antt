-- ===== src/Protocol/Lists/Reference.antt =====
-- Both loops of `ProtocolListBase::decode` against one plain loop.
use cpv_cql_driver.Common.{
  ℕ, zero, suc, ◌+◌, ◌-◌, ◌≤◌, ◌≡◌, refl, sym, ap, ap₂, ◌∙◌, inl, inr, List, [], ◌∷◌, ◌++◌,
  append-nil, append_assoc, Bool, arith, leb, Bool-cases, length, length-append, length-replicate,
  get_elem?, set, take, replicate, none, some, Result, ok, err, Result-cases, ◌>>=◌, Bytes,
}
use cpv_cql_driver.Protocol.Integer
use cpv_cql_driver.Protocol.Lists.{
  ElementCodec, small_size_boundary, to_size, resize, decode_each, decode_growing, decode_list,
}

module _ (C : ElementCodec) where
  -- Elements one after the other, each into a new object.
  unfoldable pub decode_plain : ℕ → Bytes → Result (List C.Element × Bytes)
  decode_plain zero bs = ok ([], bs)
  decode_plain (suc n) bs = do
    (e, bs₁) ← C.decode C.fresh bs
    (elements, bs₂) ← decode_plain n bs₁
    ok (e ∷ elements, bs₂)

  after : List C.Element → Result (List C.Element × Bytes) → Result (List C.Element × Bytes)
  after done (ok (elements, bs)) = ok (done ++ elements, bs)
  after done (err e) = err e

  decode_each_lem :
      (old : List C.Element) (bs : Bytes) → decode_each C old bs ≡ decode_plain (length old) bs
  unfolding decode_each decode_plain
  decode_each_lem [] bs = refl
  decode_each_lem (e ∷ old) bs = rw (C.decode-overwrites e bs) (
      ap (λ k. C.decode C.fresh bs >>= k)
        (λ i r. (decode_each_lem old r.1 i) >>= λ q. ok (r.0 ∷ q.0, q.1)))

  get_elem?-append :
      (done : List C.Element) (e : C.Element) (rest : List C.Element)
      → get_elem? (done ++ e ∷ rest) (length done) ≡ some e
  get_elem?-append [] e rest = refl
  get_elem?-append (x ∷ done) e rest = get_elem?-append done e rest

  get_elem?-end : (done : List C.Element) → get_elem? done (length done) ≡ none
  get_elem?-end [] = refl
  get_elem?-end (x ∷ done) = get_elem?-end done

  set-append :
      (done : List C.Element) (e e' : C.Element) (rest : List C.Element)
      → set (done ++ e ∷ rest) (length done) e' ≡ done ++ e' ∷ rest
  set-append [] e e' rest = refl
  set-append (x ∷ done) e e' rest = ap (◌∷◌ x) (set-append done e e' rest)

  after_step :
      (done : List C.Element) (e : C.Element) (r : Result (List C.Element × Bytes))
      → after (done ++ e ∷ []) r ≡ after done (r >>= λ q. ok (e ∷ q.0, q.1))
  unfolding after
  after_step done e (ok (elements, bs)) =
      ap (λ xs. ok (xs, bs)) (append_assoc done (e ∷ []) elements)
  after_step done e (err x) = refl

  after_nothing : (r : Result (List C.Element × Bytes)) → after [] r ≡ r
  unfolding after
  after_nothing (ok (elements, bs)) = refl
  after_nothing (err e) = refl

  moved :
      (n : ℕ) (done : List C.Element) (e : C.Element) (pending : List C.Element) (bs : Bytes)
      → decode_growing C n (length done + 1) (done ++ e ∷ pending) bs
        ≡ decode_growing C n (length (done ++ e ∷ [])) ((done ++ e ∷ []) ++ pending) bs
  moved n done e pending bs =
      ap₂ (λ i xs. decode_growing C n i xs bs) (omega (arith, length-append done (e ∷ [])))
        (sym (append_assoc done (e ∷ []) pending))

  decode_appending :
      (n : ℕ) (done : List C.Element) (bs : Bytes)
      → decode_growing C n (length done) done bs ≡ after done (decode_plain n bs)
  unfolding decode_growing decode_plain after
  decode_appending zero done bs = ap (λ xs. ok (xs, bs)) (sym (append-nil done))
  decode_appending (suc n) done bs = elim (Result-cases (C.decode C.fresh bs)) [
    | inr (x, e) ↦ rw (get_elem?-end done, decode_growing, e) refl
    | inl ((a, bs'), e) ↦
        rw (get_elem?-end done, decode_growing, e)
          (ap (λ i. decode_growing C n i (done ++ a ∷ []) bs')
              (omega (arith, length-append done (a ∷ [])))
            ∙ decode_appending n (done ++ a ∷ []) bs'
            ∙ after_step done a (decode_plain n bs'))
  ]

  decode_growing_lem :
      (n : ℕ) (done pending : List C.Element) (bs : Bytes)
      → length pending ≤ n
      → decode_growing C n (length done) (done ++ pending) bs ≡ after done (decode_plain n bs)
  unfolding decode_growing decode_plain after
  decode_growing_lem zero done [] bs h = refl
  decode_growing_lem zero done (e ∷ pending) bs h = absurd (omega arith)
  decode_growing_lem (suc n) done [] bs h = rw (append-nil done) (decode_appending (suc n) done bs)
  decode_growing_lem (suc n) done (old ∷ pending) bs h = elim (Result-cases (C.decode C.fresh bs)) [
    | inr (x, e) ↦
        rw (get_elem?-append done old pending, decode_growing, C.decode-overwrites old bs, e) refl
    | inl ((a, bs'), e) ↦
        rw
          (
            get_elem?-append done old pending,
            decode_growing,
            C.decode-overwrites old bs,
            e,
            set-append done old a pending,
          )
          (moved n done a pending bs'
            ∙ decode_growing_lem n (done ++ a ∷ []) pending bs' (omega arith)
            ∙ after_step done a (decode_plain n bs'))
  ]

  length-take_missing : (n : ℕ) (xs : List C.Element) → length (take n xs) + (n - length xs) ≡ n
  length-take_missing zero xs = omega arith
  length-take_missing (suc n) [] = omega arith
  length-take_missing (suc n) (x ∷ xs) = omega (arith, length-take_missing n xs)

  length-resize : (n : ℕ) (old : List C.Element) → length (resize C n old) ≡ n
  unfolding resize
  length-resize n old = omega (
    arith,
    length-append (take n old) (replicate (n - length old) C.fresh),
    length-replicate (n - length old) C.fresh,
    length-take_missing n old,
  )

  -- However many elements there are, and whatever the list held before, `decode` reads that many
  -- elements one after the other, each as into a new object; the boundary makes no difference.
  pub decode_list_lem :
      (width : ℕ) (signed : Bool) (old : List C.Element) (bs : Bytes)
      → decode_list C width signed old bs
        ≡ (Integer.decode width bs >>= λ r. decode_plain (to_size width signed r.0) r.1)
  unfolding decode_list
  decode_list_lem width signed old bs = elim (Result-cases (Integer.decode width bs)) [
    | inr (x, e) ↦ rw (e, decode_list) refl
    | inl ((size, rest), e) ↦
        let n = to_size width signed size in
        rw (e, decode_list)
          (elim (Bool-cases (leb n small_size_boundary)) [
            | inl small ↦
                rw (small, decode_list)
                  (decode_each_lem (resize C n old) rest
                    ∙ ap (λ k. decode_plain k rest) (length-resize n old))
            | inr big ↦
                let room : length (resize C small_size_boundary old) ≤ n =
                  ground (arith, big, length-resize small_size_boundary old) in
                rw (big, decode_list)
                  (decode_growing_lem n [] (resize C small_size_boundary old) rest room
                    ∙ after_nothing (decode_plain n rest))
          ])
  ]
