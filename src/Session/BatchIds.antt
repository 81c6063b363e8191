-- ===== src/Session/BatchIds.antt =====
-- Which prepared ids batchExecute sends, against a description in one pass.
use cpv_cql_driver.Common.{
  ℕ, suc, ◌+◌, ◌≡◌, refl, sym, ap, ◌∙◌, inl, inr, List, [], ◌∷◌, ◌++◌, append-nil, append_assoc,
  map, Bool, true, false, arith, length, length-append, replicate, set, ok, if◌then◌else◌,
  Bool-cases, List-cases, Bytes,
}
use cpv_cql_driver.Session.Cache.{Caches, get_prepared_query_id, set_prepared_query_id}
use cpv_cql_driver.Session.Retry.{LoopState, prepare_message, is_some_true}
use cpv_cql_driver.Session.Attempt.{prepared_result, send}
use cpv_cql_driver.Session.Batch.{
  BatchQuery, BatchCommand, BatchSurroundings, plan_prepares, send_prepares, receive_responses,
  handle_batch_prepared, handle_responses, prepare_queries,
}

-- The id of each query: none where it needs no preparation, the node's where it has one, else the
-- next of the ids that the server gives.
abbrev pub id_or : Bytes → Bytes → Bytes
id_or [] otherwise = otherwise
id_or (b ∷ id) otherwise = b ∷ id

abbrev pub is_missing : ℕ → Caches → BatchQuery → Bool
is_missing node caches q =
    if is_some_true q.need_prepare
    then (elim (get_prepared_query_id caches node q.query) [ [] ↦ true | b ∷ id ↦ false ])
    else false

abbrev pub missing_queries : ℕ → Caches → List BatchQuery → List Bytes
missing_queries node caches [] = []
missing_queries node caches (q ∷ queries) =
    let rest = missing_queries node caches queries in
    if is_missing node caches q then q.query ∷ rest else rest

abbrev first_or_none : List Bytes → Bytes
first_or_none [] = []
first_or_none (id ∷ ids) = id

abbrev tail : List Bytes → List Bytes
tail [] = []
tail (id ∷ ids) = ids

abbrev pub ids_for : ℕ → Caches → List BatchQuery → List Bytes → List Bytes
ids_for node caches [] given = []
ids_for node caches (q ∷ queries) given =
    let later = ids_for node caches queries (tail given) in
    let same = ids_for node caches queries given in
    if is_missing node caches q
    then first_or_none given ∷ later
    else (if is_some_true q.need_prepare then get_prepared_query_id caches node q.query else [])
      ∷ same

-- The caches after the ids have been given to the missing queries.
abbrev pub filled : ℕ → List Bytes → List Bytes → Caches → Caches
filled node [] given caches = caches
filled node (q ∷ queries) [] caches = caches
filled node (q ∷ queries) (id ∷ given) caches =
    filled node queries given (set_prepared_query_id caches node q id)

module _ (command : BatchCommand) (node : ℕ) where
  set-append :
      (pre : List Bytes) (id old : Bytes) (rest : List Bytes)
      → set (pre ++ old ∷ rest) (length pre) id ≡ pre ++ id ∷ rest
  set-append [] id old rest = refl
  set-append (x ∷ pre) id old rest = ap (◌∷◌ x) (set-append pre id old rest)

  shift :
      {R : Type 0} (F G : List Bytes → R) (pre : List Bytes) (x : Bytes) (ys zs : List Bytes)
      → F ((pre ++ x ∷ []) ++ ys) ≡ G ((pre ++ x ∷ []) ++ zs)
      → F (pre ++ x ∷ ys) ≡ G (pre ++ x ∷ zs)
  shift F G pre x ys zs h =
      ap F (sym (append_assoc pre (x ∷ []) ys)) ∙ h ∙ ap G (append_assoc pre (x ∷ []) zs)

  -- Handling the answers fills the gaps of the plan.
  fill :
      (caches : Caches) (queries : List BatchQuery) (given : List Bytes) (pre : List Bytes) (i : ℕ)
      (s : LoopState)
      → i ≡ length pre
      → length given ≡ length (missing_queries node caches queries)
      → let plan = plan_prepares i queries node caches in
        handle_responses command node plan.1 (map prepared_result given) (pre ++ plan.0) s ≡ (
          ok (pre ++ ids_for node caches queries given),
          record s { caches = filled node (missing_queries node caches queries) given s.caches },
        )
  unfolding plan_prepares handle_responses handle_batch_prepared
  fill caches [] given pre i s e n = refl
  fill caches (q ∷ queries) given pre i s e n =
      let plan = plan_prepares (i + 1) queries node caches in
      let lost = missing_queries node caches queries in
      let next : (x : Bytes) → i + 1 ≡ length (pre ++ x ∷ []) =
        λ x. omega (arith, e, length-append pre (x ∷ [])) in
      elim (Bool-cases (is_some_true q.need_prepare)) [
        | inr no' ↦
            let n' : length given ≡ length lost = rw no' at n in
            rw (no', plan_prepares)
              (shift (λ ids. handle_responses command node plan.1 (map prepared_result given) ids s)
                (λ ids. (ok ids, record s { caches = filled node lost given s.caches })) pre []
                plan.0 (ids_for node caches queries given)
                (fill caches queries given (pre ++ [] ∷ []) (i + 1) s (next []) n'))
        | inl yes' ↦ elim (List-cases (get_prepared_query_id caches node q.query)) [
          | inr (b, id, found) ↦
              let n' : length given ≡ length lost = rw (yes', found) at n in
              rw (yes', plan_prepares, found)
                (shift
                  (λ ids. handle_responses command node plan.1 (map prepared_result given) ids s)
                  (λ ids. (ok ids, record s { caches = filled node lost given s.caches })) pre
                  (b ∷ id) plan.0 (ids_for node caches queries given)
                  (fill caches queries given (pre ++ (b ∷ id) ∷ []) (i + 1) s (next (b ∷ id)) n'))
          | inl absent ↦
              let n' : length given ≡ suc (length lost) = rw (yes', absent) at n in
              elim (List-cases given) [
                | inl g ↦ absurd (omega (arith, ap length g))
                | inr (id, more, g) ↦
                    let s' : LoopState = record s {
                      caches = set_prepared_query_id s.caches node q.query id;
                    } in
                    let n'' : length more ≡ length lost = omega (arith, ap length g) in
                    rw
                      (
                        g,
                        yes',
                        plan_prepares,
                        absent,
                        e,
                        set-append pre id [] (plan_prepares (length pre + 1) queries node caches).0,
                      )
                      (shift
                        (λ ids.
                          handle_responses command node
                            (plan_prepares (length pre + 1) queries node caches).1
                            (map prepared_result more) ids s')
                        (λ ids. (ok ids, record s' { caches = filled node lost more s'.caches }))
                        pre id (plan_prepares (length pre + 1) queries node caches).0
                        (ids_for node caches queries more)
                        (fill caches queries more (pre ++ id ∷ []) (length pre + 1) s'
                          (omega (arith, length-append pre (id ∷ []))) n''))
              ]
        ]
      ]

abbrev texts : List (ℕ × Bytes) → List Bytes
texts [] = []
texts ((i, query) ∷ missing) = query ∷ texts missing

texts-plan_prepares :
    (node i : ℕ) (caches : Caches) (queries : List BatchQuery)
    → texts (plan_prepares i queries node caches).1 ≡ missing_queries node caches queries
unfolding plan_prepares
texts-plan_prepares node i caches [] = refl
texts-plan_prepares node i caches (q ∷ queries) =
    let rest = texts-plan_prepares node (i + 1) caches queries in
    elim (Bool-cases (is_some_true q.need_prepare)) [
      | inr no' ↦ rw (no', plan_prepares) rest
      | inl yes' ↦ elim (List-cases (get_prepared_query_id caches node q.query)) [
        | inr (b, id, found) ↦ rw (yes', plan_prepares, found) rest
        | inl absent ↦ rw (yes', plan_prepares, absent) (ap (◌∷◌ q.query) rest)
      ]
    ]

length-texts : (missing : List (ℕ × Bytes)) → length (texts missing) ≡ length missing
length-texts [] = refl
length-texts ((i, query) ∷ missing) = omega (arith, length-texts missing)

send_all :
    (missing : List (ℕ × Bytes)) (s : LoopState)
    → send_prepares missing (replicate (length missing) (ok tt)) s
      ≡ (ok tt, record s { sent = s.sent ++ map prepare_message (texts missing) })
unfolding send_prepares send
send_all [] s = ap (λ xs. (ok tt, record s { sent = xs })) (sym (append-nil s.sent))
send_all ((i, query) ∷ missing) s =
    send_all missing (record s { sent = s.sent ++ prepare_message query ∷ [] })
    ∙ ap (λ xs. (ok tt, record s { sent = xs }))
        (append_assoc s.sent (prepare_message query ∷ []) (map prepare_message (texts missing)))

receive_all :
    (missing : List (ℕ × Bytes)) (given : List Bytes) (s : LoopState)
    → length given ≡ length missing
    → receive_responses missing (map (λ id. ok (prepared_result id)) given) s
      ≡ (ok (map prepared_result given), s)
unfolding receive_responses
receive_all [] [] s n = refl
receive_all [] (id ∷ given) s n = absurd (omega arith)
receive_all (q ∷ missing) [] s n = absurd (omega arith)
receive_all (q ∷ missing) (id ∷ given) s n = rw (receive_all missing given s (omega arith)) refl

-- Where the PREPAREs are sent and each is answered with an id, `prepareQueries` prepares the queries
-- that need it and have no id on the node, each once and in order. The batch gets the node's id for
-- a query that had one, the server's id, at the query's place, for one that had none, and no id
-- where the query needs no preparation; the server's ids join the node's cache.
pub prepare_queries-ids_for :
    (command : BatchCommand) (node : ℕ) (given : List Bytes) (env : BatchSurroundings)
    (s : LoopState)
    → let missing = missing_queries node s.caches command.queries in
      length given ≡ length missing
      → env.prepares_sent ≡ replicate (length missing) (ok tt)
      → env.prepare_responses ≡ map (λ id. ok (prepared_result id)) given
      → prepare_queries command node env s ≡ (
        ok (ids_for node s.caches command.queries given),
        record s {
          caches = filled node missing given s.caches;
          sent = s.sent ++ map prepare_message missing;
        },
      )
unfolding prepare_queries
prepare_queries-ids_for command node given env s n sent answered =
    let plan = plan_prepares 0 command.queries node s.caches in
    let t = texts-plan_prepares node 0 s.caches command.queries in
    let same : length plan.1 ≡ length (missing_queries node s.caches command.queries) =
      sym (length-texts plan.1) ∙ ap length t in
    let s' : LoopState = record s { sent = s.sent ++ map prepare_message (texts plan.1) } in
    rw (sent, answered, sym same, send_all plan.1 s, receive_all plan.1 given s' (n ∙ sym same))
      (fill command node s.caches command.queries given [] 0 s' refl n
        ∙ ap
            (λ xs. (
              ok (ids_for node s.caches command.queries given),
              record s {
                caches = filled node (missing_queries node s.caches command.queries) given s.caches;
                sent = s.sent ++ map prepare_message xs;
              },
            ))
            t)
