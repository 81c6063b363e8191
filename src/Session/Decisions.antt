-- ===== src/Session/Decisions.antt =====
-- When a round is repeated, what becomes of a prepared id that the server has forgotten, and what
-- `query` returns.
use cpv_cql_driver.Common.{
  ℕ, ◌+◌, ◌-◌, ◌^◌, ◌<◌, ◌≡◌, ◌≢◌, refl, sym, ap, ◌∙◌, List, [], ◌∷◌, Bool, true, ◌&&◌, arith, ltb,
  leb, ◌==◌, if◌then◌else◌, eq→==, inl, inr, Option-cases, none, some, response_error_exception,
  Result, ok, err, Bytes,
}
use cpv_cql_driver.Session.Cache.{
  get_prepared_query_id, set_prepared_query_id, get-set, bytes_eq, bytes_eq_refl, Caches,
}
use cpv_cql_driver.Session.Retry.{
  Command, LoopState, ResultSet, Metrics, SessionConfiguration, set_default_values, next_flow,
  should_retry_for, handle_error_message, determinate,
}
use cpv_cql_driver.Session.Attempt.{
  Surroundings, Response, rows_result, prepared_result, other_result, error_response,
  other_response, then_do, send, prepare_on_node, prepare_query, handle_response, exchange,
  run_attempt, query_result, Verdict, stop, again, failed, settle, round, give_back, raise, hold,
}
use cpv_cql_driver.Session.Loop.{
  Progress, pending, done, continue_with, repeat, initial, query, checked_result,
}
use cpv_cql_driver.Session.Guarantees.{query-valid}

abbrev pub is_user_error : ℕ → Bool
is_user_error code = leb 0x2000 code && ltb code 0x3000

-- After an ERROR message the round is repeated exactly where the query was unprepared for the first
-- time (then even with no retry left, and without using one up), or the code is no user error
-- (0x2000 to 0x2fff) and a retry is left, of which one is used up. Else the command fails with the
-- server's error.
pub retry_decision :
    (command : Command) (node code : ℕ) (s : LoopState)
    → s.flow.max_retries + 1 < 2 ^ 64
    → let after = settle (raise (handle_error_message command node code s)) in
      (after.0 ≡ (
        if code == 0x2500 && s.flow.un_prepared_error_count == 0
        then again
        else if is_user_error code
        then failed response_error_exception
        else if ltb 0 s.flow.max_retries
        then again
        else failed response_error_exception))
      × (after.1.flow ≡ (
          if code == 0x2500 && s.flow.un_prepared_error_count == 0
          then record { max_retries = s.flow.max_retries; un_prepared_error_count = 1 }
          else if is_user_error code
          then record s.flow { max_retries = 0 }
          else record s.flow { max_retries = s.flow.max_retries - 1 }))
unfolding settle handle_error_message next_flow should_retry_for determinate
retry_decision command node code s h = (ground arith, ground arith)

forgotten :
    (command : Command) (node : ℕ) (env : Surroundings)
    → command.need_prepare ≡ some true
    → (s : LoopState) → get_prepared_query_id s.caches node command.query ≡ []
    → prepare_query command node env s ≡ prepare_on_node command node env s
unfolding prepare_query
forgotten command node env need s e = simp (need, e)

module _ (command : Command) (node : ℕ) (s : LoopState) (need : command.need_prepare ≡ some true)
    (first : s.flow.un_prepared_error_count ≡ 0) where
  evicted :
      (handle_error_message command node 0x2500 s).1.caches
      ≡ set_prepared_query_id s.caches node command.query []
  unfolding handle_error_message
  evicted = ground arith

  -- A query whose prepared id the server has forgotten for the first time loses its id for that
  -- node, no other query or node loses one, and the next round on that node prepares it again.
  pub un_prepared_reprepares :
      ((n : ℕ) (other : Bytes)
        → get_prepared_query_id (handle_error_message command node 0x2500 s).1.caches n other ≡ (
            if n == node && bytes_eq command.query other
            then []
            else get_prepared_query_id s.caches n other))
      × ((env : Surroundings)
          → prepare_query command node env (handle_error_message command node 0x2500 s).1
            ≡ prepare_on_node command node env (handle_error_message command node 0x2500 s).1)
  un_prepared_reprepares = (
    λ n other. rw evicted (get-set s.caches node command.query [] n other),
    λ env. forgotten command node env need (handle_error_message command node 0x2500 s).1 (
        rw evicted (
          get-set s.caches node command.query [] node command.query
          ∙ rw (bytes_eq_refl command.query, eq→== node node refl))),
  )

-- Only a RESULT ends the round well, and `query` keeps something of it.
handle_response-result :
    (command : Command) (node : ℕ) (r : Response) (s t : LoopState)
    → handle_response query_result command node r s ≡ (ok tt, t)
    → t.result ≢ none
unfolding handle_response query_result
handle_response-result command node (error_response code) s t e = λ n. ground arith
handle_response-result command node other_response s t e = λ n. ground arith
handle_response-result command node (rows_result n) s t e = λ n. ground arith
handle_response-result command node (prepared_result id) s t e = λ n. ground arith
handle_response-result command node other_result s t e = λ n. ground arith

then_do-ok :
    {A B : Type 0} (f : A → LoopState → Result B × LoopState) (r : Result A × LoopState) (b : B)
    (t : LoopState)
    → then_do f r ≡ (ok b, t)
    → (a : A) × (u : LoopState) × (r ≡ (ok a, u)) × (f a u ≡ (ok b, t))
then_do-ok f (ok a, u) b t e = (a, u, refl, e)
then_do-ok f (err x, u) b t e = ground arith

run_attempt-result :
    (command : Command) (env : Surroundings) (s t : LoopState) (u : Unit {0})
    → run_attempt query_result command env s ≡ (ok u, t)
    → t.result ≢ none
unfolding run_attempt exchange
run_attempt-result command env s t u e =
    let (node, s₁, e₁, f₁) = then_do-ok _ (env.got_connection, s) u t e in
    let (_, s₂, e₂, f₂) = then_do-ok _ (hold node s₁) u t f₁ in
    let (m, s₃, e₃, f₃) = then_do-ok _ (prepare_query command node env s₂) u t f₂ in
    let (_, s₄, e₄, f₄) = then_do-ok _ (send m env.request_sent s₃) u t f₃ in
    let (r, s₅, e₅, f₅) = then_do-ok _ (env.response, s₄) u t f₄ in
    handle_response-result command node r s₅ t f₅

give_back-result : (s : LoopState) → (give_back s).result ≡ s.result
unfolding give_back
give_back-result s = ground arith

settle-result :
    (p : Result (Unit {0}) × LoopState)
    → ((u : Unit {0}) (t : LoopState) → p ≡ (ok u, t) → t.result ≢ none)
    → (settle p).0 ≡ stop
    → (give_back (settle p).1).result ≢ none
unfolding settle
settle-result (ok u, t) h e = λ n. h u t refl (sym (give_back-result _) ∙ n)
settle-result (err x, t) h e = λ n. ground arith

continue_with-result :
    (rest : LoopState → Progress (Unit {0}) × LoopState) (v : Verdict) (s : LoopState)
    → (v ≡ stop → s.result ≢ none)
    → ((rest s).0 ≡ done (ok tt) → (rest s).1.result ≢ none)
    → (continue_with rest (v, s)).0 ≡ done (ok tt)
    → (continue_with rest (v, s)).1.result ≢ none
unfolding continue_with
continue_with-result rest stop s h k e = h refl
continue_with-result rest again s h k e = k e
continue_with-result rest (failed x) s h k e = cc

repeat-result :
    (command : Command) (envs : List Surroundings) (s : LoopState)
    → (repeat (round query_result command) envs s).0 ≡ done (ok tt)
    → (repeat (round query_result command) envs s).1.result ≢ none
unfolding repeat round
repeat-result command [] s e = cc
repeat-result command (env ∷ envs) s e =
    continue_with-result (repeat (round query_result command) envs) _ _
      (settle-result (run_attempt query_result command env s)
        (λ u t h. run_attempt-result command env s t u h))
      (repeat-result command envs _) e

set_result :
    (p : Progress (Unit {0}) × LoopState)
    → p.0 ≡ done (ok tt)
    → p.1.result ≢ none
    → (r : ResultSet) × ((checked_result p).0 ≡ done (ok r))
set_result (pending, s) e h = cc
set_result (done (err x), s) e h = cc
set_result (done (ok u), s) e h = elim (Option-cases s.result) [
  | inl n ↦ absurd (h n)
  | inr (r, f) ↦ (r, rw f)
]

-- Where the loop of `query` ends well the result is set, so the assertion behind it never fails: a
-- valid command that is done returns a result set, or the exception with which the loop failed.
pub query-result :
    (config : SessionConfiguration) (command : Command) (envs : List Surroundings) (caches : Caches)
    (metrics : Metrics)
    → command.is_valid ≡ true
    → (repeat
        (round query_result (set_default_values config command))
        envs
        (initial command caches metrics)).0
      ≡ done (ok tt)
    → (r : ResultSet) × ((query config command envs caches metrics).0 ≡ done (ok r))
query-result config command envs caches metrics valid e =
    let p =
      repeat (round query_result (set_default_values config command)) envs
        (initial command caches metrics) in
    let (r, f) =
      set_result p e (
        repeat-result (set_default_values config command) envs (initial command caches metrics)
          e) in
    (r, ap (λ q. q.0) (query-valid config command envs caches metrics valid) ∙ f)
