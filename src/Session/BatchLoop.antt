-- ===== src/Session/BatchLoop.antt =====
-- The retry loop of batchExecute ends and gives back what it took.
use cpv_cql_driver.Common.{
  ℕ, ◌+◌, ◌≤◌, ◌≡◌, refl, sym, subst, inl, inr, List, [], ◌∷◌, map, true, false, arith, length,
  none, some, Result, ok, err, Result-cases, Bytes,
}
use cpv_cql_driver.Session.Cache.{Caches}
use cpv_cql_driver.Session.Retry.{SessionConfiguration, Metrics, LoopState, prepare_message}
use cpv_cql_driver.Session.Attempt.{
  Response, rows_result, prepared_result, other_result, error_response, other_response, send, hold,
}
use cpv_cql_driver.Session.Loop.{repeat}
use cpv_cql_driver.Session.Rounds.{
  Kept, Kept-bind, Kept-refl, send-Kept, next_flow-left, handle_unexpected-Kept, IsSettled,
  settle_held, settle_free,
}
use cpv_cql_driver.Session.Guarantees.{Finishes, repeat-Finishes}
use cpv_cql_driver.Session.Batch.{
  BatchCommand, BatchSurroundings, set_batch_defaults, handle_batch_error, plan_prepares,
  send_prepares, receive_responses, handle_batch_prepared, handle_responses, prepare_queries,
  handle_batch_response, batch_exchange, batch_attempt, batch_round, initial_batch, is_empty_batch,
  batch_execute,
}

-- The connections that a round got, to be given back.
abbrev pub got_for_batch : BatchSurroundings → List ℕ
got_for_batch env = elim env.got_connection [ ok node ↦ node ∷ [] | err e ↦ [] ]

handle_batch_error-Kept :
    (command : BatchCommand) (node code : ℕ) (s : LoopState)
    → Kept s (handle_batch_error command node code s).1
unfolding handle_batch_error
handle_batch_error-Kept command node code s = record {
  left = next_flow-left code s.flow;
  metrics = refl;
  returned = refl;
  connection = refl;
}

send_prepares-Kept :
    (missing : List (ℕ × Bytes)) (outcomes : List (Result (Unit {0}))) (s : LoopState)
    → Kept s (send_prepares missing outcomes s).1
unfolding send_prepares
send_prepares-Kept [] outcomes s = Kept-refl s
send_prepares-Kept ((i, query) ∷ missing) [] s = Kept-refl s
send_prepares-Kept ((i, query) ∷ missing) (o ∷ outcomes) s =
    Kept-bind _ s (send (prepare_message query) o s) (send-Kept _ _ s)
      (λ _ t. send_prepares-Kept missing outcomes t)

receive_responses-Kept :
    (missing : List (ℕ × Bytes)) (answers : List (Result Response)) (s : LoopState)
    → Kept s (receive_responses missing answers s).1
unfolding receive_responses
receive_responses-Kept [] answers s = Kept-refl s
receive_responses-Kept (q ∷ missing) [] s = Kept-refl s
receive_responses-Kept (q ∷ missing) (a ∷ answers) s =
    Kept-bind _ s (a, s) (Kept-refl s)
      (λ _ t.
        Kept-bind _ t (receive_responses missing answers t)
          (receive_responses-Kept missing answers t) (λ _ u. Kept-refl u))

handle_batch_prepared-Kept :
    (command : BatchCommand) (node : ℕ) (query : Bytes) (r : Response) (s : LoopState)
    → Kept s (handle_batch_prepared command node query r s).1
unfolding handle_batch_prepared
handle_batch_prepared-Kept command node query (prepared_result id) s = ground arith
handle_batch_prepared-Kept command node query (error_response code) s =
    handle_batch_error-Kept command node code s
handle_batch_prepared-Kept command node query (rows_result n) s = handle_unexpected-Kept s
handle_batch_prepared-Kept command node query other_result s = handle_unexpected-Kept s
handle_batch_prepared-Kept command node query other_response s = handle_unexpected-Kept s

handle_responses-Kept :
    (command : BatchCommand) (node : ℕ) (missing : List (ℕ × Bytes)) (responses : List Response)
    (ids : List Bytes) (s : LoopState)
    → Kept s (handle_responses command node missing responses ids s).1
unfolding handle_responses
handle_responses-Kept command node [] responses ids s = Kept-refl s
handle_responses-Kept command node (q ∷ missing) [] ids s = Kept-refl s
handle_responses-Kept command node ((i, query) ∷ missing) (r ∷ responses) ids s =
    Kept-bind _ s (handle_batch_prepared command node query r s)
      (handle_batch_prepared-Kept command node query r s)
      (λ id t. handle_responses-Kept command node missing responses _ t)

prepare_queries-Kept :
    (command : BatchCommand) (node : ℕ) (env : BatchSurroundings) (s : LoopState)
    → Kept s (prepare_queries command node env s).1
unfolding prepare_queries
prepare_queries-Kept command node env s =
    let missing = (plan_prepares 0 command.queries node s.caches).1 in
    Kept-bind _ s (send_prepares missing env.prepares_sent s)
      (send_prepares-Kept missing env.prepares_sent s)
      (λ _ t.
        Kept-bind _ t (receive_responses missing env.prepare_responses t)
          (receive_responses-Kept missing env.prepare_responses t)
          (λ responses u. handle_responses-Kept command node missing responses _ u))

handle_batch_response-Kept :
    (command : BatchCommand) (node : ℕ) (r : Response) (s : LoopState)
    → Kept s (handle_batch_response command node r s).1
unfolding handle_batch_response
handle_batch_response-Kept command node (error_response code) s =
    handle_batch_error-Kept command node code s
handle_batch_response-Kept command node other_response s = handle_unexpected-Kept s
handle_batch_response-Kept command node (rows_result n) s = Kept-refl s
handle_batch_response-Kept command node (prepared_result n) s = Kept-refl s
handle_batch_response-Kept command node other_result s = Kept-refl s

batch_exchange-Kept :
    (command : BatchCommand) (env : BatchSurroundings) (node : ℕ) (s : LoopState)
    → Kept s (batch_exchange command env node s).1
unfolding batch_exchange
batch_exchange-Kept command env node s =
    Kept-bind _ s (prepare_queries command node env s) (prepare_queries-Kept command node env s)
      (λ ids t. Kept-bind _ t (send _ env.request_sent t) (send-Kept _ _ t) (λ _ u.
        Kept-bind _ u (env.response, u) (Kept-refl u)
          (λ r w. handle_batch_response-Kept command node r w)))

batch_round-IsSettled :
    (command : BatchCommand) (env : BatchSurroundings) (s : LoopState)
    → s.connection ≡ none
    → IsSettled s (batch_round command env s).0 (batch_round command env s).1 (got_for_batch env)
unfolding batch_round batch_attempt hold
batch_round-IsSettled command env s free = elim (Result-cases env.got_connection) [
  | inl (node, e) ↦
      rw (e, batch_attempt)
        (settle_held s node (batch_exchange command env node (record s { connection = some node }))
          (batch_exchange-Kept command env node (record s { connection = some node })))
  | inr (x, e) ↦ rw (e, batch_attempt) (settle_free s x free)
]

batch_execute-valid :
    (config : SessionConfiguration) (command : BatchCommand) (envs : List BatchSurroundings)
    (caches : Caches) (metrics : Metrics)
    → command.is_valid ≡ true
    → is_empty_batch command ≡ false
    → batch_execute config command envs caches metrics
      ≡ repeat
          (batch_round (set_batch_defaults config command))
          envs
          (initial_batch command caches metrics)
unfolding batch_execute
batch_execute-valid config command envs caches metrics valid some' = simp (valid, some')

-- `batchExecute` of a valid command with a query ends within `retries` + 2 rounds, whatever happens
-- to its preparations. It gives back every connection that it got, once and in order, holds none at
-- the end, and counts each round once.
pub batch_execute-IsFinished :
    (config : SessionConfiguration) (command : BatchCommand) (envs : List BatchSurroundings)
    (caches : Caches) (metrics : Metrics)
    → command.is_valid ≡ true
    → is_empty_batch command ≡ false
    → command.retries + 2 ≤ length envs
    → Finishes
        (map got_for_batch envs)
        (initial_batch command caches metrics)
        (batch_execute config command envs caches metrics)
unfolding initial_batch
batch_execute-IsFinished config command envs caches metrics valid some' enough =
    subst (Finishes (map got_for_batch envs) (initial_batch command caches metrics))
      (sym (batch_execute-valid config command envs caches metrics valid some'))
      (repeat-Finishes (batch_round (set_batch_defaults config command)) got_for_batch
        (batch_round-IsSettled (set_batch_defaults config command)) envs
        (initial_batch command caches metrics) refl (omega arith))
