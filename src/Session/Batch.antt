-- ===== src/Session/Batch.antt =====
-- Session::batchExecute of src/HighLevel/Session.cpp, with `prepareQueries`: all queries of the batch
-- that are not prepared on the node are prepared at once, and the answers handled together.
use cpv_cql_driver.Common.{
  ℕ, ◌+◌, List, [], ◌∷◌, map, Bool, true, false, not, ltb, if◌then◌else◌, set, Option, none, some,
  Error, logic_exception, response_error_exception, retry_exception, out_of_range, Result, ok, err,
  Bytes,
}
use cpv_cql_driver.Session.Cache.{Caches, get_prepared_query_id, set_prepared_query_id}
use cpv_cql_driver.Session.Retry.{
  SessionConfiguration, Metrics, batch_message, prepare_message, LoopState, is_some_true,
  is_first_un_prepared, next_flow, handle_unexpected,
}
use cpv_cql_driver.Session.Attempt.{
  Response, rows_result, prepared_result, other_result, error_response, other_response, M, then_do,
  ◌>>=◌, ◌>>◌, pure, await, raise, hold, send, Verdict, settle, give_back,
}
use cpv_cql_driver.Session.Loop.{Progress, done, repeat}

pub record BatchQuery : Type 0 where
  pub query : Bytes
  pub need_prepare : Option Bool

pub record BatchCommand : Type 0 where
  pub is_valid : Bool
  pub queries : List BatchQuery
  pub consistency : Option ℕ
  pub retries : ℕ

-- `setDefaultValues` for a BatchCommand.
abbrev pub with_default : SessionConfiguration → BatchQuery → BatchQuery
with_default config q = record q {
  need_prepare = elim q.need_prepare [ none ↦ some config.prepare_all_queries | some b ↦ some b ];
}

unfoldable pub set_batch_defaults : SessionConfiguration → BatchCommand → BatchCommand
set_batch_defaults config c = record c {
  consistency = elim c.consistency [ none ↦ some config.default_consistency | some l ↦ some l ];
  queries = map (with_default config) c.queries;
}

-- What the pool and the connection do in one round; the PREPAREs and their answers in their order.
-- A wait that the list says nothing about fails as on a closed connection would.
pub record BatchSurroundings : Type 0 where
  pub got_connection : Result ℕ
  pub prepares_sent : List (Result (Unit {0}))
  pub prepare_responses : List (Result Response)
  pub request_sent : Result (Unit {0})
  pub response : Result Response

-- "evict cached prepare results"
unfoldable pub evict_queries : List BatchQuery → ℕ → Caches → Caches
evict_queries [] node caches = caches
evict_queries (q ∷ queries) node caches =
    let caches' : Caches =
      if is_some_true q.need_prepare
      then set_prepared_query_id caches node q.query []
      else caches in
    evict_queries queries node caches'

-- `RetryFlow::handleErrorMessage` for "batchExecute".
unfoldable pub handle_batch_error : BatchCommand → ℕ → ℕ → LoopState → Error × LoopState
unfolding next_flow
handle_batch_error command node code s =
    let flow' = next_flow code s.flow in
    let caches' : Caches =
      if is_first_un_prepared code s.flow
      then evict_queries command.queries node s.caches
      else s.caches in
    (
      if ltb 0 flow'.max_retries then retry_exception else response_error_exception,
      record s { flow = flow'; caches = caches' },
    )

-- The first loop of `prepareQueries`, from the query at index `i` on: the ids of the batch message
-- from the cache, and the queries that remain to be prepared, with their indexes.
abbrev pub Plan : Type 0
Plan = List Bytes × List (ℕ × Bytes)

abbrev pub plan_or : ℕ → Bytes → Bytes → Plan → Plan
plan_or i query [] (ids, missing) = ([] ∷ ids, (i, query) ∷ missing)
plan_or i query (b ∷ id) (ids, missing) = ((b ∷ id) ∷ ids, missing)

unfoldable pub plan_prepares : ℕ → List BatchQuery → ℕ → Caches → Plan
plan_prepares i [] node caches = ([], [])
plan_prepares i (q ∷ queries) node caches =
    let rest = plan_prepares (i + 1) queries node caches in
    if not (is_some_true q.need_prepare)
    then ([] ∷ rest.0, rest.1)
    else plan_or i q.query (get_prepared_query_id caches node q.query) rest

-- The sends are chained: one that fails keeps the later ones from being made.
unfoldable pub send_prepares : List (ℕ × Bytes) → List (Result (Unit {0})) → M (Unit {0})
send_prepares [] outcomes = pure tt
send_prepares ((i, query) ∷ missing) [] = await (err out_of_range)
send_prepares ((i, query) ∷ missing) (o ∷ outcomes) = do
  send (prepare_message query) o
  send_prepares missing outcomes

-- "receive RESULTs": all of them, before any is handled.
unfoldable pub receive_responses : List (ℕ × Bytes) → List (Result Response) → M (List Response)
receive_responses [] answers = pure []
receive_responses (q ∷ missing) [] = await (err out_of_range)
receive_responses (q ∷ missing) (a ∷ answers) = do
  response ← await a
  rest ← receive_responses missing answers
  pure (response ∷ rest)

-- "handle RESULTs", for one query: its id, which is also stored in the node's cache.
unfoldable pub handle_batch_prepared : BatchCommand → ℕ → Bytes → Response → M Bytes
handle_batch_prepared command node query (prepared_result id) s =
    (ok id, record s { caches = set_prepared_query_id s.caches node query id })
handle_batch_prepared command node query (error_response code) s =
    raise (handle_batch_error command node code s)
handle_batch_prepared command node query (rows_result n) s = raise (handle_unexpected s)
handle_batch_prepared command node query other_result s = raise (handle_unexpected s)
handle_batch_prepared command node query other_response s = raise (handle_unexpected s)

unfoldable pub handle_responses :
    BatchCommand → ℕ → List (ℕ × Bytes) → List Response → List Bytes → M (List Bytes)
handle_responses command node [] responses ids = pure ids
handle_responses command node (q ∷ missing) [] ids = pure ids
handle_responses command node ((i, query) ∷ missing) (r ∷ responses) ids = do
  id ← handle_batch_prepared command node query r
  handle_responses command node missing responses (set ids i id)

-- `prepareQueries`: the ids of the batch message, empty where a query is sent as text.
unfoldable pub prepare_queries : BatchCommand → ℕ → BatchSurroundings → M (List Bytes)
prepare_queries command node env s =
    let (ids, missing) = plan_prepares 0 command.queries node s.caches in
    then_do
      (λ _. receive_responses missing env.prepare_responses >>= λ responses.
        handle_responses command node missing responses ids)
      (send_prepares missing env.prepares_sent s)

unfoldable pub handle_batch_response : BatchCommand → ℕ → Response → M (Unit {0})
handle_batch_response command node (error_response code) s =
    raise (handle_batch_error command node code s)
handle_batch_response command node other_response s = raise (handle_unexpected s)
handle_batch_response command node (rows_result n) s = (ok tt, s)
handle_batch_response command node (prepared_result id) s = (ok tt, s)
handle_batch_response command node other_result s = (ok tt, s)

unfoldable pub batch_exchange : BatchCommand → BatchSurroundings → ℕ → M (Unit {0})
batch_exchange command env node = do
  ids ← prepare_queries command node env
  send (batch_message (map (λ q. q.query) command.queries) ids) env.request_sent
  response ← await env.response
  handle_batch_response command node response

unfoldable pub batch_attempt : BatchCommand → BatchSurroundings → M (Unit {0})
batch_attempt command env = do
  node ← await env.got_connection
  hold node
  batch_exchange command env node

unfoldable pub batch_round : BatchCommand → BatchSurroundings → LoopState → Verdict × LoopState
batch_round command env s =
    let (verdict, s') = settle (batch_attempt command env s) in (verdict, give_back s')

-- The variables as `do_with` makes them; the metrics are those of batch commands.
unfoldable pub initial_batch : BatchCommand → Caches → Metrics → LoopState
initial_batch command caches metrics = record {
  flow = record { max_retries = command.retries; un_prepared_error_count = 0 };
  connection = none;
  result = none;
  caches = caches;
  metrics = metrics;
  sent = [];
  returned = [];
}

abbrev pub is_empty_batch : BatchCommand → Bool
is_empty_batch command = elim command.queries [ [] ↦ true | q ∷ queries ↦ false ]

-- `Session::batchExecute`
unfoldable pub batch_execute :
    SessionConfiguration
    → BatchCommand
    → List BatchSurroundings
    → Caches
    → Metrics
    → Progress (Unit {0}) × LoopState
batch_execute config command envs caches metrics =
    let start = initial_batch command caches metrics in
    if not command.is_valid
    then (done (err logic_exception), start)
    else if is_empty_batch command
    then (done (ok tt), start)
    else repeat (batch_round (set_batch_defaults config command)) envs start
