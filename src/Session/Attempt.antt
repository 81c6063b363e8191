-- ===== src/Session/Attempt.antt =====
-- One round of the retry loops of Session::query and Session::execute, as a program over the loop's
-- state in which an exception leaves the state as it stands.
use cpv_cql_driver.Common.{
  ℕ, ◌+◌, [], ◌∷◌, ◌++◌, not, if◌then◌else◌, Option, none, some, Error, Result, ok, err, Bytes,
}
use cpv_cql_driver.Session.Cache.{get_prepared_query_id, set_prepared_query_id}
use cpv_cql_driver.Session.Retry.{
  Command, Request, query_message, prepare_message, execute_message, ResultSet, empty_result_set,
  rows, LoopState, is_some_true, handle_error_message, handle_unexpected, determinate,
}

-- What the server answers: a RESULT of kind Rows, Prepared or another, an ERROR with its code, or a
-- message of another type.
pub data Response : Type 0 where
  rows_result : ℕ → Response
  prepared_result : Bytes → Response
  other_result : Response
  error_response : ℕ → Response
  other_response : Response

-- What the pool and the connection do in one round; each is read only where the round gets there.
pub record Surroundings : Type 0 where
  pub got_connection : Result ℕ
  pub prepare_sent : Result (Unit {0})
  pub prepare_response : Result Response
  pub request_sent : Result (Unit {0})
  pub response : Result Response

abbrev pub M : Type 0 → Type 0
M A = LoopState → Result A × LoopState

infixl 5 ◌>>=◌ ◌>>◌
abbrev pub then_do : {A B : Type 0} → (A → M B) → Result A × LoopState → Result B × LoopState
then_do f (ok a, s) = f a s
then_do f (err e, s) = (err e, s)

abbrev pub ◌>>=◌ : {A B : Type 0} → M A → (A → M B) → M B
◌>>=◌ m f s = then_do f (m s)

abbrev pub ◌>>◌ : {B : Type 0} → M (Unit {0}) → M B → M B
m >> k = m >>= λ _. k

abbrev pub pure : {A : Type 0} → A → M A
pure a s = (ok a, s)

abbrev pub await : {A : Type 0} → Result A → M A
await r s = (r, s)

abbrev pub raise : {A : Type 0} → Error × LoopState → Result A × LoopState
raise (e, s) = (err e, s)

unfoldable pub hold : ℕ → M (Unit {0})
hold node s = (ok tt, record s { connection = some node })

unfoldable pub send : Request → Result (Unit {0}) → M (Unit {0})
send request outcome s = (outcome, record s { sent = s.sent ++ request ∷ [] })

-- The answer to a PREPARE, in `prepareQuery`.
unfoldable pub handle_prepared : Command → ℕ → Response → M Request
handle_prepared command node (prepared_result id) s = (
  ok (execute_message command.query id),
  record s { caches = set_prepared_query_id s.caches node command.query id },
)
handle_prepared command node (error_response code) s =
    raise (handle_error_message command node code s)
handle_prepared command node (rows_result n) s = raise (handle_unexpected s)
handle_prepared command node other_result s = raise (handle_unexpected s)
handle_prepared command node other_response s = raise (handle_unexpected s)

unfoldable pub prepare_on_node : Command → ℕ → Surroundings → M Request
prepare_on_node command node env = do
  send (prepare_message command.query) env.prepare_sent
  response ← await env.prepare_response
  handle_prepared command node response

abbrev pub execute_or : Bytes → Bytes → M Request → M Request
execute_or query [] otherwise = otherwise
execute_or query (b ∷ id) otherwise = pure (execute_message query (b ∷ id))

-- `prepareQuery`
unfoldable pub prepare_query : Command → ℕ → Surroundings → M Request
prepare_query command node env s =
    if not (is_some_true command.need_prepare)
    then (ok (query_message command.query), s)
    else execute_or command.query (get_prepared_query_id s.caches node command.query)
        (prepare_on_node command node env) s

-- What a RESULT leaves in `result`: `query` keeps the rows, `execute` nothing.
unfoldable pub query_result : Response → Option ResultSet → Option ResultSet
query_result (rows_result n) r = some (rows n)
query_result (prepared_result id) r = some empty_result_set
query_result other_result r = some empty_result_set
query_result (error_response code) r = r
query_result other_response r = r

unfoldable pub execute_result : Response → Option ResultSet → Option ResultSet
execute_result response r = r

module _ (store : Response → Option ResultSet → Option ResultSet) (command : Command) where
  -- "handle RESULT", "handle ERROR" and "unexpected message type".
  unfoldable pub handle_response : ℕ → Response → M (Unit {0})
  handle_response node (error_response code) s = raise (handle_error_message command node code s)
  handle_response node other_response s = raise (handle_unexpected s)
  handle_response node (rows_result n) s =
      (ok tt, record s { result = store (rows_result n) s.result })
  handle_response node (prepared_result id) s =
      (ok tt, record s { result = store (prepared_result id) s.result })
  handle_response node other_result s = (ok tt, record s { result = store other_result s.result })

  unfoldable pub exchange : Surroundings → ℕ → M (Unit {0})
  exchange env node = do
    message ← prepare_query command node env
    send message env.request_sent
    response ← await env.response
    handle_response node response

  unfoldable pub run_attempt : Surroundings → M (Unit {0})
  run_attempt env = do node ← await env.got_connection; hold node; exchange env node

-- `finally`: the connection, if one is held with its stream, goes back to the pool.
unfoldable pub give_back : LoopState → LoopState
give_back s = elim s.connection [
  | none ↦ s
  | some node ↦ record s { connection = none; returned = s.returned ++ node ∷ [] }
]

-- What a round says to `seastar::repeat`: stop, go on, or fail.
pub data Verdict : Type 0 where
  stop : Verdict
  again : Verdict
  failed : Error → Verdict

unfoldable pub settle : Result (Unit {0}) × LoopState → Verdict × LoopState
unfolding determinate
settle (ok _, s) =
    (stop, record s { metrics = record s.metrics { successful = s.metrics.successful + 1 } })
settle (err e, s) =
    let (go, flow') = determinate s.flow in
    (
      if go then again else failed e,
      record s { flow = flow'; metrics = record s.metrics { failed = s.metrics.failed + 1 } },
    )

unfoldable pub round :
    (Response → Option ResultSet → Option ResultSet)
    → Command
    → Surroundings
    → LoopState
    → Verdict × LoopState
round store command env s =
    let (verdict, s') = settle (run_attempt store command env s) in (verdict, give_back s')
