-- ===== src/Session/Rounds.antt =====
-- What one round leaves alone, gives back and uses up.
use cpv_cql_driver.Common.{
  ℕ, ◌+◌, ◌≤◌, ◌<◌, ◌≡◌, refl, sym, ap, ◌∙◌, List, [], ◌∷◌, ◌++◌, true, arith, ◌==◌, if◌then◌else◌,
  Bool-cases, inl, inr, Option, none, some, Result, ok, err, Error, Result-cases, append-nil,
}
use cpv_cql_driver.Session.Cache.{get_prepared_query_id}
use cpv_cql_driver.Session.Retry.{
  Command, RetryFlow, LoopState, Request, ResultSet, next_flow, handle_error_message,
  handle_unexpected, determinate, is_some_true,
}
use cpv_cql_driver.Session.Attempt.{
  Response, rows_result, prepared_result, other_result, error_response, other_response,
  Surroundings, then_do, hold, send, handle_prepared, prepare_on_node, execute_or, prepare_query,
  handle_response, exchange, run_attempt, give_back, Verdict, again, settle, round,
}

-- Rounds that may still follow: the retries left, and the extra one for a query whose prepared id
-- the server has forgotten.
abbrev pub rounds_left : RetryFlow → ℕ
rounds_left f = f.max_retries + (if f.un_prepared_error_count == 0 then 1 else 0)

-- Everything but the retry flow, the result, the caches and the requests.
pub record Kept (s s' : LoopState) : Type 0 where
  pub left : rounds_left s'.flow ≤ rounds_left s.flow
  pub metrics : s'.metrics ≡ s.metrics
  pub returned : s'.returned ≡ s.returned
  pub connection : s'.connection ≡ s.connection

pub Kept-trans : (s t u : LoopState) → Kept s t → Kept t u → Kept s u
Kept-trans s t u a b = record {
  left = omega (arith, a.left, b.left);
  metrics = b.metrics ∙ a.metrics;
  returned = b.returned ∙ a.returned;
  connection = b.connection ∙ a.connection;
}

pub Kept-bind :
    {A B : Type 0} (f : A → LoopState → Result B × LoopState) (s : LoopState)
    (r : Result A × LoopState)
    → Kept s r.1
    → ((a : A) (t : LoopState) → Kept t (f a t).1)
    → Kept s (then_do f r).1
Kept-bind f s (ok a, t) h k = Kept-trans s t (f a t).1 h (k a t)
Kept-bind f s (err e, t) h k = h

pub next_flow-left : (code : ℕ) (f : RetryFlow) → rounds_left (next_flow code f) ≤ rounds_left f
unfolding next_flow
next_flow-left code f = ground arith

handle_error_message-Kept :
    (command : Command) (node code : ℕ) (s : LoopState)
    → Kept s (handle_error_message command node code s).1
unfolding handle_error_message
handle_error_message-Kept command node code s = record {
  left = next_flow-left code s.flow;
  metrics = refl;
  returned = refl;
  connection = refl;
}

pub handle_unexpected-Kept : (s : LoopState) → Kept s (handle_unexpected s).1
unfolding handle_unexpected
handle_unexpected-Kept s = ground arith

pub Kept-refl : (s : LoopState) → Kept s s
Kept-refl s = ground arith

pub send-Kept :
    (request : Request) (outcome : Result (Unit {0})) (s : LoopState)
    → Kept s (send request outcome s).1
unfolding send
send-Kept request outcome s = ground arith

handle_prepared-Kept :
    (command : Command) (node : ℕ) (r : Response) (s : LoopState)
    → Kept s (handle_prepared command node r s).1
unfolding handle_prepared
handle_prepared-Kept command node (prepared_result id) s = ground arith
handle_prepared-Kept command node (error_response code) s =
    handle_error_message-Kept command node code s
handle_prepared-Kept command node (rows_result n) s = handle_unexpected-Kept s
handle_prepared-Kept command node other_result s = handle_unexpected-Kept s
handle_prepared-Kept command node other_response s = handle_unexpected-Kept s

prepare_on_node-Kept :
    (command : Command) (node : ℕ) (env : Surroundings) (s : LoopState)
    → Kept s (prepare_on_node command node env s).1
unfolding prepare_on_node
prepare_on_node-Kept command node env s =
    Kept-bind _ s (send _ env.prepare_sent s) (send-Kept _ _ s) (λ _ t.
      Kept-bind _ t (env.prepare_response, t) (Kept-refl t)
        (λ r u. handle_prepared-Kept command node r u))

execute_or-Kept :
    (query id : List ℕ) (otherwise : LoopState → Result Request × LoopState) (s : LoopState)
    → Kept s (otherwise s).1
    → Kept s (execute_or query id otherwise s).1
execute_or-Kept query [] otherwise s h = h
execute_or-Kept query (b ∷ id) otherwise s h = Kept-refl s

prepare_query-Kept :
    (command : Command) (node : ℕ) (env : Surroundings) (s : LoopState)
    → Kept s (prepare_query command node env s).1
unfolding prepare_query
prepare_query-Kept command node env s = elim (Bool-cases (is_some_true command.need_prepare)) [
  | inl yes' ↦ rw yes' (
      execute_or-Kept command.query (get_prepared_query_id s.caches node command.query)
        (prepare_on_node command node env) s (prepare_on_node-Kept command node env s))
  | inr no' ↦ rw no' (Kept-refl s)
]

-- The connections that a round got, to be given back.
abbrev pub got : Surroundings → List ℕ
got env = elim env.got_connection [ ok node ↦ node ∷ [] | err e ↦ [] ]

-- A round without a connection at its start has none at its end: what it took it gave back, once,
-- whatever happened in between. It counts itself once, as successful or as failed, and where it
-- asks for another round there are fewer left.
pub record IsSettled (s : LoopState) (verdict : Verdict) (s' : LoopState) (taken : List ℕ)
    : Type 0 where
  pub released : s'.connection ≡ none
  pub given_back : s'.returned ≡ s.returned ++ taken
  pub counted :
      s'.metrics.successful + s'.metrics.failed ≡ s.metrics.successful + s.metrics.failed + 1
  pub fewer : verdict ≡ again → rounds_left s'.flow < rounds_left s.flow

determinate-fewer :
    (f : RetryFlow) → (determinate f).0 ≡ true → rounds_left (determinate f).1 < rounds_left f
unfolding determinate
determinate-fewer f h = ground arith

pub settle_held :
    (s : LoopState) (node : ℕ) (r : Result (Unit {0}) × LoopState)
    → Kept (record s { connection = some node }) r.1
    → IsSettled s (settle r).0 (give_back (settle r).1) (node ∷ [])
unfolding settle give_back
settle_held s node (ok u, t) k =
    rw (k.connection, give_back)
      (record {
        released = refl;
        given_back = ap (λ xs. xs ++ node ∷ []) k.returned;
        counted = ground arith;
        fewer = λ e. cc;
      })
settle_held s node (err e, t) k =
    rw (k.connection, give_back)
      (record {
        released = refl;
        given_back = ap (λ xs. xs ++ node ∷ []) k.returned;
        counted = ground arith;
        fewer = λ e. ground arith;
      })

pub settle_free :
    (s : LoopState) (e : Error)
    → s.connection ≡ none
    → IsSettled s (settle (err e, s)).0 (give_back (settle (err e, s)).1) []
unfolding settle give_back
settle_free s e free =
    rw (free, give_back)
      (record {
        released = free;
        given_back = sym (append-nil s.returned);
        counted = ground arith;
        fewer = λ h. ground arith;
      })

module _ (store : Response → Option ResultSet → Option ResultSet) (command : Command) where
  handle_response-Kept :
      (node : ℕ) (r : Response) (s : LoopState) → Kept s (handle_response store command node r s).1
  unfolding handle_response
  handle_response-Kept node (error_response code) s = handle_error_message-Kept command node code s
  handle_response-Kept node other_response s = handle_unexpected-Kept s
  handle_response-Kept node (rows_result n) s = ground arith
  handle_response-Kept node (prepared_result n) s = ground arith
  handle_response-Kept node other_result s = ground arith

  exchange-Kept :
      (env : Surroundings) (node : ℕ) (s : LoopState) → Kept s (exchange store command env node s).1
  unfolding exchange
  exchange-Kept env node s =
      Kept-bind _ s (prepare_query command node env s) (prepare_query-Kept command node env s)
        (λ m t. Kept-bind _ t (send m env.request_sent t) (send-Kept _ _ t) (λ _ u.
          Kept-bind _ u (env.response, u) (Kept-refl u) (λ r w. handle_response-Kept node r w)))

  pub round-IsSettled :
      (env : Surroundings) (s : LoopState)
      → s.connection ≡ none
      → IsSettled s (round store command env s).0 (round store command env s).1 (got env)
  unfolding round run_attempt hold
  round-IsSettled env s free = elim (Result-cases env.got_connection) [
    | inl (node, e) ↦
        rw (e, run_attempt)
          (settle_held s node
            (exchange store command env node (record s { connection = some node }))
            (exchange-Kept env node (record s { connection = some node })))
    | inr (x, e) ↦ rw (e, run_attempt) (settle_free s x free)
  ]
