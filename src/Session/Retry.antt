-- ===== src/Session/Retry.antt =====
-- The class RetryFlow of src/HighLevel/Session.cpp, and the state that a command's retry loop works
-- on. A std::size_t wraps at 2 ^ 64.
use cpv_cql_driver.Common.{
  ℕ, ◌+◌, ◌-◌, ◌%◌, ◌^◌, List, [], Bool, true, false, not, ◌&&◌, ltb, leb, ◌==◌, if◌then◌else◌,
  Option, none, some, Error, logic_exception, response_error_exception, retry_exception, Bytes,
}
use cpv_cql_driver.Session.Cache.{Caches, set_prepared_query_id}

pub record RetryFlow : Type 0 where
  pub max_retries : ℕ
  pub un_prepared_error_count : ℕ

abbrev pub user_error_code_begin : ℕ
user_error_code_begin = 0x2000

abbrev pub user_error_code_end : ℕ
user_error_code_end = 0x3000

-- ErrorCode::UnPreparedQuery
abbrev pub un_prepared_query : ℕ
un_prepared_query = 0x2500

unfoldable pub should_retry_for : ℕ → Bool
should_retry_for code = not (leb user_error_code_begin code && ltb code user_error_code_end)

-- What a Command has for the retry loop; the text stands for `getQuery()`.
pub record Command : Type 0 where
  pub is_valid : Bool
  pub query : Bytes
  pub consistency : Option ℕ
  pub need_prepare : Option Bool
  pub retries : ℕ

pub record SessionConfiguration : Type 0 where
  pub default_consistency : ℕ
  pub prepare_all_queries : Bool

-- `setDefaultValues` for a Command.
unfoldable pub set_default_values : SessionConfiguration → Command → Command
set_default_values config c = record c {
  consistency = elim c.consistency [ none ↦ some config.default_consistency | some l ↦ some l ];
  need_prepare = elim c.need_prepare [ none ↦ some config.prepare_all_queries | some b ↦ some b ];
}

abbrev pub is_some_true : Option Bool → Bool
is_some_true none = false
is_some_true (some b) = b

-- `session_command_successful` and `session_command_failed` of MetricsData.
pub record Metrics : Type 0 where
  pub successful : ℕ
  pub failed : ℕ

pub data Request : Type 0 where
  query_message : Bytes → Request
  prepare_message : Bytes → Request
  execute_message : Bytes → Bytes → Request
  -- The texts of the queries and the prepared ids, empty where there is none.
  batch_message : List Bytes → List Bytes → Request

pub data ResultSet : Type 0 where
  empty_result_set : ResultSet
  rows : ℕ → ResultSet

-- The variables of the loop: `retryFlow`, `connection` with its stream (held or not), `result`, and
-- what the loop changes elsewhere: the caches, the metrics, the requests sent and the connections
-- given back to the pool. A connection is the address of its node.
pub record LoopState : Type 0 where
  pub flow : RetryFlow
  pub connection : Option ℕ
  pub result : Option ResultSet
  pub caches : Caches
  pub metrics : Metrics
  pub sent : List Request
  pub returned : List ℕ

-- The first test of `handleErrorMessage`.
abbrev pub is_first_un_prepared : ℕ → RetryFlow → Bool
is_first_un_prepared code flow = code == un_prepared_query && flow.un_prepared_error_count == 0

unfoldable pub next_flow : ℕ → RetryFlow → RetryFlow
unfolding should_retry_for
next_flow code flow =
    if is_first_un_prepared code flow
    then record flow {
      max_retries = (flow.max_retries + 1) % 2 ^ 64;
      un_prepared_error_count = flow.un_prepared_error_count + 1;
    }
    else if not (should_retry_for code)
    then record flow { max_retries = 0 }
    else flow

-- `RetryFlow::handleErrorMessage` for "query" and "execute"; its result is always an exception.
unfoldable pub handle_error_message : Command → ℕ → ℕ → LoopState → Error × LoopState
unfolding next_flow
handle_error_message command node code s =
    let flow' = next_flow code s.flow in
    let caches' : Caches =
      if is_first_un_prepared code s.flow && is_some_true command.need_prepare
      then set_prepared_query_id s.caches node command.query []
      else s.caches in
    (
      if ltb 0 flow'.max_retries then retry_exception else response_error_exception,
      record s { flow = flow'; caches = caches' },
    )

-- `handleUnexpectMessage` and `handleUnexpectResultKind`.
unfoldable pub handle_unexpected : LoopState → Error × LoopState
handle_unexpected s = (logic_exception, record s { flow = record s.flow { max_retries = 0 } })

-- `RetryFlow::determinate`: true stands for "go on with the next attempt".
unfoldable pub determinate : RetryFlow → Bool × RetryFlow
determinate flow =
    if ltb 0 flow.max_retries
    then (true, record flow { max_retries = flow.max_retries - 1 })
    else (false, flow)
