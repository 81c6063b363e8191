-- ===== src/Session/Loop.antt =====
-- Session::query and Session::execute: rounds until one succeeds or the retries are used up.
use cpv_cql_driver.Common.{
  List, [], ◌∷◌, not, if◌then◌else◌, none, some, logic_exception, Result, ok, err,
}
use cpv_cql_driver.Session.Cache.{Caches}
use cpv_cql_driver.Session.Retry.{
  Command, SessionConfiguration, set_default_values, ResultSet, LoopState, Metrics,
}
use cpv_cql_driver.Session.Attempt.{
  Surroundings, query_result, execute_result, Verdict, stop, again, failed, round,
}

-- `pending`: the surroundings have said nothing yet about the round that the loop is in.
pub data Progress (A : Type 0) : Type 0 where
  pending : Progress A
  done : Result A → Progress A

unfoldable pub continue_with :
    (LoopState → Progress (Unit {0}) × LoopState)
    → Verdict × LoopState
    → Progress (Unit {0}) × LoopState
continue_with rest (stop, s) = (done (ok tt), s)
continue_with rest (again, s) = rest s
continue_with rest (failed e, s) = (done (err e), s)

module _ {Env : Type 0} (one_round : Env → LoopState → Verdict × LoopState) where
  -- `seastar::repeat`; one entry of the list for each round.
  unfoldable pub repeat : List Env → LoopState → Progress (Unit {0}) × LoopState
  unfolding continue_with
  repeat [] s = (pending, s)
  repeat (env ∷ envs) s = continue_with (repeat envs) (one_round env s)

-- The variables as `do_with` makes them.
unfoldable pub initial : Command → Caches → Metrics → LoopState
initial command caches metrics = record {
  flow = record { max_retries = command.retries; un_prepared_error_count = 0 };
  connection = none;
  result = none;
  caches = caches;
  metrics = metrics;
  sent = [];
  returned = [];
}

-- "just an assertion": a loop that ended well must have set the result.
abbrev pub checked_result : Progress (Unit {0}) × LoopState → Progress ResultSet × LoopState
checked_result (pending, s) = (pending, s)
checked_result (done (err e), s) = (done (err e), s)
checked_result (done (ok _), s) =
    (done (elim s.result [ none ↦ err logic_exception | some r ↦ ok r ]), s)

-- `Session::query`
unfoldable pub query :
    SessionConfiguration
    → Command
    → List Surroundings
    → Caches
    → Metrics
    → Progress ResultSet × LoopState
query config command envs caches metrics =
    let start = initial command caches metrics in
    if not command.is_valid
    then (done (err logic_exception), start)
    else checked_result (repeat (round query_result (set_default_values config command)) envs start)

-- `Session::execute`
unfoldable pub execute :
    SessionConfiguration
    → Command
    → List Surroundings
    → Caches
    → Metrics
    → Progress (Unit {0}) × LoopState
execute config command envs caches metrics =
    let start = initial command caches metrics in
    if not command.is_valid
    then (done (err logic_exception), start)
    else repeat (round execute_result (set_default_values config command)) envs start
