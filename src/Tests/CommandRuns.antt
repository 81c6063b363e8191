-- ===== src/Tests/CommandRuns.antt =====
-- Runs of the retry loops: node 10 answers a query with an overload error, then with two rows.
use cpv_cql_driver.Common.{
  ℕ, ◌-◌, ◌≡◌, refl, List, [], ◌∷◌, map, true, false, arith, ltb, ◌==◌, ◌&&◌, if◌then◌else◌, none,
  some, ok, Bytes, response_error_exception,
}
use cpv_cql_driver.Session.Cache.{Caches, get_prepared_query_id, bytes_eq}
use cpv_cql_driver.Session.Retry.{
  Command, SessionConfiguration, set_default_values, Metrics, LoopState, handle_error_message,
}
use cpv_cql_driver.Session.Attempt.{
  Surroundings, error_response, rows_result, settle, raise, again, failed, prepare_query,
  prepare_on_node, query_result, round, run_attempt, hold, exchange, send, handle_response,
}
use cpv_cql_driver.Session.Loop.{done, repeat, initial, query, execute}
use cpv_cql_driver.Session.Rounds.{got}
use cpv_cql_driver.Session.Guarantees.{Finishes, execute-IsFinished, query-IsFinished}
use cpv_cql_driver.Session.Decisions.{is_user_error, retry_decision, un_prepared_reprepares}

abbrev config : SessionConfiguration
config = record { default_consistency = 4; prepare_all_queries = false }

abbrev select : Command
select = record {
  is_valid = true;
  query = 115 ∷ [];
  consistency = none;
  need_prepare = none;
  retries = 1;
}

abbrev prepared_select : Command
prepared_select = record select { need_prepare = some true }

abbrev no_ids : Caches
no_ids node = []

abbrev nothing_counted : Metrics
nothing_counted = record { successful = 0; failed = 0 }

abbrev overloaded : Surroundings
overloaded = record {
  got_connection = ok 10;
  prepare_sent = ok tt;
  prepare_response = ok (error_response 0x1001);
  request_sent = ok tt;
  response = ok (error_response 0x1001);
}

abbrev two_rows : Surroundings
two_rows = record overloaded { response = ok (rows_result 2) }

abbrev rounds : List Surroundings
rounds = overloaded ∷ two_rows ∷ two_rows ∷ []

abbrev start : LoopState
start = record {
  flow = record { max_retries = 1; un_prepared_error_count = 0 };
  connection = none;
  result = none;
  caches = no_ids;
  metrics = nothing_counted;
  sent = [];
  returned = [];
}

execute-IsFinished_example :
    Finishes
      (map got rounds)
      (initial select no_ids nothing_counted)
      (execute config select rounds no_ids nothing_counted)
execute-IsFinished_example =
    execute-IsFinished config select rounds no_ids nothing_counted refl (omega arith)

query-IsFinished_example :
    Finishes
      (map got rounds)
      (initial select no_ids nothing_counted)
      (query config select rounds no_ids nothing_counted)
query-IsFinished_example =
    query-IsFinished config select rounds no_ids nothing_counted refl (omega arith)

query_ends_well :
    (repeat
      (round query_result (set_default_values config select))
      rounds
      (initial select no_ids nothing_counted)).0
    ≡ done (ok tt)
unfolding repeat set_default_values initial round settle run_attempt hold exchange prepare_query
    send handle_response handle_error_message
query_ends_well = refl

retry_decision_example :
    let after = settle (raise (handle_error_message select 10 0x1001 start)) in
    (after.0 ≡ (
      if 0x1001 == 0x2500 && 0 == 0
      then again
      else if is_user_error 0x1001
      then failed response_error_exception
      else if ltb 0 1
      then again
      else failed response_error_exception))
    × (after.1.flow ≡ (
        if 0x1001 == 0x2500 && 0 == 0
        then record { max_retries = 1; un_prepared_error_count = 1 }
        else if is_user_error 0x1001
        then record start.flow { max_retries = 0 }
        else record start.flow { max_retries = 1 - 1 }))
retry_decision_example = retry_decision select 10 0x1001 start (omega arith)

un_prepared_reprepares_example :
    let s = (handle_error_message prepared_select 10 0x2500 start).1 in
    ((n : ℕ) (other : Bytes)
      → get_prepared_query_id s.caches n other ≡ (
          if n == 10 && bytes_eq (115 ∷ []) other
          then []
          else get_prepared_query_id no_ids n other))
    × ((env : Surroundings)
        → prepare_query prepared_select 10 env s ≡ prepare_on_node prepared_select 10 env s)
un_prepared_reprepares_example = un_prepared_reprepares prepared_select 10 start refl refl
