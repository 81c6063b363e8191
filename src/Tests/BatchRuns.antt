-- ===== src/Tests/BatchRuns.antt =====
-- Runs of batchExecute on node 10: the first query needs no preparation, the second is prepared.
use cpv_cql_driver.Common.{
  ◌≡◌, refl, List, [], ◌∷◌, ◌++◌, map, true, false, arith, ◌==◌, ◌&&◌, if◌then◌else◌, length,
  replicate, none, some, ok, Bytes,
}
use cpv_cql_driver.Session.Cache.{Caches, find_id, get_prepared_query_id}
use cpv_cql_driver.Session.Retry.{
  SessionConfiguration, Metrics, LoopState, prepare_message, is_first_un_prepared,
}
use cpv_cql_driver.Session.Attempt.{prepared_result, other_result, error_response}
use cpv_cql_driver.Session.Guarantees.{Finishes}
use cpv_cql_driver.Session.Batch.{
  BatchCommand, BatchSurroundings, handle_batch_error, prepare_queries, initial_batch,
  batch_execute,
}
use cpv_cql_driver.Session.BatchLoop.{got_for_batch, batch_execute-IsFinished}
use cpv_cql_driver.Session.BatchIds.{missing_queries, ids_for, filled, prepare_queries-ids_for}
use cpv_cql_driver.Session.BatchErrors.{is_prepared_in, handle_batch_error-forgets}

abbrev config : SessionConfiguration
config = record { default_consistency = 4; prepare_all_queries = false }

abbrev two_inserts : BatchCommand
two_inserts = record {
  is_valid = true;
  queries =
      record { query = 97 ∷ []; need_prepare = some false }
      ∷ record { query = 98 ∷ []; need_prepare = some true }
      ∷ [];
  consistency = none;
  retries = 1;
}

abbrev no_ids : Caches
no_ids node = []

abbrev nothing_counted : Metrics
nothing_counted = record { successful = 0; failed = 0 }

abbrev prepared_then_done : BatchSurroundings
prepared_then_done = record {
  got_connection = ok 10;
  prepares_sent = ok tt ∷ [];
  prepare_responses = ok (prepared_result (5 ∷ [])) ∷ [];
  request_sent = ok tt;
  response = ok other_result;
}

abbrev rounds : List BatchSurroundings
rounds =
    record prepared_then_done { response = ok (error_response 0x2500) }
    ∷ prepared_then_done
    ∷ prepared_then_done
    ∷ []

abbrev start : LoopState
start = record {
  flow = record { max_retries = 1; un_prepared_error_count = 0 };
  connection = some 10;
  result = none;
  caches = no_ids;
  metrics = nothing_counted;
  sent = [];
  returned = [];
}

batch_execute-IsFinished_example :
    Finishes
      (map got_for_batch rounds)
      (initial_batch two_inserts no_ids nothing_counted)
      (batch_execute config two_inserts rounds no_ids nothing_counted)
batch_execute-IsFinished_example =
    batch_execute-IsFinished config two_inserts rounds no_ids nothing_counted refl refl
      (omega arith)

one_given :
    length {A = Bytes} ((5 ∷ []) ∷ []) ≡ length (missing_queries 10 no_ids two_inserts.queries)
unfolding get_prepared_query_id find_id
one_given = refl

one_sent :
    prepared_then_done.prepares_sent
    ≡ replicate (length (missing_queries 10 no_ids two_inserts.queries)) (ok tt)
unfolding get_prepared_query_id find_id
one_sent = refl

prepare_queries-ids_for_example : prepare_queries two_inserts 10 prepared_then_done start ≡ (
  ok (ids_for 10 no_ids two_inserts.queries ((5 ∷ []) ∷ [])),
  record start {
    caches = filled 10 (missing_queries 10 no_ids two_inserts.queries) ((5 ∷ []) ∷ []) no_ids;
    sent = [] ++ map prepare_message (missing_queries 10 no_ids two_inserts.queries);
  },
)
prepare_queries-ids_for_example =
    prepare_queries-ids_for two_inserts 10 ((5 ∷ []) ∷ []) prepared_then_done start one_given
      one_sent refl

handle_batch_error-forgets_example :
    get_prepared_query_id (handle_batch_error two_inserts 10 0x2500 start).1.caches 10 (98 ∷ []) ≡ (
      if is_first_un_prepared 0x2500 start.flow
        && 10 == 10
        && is_prepared_in two_inserts.queries (98 ∷ [])
      then []
      else get_prepared_query_id no_ids 10 (98 ∷ []))
handle_batch_error-forgets_example =
    handle_batch_error-forgets two_inserts 10 0x2500 start 10 (98 ∷ [])
