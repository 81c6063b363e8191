-- ===== src/Tests/PoolRuns.antt =====
-- Runs of a pool with two connections: the one at 1 is ready, the one at 2 is closed.
use cpv_cql_driver.Common.{
  ℕ, ◌+◌, ◌≤◌, ◌<◌, ◌≡◌, ◌⊎◌, refl, [], ◌∷◌, true, arith, leb, ◌==◌, if◌then◌else◌, length, count,
}
use cpv_cql_driver.Seastar.{BoundedQueue, list_queue}
use cpv_cql_driver.Connection.Stream.{ConnectionStream}
use cpv_cql_driver.Pool.State.{Connections, Settings, granted, Pool, make_pool, try_get_connection}
use cpv_cql_driver.Pool.Steps.{get_connection, return_connection, feed_waiters, drop_timer_tick}
use cpv_cql_driver.Pool.Choice.{IsTried, try_get_connection-IsTried}
use cpv_cql_driver.Pool.Requests.{requests, IsKept}
use cpv_cql_driver.Pool.Feeding.{IsFed, feed_waiters-IsFed, return_connection-hands_over}
use cpv_cql_driver.Pool.Dropping.{IsDropped, drop_timer_tick-IsDropped}
use cpv_cql_driver.Pool.Reach.{Reaches, starts, asks_for, reached_pool}

abbrev queue : BoundedQueue ℕ
queue = list_queue ℕ

abbrev settings : Settings
settings = record {
  min_pool_size = 1;
  max_pool_size = 3;
  max_waiters_after_connections_exhausted = 2;
}

abbrev connections : Connections
connections a = record {
  is_ready = a == 1;
  max_streams = 4;
  free_stream_ids = if a == 1 then 3 ∷ [] else 1 ∷ 2 ∷ 3 ∷ [];
}

abbrev pool : Pool queue
pool = record {
  settings = settings;
  connections = connections;
  all_connections = 1 ∷ 2 ∷ [];
  connecting_count = 0;
  waiters = (8 ∷ 9 ∷ [], 100);
  find_timer_is_running = true;
  drop_timer_is_running = true;
  pool_connections_total = 2;
  pool_connections_current = 2;
  completed = [];
}

abbrev stream : ConnectionStream
stream = record { is_valid = true; stream_id = 2 }

try_get_connection-IsTried_example :
    IsTried queue pool (try_get_connection queue pool).1 (try_get_connection queue pool).0
try_get_connection-IsTried_example = try_get_connection-IsTried queue pool

feed_waiters-IsFed_example : IsFed queue pool (feed_waiters queue pool)
feed_waiters-IsFed_example = feed_waiters-IsFed queue pool

return_connection-hands_over_example :
    let p' = return_connection queue pool 2 stream in
    (p'.completed ≡ (8, granted 2 2) ∷ [])
    × (queue.contents p'.waiters ≡ 9 ∷ [])
    × ((p'.connections 2).free_stream_ids ≡ (connections 2).free_stream_ids)
    × ((p'.connections 2).is_ready ≡ (connections 2).is_ready)
return_connection-hands_over_example =
    return_connection-hands_over queue pool 2 stream 8 (9 ∷ []) refl refl

drop_timer_tick-IsDropped_example :
    let (stops, p') = drop_timer_tick queue pool in
    ((2 ≤ 1) × (stops ≡ true) × (p' ≡ pool))
    ⊎ ((1 < 2)
        × IsDropped connections 1 (1 ∷ 2 ∷ []) p'.all_connections
        × (stops ≡ leb (length p'.all_connections) 1)
        × (p'.pool_connections_current ≡ length p'.all_connections)
        × IsKept queue pool p')
drop_timer_tick-IsDropped_example = drop_timer_tick-IsDropped queue pool

abbrev after_two : Pool queue
after_two = get_connection queue (get_connection queue (make_pool queue settings connections) 8) 9

two_requests : Reaches queue settings (9 ∷ 8 ∷ []) after_two
two_requests = asks_for 9 (8 ∷ []) _ (asks_for 8 [] _ (starts connections))

reached_pool_example :
    (length after_two.all_connections + after_two.connecting_count ≤ 3)
    × ((w : ℕ)
        → count w (requests after_two.completed) + count w (queue.contents after_two.waiters)
          ≡ count w (9 ∷ 8 ∷ []))
reached_pool_example = reached_pool queue settings (9 ∷ 8 ∷ []) after_two (omega arith) two_requests
