-- ===== src/Pool/Steps.antt =====
-- The operations of the pool, and what its timers and the processes that it spawns do to it.
use cpv_cql_driver.Common.{
  ℕ, zero, suc, ◌+◌, ◌-◌, List, [], ◌∷◌, ◌++◌, Bool, true, false, not, ◌&&◌, ◌||◌, ltb, leb,
  if◌then◌else◌, length, Option, none, some, Error, logic_exception,
  connection_not_available_exception,
}
use cpv_cql_driver.Seastar.{BoundedQueue}
use cpv_cql_driver.Connection.Stream.{ConnectionStream, close_stream, is_all_streams_free}
use cpv_cql_driver.Pool.State.{
  Connections, store, Pool, Outcome, granted, refused, Found, try_get_connection, take_stream,
}

-- `std::remove_if` of `dropIdleConnectionTimer`, with `existCount` as it counts down.
unfoldable pub drop_idle : Connections → ℕ → ℕ → List ℕ → List ℕ × ℕ
drop_idle connections min_count exist_count [] = ([], exist_count)
drop_idle connections min_count exist_count (a ∷ rest) =
    let c = connections a in
    let drops =
      not c.is_ready
      || (ltb min_count exist_count && is_all_streams_free c.max_streams c.free_stream_ids) in
    let (kept, count) =
      drop_idle connections min_count (if drops then exist_count - 1 else exist_count) rest in
    (if drops then kept else a ∷ kept, count)

module _ (Q : BoundedQueue ℕ) where
  abbrev pub complete : Pool Q → ℕ → Outcome → Pool Q
  complete p w o = record p { completed = p.completed ++ (w, o) ∷ [] }

  -- `addWaiter`; a queue that takes no more answers with an error at once.
  unfoldable pub add_waiter : Pool Q → ℕ → Pool Q
  add_waiter p w =
      let (fits, q) = Q.push p.waiters w in
      if fits then record p { waiters = q } else complete p w (refused logic_exception)

  -- `spawnConnection`, up to its first wait.
  unfoldable pub spawn_connection : Pool Q → Pool Q
  spawn_connection p = record p { connecting_count = p.connecting_count + 1 }

  -- `findIdleConnectionTimer` and `dropIdleConnectionTimer`, up to the first sleep.
  unfoldable pub start_find_timer : Pool Q → Pool Q
  start_find_timer p = record p { find_timer_is_running = true }

  unfoldable pub start_drop_timer : Pool Q → Pool Q
  start_drop_timer p = record p { drop_timer_is_running = true }

  abbrev pub is_below_min : Pool Q → Bool
  is_below_min p = ltb (length p.all_connections + p.connecting_count) p.settings.min_pool_size

  abbrev pub is_full : Pool Q → Bool
  is_full p = leb p.settings.max_pool_size (length p.all_connections + p.connecting_count)

  -- The end of `getConnection`, where no connection has a free stream.
  unfoldable pub wait_or_refuse : Pool Q → ℕ → Pool Q
  unfolding add_waiter spawn_connection start_find_timer start_drop_timer
  wait_or_refuse p w =
      if is_full p && leb p.settings.max_waiters_after_connections_exhausted (Q.size p.waiters)
      then complete p w (refused connection_not_available_exception)
      else if not (is_full p)
      then start_drop_timer (spawn_connection (add_waiter p w))
      else start_find_timer (add_waiter p w)

  unfoldable pub use_found : ℕ → Found × Pool Q → Pool Q
  use_found w (some (a, id), p) = complete p w (granted a id)
  use_found w (none, p) = wait_or_refuse p w

  -- `getConnection`, for request `w`.
  unfoldable pub get_connection : Pool Q → ℕ → Pool Q
  unfolding add_waiter spawn_connection start_find_timer use_found
  get_connection p w =
      if ltb (length p.all_connections) p.settings.min_pool_size
      then (if is_below_min p
          then spawn_connection (add_waiter p w)
          else start_find_timer (add_waiter p w))
      else use_found w (try_get_connection Q p)

  unfoldable pub hand_stream : Pool Q → ℕ → Q.Carrier → ℕ → Found × Pool Q → Pool Q
  hand_stream p w rest a (some (b, id), p') =
      complete (record p' { waiters = rest }) w (granted b id)
  hand_stream p w rest a (none, p') =
      complete (record p' { waiters = rest }) w (refused logic_exception)

  -- `returnConnection` of the connection at `a` and a stream of it.
  unfoldable pub return_connection : Pool Q → ℕ → ConnectionStream → Pool Q
  unfolding hand_stream
  return_connection p a stream =
      let c = p.connections a in
      let (_, free) = close_stream stream c.free_stream_ids in
      let p' : Pool Q = record p {
        connections = store p.connections a (record c { free_stream_ids = free });
      } in
      if not (Q.is_empty p.waiters)
      then (elim (Q.pop p.waiters) [
        | none ↦ p'
        | some (w, rest) ↦ hand_stream p' w rest a (take_stream Q p' a)
      ])
      else p'

  unfoldable pub feed_round : (Pool Q → Pool Q) → Found × Pool Q → Pool Q
  feed_round again (none, p) = p
  feed_round again (some (a, id), p) = elim (Q.pop p.waiters) [
    | none ↦ p
    | some (w, rest) ↦ again (complete (record p { waiters = rest }) w (granted a id))
  ]

  -- `feedWaiters`; each round that goes on serves a waiter, so as many rounds as there are waiters
  -- are enough.
  unfoldable pub feed_loop : ℕ → Pool Q → Pool Q
  unfolding feed_round
  feed_loop zero p = p
  feed_loop (suc rounds) p = elim (Q.is_empty p.waiters) [
    | true ↦ p
    | false ↦ feed_round (feed_loop rounds) (try_get_connection Q p)
  ]

  unfoldable pub feed_waiters : Pool Q → Pool Q
  feed_waiters p = feed_loop (Q.size p.waiters) p

  -- `cleanWaiters`
  unfoldable pub clean_loop : ℕ → Error → Pool Q → Pool Q
  clean_loop zero e p = p
  clean_loop (suc n) e p = elim (Q.pop p.waiters) [
    | none ↦ p
    | some (w, rest) ↦ clean_loop n e (complete (record p { waiters = rest }) w (refused e))
  ]

  unfoldable pub clean_waiters : Error → Pool Q → Pool Q
  clean_waiters e p = clean_loop (Q.size p.waiters) e p

  -- A spawned connection at `a` is ready: the continuation and the `finally` of `spawnConnection`,
  -- taken as one step.
  unfoldable pub spawn_succeeded : Pool Q → ℕ → Pool Q
  spawn_succeeded p a =
      let fed = feed_waiters (record p { all_connections = p.all_connections ++ a ∷ [] }) in
      record fed {
        pool_connections_total = fed.pool_connections_total + 1;
        pool_connections_current = length fed.all_connections;
        connecting_count = fed.connecting_count - 1;
      }

  -- The connection to a node failed, after `failures` others: the next count, if another node is
  -- tried, or the end of the process when all `nodes_count` have been.
  unfoldable pub spawn_failed : ℕ → ℕ → Pool Q → Error → Option ℕ × Pool Q
  spawn_failed nodes_count failures p e =
      let cleaned = clean_waiters e p in
      if leb nodes_count (failures + 1)
      then (none, record cleaned { connecting_count = cleaned.connecting_count - 1 })
      else (some (failures + 1), p)

  -- One tick of `findIdleConnectionTimer`, every millisecond while it runs, and whether it stops.
  unfoldable pub find_timer_tick : Pool Q → Bool × Pool Q
  unfolding spawn_connection
  find_timer_tick p =
      let fed = feed_waiters p in
      if Q.is_empty fed.waiters
      then (true, fed)
      else if is_below_min fed
      then (false, spawn_connection fed)
      else (false, fed)

  -- Its `finally`: waiters that came after the last tick start it again.
  unfoldable pub find_timer_stopped : Pool Q → Pool Q
  unfolding start_find_timer
  find_timer_stopped p =
      let p' : Pool Q = record p { find_timer_is_running = false } in
      if not (Q.is_empty p.waiters) then start_find_timer p' else p'

  -- One tick of `dropIdleConnectionTimer`, every half second while it runs, and whether it stops.
  unfoldable pub drop_timer_tick : Pool Q → Bool × Pool Q
  drop_timer_tick p =
      let exist_count = length p.all_connections in
      let min_count = p.settings.min_pool_size in
      let (kept, count) = drop_idle p.connections min_count exist_count p.all_connections in
      if leb exist_count min_count then (true, p) else (
        leb count min_count,
        record p { all_connections = kept; pool_connections_current = length kept },
      )

  unfoldable pub drop_timer_stopped : Pool Q → Pool Q
  drop_timer_stopped p = record p { drop_timer_is_running = false }

  -- `Connection::close` of the connection at `a`, by whatever it is called.
  unfoldable pub connection_closed : Pool Q → ℕ → Pool Q
  connection_closed p a = record p {
    connections = store p.connections a (record (p.connections a) { is_ready = false });
  }
