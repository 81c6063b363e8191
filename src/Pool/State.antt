-- ===== src/Pool/State.antt =====
-- The pool's state, and the choice of a connection (`tryGetConnection`). Connections are shared
-- objects: the pool holds their addresses, and `connections` is what stands there.
use cpv_cql_driver.Common.{
  ℕ, zero, suc, ◌+◌, ◌-◌, ◌^◌, List, [], ◌∷◌, Bool, true, false, ltb, ◌==◌, if◌then◌else◌, length,
  Option, none, some, Error, eq→==, refl, arith, ◌≡◌,
}
use cpv_cql_driver.Seastar.{BoundedQueue}
use cpv_cql_driver.Connection.Stream.{open_stream}

-- What the pool reads of a Connection; the head of `free_stream_ids` is the back of the vector.
pub record Connection : Type 0 where
  pub is_ready : Bool
  pub max_streams : ℕ
  pub free_stream_ids : List ℕ

abbrev pub Connections : Type 0
Connections = ℕ → Connection

unfoldable pub store : Connections → ℕ → Connection → Connections
store connections at c a = if a == at then c else connections a

pub store_at : (connections : Connections) (a : ℕ) (c : Connection) → store connections a c a ≡ c
unfolding store
store_at connections a c = ground (arith, eq→== a a refl)

-- `Connection::getFreeStreamsCount`
abbrev pub free_streams : Connections → ℕ → ℕ
free_streams connections a = length (connections a).free_stream_ids

pub record Settings : Type 0 where
  pub min_pool_size : ℕ
  pub max_pool_size : ℕ
  pub max_waiters_after_connections_exhausted : ℕ

-- How the promise of a request was completed: with a connection and the id of a stream, or an error.
pub data Outcome : Type 0 where
  granted : ℕ → ℕ → Outcome
  refused : Error → Outcome

-- Requests have numbers; `waiters` holds those whose promise is open, `completed` the others.
pub record Pool (Q : BoundedQueue ℕ) : Type 0 where
  pub settings : Settings
  pub connections : Connections
  pub all_connections : List ℕ
  pub connecting_count : ℕ
  pub waiters : Q.Carrier
  pub find_timer_is_running : Bool
  pub drop_timer_is_running : Bool
  pub pool_connections_total : ℕ
  pub pool_connections_current : ℕ
  pub completed : List (ℕ × Outcome)

-- `std::max_element` by free streams: the first of the largest. `best` stands before the list.
unfoldable pub max_from : Connections → ℕ → List ℕ → ℕ
max_from connections best [] = best
max_from connections best (a ∷ rest) =
    max_from connections
      (if ltb (free_streams connections best) (free_streams connections a) then a else best) rest

unfoldable pub max_element : Connections → List ℕ → Option ℕ
max_element connections [] = none
max_element connections (a ∷ rest) = some (max_from connections a rest)

-- `erase(it)`: the first entry with this address is the one that `max_element` found.
unfoldable pub erase : ℕ → List ℕ → List ℕ
erase a [] = []
erase a (b ∷ rest) = let others = erase a rest in if a == b then rest else b ∷ others

-- The connection and the stream id, if one was found.
abbrev pub Found : Type 0
Found = Option (ℕ × ℕ)

module _ (Q : BoundedQueue ℕ) where
  -- The constructor; the capacity of the queue of waiters is `static_cast<std::size_t>(-1)`.
  unfoldable pub make_pool : Settings → Connections → Pool Q
  make_pool settings connections = record {
    settings = settings;
    connections = connections;
    all_connections = [];
    connecting_count = 0;
    waiters = Q.make (2 ^ 64 - 1);
    find_timer_is_running = false;
    drop_timer_is_running = false;
    pool_connections_total = 0;
    pool_connections_current = 0;
    completed = [];
  }

  -- `(*it)->openStream()`, and the test of the stream.
  unfoldable pub take_stream : Pool Q → ℕ → Found × Pool Q
  take_stream p a =
      let c = p.connections a in
      let (stream, free) = open_stream c.free_stream_ids in
      if stream.is_valid
      then (
        some (a, stream.stream_id),
        record p { connections = store p.connections a (record c { free_stream_ids = free }) },
      )
      else (none, p)

  unfoldable pub forget : Pool Q → ℕ → Pool Q
  forget p a =
      let rest = erase a p.all_connections in
      record p { all_connections = rest; pool_connections_current = length rest }

  unfoldable pub try_round : (Pool Q → Found × Pool Q) → Pool Q → Option ℕ → Found × Pool Q
  try_round again p none = (none, p)
  try_round again p (some a) = elim (p.connections a).is_ready [
    | true ↦ take_stream p a
    | false ↦ again (forget p a)
  ]

  -- The `while (true)` of `tryGetConnection`. Each round that goes on drops a connection, so one
  -- round more than there are connections is enough.
  unfoldable pub try_loop : ℕ → Pool Q → Found × Pool Q
  unfolding try_round
  try_loop zero p = (none, p)
  try_loop (suc rounds) p =
      try_round (try_loop rounds) p (max_element p.connections p.all_connections)

  -- `tryGetConnection`
  unfoldable pub try_get_connection : Pool Q → Found × Pool Q
  try_get_connection p = try_loop (length p.all_connections + 1) p
