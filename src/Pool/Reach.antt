-- ===== src/Pool/Reach.antt =====
-- Every history of a pool: requests, returned streams, ticks of its timers, connections that open,
-- fail to open or close, in any order.
use cpv_cql_driver.Common.{
  ℕ, ◌+◌, ◌-◌, ◌^◌, ◌≤◌, ◌<◌, ◌≡◌, inl, inr, refl, sym, ap, ap₂, subst, ◌∙◌, List, [], ◌∷◌, ◌++◌,
  true, arith, Bool-cases, length, count, Error,
}
use cpv_cql_driver.Seastar.{BoundedQueue}
use cpv_cql_driver.Connection.Stream.{ConnectionStream}
use cpv_cql_driver.Pool.State.{Connections, Settings, Pool, make_pool}
use cpv_cql_driver.Pool.Steps.{
  start_find_timer, get_connection, return_connection, spawn_succeeded, spawn_failed,
  find_timer_tick, find_timer_stopped, drop_timer_tick, drop_timer_stopped, connection_closed,
}
use cpv_cql_driver.Pool.Requests.{requests, IsKept-refl}
use cpv_cql_driver.Pool.Feeding.{return_connection-IsKept}
use cpv_cql_driver.Pool.Growth.{
  total, seen, IsGrown, nobody_asks, asks, kept-IsGrown, get_connection-IsGrown,
  spawn_succeeded-IsGrown, spawn_failed-IsGrown, find_timer_tick-IsGrown,
}
use cpv_cql_driver.Pool.Dropping.{drop_timer_tick-IsDropped}

module _ (Q : BoundedQueue ℕ) where
  -- The steps that make no request. A connection is opened or given up by a process that has been
  -- spawned and is counted.
  pub data Step (p : Pool Q) : Pool Q → Type 0 where
    returns : (a : ℕ) (stream : ConnectionStream) → Step p (return_connection Q p a stream)
    opens : (a : ℕ) → 0 < p.connecting_count → Step p (spawn_succeeded Q p a)
    fails :
        (nodes_count failures : ℕ) (e : Error)
        → 0 < p.connecting_count
        → Step p (spawn_failed Q nodes_count failures p e).1
    find_ticks : p.find_timer_is_running ≡ true → Step p (find_timer_tick Q p).1
    find_stops : p.find_timer_is_running ≡ true → Step p (find_timer_stopped Q p)
    drop_ticks : p.drop_timer_is_running ≡ true → Step p (drop_timer_tick Q p).1
    drop_stops : p.drop_timer_is_running ≡ true → Step p (drop_timer_stopped Q p)
    closes : (a : ℕ) → Step p (connection_closed Q p a)

  -- The pools that are reached, with the requests made on the way, the last one first.
  pub data Reaches (settings : Settings) : List ℕ → Pool Q → Type 0 where
    starts : (connections : Connections) → Reaches settings [] (make_pool Q settings connections)
    asks_for :
        (w : ℕ) (made : List ℕ) (p : Pool Q)
        → Reaches settings made p
        → Reaches settings (w ∷ made) (get_connection Q p w)
    goes_on :
        (made : List ℕ) (p p' : Pool Q)
        → Reaches settings made p
        → Step p p'
        → Reaches settings made p'

  unchanged :
      (p p' : Pool Q)
      → p'.settings ≡ p.settings
      → p'.all_connections ≡ p.all_connections
      → p'.connecting_count ≡ p.connecting_count
      → p'.completed ≡ p.completed
      → p'.waiters ≡ p.waiters
      → IsGrown Q (nobody_asks Q) p p'
  unchanged p p' s a c d w = kept-IsGrown Q p p' (record {
    settings_same = s;
    shrinks = ground (arith, ap length a);
    connecting_same = c;
    line_same = ap₂ (λ xs q. requests xs ++ Q.contents q) d w;
  })

  find_timer_stopped-IsGrown : (p : Pool Q) → IsGrown Q (nobody_asks Q) p (find_timer_stopped Q p)
  unfolding find_timer_stopped start_find_timer
  find_timer_stopped-IsGrown p = elim (Bool-cases (Q.is_empty p.waiters)) [
    | inl idle ↦ rw (idle, find_timer_stopped) (unchanged p _ refl refl refl refl refl)
    | inr busy ↦ rw (busy, find_timer_stopped) (unchanged p _ refl refl refl refl refl)
  ]

  drop_timer_tick-IsGrown : (p : Pool Q) → IsGrown Q (nobody_asks Q) p (drop_timer_tick Q p).1
  drop_timer_tick-IsGrown p = elim (drop_timer_tick-IsDropped Q p) [
    | inl (few, stops, same) ↦
        subst (IsGrown Q (nobody_asks Q) p) (sym same) (kept-IsGrown Q p p (IsKept-refl Q p))
    | inr (many, _, _, _, k) ↦ kept-IsGrown Q p (drop_timer_tick Q p).1 k
  ]

  Step-IsGrown : (p p' : Pool Q) → Step p p' → IsGrown Q (nobody_asks Q) p p'
  Step-IsGrown p _ (returns a stream) = kept-IsGrown Q p _ (return_connection-IsKept Q p a stream)
  Step-IsGrown p _ (opens a h) = spawn_succeeded-IsGrown Q p a h
  Step-IsGrown p _ (fails nodes_count failures e h) =
      spawn_failed-IsGrown Q nodes_count failures p e
  Step-IsGrown p _ (find_ticks h) = find_timer_tick-IsGrown Q p
  Step-IsGrown p _ (find_stops h) = find_timer_stopped-IsGrown p
  Step-IsGrown p _ (drop_ticks h) = drop_timer_tick-IsGrown p
  Step-IsGrown p _ (drop_stops h) =
      unfold drop_timer_stopped in unchanged p _ refl refl refl refl refl
  Step-IsGrown p _ (closes a) = unfold connection_closed in unchanged p _ refl refl refl refl refl

  module _ (settings : Settings) (h : settings.min_pool_size ≤ settings.max_pool_size) where
    abbrev Holds : List ℕ → Pool Q → Type 0
    Holds made p =
        (p.settings ≡ settings)
        × (total Q p ≤ settings.max_pool_size)
        × ((w : ℕ) → seen Q w p ≡ count w made)

    grown :
        (p p' : Pool Q) (made more : List ℕ) (asked : ℕ → ℕ)
        → Holds made p
        → ((w : ℕ) → count w more ≡ count w made + asked w)
        → IsGrown Q asked p p'
        → Holds more p'
    grown p p' made more asked (s, b, k) m g = (
      g.settings_same ∙ s,
      g.bounded settings.max_pool_size (ground (arith, h, ap (λ t. t.min_pool_size) s))
          (ground (arith, h, ap (λ t. t.max_pool_size) s)) b,
      λ w. omega (arith, g.accounted w, k w, m w),
    )

    Reaches-Holds : (made : List ℕ) (p : Pool Q) → Reaches settings made p → Holds made p
    Reaches-Holds _ _ (starts connections) =
        unfold make_pool in
        (refl, omega arith, λ w. ground (arith, ap (count w) (Q.contents-make (2 ^ 64 - 1))))
    Reaches-Holds _ _ (asks_for w made p r) =
        grown p (get_connection Q p w) made (w ∷ made) (asks Q w) (Reaches-Holds made p r)
          (λ j. omega arith) (get_connection-IsGrown Q p w)
    Reaches-Holds _ _ (goes_on made p p' r t) =
        grown p p' made made (nobody_asks Q) (Reaches-Holds made p r) (λ j. omega arith)
          (Step-IsGrown p p' t)

  -- In every pool that is reached, the connections that are open or being opened are not more than
  -- `max_pool_size`, if the minimum is not above it; and every request has been answered, or waits,
  -- exactly as often as it has been made: none is lost and none is answered twice.
  pub reached_pool :
      (settings : Settings) (made : List ℕ) (p : Pool Q)
      → settings.min_pool_size ≤ settings.max_pool_size
      → Reaches settings made p
      → (length p.all_connections + p.connecting_count ≤ settings.max_pool_size)
        × ((w : ℕ) → count w (requests p.completed) + count w (Q.contents p.waiters) ≡ count w made)
  reached_pool settings made p h r = let (s, b, k) = Reaches-Holds settings h made p r in (b, k)
