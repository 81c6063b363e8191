-- ===== src/Pool/Choice.antt =====
-- What `tryGetConnection` finds, and what it does to the pool.
use cpv_cql_driver.Common.{
  ℕ, zero, suc, ◌+◌, ◌-◌, ◌≤◌, ◌<◌, ◌≡◌, ◌⊎◌, inl, inr, refl, sym, ap, subst, List, [], ◌∷◌, true,
  false, arith, ltb, ◌==◌, if◌then◌else◌, Bool-cases, ==→eq, length, count, All, List-cases, none,
  some,
}
use cpv_cql_driver.Seastar.{BoundedQueue}
use cpv_cql_driver.Connection.Stream.{open_stream}
use cpv_cql_driver.Pool.State.{
  Connection, Connections, store, free_streams, Pool, max_from, max_element, erase, Found,
  take_stream, forget, try_round, try_loop, try_get_connection,
}

abbrev pub AtMost : Connections → ℕ → List ℕ → Type 0
AtMost connections n = All (λ b. free_streams connections b ≤ n)

pub AtMost-mono :
    (connections : Connections) (n k : ℕ) (xs : List ℕ)
    → n ≤ k
    → AtMost connections n xs
    → AtMost connections k xs
AtMost-mono connections n k [] h v = v
AtMost-mono connections n k (x ∷ xs) h v =
    (omega (arith, v.0), AtMost-mono connections n k xs h v.1)

-- `m` is the first element or stands in the list, and no entry has more free streams.
abbrev pub IsMax : Connections → ℕ → ℕ → List ℕ → Type 0
IsMax connections m best xs =
    (0 < count m (best ∷ xs))
    × (free_streams connections best ≤ free_streams connections m)
    × AtMost connections (free_streams connections m) xs

IsMax-step :
    (connections : Connections) (m best a : ℕ) (xs : List ℕ)
    → IsMax connections m
        (if ltb (free_streams connections best) (free_streams connections a) then a else best)
        xs
    → IsMax connections m best (a ∷ xs)
IsMax-step connections m best a xs (seen, more, most) =
    (ground (arith, seen), ground (arith, more), (ground (arith, more), most))

max_from-IsMax :
    (connections : Connections) (best : ℕ) (xs : List ℕ)
    → IsMax connections (max_from connections best xs) best xs
unfolding max_from
max_from-IsMax connections best [] = (ground arith, omega arith, tt)
max_from-IsMax connections best (a ∷ xs) =
    let next =
      if ltb (free_streams connections best) (free_streams connections a) then a else best in
    IsMax-step connections (max_from connections next xs) best a xs
      (max_from-IsMax connections next xs)

length-erase : (a : ℕ) (xs : List ℕ) → 0 < count a xs → length (erase a xs) + 1 ≡ length xs
unfolding erase
length-erase a [] h = absurd (omega arith)
length-erase a (b ∷ xs) h = ground (arith, length-erase a xs)

count-erase :
    (a j : ℕ) (xs : List ℕ) → count j (erase a xs) ≡ count j xs - (if a == j then 1 else 0)
unfolding erase
count-erase a j [] = omega arith
count-erase a j (b ∷ xs) = ground (arith, count-erase a j xs)

module _ (Q : BoundedQueue ℕ) where
  -- Why `tryGetConnection` stops: no connection of the pool has a free stream, or it took one of
  -- the connection at `a`, which is ready and had the most free streams.
  pub data IsTaken (connections : Connections) (p' : Pool Q) (found : Found) : Type 0 where
    nothing_free :
        found ≡ none
        → p'.connections ≡ connections
        → AtMost connections 0 p'.all_connections
        → IsTaken connections p' found
    taken :
        (a id : ℕ) (rest : List ℕ)
        → found ≡ some (a, id)
        → 0 < count a p'.all_connections
        → (connections a).is_ready ≡ true
        → (connections a).free_stream_ids ≡ id ∷ rest
        → AtMost connections (free_streams connections a) p'.all_connections
        → p'.connections ≡ store connections a (record (connections a) { free_stream_ids = rest })
        → IsTaken connections p' found

  -- Only connections that are not ready are dropped, and the rest of the pool is as before.
  pub record IsTried (p p' : Pool Q) (found : Found) : Type 0 where
    pub taken : IsTaken p.connections p' found
    pub ready_kept :
        (a : ℕ)
        → ((p.connections a).is_ready ≡ false)
          ⊎ (count a p'.all_connections ≡ count a p.all_connections)
    pub none_added : (a : ℕ) → count a p'.all_connections ≤ count a p.all_connections
    pub shrinks : length p'.all_connections ≤ length p.all_connections
    pub settings_same : p'.settings ≡ p.settings
    pub connecting_same : p'.connecting_count ≡ p.connecting_count
    pub waiters_same : p'.waiters ≡ p.waiters
    pub completed_same : p'.completed ≡ p.completed

  same :
      (p p' : Pool Q) (found : Found)
      → IsTaken p.connections p' found
      → p'.all_connections ≡ p.all_connections
      → p'.settings ≡ p.settings
      → p'.connecting_count ≡ p.connecting_count
      → p'.waiters ≡ p.waiters
      → p'.completed ≡ p.completed
      → IsTried p p' found
  same p p' found t e s c w d = record {
    taken = t;
    ready_kept = λ a. inr (ap (count a) e);
    none_added = λ a. ground (arith, ap (count a) e);
    shrinks = ground (arith, ap length e);
    settings_same = s;
    connecting_same = c;
    waiters_same = w;
    completed_same = d;
  }

  take_stream-IsTried :
      (p : Pool Q) (a : ℕ)
      → (p.connections a).is_ready ≡ true
      → 0 < count a p.all_connections
      → AtMost p.connections (free_streams p.connections a) p.all_connections
      → IsTried p (take_stream Q p a).1 (take_stream Q p a).0
  unfolding take_stream open_stream
  take_stream-IsTried p a ready seen most = elim (List-cases (p.connections a).free_stream_ids) [
    | inl e ↦
        rw (e, take_stream)
          (same p p none
            (nothing_free refl refl (
              AtMost-mono p.connections (free_streams p.connections a) 0 p.all_connections
                (ground (arith, ap length e)) most))
            refl refl refl refl refl)
    | inr (id, rest, e) ↦
        let c' : Connection = record (p.connections a) { free_stream_ids = rest } in
        let p' : Pool Q = record p { connections = store p.connections a c' } in
        rw (e, take_stream)
          (same p p' (some (a, id)) (taken a id rest refl seen ready e most refl) refl refl refl
            refl refl)
  ]

  forget-IsTried :
      (p p' : Pool Q) (found : Found) (a : ℕ)
      → (p.connections a).is_ready ≡ false
      → 0 < count a p.all_connections
      → IsTried (forget Q p a) p' found
      → IsTried p p' found
  unfolding forget
  forget-IsTried p p' found a closed seen t = record {
    taken = t.taken;
    ready_kept = λ j. elim (t.ready_kept j) [
      | inl off ↦ inl off
      | inr kept ↦ elim (Bool-cases (a == j)) [
        | inl e ↦ inl (cc (ap (λ i. (p.connections i).is_ready) (==→eq a j e), closed))
        | inr differs ↦ inr (ground (arith, kept, count-erase a j p.all_connections, differs))
      ]
    ];
    none_added = λ j. ground (arith, t.none_added j, count-erase a j p.all_connections);
    shrinks = omega (arith, t.shrinks, length-erase a p.all_connections seen);
    settings_same = t.settings_same;
    connecting_same = t.connecting_same;
    waiters_same = t.waiters_same;
    completed_same = t.completed_same;
  }

  max_element-IsMax :
      (connections : Connections) (xs : List ℕ)
      → ((xs ≡ []) × (max_element connections xs ≡ none))
        ⊎ ((a : ℕ) × (max_element connections xs ≡ some a)
            × (0 < count a xs)
            × AtMost connections (free_streams connections a) xs)
  unfolding max_element
  max_element-IsMax connections [] = inl (refl, refl)
  max_element-IsMax connections (x ∷ xs) =
      let (seen, more, most) = max_from-IsMax connections x xs in
      inr (max_from connections x xs, refl, seen, (more, most))

  try_loop-IsTried :
      (rounds : ℕ) (p : Pool Q)
      → length p.all_connections < rounds
      → IsTried p (try_loop Q rounds p).1 (try_loop Q rounds p).0
  unfolding try_loop try_round
  try_loop-IsTried zero p h = absurd (omega arith)
  try_loop-IsTried (suc rounds) p h = elim (max_element-IsMax p.connections p.all_connections) [
    | inl (empty, e) ↦
        rw (e, try_loop)
          (same p p none (nothing_free refl refl (subst (AtMost p.connections 0) (sym empty) tt))
            refl refl refl refl refl)
    | inr (a, e, seen, most) ↦ elim (Bool-cases (p.connections a).is_ready) [
      | inl ready ↦ rw (e, ready, try_loop, try_round) (take_stream-IsTried p a ready seen most)
      | inr closed ↦
          let fewer : length (forget Q p a).all_connections < rounds =
            unfold forget in omega (arith, length-erase a p.all_connections seen) in
          rw (e, closed, try_loop, try_round)
            (forget-IsTried p (try_loop Q rounds (forget Q p a)).1
              (try_loop Q rounds (forget Q p a)).0 a closed seen
              (try_loop-IsTried rounds (forget Q p a) fewer))
    ]
  ]

  -- `tryGetConnection` ends. It drops only connections that are not ready, and keeps the rest of
  -- the pool. It takes the first free stream of a ready connection that has the most free streams;
  -- or it finds none, and then no connection left in the pool has a free stream.
  pub try_get_connection-IsTried :
      (p : Pool Q) → IsTried p (try_get_connection Q p).1 (try_get_connection Q p).0
  unfolding try_get_connection
  try_get_connection-IsTried p = try_loop-IsTried (length p.all_connections + 1) p (omega arith)
