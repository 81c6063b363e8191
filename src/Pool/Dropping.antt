-- ===== src/Pool/Dropping.antt =====
-- What `dropIdleConnectionTimer` drops.
use cpv_cql_driver.Common.{
  ℕ, ◌+◌, ◌-◌, ◌≤◌, ◌<◌, ◌≡◌, ◌≢◌, ◌⊎◌, inl, inr, refl, ap, List, [], ◌∷◌, Bool, true, false, arith,
  ltb, leb, ◌==◌, if◌then◌else◌, Bool-cases, length, count, All, ◌&&◌, ==→eq,
}
use cpv_cql_driver.Seastar.{BoundedQueue}
use cpv_cql_driver.Connection.Stream.{is_all_streams_free}
use cpv_cql_driver.Pool.State.{Connection, Connections, Pool}
use cpv_cql_driver.Pool.Steps.{drop_idle, drop_timer_tick}
use cpv_cql_driver.Pool.Requests.{IsKept}

abbrev pub is_idle : Connection → Bool
is_idle c = is_all_streams_free c.max_streams c.free_stream_ids

-- How many connections of a list are not ready.
abbrev pub closed : Connections → List ℕ → ℕ
closed connections [] = 0
closed connections (a ∷ rest) =
    (if (connections a).is_ready then 0 else 1) + closed connections rest

and_right : (a b : Bool) → (a && b) ≡ true → b ≡ true
and_right true b h = h
and_right false b h = cc (h)

differ : (f : ℕ → Bool) (x a : ℕ) → f x ≢ f a → (x == a) ≡ false
differ f x a h = elim (Bool-cases (x == a)) [ inl e ↦ absurd (h (ap f (==→eq x a e))) | inr e ↦ e ]

module _ (connections : Connections) where
  -- Only ready connections stay; a ready connection with a stream in use stays; so many stay that,
  -- with those that were not ready, there are `least` at least.
  pub record IsDropped (least : ℕ) (before after : List ℕ) : Type 0 where
    pub ready : All (λ a. (connections a).is_ready ≡ true) after
    pub busy_kept :
        (a : ℕ)
        → ((connections a).is_ready ≡ false)
          ⊎ (is_idle (connections a) ≡ true)
          ⊎ (count a after ≡ count a before)
    pub shrinks : length after ≤ length before
    pub enough : least ≤ length after + closed connections before

  module _ (min_count : ℕ) where
    -- `left` stands for the connections kept before those of the list.
    abbrev DropHolds : ℕ → ℕ → ℕ → List ℕ → List ℕ × ℕ → Type 0
    DropHolds least exist_count left xs r =
        let (kept, n) = r in
        All (λ a. (connections a).is_ready ≡ true) kept
        × ((a : ℕ)
            → (connections a).is_ready ≡ true
            → is_idle (connections a) ≡ false
            → count a kept ≡ count a xs)
        × (length kept ≤ length xs)
        × (n ≡ left + length kept)
        × (least ≤ n + closed connections xs)

    drop_idle-holds :
        (xs : List ℕ) (least exist_count left : ℕ)
        → exist_count ≡ left + length xs
        → least ≤ min_count
        → least ≤ exist_count
        → DropHolds least exist_count left xs (drop_idle connections min_count exist_count xs)
    unfolding drop_idle
    drop_idle-holds [] least exist_count left e m h =
        (tt, λ a r b. refl, omega arith, omega (arith, e), omega (arith, h))
    drop_idle-holds (x ∷ xs) least exist_count left e m h =
        elim (Bool-cases (connections x).is_ready) [
          | inr off ↦
              let (r, b, s, n, k) =
                drop_idle-holds xs (least - 1) (exist_count - 1) left (omega (arith, e))
                  (omega (arith, m)) (omega (arith, h)) in
              rw (off, drop_idle)
                (
                  r,
                  λ a ready busy.
                      let d =
                        differ (λ i. (connections i).is_ready) x a (λ eq. cc (eq, off, ready)) in
                      ground (arith, b a ready busy, d),
                  omega (arith, s),
                  n,
                  omega (arith, k),
                )
          | inl on ↦ elim (Bool-cases (ltb min_count exist_count && is_idle (connections x))) [
            | inl go ↦
                let above : least ≤ exist_count - 1 = ground (arith, go) in
                let idle : is_idle (connections x) ≡ true =
                  and_right (ltb min_count exist_count) (is_idle (connections x)) go in
                let (r, b, s, n, k) =
                  drop_idle-holds xs least (exist_count - 1) left (omega (arith, e)) m above in
                rw (on, go, drop_idle)
                  (
                    r,
                    λ a ready busy.
                        let d =
                          differ (λ i. is_idle (connections i)) x a (λ eq. cc (eq, busy, idle)) in
                        ground (arith, b a ready busy, d),
                    omega (arith, s),
                    n,
                    omega (arith, k),
                  )
            | inr stay ↦
                let (r, b, s, n, k) =
                  drop_idle-holds xs least exist_count (left + 1) (omega (arith, e)) m h in
                rw (on, stay, drop_idle)
                  (
                    (on, r),
                    λ a ready busy. omega (arith, b a ready busy),
                    omega (arith, s),
                    omega (arith, n),
                    omega (arith, k),
                  )
          ]
        ]

  ready_and_busy :
      (a : ℕ) {A : Type 0}
      → ((connections a).is_ready ≡ true → is_idle (connections a) ≡ false → A)
      → ((connections a).is_ready ≡ false) ⊎ (is_idle (connections a) ≡ true) ⊎ A
  ready_and_busy a kept = elim (Bool-cases (connections a).is_ready) [
    | inr off ↦ inl off
    | inl on ↦ elim (Bool-cases (is_idle (connections a))) [
      | inl idle ↦ inr (inl idle)
      | inr busy ↦ inr (inr (kept on busy))
    ]
  ]

module _ (Q : BoundedQueue ℕ) where
  -- A tick of the timer that drops connections keeps every ready connection that has a stream in
  -- use; above the minimum it drops the closed ones and never goes below the minimum by dropping a
  -- ready one; at the minimum it changes nothing and stops, and it stops when it has come to it.
  pub drop_timer_tick-IsDropped :
      (p : Pool Q)
      → let (stops, p') = drop_timer_tick Q p in
        let min_count = p.settings.min_pool_size in
        ((length p.all_connections ≤ min_count) × (stops ≡ true) × (p' ≡ p))
        ⊎ ((min_count < length p.all_connections)
            × IsDropped p.connections min_count p.all_connections p'.all_connections
            × (stops ≡ leb (length p'.all_connections) min_count)
            × (p'.pool_connections_current ≡ length p'.all_connections)
            × IsKept Q p p')
  unfolding drop_timer_tick
  drop_timer_tick-IsDropped p =
      let xs = p.all_connections in
      let least = p.settings.min_pool_size in
      elim (Bool-cases (leb (length xs) least)) [
        | inl few ↦ rw (few, drop_timer_tick) (inl (ground (arith, few), refl, refl))
        | inr many ↦
            let (r, b, s, n, k) =
              drop_idle-holds p.connections least xs least (length xs) 0 (omega arith) (omega arith)
                (ground (arith, many)) in
            rw (many, drop_timer_tick)
              (inr (
                ground (arith, many),
                record {
                  ready = r;
                  busy_kept = λ a. ready_and_busy p.connections a (b a);
                  shrinks = s;
                  enough = ground (arith, k, n);
                },
                ground (arith, n),
                refl,
                record {
                  settings_same = refl;
                  shrinks = s;
                  connecting_same = refl;
                  line_same = refl;
                },
              ))
      ]
