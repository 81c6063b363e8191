-- ===== src/Pool/Growth.antt =====
-- What every operation of the pool does to the number of connections, open or being opened, and to
-- the number of times that a request is answered or waits.
use cpv_cql_driver.Common.{
  ℕ, ◌+◌, ◌≤◌, ◌<◌, ◌≡◌, ◌⊎◌, inl, inr, refl, ap, ◌∙◌, List, [], ◌∷◌, ◌++◌, arith, ltb, leb, ◌==◌,
  if◌then◌else◌, Bool-cases, length, length-append, count, count-append, none, some, Error,
  logic_exception, connection_not_available_exception,
}
use cpv_cql_driver.Seastar.{BoundedQueue}
use cpv_cql_driver.Pool.State.{Outcome, granted, refused, Pool, Found, try_get_connection}
use cpv_cql_driver.Pool.Steps.{
  complete, add_waiter, spawn_connection, start_find_timer, start_drop_timer, is_full, is_below_min,
  wait_or_refuse, use_found, get_connection, feed_waiters, clean_waiters, spawn_succeeded,
  spawn_failed, find_timer_tick,
}
use cpv_cql_driver.Pool.Requests.{
  requests, line, IsKept, try_get_connection-IsKept, clean_waiters-IsKept,
}
use cpv_cql_driver.Pool.Feeding.{feed_waiters-IsFed}

count_complete :
    (j w : ℕ) (o : Outcome) (done : List (ℕ × Outcome))
    → count j (requests (done ++ (w, o) ∷ [])) ≡ count j (requests done) + (if w == j then 1 else 0)
count_complete j w o [] = omega arith
count_complete j w o ((v, _) ∷ done) = omega (arith, count_complete j w o done)

module _ (Q : BoundedQueue ℕ) where
  abbrev pub total : Pool Q → ℕ
  total p = length p.all_connections + p.connecting_count

  -- How often request `j` has been answered or waits.
  abbrev pub seen : ℕ → Pool Q → ℕ
  seen j p = count j (requests p.completed) + count j (Q.contents p.waiters)

  -- `p` becomes `p'`, and `asked` says how often a request is made meanwhile.
  pub record IsGrown (asked : ℕ → ℕ) (p p' : Pool Q) : Type 0 where
    pub settings_same : p'.settings ≡ p.settings
    pub bounded :
        (most : ℕ)
        → p.settings.min_pool_size ≤ most
        → p.settings.max_pool_size ≤ most
        → total p ≤ most
        → total p' ≤ most
    pub accounted : (j : ℕ) → seen j p' ≡ seen j p + asked j

  abbrev pub nobody_asks : ℕ → ℕ
  nobody_asks j = 0

  abbrev pub asks : ℕ → ℕ → ℕ
  asks w j = if w == j then 1 else 0

  seen-line : (j : ℕ) (p : Pool Q) → count j (line Q p) ≡ seen j p
  seen-line j p = count-append j (requests p.completed) (Q.contents p.waiters)

  pub kept-IsGrown : (p p' : Pool Q) → IsKept Q p p' → IsGrown nobody_asks p p'
  kept-IsGrown p p' k = record {
    settings_same = k.settings_same;
    bounded = λ most _ _ h. omega (arith, k.shrinks, k.connecting_same);
    accounted = λ j. omega (arith, seen-line j p, seen-line j p', ap (count j) k.line_same);
  }

  add_waiter_lem :
      (p : Pool Q) (w : ℕ)
      → let p' = add_waiter Q p w in
        (p'.settings ≡ p.settings)
        × (total p' ≡ total p)
        × ((j : ℕ) → seen j p' ≡ seen j p + asks w j)
  unfolding add_waiter
  add_waiter_lem p w = elim (Bool-cases (Q.push p.waiters w).0) [
    | inl fits ↦
        rw (fits, add_waiter)
          (
            refl,
            refl,
            λ j. ground (
              arith,
              Q.push_result p.waiters w,
              fits,
              ap (count j) (Q.contents-push p.waiters w),
              count-append j (Q.contents p.waiters) (w ∷ []),
            ),
          )
    | inr full ↦
        rw (full, add_waiter)
          (refl, refl, λ j. omega (arith, count_complete j w (refused logic_exception) p.completed))
  ]

  refuse-IsGrown : (p : Pool Q) (w : ℕ) (o : Outcome) → IsGrown (asks w) p (complete Q p w o)
  refuse-IsGrown p w o = record {
    settings_same = refl;
    bounded = λ most _ _ h. h;
    accounted = λ j. omega (arith, count_complete j w o p.completed);
  }

  -- A waiter is added, and a connection more is opened if there is room for it.
  wait-IsGrown :
      (p p' : Pool Q) (w : ℕ)
      → p'.settings ≡ (add_waiter Q p w).settings
      → p'.completed ≡ (add_waiter Q p w).completed
      → p'.waiters ≡ (add_waiter Q p w).waiters
      → ((total p' ≡ total (add_waiter Q p w))
          ⊎ ((total p' ≡ total (add_waiter Q p w) + 1)
              × ((total p < p.settings.min_pool_size) ⊎ (total p < p.settings.max_pool_size))))
      → IsGrown (asks w) p p'
  wait-IsGrown p p' w s d q t =
      let (s', t', k) = add_waiter_lem p w in
      record {
        settings_same = s ∙ s';
        bounded = λ most min max h. elim t [
          | inl e ↦ omega (arith, t', e)
          | inr (e, inl m) ↦ omega (arith, t', e, m)
          | inr (e, inr m) ↦ omega (arith, t', e, m)
        ];
        accounted = λ j.
            omega (
              arith,
              k j,
              ap (λ xs. count j (requests xs)) d,
              ap (λ xs. count j (Q.contents xs)) q,
            );
      }

  spawn_total :
      (p : Pool Q) (w : ℕ)
      → total (spawn_connection Q (add_waiter Q p w)) ≡ total (add_waiter Q p w) + 1
  unfolding spawn_connection
  spawn_total p w = omega arith

  wait_or_refuse-IsGrown : (p : Pool Q) (w : ℕ) → IsGrown (asks w) p (wait_or_refuse Q p w)
  unfolding wait_or_refuse spawn_connection start_find_timer start_drop_timer
  wait_or_refuse-IsGrown p w =
      let no_more = leb p.settings.max_waiters_after_connections_exhausted (Q.size p.waiters) in
      elim (Bool-cases (is_full Q p)) [
        | inl full ↦ elim (Bool-cases no_more) [
          | inl m ↦
              rw (full, m, wait_or_refuse)
                (refuse-IsGrown p w (refused connection_not_available_exception))
          | inr m ↦
              rw (full, m, wait_or_refuse)
                (wait-IsGrown p (start_find_timer Q (add_waiter Q p w)) w refl refl refl (inl refl))
        ]
        | inr room ↦
            rw (room, wait_or_refuse)
              (wait-IsGrown p (start_drop_timer Q (spawn_connection Q (add_waiter Q p w))) w refl
                refl refl (inr (spawn_total p w, inr (ground (arith, room)))))
      ]

  IsGrown-after_kept :
      (p q r : Pool Q) (asked : ℕ → ℕ) → IsKept Q p q → IsGrown asked q r → IsGrown asked p r
  IsGrown-after_kept p q r asked k g =
      let g' = kept-IsGrown p q k in
      record {
        settings_same = g.settings_same ∙ k.settings_same;
        bounded = λ most min max h.
            g.bounded most (ground (arith, ap (λ s. s.min_pool_size) k.settings_same))
              (ground (arith, ap (λ s. s.max_pool_size) k.settings_same))
              (g'.bounded most min max h);
        accounted = λ j. omega (arith, g.accounted j, g'.accounted j);
      }

  use_found-IsGrown :
      (p : Pool Q) (w : ℕ) (r : Found × Pool Q)
      → IsKept Q p r.1
      → IsGrown (asks w) p (use_found Q w r)
  unfolding use_found
  use_found-IsGrown p w (none, q) k =
      IsGrown-after_kept p q _ (asks w) k (wait_or_refuse-IsGrown q w)
  use_found-IsGrown p w (some (a, id), q) k =
      IsGrown-after_kept p q _ (asks w) k (refuse-IsGrown q w (granted a id))

  -- `getConnection` answers the request or makes it wait, once, whatever branch it takes, and opens
  -- a connection only below one of the limits.
  pub get_connection-IsGrown : (p : Pool Q) (w : ℕ) → IsGrown (asks w) p (get_connection Q p w)
  unfolding get_connection spawn_connection start_find_timer
  get_connection-IsGrown p w =
      elim (Bool-cases (ltb (length p.all_connections) p.settings.min_pool_size)) [
        | inl few ↦ elim (Bool-cases (is_below_min Q p)) [
          | inl below ↦
              rw (few, below, get_connection)
                (wait-IsGrown p (spawn_connection Q (add_waiter Q p w)) w refl refl refl
                  (inr (spawn_total p w, inl (ground (arith, below)))))
          | inr enough ↦
              rw (few, enough, get_connection)
                (wait-IsGrown p (start_find_timer Q (add_waiter Q p w)) w refl refl refl (inl refl))
        ]
        | inr many ↦
            rw (many, get_connection)
              (use_found-IsGrown p w (try_get_connection Q p) (try_get_connection-IsKept Q p))
      ]

  pub spawn_succeeded-IsGrown :
      (p : Pool Q) (a : ℕ) → 0 < p.connecting_count → IsGrown nobody_asks p (spawn_succeeded Q p a)
  unfolding spawn_succeeded
  spawn_succeeded-IsGrown p a h =
      let opened : Pool Q = record p { all_connections = p.all_connections ++ a ∷ [] } in
      let k = (feed_waiters-IsFed Q opened).kept in
      let g = kept-IsGrown opened (feed_waiters Q opened) k in
      record {
        settings_same = k.settings_same;
        bounded = λ most _ _ t.
            omega
              (arith, t, h, k.shrinks, k.connecting_same, length-append p.all_connections (a ∷ []));
        accounted = g.accounted;
      }

  pub spawn_failed-IsGrown :
      (nodes_count failures : ℕ) (p : Pool Q) (e : Error)
      → IsGrown nobody_asks p (spawn_failed Q nodes_count failures p e).1
  unfolding spawn_failed
  spawn_failed-IsGrown nodes_count failures p e =
      let g = kept-IsGrown p (clean_waiters Q e p) (clean_waiters-IsKept Q e p).0 in
      elim (Bool-cases (leb nodes_count (failures + 1))) [
        | inl last ↦
            rw (last, spawn_failed)
              (record {
                settings_same = g.settings_same;
                bounded = λ most min max t. omega (arith, g.bounded most min max t);
                accounted = g.accounted;
              })
        | inr more ↦
            rw (more, spawn_failed)
              (record {
                settings_same = refl;
                bounded = λ most _ _ t. t;
                accounted = λ j. omega arith;
              })
      ]

  pub find_timer_tick-IsGrown : (p : Pool Q) → IsGrown nobody_asks p (find_timer_tick Q p).1
  unfolding find_timer_tick spawn_connection
  find_timer_tick-IsGrown p =
      let fed = feed_waiters Q p in
      let k = (feed_waiters-IsFed Q p).kept in
      let g = kept-IsGrown p fed k in
      elim (Bool-cases (Q.is_empty fed.waiters)) [
        | inl idle ↦ rw (idle, find_timer_tick) g
        | inr busy ↦ elim (Bool-cases (is_below_min Q fed)) [
          | inl below ↦
              rw (busy, below, find_timer_tick)
                (record {
                  settings_same = g.settings_same;
                  bounded = λ most min max t.
                      ground (arith, below, ap (λ s. s.min_pool_size) k.settings_same);
                  accounted = g.accounted;
                })
          | inr enough ↦ rw (busy, enough, find_timer_tick) g
        ]
      ]
