-- ===== src/Pool/Feeding.antt =====
-- Waiters that get a connection: `feedWaiters` and `returnConnection`.
use cpv_cql_driver.Common.{
  ℕ, zero, suc, ◌≡◌, ◌⊎◌, inl, inr, refl, sym, ap, ◌∙◌, subst, List, [], ◌∷◌, ◌++◌, true, false,
  arith, List-cases, length, none, some, logic_exception,
}
use cpv_cql_driver.Seastar.{BoundedQueue}
use cpv_cql_driver.Connection.Stream.{ConnectionStream, open_stream, close_stream}
use cpv_cql_driver.Pool.State.{
  Connection, store, store_at, granted, refused, Pool, Found, take_stream, try_get_connection,
}
use cpv_cql_driver.Pool.Steps.{
  complete, hand_stream, return_connection, feed_round, feed_loop, feed_waiters,
}
use cpv_cql_driver.Pool.Choice.{AtMost, nothing_free, taken, try_get_connection-IsTried}
use cpv_cql_driver.Pool.Grants.{Grant, AreGiven, none_given, one_more}
use cpv_cql_driver.Pool.Requests.{
  IsKept, IsKept-refl, IsKept-trans, try_get_connection-IsKept, serve-IsKept, nobody, somebody,
  IsWaiting-cases,
}

module _ (Q : BoundedQueue ℕ) where
  pub record IsFed (p p' : Pool Q) : Type 0 where
    pub kept : IsKept Q p p'
    pub grants : List Grant
    pub given : AreGiven Q p p' grants
    pub done : (Q.contents p'.waiters ≡ []) ⊎ AtMost p'.connections 0 p'.all_connections

  feed_loop-IsFed :
      (n : ℕ) (p : Pool Q) → n ≡ length (Q.contents p.waiters) → IsFed p (feed_loop Q n p)
  unfolding feed_loop
  feed_loop-IsFed zero p h = elim (IsWaiting-cases Q p.waiters) [
    | nobody empty _ ↦ record {
      kept = IsKept-refl Q p;
      grants = [];
      given = none_given Q p p refl refl refl;
      done = inl empty;
    }
    | somebody w rest _ full _ _ _ ↦ absurd (omega (arith, ap length full))
  ]
  feed_loop-IsFed (suc n) p h = elim (IsWaiting-cases Q p.waiters) [
    | nobody empty _ ↦ absurd (omega (arith, ap length empty))
    | somebody w rest q full busy popped left ↦
        let tried : Pool Q = (try_get_connection Q p).1 in
        let t = try_get_connection-IsTried Q p in
        let kept = try_get_connection-IsKept Q p in
        elim t.taken [
          | nothing_free e same most ↦
              rw (busy, feed_loop, e, feed_round)
                (record {
                  kept = kept;
                  grants = [];
                  given = none_given Q p tried same t.waiters_same t.completed_same;
                  done = inr (subst (λ cs. AtMost cs 0 tried.all_connections) (sym same) most);
                })
          | taken a id free e there ready first _ stored ↦
              let p' : Pool Q = complete Q (record tried { waiters = q }) w (granted a id) in
              let full' = ap (λ ws. Q.contents ws) t.waiters_same ∙ full in
              let fed = feed_loop-IsFed n p' (omega (arith, ap length full, ap length left)) in
              rw (busy, feed_loop, e, feed_round, ap (λ ws. Q.pop ws) t.waiters_same ∙ popped)
                (record {
                  kept = IsKept-trans Q p tried (feed_loop Q n p') kept (
                      IsKept-trans Q tried p' (feed_loop Q n p')
                        (serve-IsKept Q tried w rest q (granted a id) full' left) fed.kept);
                  grants = record { waiter = w; at = a; id = id } ∷ fed.grants;
                  given =
                      one_more Q p p' (feed_loop Q n p') (record { waiter = w; at = a; id = id })
                        free rest fed.grants ready there first stored t.none_added full left
                        (ap (λ xs. xs ++ (w, granted a id) ∷ []) t.completed_same) fed.given;
                  done = fed.done;
                })
        ]
  ]

  -- `feedWaiters` grants streams to the requests that wait, from the one that has waited longest on,
  -- and to each a stream of a ready connection of the pool that was free, no stream twice and none
  -- lost; it refuses nobody, the requests that it grants nothing go on waiting in their order, and it
  -- stops only when nobody waits or when no connection left in the pool has a free stream.
  pub feed_waiters-IsFed : (p : Pool Q) → IsFed p (feed_waiters Q p)
  unfolding feed_waiters
  feed_waiters-IsFed p = feed_loop-IsFed (Q.size p.waiters) p (Q.size_lem p.waiters)

  take_stream-IsKept :
      (p : Pool Q) (a : ℕ)
      → IsKept Q p (take_stream Q p a).1 × ((take_stream Q p a).1.waiters ≡ p.waiters)
  unfolding take_stream open_stream
  take_stream-IsKept p a = elim (List-cases (p.connections a).free_stream_ids) [
    | inl e ↦ rw (e, take_stream) (IsKept-refl Q p, refl)
    | inr (id, rest, e) ↦
        rw (e, take_stream)
          (
            record {
              settings_same = refl;
              shrinks = omega arith;
              connecting_same = refl;
              line_same = refl;
            },
            refl,
          )
  ]

  hand_stream-IsKept :
      (p : Pool Q) (w : ℕ) (waiting : List ℕ) (q : Q.Carrier) (a : ℕ) (r : Found × Pool Q)
      → Q.contents p.waiters ≡ w ∷ waiting
      → Q.contents q ≡ waiting
      → IsKept Q p r.1
      → r.1.waiters ≡ p.waiters
      → IsKept Q p (hand_stream Q p w q a r)
  unfolding hand_stream
  hand_stream-IsKept p w waiting q a (none, r) full left kept same =
      let full' = ap (λ ws. Q.contents ws) same ∙ full in
      IsKept-trans Q p r _ kept (serve-IsKept Q r w waiting q (refused logic_exception) full' left)
  hand_stream-IsKept p w waiting q a (some (b, id), r) full left kept same =
      let full' = ap (λ ws. Q.contents ws) same ∙ full in
      IsKept-trans Q p r _ kept (serve-IsKept Q r w waiting q (granted b id) full' left)

  -- Whatever stream is returned, no request is lost or overtaken.
  pub return_connection-IsKept :
      (p : Pool Q) (a : ℕ) (stream : ConnectionStream) → IsKept Q p (return_connection Q p a stream)
  unfolding return_connection
  return_connection-IsKept p a stream =
      let c = p.connections a in
      let c' : Connection = record c {
        free_stream_ids = (close_stream stream c.free_stream_ids).1;
      } in
      let p' : Pool Q = record p { connections = store p.connections a c' } in
      elim (IsWaiting-cases Q p.waiters) [
        | nobody _ idle ↦ rw (idle, return_connection) (closed p c' a)
        | somebody w rest q full busy popped left ↦
            let (kept, same) = take_stream-IsKept p' a in
            rw (busy, return_connection, popped)
              (IsKept-trans Q p p' _ (closed p c' a)
                (hand_stream-IsKept p' w rest q a (take_stream Q p' a) full left kept same))
      ]
    where
      closed :
          (p : Pool Q) (c' : Connection) (a : ℕ)
          → IsKept Q p (record p { connections = store p.connections a c' })
      closed p c' a = record {
        settings_same = refl;
        shrinks = omega arith;
        connecting_same = refl;
        line_same = refl;
      }

  -- A valid stream that is returned while requests wait goes to the one that has waited longest:
  -- this request is granted the same connection, ready or not, and the same stream id, which is
  -- not free in between; the other requests go on waiting.
  pub return_connection-hands_over :
      (p : Pool Q) (a : ℕ) (stream : ConnectionStream) (w : ℕ) (rest : List ℕ)
      → stream.is_valid ≡ true
      → Q.contents p.waiters ≡ w ∷ rest
      → let p' = return_connection Q p a stream in
        (p'.completed ≡ p.completed ++ (w, granted a stream.stream_id) ∷ [])
        × (Q.contents p'.waiters ≡ rest)
        × ((p'.connections a).free_stream_ids ≡ (p.connections a).free_stream_ids)
        × ((p'.connections a).is_ready ≡ (p.connections a).is_ready)
  unfolding return_connection take_stream hand_stream close_stream open_stream
  return_connection-hands_over p a stream w rest valid full =
      let (q, popped, left, _) = Q.pop_front p.waiters w rest full in
      let busy : Q.is_empty p.waiters ≡ false =
        ground (arith, Q.is_empty_lem p.waiters, ap length full) in
      let c' : Connection = record (p.connections a) {
        free_stream_ids = stream.stream_id ∷ (p.connections a).free_stream_ids;
      } in
      rw (busy, return_connection, popped, valid, store_at p.connections a c', take_stream)
        (
          refl,
          left,
          ap (λ c. c.free_stream_ids) (store_at _ a _),
          ap (λ c. c.is_ready) (store_at _ a _),
        )
