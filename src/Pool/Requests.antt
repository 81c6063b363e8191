-- ===== src/Pool/Requests.antt =====
-- Each request is answered once, or waits once: how the operations change the number of times that
-- a request is counted, and the numbers of connections.
use cpv_cql_driver.Common.{
  ℕ, zero, suc, ◌≤◌, ◌≡◌, inl, inr, refl, sym, ap, ◌∙◌, ap₂, append_assoc, List, [], ◌∷◌, ◌++◌,
  true, false, arith, List-cases, length, some, Error,
}
use cpv_cql_driver.Seastar.{BoundedQueue}
use cpv_cql_driver.Pool.State.{Outcome, refused, Pool, try_get_connection}
use cpv_cql_driver.Pool.Steps.{complete, clean_loop, clean_waiters}
use cpv_cql_driver.Pool.Choice.{try_get_connection-IsTried}

abbrev pub requests : List (ℕ × Outcome) → List ℕ
requests [] = []
requests ((w, o) ∷ rest) = w ∷ requests rest

requests-append :
    (done more : List (ℕ × Outcome)) → requests (done ++ more) ≡ requests done ++ requests more
requests-append [] more = refl
requests-append ((v, _) ∷ done) more = ap (◌∷◌ v) (requests-append done more)

module _ (Q : BoundedQueue ℕ) where
  -- The requests that have been answered, in this order, and then those that wait.
  abbrev pub line : Pool Q → List ℕ
  line p = requests p.completed ++ Q.contents p.waiters

  -- The limits stay, connections are at most dropped, none is being opened or given up, and no
  -- request is lost, answered twice or answered before one that has waited longer.
  pub record IsKept (p p' : Pool Q) : Type 0 where
    pub settings_same : p'.settings ≡ p.settings
    pub shrinks : length p'.all_connections ≤ length p.all_connections
    pub connecting_same : p'.connecting_count ≡ p.connecting_count
    pub line_same : line p' ≡ line p

  pub IsKept-refl : (p : Pool Q) → IsKept p p
  IsKept-refl p = record {
    settings_same = refl;
    shrinks = omega arith;
    connecting_same = refl;
    line_same = refl;
  }

  pub IsKept-trans : (p q r : Pool Q) → IsKept p q → IsKept q r → IsKept p r
  IsKept-trans p q r h k = record {
    settings_same = k.settings_same ∙ h.settings_same;
    shrinks = omega (arith, h.shrinks, k.shrinks);
    connecting_same = k.connecting_same ∙ h.connecting_same;
    line_same = k.line_same ∙ h.line_same;
  }

  pub try_get_connection-IsKept : (p : Pool Q) → IsKept p (try_get_connection Q p).1
  try_get_connection-IsKept p =
      let t = try_get_connection-IsTried Q p in
      record {
        settings_same = t.settings_same;
        shrinks = t.shrinks;
        connecting_same = t.connecting_same;
        line_same = ap₂ (λ d q. requests d ++ Q.contents q) t.completed_same t.waiters_same;
      }

  -- The oldest waiter is answered.
  pub serve-IsKept :
      (p : Pool Q) (w : ℕ) (waiting : List ℕ) (q : Q.Carrier) (o : Outcome)
      → Q.contents p.waiters ≡ w ∷ waiting
      → Q.contents q ≡ waiting
      → IsKept p (complete Q (record p { waiters = q }) w o)
  serve-IsKept p w waiting q o before after = record {
    settings_same = refl;
    shrinks = omega arith;
    connecting_same = refl;
    line_same =
        ap₂ ◌++◌ (requests-append p.completed ((w, o) ∷ [])) after
        ∙ append_assoc (requests p.completed) (w ∷ []) waiting
        ∙ ap (◌++◌ (requests p.completed)) (sym before);
  }

  -- Either nobody waits, or a first waiter is there to be taken from the queue.
  pub data IsWaiting (q : Q.Carrier) : Type 0 where
    nobody : Q.contents q ≡ [] → Q.is_empty q ≡ true → IsWaiting q
    somebody :
        (w : ℕ) (rest : List ℕ) (q' : Q.Carrier)
        → Q.contents q ≡ w ∷ rest
        → Q.is_empty q ≡ false
        → Q.pop q ≡ some (w, q')
        → Q.contents q' ≡ rest
        → IsWaiting q

  pub IsWaiting-cases : (q : Q.Carrier) → IsWaiting q
  IsWaiting-cases q = elim (List-cases (Q.contents q)) [
    | inl e ↦ nobody e (ground (arith, Q.is_empty_lem q, ap length e))
    | inr (w, rest, e) ↦
        let (q', popped, left, _) = Q.pop_front q w rest e in
        somebody w rest q' e (ground (arith, Q.is_empty_lem q, ap length e)) popped left
  ]

  clean_loop-IsKept :
      (n : ℕ) (e : Error) (p : Pool Q)
      → n ≡ length (Q.contents p.waiters)
      → IsKept p (clean_loop Q n e p) × (Q.contents (clean_loop Q n e p).waiters ≡ [])
  unfolding clean_loop
  clean_loop-IsKept zero e p h = elim (IsWaiting-cases p.waiters) [
    | nobody empty _ ↦ (IsKept-refl p, empty)
    | somebody w rest _ full _ _ _ ↦ absurd (omega (arith, ap length full))
  ]
  clean_loop-IsKept (suc n) e p h = elim (IsWaiting-cases p.waiters) [
    | nobody empty _ ↦ absurd (omega (arith, ap length empty))
    | somebody w rest q full _ popped left ↦
        let p' : Pool Q = complete Q (record p { waiters = q }) w (refused e) in
        let (kept, cleared) =
          clean_loop-IsKept n e p' (omega (arith, ap length full, ap length left)) in
        rw (popped, clean_loop)
          (
            IsKept-trans p p' (clean_loop Q n e p') (serve-IsKept p w rest q (refused e) full left)
                kept,
            cleared,
          )
  ]

  pub clean_waiters-IsKept :
      (e : Error) (p : Pool Q)
      → IsKept p (clean_waiters Q e p) × (Q.contents (clean_waiters Q e p).waiters ≡ [])
  unfolding clean_waiters
  clean_waiters-IsKept e p = clean_loop-IsKept (Q.size p.waiters) e p (Q.size_lem p.waiters)
