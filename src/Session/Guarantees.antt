-- ===== src/Session/Guarantees.antt =====
-- What a caller of Session::query and Session::execute may rely on.
use cpv_cql_driver.Common.{
  ℕ, suc, ◌+◌, ◌≤◌, ◌<◌, ◌≡◌, refl, sym, ap, subst, ◌∙◌, List, [], ◌∷◌, ◌++◌, map, append-nil,
  append_assoc, true, arith, length, take, none, Result, ok, err,
}
use cpv_cql_driver.Session.Cache.{Caches}
use cpv_cql_driver.Session.Retry.{
  Command, LoopState, Metrics, SessionConfiguration, set_default_values,
}
use cpv_cql_driver.Session.Attempt.{
  Surroundings, Verdict, stop, again, failed, round, query_result, execute_result,
}
use cpv_cql_driver.Session.Loop.{
  Progress, pending, done, continue_with, repeat, initial, query, execute, checked_result,
}
use cpv_cql_driver.Session.Rounds.{rounds_left, got, IsSettled, round-IsSettled}

-- The connections that some rounds got, from those that each round got.
abbrev pub all_got : List (List ℕ) → List ℕ
all_got [] = []
all_got (node ∷ nodes) = node ++ all_got nodes

-- The loop ended after `rounds` rounds, no more than were allowed; it holds no connection, it has
-- given back each that it got, and it has counted each round once.
pub record IsFinished {A : Type 0} (gots : List (List ℕ)) (s : LoopState) (rounds : ℕ)
    (r : Result A) (p : Progress A × LoopState) : Type 0 where
  pub ended : p.0 ≡ done r
  pub bounded : rounds ≤ rounds_left s.flow + 1
  pub released : p.1.connection ≡ none
  pub given_back : p.1.returned ≡ s.returned ++ all_got (take rounds gots)
  pub counted :
      p.1.metrics.successful + p.1.metrics.failed ≡ s.metrics.successful + s.metrics.failed + rounds

abbrev pub Finishes : {A : Type 0} → List (List ℕ) → LoopState → Progress A × LoopState → Type 0
Finishes {A} gots s p = (rounds : ℕ) × (r : Result A) × IsFinished gots s rounds r p

once :
    (nodes : List ℕ) (gots : List (List ℕ)) (s s' : LoopState) (verdict : Verdict)
    (r : Result (Unit {0}))
    → IsSettled s verdict s' nodes
    → IsFinished (nodes ∷ gots) s 1 r (done r, s')
once nodes gots s s' verdict r h = record {
  ended = refl;
  bounded = omega arith;
  released = h.released;
  given_back = h.given_back ∙ ap (◌++◌ s.returned) (sym (append-nil nodes));
  counted = h.counted;
}

more :
    (nodes : List ℕ) (gots : List (List ℕ)) (s s' : LoopState) (p : Progress (Unit {0}) × LoopState)
    → IsSettled s again s' nodes
    → Finishes gots s' p
    → Finishes (nodes ∷ gots) s p
more nodes gots s s' p h (n, r, f) = (
  suc n,
  r,
  record {
    ended = f.ended;
    bounded = omega (arith, f.bounded, h.fewer refl);
    released = f.released;
    given_back =
        f.given_back
        ∙ ap (λ xs. xs ++ all_got (take n gots)) h.given_back
        ∙ append_assoc s.returned nodes (all_got (take n gots));
    counted = omega (arith, f.counted, h.counted);
  },
)

finish_round :
    (nodes : List ℕ) (gots : List (List ℕ)) (s s' : LoopState) (verdict : Verdict)
    (rest : LoopState → Progress (Unit {0}) × LoopState)
    → IsSettled s verdict s' nodes
    → (verdict ≡ again → Finishes gots s' (rest s'))
    → Finishes (nodes ∷ gots) s (continue_with rest (verdict, s'))
unfolding continue_with
finish_round nodes gots s s' stop rest h k = (1, ok tt, once nodes gots s s' stop (ok tt) h)
finish_round nodes gots s s' (failed x) rest h k =
    (1, err x, once nodes gots s s' (failed x) (err x) h)
finish_round nodes gots s s' again rest h k = more nodes gots s s' (rest s') h (k refl)

module _ {Env : Type 0} (one_round : Env → LoopState → Verdict × LoopState) (got_in : Env → List ℕ)
    (settles : (env : Env) (s : LoopState)
      → s.connection ≡ none
      → IsSettled s (one_round env s).0 (one_round env s).1 (got_in env)) where
  -- The loop ends, whatever happens to the connections, if the surroundings answer for as many
  -- rounds as are allowed.
  pub repeat-Finishes :
      (envs : List Env) (s : LoopState)
      → s.connection ≡ none
      → rounds_left s.flow < length envs
      → Finishes (map got_in envs) s (repeat one_round envs s)
  unfolding repeat
  repeat-Finishes [] s free h = absurd (omega arith)
  repeat-Finishes (env ∷ envs) s free h =
      let (verdict, s') = one_round env s in
      let settled = settles env s free in
      finish_round (got_in env) (map got_in envs) s s' verdict (repeat one_round envs) settled
        (λ e. repeat-Finishes envs s' settled.released (omega (arith, settled.fewer e)))

execute-valid :
    (config : SessionConfiguration) (command : Command) (envs : List Surroundings) (caches : Caches)
    (metrics : Metrics)
    → command.is_valid ≡ true
    → execute config command envs caches metrics
      ≡ repeat
          (round execute_result (set_default_values config command))
          envs
          (initial command caches metrics)
unfolding execute
execute-valid config command envs caches metrics valid = simp valid

pub query-valid :
    (config : SessionConfiguration) (command : Command) (envs : List Surroundings) (caches : Caches)
    (metrics : Metrics)
    → command.is_valid ≡ true
    → query config command envs caches metrics
      ≡ checked_result (
          repeat
            (round query_result (set_default_values config command))
            envs
            (initial command caches metrics))
unfolding query
query-valid config command envs caches metrics valid = simp valid

-- `execute` of a valid command, with surroundings that answer for that many rounds, ends within `retries` + 2 rounds: one, the retries, and one more for
-- a query whose prepared id was forgotten. It gives back every connection that it got, once and in
-- order, holds none at the end, and counts each round once.
pub execute-IsFinished :
    (config : SessionConfiguration) (command : Command) (envs : List Surroundings) (caches : Caches)
    (metrics : Metrics)
    → command.is_valid ≡ true
    → command.retries + 2 ≤ length envs
    → Finishes
        (map got envs)
        (initial command caches metrics)
        (execute config command envs caches metrics)
unfolding initial
execute-IsFinished config command envs caches metrics valid enough =
    subst (Finishes (map got envs) (initial command caches metrics))
      (sym (execute-valid config command envs caches metrics valid))
      (repeat-Finishes (round execute_result (set_default_values config command)) got
        (round-IsSettled execute_result (set_default_values config command)) envs
        (initial command caches metrics) refl (omega arith))

checked-Finishes :
    (gots : List (List ℕ)) (s : LoopState) (p : Progress (Unit {0}) × LoopState)
    → Finishes gots s p
    → Finishes gots s (checked_result p)
checked-Finishes gots s (pending, t) (n, r, f) = absurd (cc (f.ended))
checked-Finishes gots s (done (err e), t) (n, r, f) = (
  n,
  err e,
  record {
    ended = refl;
    bounded = f.bounded;
    released = f.released;
    given_back = f.given_back;
    counted = f.counted;
  },
)
checked-Finishes gots s (done (ok u), t) (n, r, f) = (
  n,
  _,
  record {
    ended = refl;
    bounded = f.bounded;
    released = f.released;
    given_back = f.given_back;
    counted = f.counted;
  },
)

-- `query` of a valid command, with surroundings that answer for at least `retries` + 2 rounds, ends
-- with a result set or an exception within `retries` + 2 rounds: one, the retries, and one more for
-- a query whose prepared id was forgotten. It gives back every connection that it got, once and in
-- order, holds none at the end, and counts each round once.
pub query-IsFinished :
    (config : SessionConfiguration) (command : Command) (envs : List Surroundings) (caches : Caches)
    (metrics : Metrics)
    → command.is_valid ≡ true
    → command.retries + 2 ≤ length envs
    → Finishes
        (map got envs)
        (initial command caches metrics)
        (query config command envs caches metrics)
unfolding initial
query-IsFinished config command envs caches metrics valid enough =
    subst (Finishes (map got envs) (initial command caches metrics))
      (sym (query-valid config command envs caches metrics valid))
      (checked-Finishes (map got envs) (initial command caches metrics) _ (
        repeat-Finishes (round query_result (set_default_values config command)) got
          (round-IsSettled query_result (set_default_values config command)) envs
          (initial command caches metrics) refl (omega arith)))
