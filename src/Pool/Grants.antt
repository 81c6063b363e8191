-- ===== src/Pool/Grants.antt =====
-- What `feedWaiters` of src/LowLevel/ConnectionPool.cpp gives to the requests that wait.
use cpv_cql_driver.Common.{
  ℕ, ◌≤◌, ◌<◌, ◌≡◌, ◌∙◌, inl, inr, refl, sym, ap, arith, List, [], ◌∷◌, ◌++◌, append-nil,
  append_assoc, true, false, ◌==◌, ==→eq, if◌then◌else◌, Bool-cases, All, count,
}
use cpv_cql_driver.Seastar.{BoundedQueue}
use cpv_cql_driver.Pool.State.{Connections, store, Outcome, granted, Pool}

-- A stream of the connection at `at` that a waiting request got.
pub record Grant : Type 0 where
  pub waiter : ℕ
  pub at : ℕ
  pub id : ℕ

abbrev pub answers_of : List Grant → List (ℕ × Outcome)
answers_of [] = []
answers_of (g ∷ grants) = (g.waiter, granted g.at g.id) ∷ answers_of grants

abbrev pub waiters_of : List Grant → List ℕ
waiters_of [] = []
waiters_of (g ∷ grants) = g.waiter ∷ waiters_of grants

-- The streams of the connection at `a` that were given, in this order.
abbrev pub streams_at : ℕ → List Grant → List ℕ
streams_at a [] = []
streams_at a (g ∷ grants) =
    let rest = streams_at a grants in if a == g.at then g.id ∷ rest else rest

-- The connections after the free streams of the one at `at` became `free`.
abbrev with_free : Connections → ℕ → List ℕ → Connections
with_free connections at free =
    store connections at (record (connections at) { free_stream_ids = free })

stored_ready :
    (connections : Connections) (at a : ℕ) (free : List ℕ)
    → (with_free connections at free a).is_ready ≡ (connections a).is_ready
unfolding store
stored_ready connections at a free = elim (Bool-cases (a == at)) [
  | inl same ↦ rw (same) (ap (λ x. (connections x).is_ready) (sym (==→eq a at same)))
  | inr other ↦ rw (other) refl
]

stored_here :
    (connections : Connections) (at a : ℕ) (free : List ℕ)
    → (a == at) ≡ true
    → (with_free connections at free a).free_stream_ids ≡ free
unfolding store
stored_here connections at a free same = rw (same) refl

stored_elsewhere :
    (connections : Connections) (at a : ℕ) (free : List ℕ)
    → (a == at) ≡ false
    → (with_free connections at free a).free_stream_ids ≡ (connections a).free_stream_ids
unfolding store
stored_elsewhere connections at a free other = rw (other) refl

module _ (Q : BoundedQueue ℕ) where
  abbrev pub IsReadyGrant : Pool Q → Grant → Type 0
  IsReadyGrant p g = ((p.connections g.at).is_ready ≡ true) × (0 < count g.at p.all_connections)

  -- The requests that waited longest got streams, each of a ready connection of the pool; the streams
  -- of a connection that were given and those that are free are the ones that were free.
  pub record AreGiven (p p' : Pool Q) (grants : List Grant) : Type 0 where
    pub completed_now : p'.completed ≡ p.completed ++ answers_of grants
    pub waiting : waiters_of grants ++ Q.contents p'.waiters ≡ Q.contents p.waiters
    pub taken_once :
        (a : ℕ)
        → streams_at a grants ++ (p'.connections a).free_stream_ids
          ≡ (p.connections a).free_stream_ids
    pub ready_same : (a : ℕ) → (p'.connections a).is_ready ≡ (p.connections a).is_ready
    pub all_ready : All (IsReadyGrant p) grants

  pub none_given :
      (p p' : Pool Q)
      → p'.connections ≡ p.connections
      → p'.waiters ≡ p.waiters
      → p'.completed ≡ p.completed
      → AreGiven p p' []
  none_given p p' cs ws done = record {
    completed_now = done ∙ sym (append-nil p.completed);
    waiting = ap (λ q. Q.contents q) ws;
    taken_once = λ a. ap (λ f. (f a).free_stream_ids) cs;
    ready_same = λ a. ap (λ f. (f a).is_ready) cs;
    all_ready = tt;
  }

  still_ready :
      (p p' : Pool Q) (grants : List Grant)
      → ((a : ℕ) → (p'.connections a).is_ready ≡ (p.connections a).is_ready)
      → ((a : ℕ) → count a p'.all_connections ≤ count a p.all_connections)
      → All (IsReadyGrant p') grants
      → All (IsReadyGrant p) grants
  still_ready p p' [] same fewer h = tt
  still_ready p p' (g ∷ grants) same fewer ((ready, there), h) =
      ((sym (same g.at) ∙ ready, omega (arith, fewer g.at)), still_ready p p' grants same fewer h)

  -- One stream, and then those of the rounds that follow.
  pub one_more :
      (p p' p'' : Pool Q) (g : Grant) (rest waiting : List ℕ) (grants : List Grant)
      → (p.connections g.at).is_ready ≡ true
      → 0 < count g.at p'.all_connections
      → (p.connections g.at).free_stream_ids ≡ g.id ∷ rest
      → p'.connections
        ≡ store p.connections g.at (record (p.connections g.at) { free_stream_ids = rest })
      → ((a : ℕ) → count a p'.all_connections ≤ count a p.all_connections)
      → Q.contents p.waiters ≡ g.waiter ∷ waiting
      → Q.contents p'.waiters ≡ waiting
      → p'.completed ≡ p.completed ++ (g.waiter, granted g.at g.id) ∷ []
      → AreGiven p' p'' grants
      → AreGiven p p'' (g ∷ grants)
  one_more p p' p'' g rest waiting grants ready there free stored fewer full left done h =
      let kept_ready : (a : ℕ) → (p'.connections a).is_ready ≡ (p.connections a).is_ready =
        λ a. ap (λ f. (f a).is_ready) stored ∙ stored_ready p.connections g.at a rest in
      record {
        completed_now =
            h.completed_now
            ∙ ap (λ xs. xs ++ answers_of grants) done
            ∙ append_assoc p.completed ((g.waiter, granted g.at g.id) ∷ []) (answers_of grants);
        waiting = ap (λ xs. g.waiter ∷ xs) (h.waiting ∙ left) ∙ sym full;
        taken_once = λ a. elim (Bool-cases (a == g.at)) [
          | inl same ↦ rw same (
              ap (λ xs. g.id ∷ xs)
                (h.taken_once a
                  ∙ ap (λ f. (f a).free_stream_ids) stored
                  ∙ stored_here p.connections g.at a rest same)
              ∙ sym free
              ∙ ap (λ x. (p.connections x).free_stream_ids) (sym (==→eq a g.at same)))
          | inr other ↦ rw other (
              h.taken_once a
              ∙ ap (λ f. (f a).free_stream_ids) stored
              ∙ stored_elsewhere p.connections g.at a rest other)
        ];
        ready_same = λ a. h.ready_same a ∙ kept_ready a;
        all_ready = (
          (ready, omega (arith, fewer g.at)),
          still_ready p p' grants kept_ready fewer h.all_ready,
        );
      }
