-- ===== src/Seastar.antt =====
-- What the driver relies on of seastar::queue<T>, which is not part of this repository: a first-in
-- first-out queue with a capacity, whose `push` answers false and changes nothing when it is full.
use cpv_cql_driver.Common.{
  ℕ, ◌≡◌, refl, List, [], ◌∷◌, ◌++◌, Bool, true, false, arith, ltb, ◌==◌, if◌then◌else◌, length,
  Option, none, some,
}

pub record BoundedQueue (A : Type 0) : Type 1 where
  pub Carrier : Type 0
  pub make : ℕ → Carrier
  pub push : Carrier → A → Bool × Carrier
  pub pop : Carrier → Option (A × Carrier)
  pub is_empty : Carrier → Bool
  pub size : Carrier → ℕ
  pub contents : Carrier → List A
  pub capacity : Carrier → ℕ
  pub contents-make : (n : ℕ) → contents (make n) ≡ []
  pub capacity-make : (n : ℕ) → capacity (make n) ≡ n
  pub is_empty_lem : (q : Carrier) → is_empty q ≡ (length (contents q) == 0)
  pub size_lem : (q : Carrier) → size q ≡ length (contents q)
  pub push_result : (q : Carrier) (a : A) → (push q a).0 ≡ ltb (length (contents q)) (capacity q)
  pub contents-push :
      (q : Carrier) (a : A)
      → contents (push q a).1
        ≡ (if ltb (length (contents q)) (capacity q) then contents q ++ a ∷ [] else contents q)
  pub capacity-push : (q : Carrier) (a : A) → capacity (push q a).1 ≡ capacity q
  pub pop_front :
      (q : Carrier) (a : A) (rest : List A)
      → contents q ≡ a ∷ rest
      → (q' : Carrier) × (pop q ≡ some (a, q')) × (contents q' ≡ rest) × (capacity q' ≡ capacity q)

-- A queue that meets the assumptions: the list of its entries beside the capacity.
module _ (A : Type 0) where
  abbrev pub list_push : List A × ℕ → A → Bool × (List A × ℕ)
  list_push (xs, n) a = if ltb (length xs) n then (true, (xs ++ a ∷ [], n)) else (false, (xs, n))

  abbrev pub list_pop : List A × ℕ → Option (A × (List A × ℕ))
  list_pop ([], n) = none
  list_pop (x ∷ xs, n) = some (x, (xs, n))

  pub list_push_result : (q : List A × ℕ) (a : A) → (list_push q a).0 ≡ ltb (length q.0) q.1
  list_push_result (xs, n) a = ground arith

  pub list_contents-push :
      (q : List A × ℕ) (a : A)
      → (list_push q a).1.0 ≡ (if ltb (length q.0) q.1 then q.0 ++ a ∷ [] else q.0)
  list_contents-push (xs, n) a = ground arith

  pub list_capacity-push : (q : List A × ℕ) (a : A) → (list_push q a).1.1 ≡ q.1
  list_capacity-push (xs, n) a = ground arith

  pub list_pop_front :
      (q : List A × ℕ) (a : A) (rest : List A)
      → q.0 ≡ a ∷ rest
      → (q' : List A × ℕ) × (list_pop q ≡ some (a, q')) × (q'.0 ≡ rest) × (q'.1 ≡ q.1)
  list_pop_front ([], n) a rest e = absurd (cc)
  list_pop_front (x ∷ xs, n) a rest e = ((rest, n), ground arith, refl, refl)

  abbrev pub list_queue : BoundedQueue A
  list_queue = record {
    Carrier = List A × ℕ;
    make = λ n. ([], n);
    push = list_push;
    pop = list_pop;
    is_empty = λ q. length q.0 == 0;
    size = λ q. length q.0;
    contents = λ q. q.0;
    capacity = λ q. q.1;
    contents-make = λ n. refl;
    capacity-make = λ n. refl;
    is_empty_lem = λ q. refl;
    size_lem = λ q. refl;
    push_result = list_push_result;
    contents-push = list_contents-push;
    capacity-push = list_capacity-push;
    pop_front = list_pop_front;
  }
