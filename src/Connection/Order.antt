-- ===== src/Connection/Order.antt =====
-- The messages of each stream reach whoever waits for them in the order in which they arrived, and
-- the receiver's bookkeeping is right.
use cpv_cql_driver.Common.{
  ℕ, zero, suc, ◌+◌, ◌<◌, ◌≡◌, inl, inr, refl, sym, ap, ◌∙◌, List, [], ◌∷◌, ◌++◌, append-nil, Bool,
  true, false, arith, ◌==◌, if◌then◌else◌, Bool-cases, length, get_elem?, set, Option, none, some,
  Result, ok, err,
}
use cpv_cql_driver.Seastar.{BoundedQueue}
use cpv_cql_driver.Connection.State.{Connection, close, none_waiting, cancel_waiters}

abbrev pub waiters : List Bool → ℕ
waiters [] = 0
waiters (w ∷ rest) = (if w then 1 else 0) + waiters rest

abbrev pub is_waiting : List Bool → ℕ → Bool
is_waiting [] i = false
is_waiting (w ∷ rest) zero = w
is_waiting (w ∷ rest) (suc i) = is_waiting rest i

pub is_waiting-set :
    (ws : List Bool) (i j : ℕ) (b : Bool)
    → i < length ws
    → is_waiting (set ws i b) j ≡ (if i == j then b else is_waiting ws j)
is_waiting-set [] i j b h = absurd (omega arith)
is_waiting-set (w ∷ ws) zero zero b h = ground arith
is_waiting-set (w ∷ ws) zero (suc j) b h = ground arith
is_waiting-set (w ∷ ws) (suc i) zero b h = ground arith
is_waiting-set (w ∷ ws) (suc i) (suc j) b h = ground (arith, is_waiting-set ws i j b (omega arith))

pub waiters-set :
    (ws : List Bool) (i : ℕ) (b : Bool)
    → i < length ws
    → waiters (set ws i b) + (if is_waiting ws i then 1 else 0) ≡ waiters ws + (if b then 1 else 0)
waiters-set [] i b h = absurd (omega arith)
waiters-set (w ∷ ws) zero b h = ground arith
waiters-set (w ∷ ws) (suc i) b h = ground (arith, waiters-set ws i b (omega arith))

pub is_waiting-get :
    (ws : List Bool) (i : ℕ) (b : Bool) → get_elem? ws i ≡ some b → is_waiting ws i ≡ b
is_waiting-get [] i b e = cc
is_waiting-get (w ∷ ws) zero b e = cc
is_waiting-get (w ∷ ws) (suc i) b e = is_waiting-get ws i b e

none_waiting-waiters : (ws : List Bool) → waiters (none_waiting ws) ≡ 0
unfolding none_waiting
none_waiting-waiters [] = refl
none_waiting-waiters (w ∷ ws) = omega (arith, none_waiting-waiters ws)

none_waiting-is_waiting : (ws : List Bool) (i : ℕ) → is_waiting (none_waiting ws) i ≡ false
unfolding none_waiting
none_waiting-is_waiting [] i = refl
none_waiting-is_waiting (w ∷ ws) zero = refl
none_waiting-is_waiting (w ∷ ws) (suc i) = none_waiting-is_waiting ws i

length-none_waiting : (ws : List Bool) → length (none_waiting ws) ≡ length ws
unfolding none_waiting
length-none_waiting [] = refl
length-none_waiting (w ∷ ws) = omega (arith, length-none_waiting ws)

module _ {Message : Type 0} where
  -- The messages among the completed futures of stream `i`.
  abbrev pub messages_of : ℕ → List (ℕ × Result Message) → List Message
  messages_of i [] = []
  messages_of i ((j, ok m) ∷ rest) =
      let others = messages_of i rest in if j == i then m ∷ others else others
  messages_of i ((j, err e) ∷ rest) = messages_of i rest

  pub messages_of-append :
      (i : ℕ) (xs ys : List (ℕ × Result Message))
      → messages_of i (xs ++ ys) ≡ messages_of i xs ++ messages_of i ys
  messages_of-append i [] ys = refl
  messages_of-append i ((j, ok m) ∷ xs) ys = elim (Bool-cases (j == i)) [
    | inl same ↦ rw (same, messages_of-append i xs ys)
    | inr other ↦ rw (other, messages_of-append i xs ys)
  ]
  messages_of-append i ((j, err e) ∷ xs) ys = messages_of-append i xs ys

  messages_of-cancel :
      (i j : ℕ) (ws : List Bool) → messages_of i (cancel_waiters {Message = Message} j ws) ≡ []
  unfolding cancel_waiters
  messages_of-cancel i j [] = refl
  messages_of-cancel i j (true ∷ ws) = messages_of-cancel i (j + 1) ws
  messages_of-cancel i j (false ∷ ws) = messages_of-cancel i (j + 1) ws

  module _ (Q : BoundedQueue Message) where
    abbrev pub kept_in : List Q.Carrier → ℕ → List Message
    kept_in [] i = []
    kept_in (q ∷ qs) zero = Q.contents q
    kept_in (q ∷ qs) (suc i) = kept_in qs i

    pub kept_in-set :
        (qs : List Q.Carrier) (i j : ℕ) (q : Q.Carrier)
        → i < length qs
        → kept_in (set qs i q) j ≡ (if i == j then Q.contents q else kept_in qs j)
    kept_in-set [] i j q h = absurd (omega arith)
    kept_in-set (p ∷ qs) zero zero q h = ground arith
    kept_in-set (p ∷ qs) zero (suc j) q h = ground arith
    kept_in-set (p ∷ qs) (suc i) zero q h = ground arith
    kept_in-set (p ∷ qs) (suc i) (suc j) q h = ground (arith, kept_in-set qs i j q (omega arith))

    pub kept_in-get :
        (qs : List Q.Carrier) (i : ℕ) (q : Q.Carrier)
        → get_elem? qs i ≡ some q
        → kept_in qs i ≡ Q.contents q
    kept_in-get [] i q e = cc
    kept_in-get (p ∷ qs) zero q e = ap kept e
      where
        kept : Option Q.Carrier → List Message
        kept none = []
        kept (some x) = Q.contents x
    kept_in-get (p ∷ qs) (suc i) q e = kept_in-get qs i q e

    -- The counter is the number of waiters, and only a stream with nothing kept has a waiter.
    pub record IsSound (c : Connection Q) : Type 0 where
      pub same_size : length c.waiting ≡ length c.queues
      pub counted : c.receiving_promise_count ≡ waiters c.waiting
      pub idle : (i : ℕ) → is_waiting c.waiting i ≡ true → kept_in c.queues i ≡ []

    -- All messages of a stream so far: those handed out, then those kept.
    abbrev pub history : ℕ → Connection Q → List Message
    history i c = messages_of i c.completed ++ kept_in c.queues i

    pub close-IsSound : (c : Connection Q) → IsSound c → IsSound (close Q c)
    unfolding close
    close-IsSound c v = record {
      same_size = length-none_waiting c.waiting ∙ v.same_size;
      counted = sym (none_waiting-waiters c.waiting);
      idle = λ i h. cc (none_waiting-is_waiting c.waiting i);
    }

    pub close-history : (c : Connection Q) (i : ℕ) → history i (close Q c) ≡ history i c
    unfolding close
    close-history c i = rw (
      messages_of-append i c.completed (cancel_waiters 0 c.waiting),
      messages_of-cancel i 0 c.waiting,
      append-nil (messages_of i c.completed),
    )
