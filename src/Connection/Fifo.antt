-- ===== src/Connection/Fifo.antt =====
-- A connection from its construction on, under any sequence of waits, messages and failures.
use cpv_cql_driver.Common.{
  ℕ, zero, suc, ◌+◌, ◌≡◌, inl, inr, refl, sym, ap, ◌∙◌, List, [], ◌∷◌, ◌++◌, append-nil,
  append_assoc, false, ◌&&◌, arith, ◌==◌, if◌then◌else◌, length-replicate, get_elem?, get_elem?-lt,
  replicate, Option-cases,
}
use cpv_cql_driver.Seastar.{BoundedQueue}
use cpv_cql_driver.Connection.State.{
  Connection, make_connection, wait_next_message, receive_message, receive_failed,
}
use cpv_cql_driver.Connection.Order.{
  waiters, is_waiting, messages_of, kept_in, IsSound, history, close-IsSound, close-history,
}
use cpv_cql_driver.Connection.Receive.{is_taken, receive_message-IsReceived}
use cpv_cql_driver.Connection.Waiting.{wait_next_message-IsAnswered}

pub data Event (Message : Type 0) : Type 0 where
  waits : ℕ → Event Message
  arrives : ℕ → Message → Event Message
  breaks : Event Message

waiters-replicate : (n : ℕ) → waiters (replicate n false) ≡ 0
waiters-replicate zero = refl
waiters-replicate (suc n) = omega (arith, waiters-replicate n)

is_waiting-replicate : (n i : ℕ) → is_waiting (replicate n false) i ≡ false
is_waiting-replicate zero i = refl
is_waiting-replicate (suc n) zero = refl
is_waiting-replicate (suc n) (suc i) = is_waiting-replicate n i

module _ {Message : Type 0} (Q : BoundedQueue Message) where
  unfoldable pub step : Connection Q → Event Message → Connection Q
  step c (waits i) = (wait_next_message Q c i).1
  step c (arrives i m) = (receive_message Q c i m).1
  step c breaks = receive_failed Q c

  unfoldable pub run : Connection Q → List (Event Message) → Connection Q
  run c [] = c
  run c (e ∷ es) = run (step c e) es

  -- The messages of stream `j` that are taken, in the order of arrival.
  abbrev pub taken_by : ℕ → Connection Q → Event Message → List Message
  taken_by j c (waits i) = []
  taken_by j c (arrives i m) = if is_taken Q c i && i == j then m ∷ [] else []
  taken_by j c breaks = []

  abbrev pub taken_in : ℕ → Connection Q → List (Event Message) → List Message
  taken_in j c [] = []
  taken_in j c (e ∷ es) = taken_by j c e ++ taken_in j (step c e) es

  kept_in-replicate :
      (n i : ℕ) (q : Q.Carrier) → Q.contents q ≡ [] → kept_in Q (replicate n q) i ≡ []
  kept_in-replicate zero i q e = refl
  kept_in-replicate (suc n) zero q e = e
  kept_in-replicate (suc n) (suc i) q e = kept_in-replicate n i q e

  make_connection-IsSound : (n k : ℕ) → IsSound Q (make_connection Q n k)
  unfolding make_connection
  make_connection-IsSound n k = record {
    same_size = length-replicate n false ∙ sym (length-replicate n (Q.make k));
    counted = sym (waiters-replicate n);
    idle = λ i h. kept_in-replicate n i (Q.make k) (Q.contents-make k);
  }

  abbrev StepHolds : Connection Q → Event Message → Connection Q → Type 0
  StepHolds c e c' = IsSound Q c' × ((j : ℕ) → history Q j c' ≡ history Q j c ++ taken_by j c e)

  wait_holds :
      (c : Connection Q) (i : ℕ) → IsSound Q c → StepHolds c (waits i) (wait_next_message Q c i).1
  wait_holds c i v = elim (Option-cases (get_elem? c.queues i)) [
    | inl n ↦
        unfold wait_next_message in
        rw (n, wait_next_message) (v, λ j. sym (append-nil (history Q j c)))
    | inr (q, e) ↦
        let a = wait_next_message-IsAnswered Q c i v (get_elem?-lt c.queues i q e) in
        (a.sound, λ j. a.history_same j ∙ sym (append-nil (history Q j c)))
  ]

  break_holds : (c : Connection Q) → IsSound Q c → StepHolds c breaks (receive_failed Q c)
  unfolding receive_failed
  break_holds c v =
      let c' : Connection Q = record c { receive_message_errors = c.receive_message_errors + 1 } in
      let v' : IsSound Q c' = record {
        same_size = v.same_size;
        counted = v.counted;
        idle = v.idle;
      } in
      (close-IsSound Q c' v', λ j. close-history Q c' j ∙ sym (append-nil (history Q j c)))

  step_holds : (c : Connection Q) (e : Event Message) → IsSound Q c → StepHolds c e (step c e)
  unfolding step
  step_holds c (waits i) v = wait_holds c i v
  step_holds c (arrives i m) v =
      let r = receive_message-IsReceived Q c i m v in (r.sound, r.history_grows)
  step_holds c breaks v = break_holds c v

  run_holds :
      (es : List (Event Message)) (c : Connection Q)
      → IsSound Q c
      → IsSound Q (run c es) × ((j : ℕ) → history Q j (run c es) ≡ history Q j c ++ taken_in j c es)
  unfolding run
  run_holds [] c v = (v, λ j. sym (append-nil (history Q j c)))
  run_holds (e ∷ es) c v =
      let (v', h) = step_holds c e v in
      let (w, k) = run_holds es (step c e) v' in
      (
        w,
        λ j.
            k j
            ∙ ap (λ xs. xs ++ taken_in j (step c e) es) (h j)
            ∙ append_assoc (history Q j c) (taken_by j c e) (taken_in j (step c e) es),
      )

  -- In every run of a new connection the messages that a stream's waiters have got, followed by
  -- those kept for it, are the stream's taken messages in the order of arrival: none is lost,
  -- doubled, reordered or given to another stream, and the count of waiters is right throughout.
  pub run_fifo :
      (max_streams max_pending : ℕ) (es : List (Event Message)) (j : ℕ)
      → let c = make_connection Q max_streams max_pending in
        IsSound Q (run c es)
        × (messages_of j (run c es).completed ++ kept_in Q (run c es).queues j ≡ taken_in j c es)
  run_fifo n k es j =
      let c = make_connection Q n k in
      let (v, h) = run_holds es c (make_connection-IsSound n k) in
      (v, h j ∙ ap (λ xs. xs ++ taken_in j c es) (new_history n k j))
    where
      new_history : (n k j : ℕ) → history Q j (make_connection Q n k) ≡ []
      new_history n k j =
          unfold make_connection in kept_in-replicate n j (Q.make k) (Q.contents-make k)
