-- ===== src/Connection/Waiting.antt =====
-- `waitNextMessage` on a sound connection, and any sequence of waits and messages.
use cpv_cql_driver.Common.{
  ℕ, ◌<◌, ◌≡◌, inl, inr, refl, sym, ap, ◌∙◌, List, [], ◌∷◌, ◌++◌, append-nil, append_assoc, Bool,
  true, false, ◌||◌, ◌&&◌, not, if◌then◌else◌, ◌+◌, arith, ◌==◌, Bool-cases, length, length-set,
  get_elem?, get_elem?_lt, set, some, logic_exception, ok, err,
}
use cpv_cql_driver.Seastar.{BoundedQueue}
use cpv_cql_driver.Connection.State.{
  Connection, Wait, now, later, register_waiter, wait_next_message,
}
use cpv_cql_driver.Connection.Order.{
  is_waiting, is_waiting-set, waiters-set, is_waiting-get, messages_of, messages_of-append, kept_in,
  kept_in-set, kept_in-get, IsSound, history,
}

module _ {Message : Type 0} (Q : BoundedQueue Message) where
  abbrev pub tail : List Message → List Message
  tail [] = []
  tail (m ∷ rest) = rest

  abbrev pub is_empty : List Message → Bool
  is_empty [] = true
  is_empty (m ∷ rest) = false

  -- The oldest kept message; else a refusal, where there is a waiter; else a promise, with which the
  -- first waiter of the connection starts the receiver.
  abbrev pub answer_of : List Message → Bool → ℕ → Wait Q
  answer_of (m ∷ rest) waiting count = now (ok m)
  answer_of [] true count = now (err logic_exception)
  answer_of [] false count = later (count == 0)

  abbrev one_if : Bool → ℕ
  one_if b = if b then 1 else 0

  -- What a wait on stream `i` answers, and that it loses, adds and reorders no message.
  pub record IsAnswered (c : Connection Q) (i : ℕ) (w : Wait Q) (c' : Connection Q) : Type 0 where
    pub sound : IsSound Q c'
    pub history_same : (j : ℕ) → history Q j c' ≡ history Q j c
    pub answered :
        w ≡ answer_of (kept_in Q c.queues i) (is_waiting c.waiting i) c.receiving_promise_count
    pub still_kept : kept_in Q c'.queues i ≡ tail (kept_in Q c.queues i)
    pub now_waiting :
        is_waiting c'.waiting i ≡ (is_empty (kept_in Q c.queues i) || is_waiting c.waiting i)
    pub ready_same : c'.is_ready ≡ c.is_ready
    pub received_same : c'.messages_received ≡ c.messages_received
    pub errors_same : c'.receive_message_errors ≡ c.receive_message_errors
    pub others_waiting :
        (j : ℕ) → (i == j) ≡ false → is_waiting c'.waiting j ≡ is_waiting c.waiting j
    pub others_kept : (j : ℕ) → (i == j) ≡ false → kept_in Q c'.queues j ≡ kept_in Q c.queues j
    pub waiters_counted :
        c'.receiving_promise_count
        ≡ c.receiving_promise_count
          + one_if (is_empty (kept_in Q c.queues i) && not (is_waiting c.waiting i))
    pub refusal : kept_in Q c.queues i ≡ [] → is_waiting c.waiting i ≡ true → c' ≡ c

  module _ (c : Connection Q) (i : ℕ) (v : IsSound Q c) (size : i < length c.queues) where
    in_waiting : i < length c.waiting
    in_waiting = omega (arith, v.same_size, size)

    register_lem :
        kept_in Q c.queues i ≡ []
        → (b : Bool) → get_elem? c.waiting i ≡ some b
        → IsAnswered c i (register_waiter Q c i).0 (register_waiter Q c i).1
    unfolding register_waiter
    register_lem nothing true e =
        let on = is_waiting-get c.waiting i true e in
        rw (e, register_waiter)
          (record {
            sound = v;
            history_same = λ j. refl;
            answered = rw (nothing, on);
            still_kept = rw nothing;
            now_waiting = rw (nothing, on);
            ready_same = refl;
            received_same = refl;
            errors_same = refl;
            others_waiting = λ j h. refl;
            others_kept = λ j h. refl;
            waiters_counted = rw (nothing, on) (omega arith);
            refusal = λ h k. refl;
          })
    register_lem nothing false e =
        let off = is_waiting-get c.waiting i false e in
        rw (e, register_waiter)
          (record {
            sound = record {
              same_size = length-set c.waiting i true ∙ v.same_size;
              counted = ground (arith, v.counted, waiters-set c.waiting i true in_waiting, off);
              idle = λ j h. elim (Bool-cases (i == j)) [
                | inl same ↦ let e' : i ≡ j = ground arith in cc (nothing, e')
                | inr other ↦
                    v.idle j (ground (arith, is_waiting-set c.waiting i j true in_waiting))
              ];
            };
            history_same = λ j. refl;
            answered = rw (nothing, off);
            still_kept = rw nothing;
            now_waiting = rw nothing (ground (arith, is_waiting-set c.waiting i i true in_waiting));
            ready_same = refl;
            received_same = refl;
            errors_same = refl;
            others_waiting = λ j h. is_waiting-set c.waiting i j true in_waiting ∙ rw h refl;
            others_kept = λ j h. refl;
            waiters_counted = rw (nothing, off) refl;
            refusal = λ h k. let no : false ≡ true = sym off ∙ k in absurd (cc (no));
          })

    popped_history :
        (q' : Q.Carrier) (m : Message) (rest : List Message)
        → Q.contents q' ≡ rest
        → kept_in Q c.queues i ≡ m ∷ rest
        → (j : ℕ)
        → messages_of j (c.completed ++ (i, ok m) ∷ []) ++ kept_in Q (set c.queues i q') j
          ≡ history Q j c
    popped_history q' m rest left kept j = elim (Bool-cases (i == j)) [
      | inl same ↦
          let e : i ≡ j = ground arith in
          let kept_j : kept_in Q c.queues j ≡ m ∷ rest = cc (kept, e) in
          rw
            (
              messages_of-append j c.completed ((i, ok m) ∷ []),
              kept_in-set Q c.queues i j q' size,
              same,
              left,
              kept_j,
            )
            (append_assoc (messages_of j c.completed) (m ∷ []) rest)
      | inr other ↦ rw (
        messages_of-append j c.completed ((i, ok m) ∷ []),
        kept_in-set Q c.queues i j q' size,
        other,
        append-nil (messages_of j c.completed),
      )
    ]

    pop_lem :
        (q : Q.Carrier) (m : Message) (rest : List Message)
        → get_elem? c.queues i ≡ some q
        → Q.contents q ≡ m ∷ rest
        → IsAnswered c i (wait_next_message Q c i).0 (wait_next_message Q c i).1
    unfolding wait_next_message
    pop_lem q m rest at e =
        let (q', popped, left, cap) = Q.pop_front q m rest e in
        let busy : Q.is_empty q ≡ false = ground (arith, Q.is_empty_lem q, ap length e) in
        let kept : kept_in Q c.queues i ≡ m ∷ rest = kept_in-get Q c.queues i q at ∙ e in
        rw (at, wait_next_message, busy, popped)
          (record {
            sound = record {
              same_size = v.same_size ∙ sym (length-set c.queues i q');
              counted = v.counted;
              idle = λ j h. elim (Bool-cases (i == j)) [
                | inl same ↦ let e' : i ≡ j = ground arith in absurd (cc (kept, v.idle j h, e'))
                | inr other ↦ kept_in-set Q c.queues i j q' size ∙ rw other (v.idle j h)
              ];
            };
            history_same = λ j. popped_history q' m rest left kept j;
            answered = rw kept;
            still_kept =
                let same : (i == i) ≡ true = ground arith in
                kept_in-set Q c.queues i i q' size ∙ rw (same, kept) left;
            now_waiting = rw kept;
            ready_same = refl;
            received_same = refl;
            errors_same = refl;
            others_waiting = λ j h. refl;
            others_kept = λ j h. kept_in-set Q c.queues i j q' size ∙ rw h refl;
            waiters_counted = rw kept (omega arith);
            refusal = λ h k. let no : m ∷ rest ≡ [] = sym kept ∙ h in absurd (cc (no));
          })

    answer :
        (q : Q.Carrier) (xs : List Message)
        → get_elem? c.queues i ≡ some q
        → Q.contents q ≡ xs
        → IsAnswered c i (wait_next_message Q c i).0 (wait_next_message Q c i).1
    unfolding wait_next_message
    answer q (m ∷ rest) at e = unfold wait_next_message in pop_lem q m rest at e
    answer q [] at e =
        let idle : Q.is_empty q ≡ true = ground (arith, Q.is_empty_lem q, ap length e) in
        let (b, w) = get_elem?_lt c.waiting i in_waiting in
        rw (at, wait_next_message, idle) (register_lem (kept_in-get Q c.queues i q at ∙ e) b w)

    -- A wait on a stream of a sound connection gets the oldest kept message; with none kept it
    -- becomes the stream's waiter, which is counted, or, if there is one already, is refused with a
    -- LogicException and the whole connection is as it was. The other streams' waiters and kept
    -- messages, the ready state, the counters of messages and errors, and every stream's history
    -- never change, and the connection stays sound.
    pub wait_next_message-IsAnswered :
        IsAnswered c i (wait_next_message Q c i).0 (wait_next_message Q c i).1
    wait_next_message-IsAnswered =
        let (q, at) = get_elem?_lt c.queues i size in answer q (Q.contents q) at refl
