-- ===== src/Connection/Receive.antt =====
-- The receiver and `waitNextMessage` on a sound connection.
use cpv_cql_driver.Common.{
  ℕ, zero, suc, ◌+◌, ◌≤◌, ◌<◌, ◌≡◌, inl, inr, refl, sym, ap, ◌∙◌, List, [], ◌∷◌, ◌++◌, append-nil,
  append_assoc, Bool, true, false, ◌&&◌, ◌||◌, arith, ltb, ◌==◌, if◌then◌else◌, Bool-cases, length,
  length-set, get_elem?, get_elem?-lt, set, Option-cases, Option, none, some, ok,
}
use cpv_cql_driver.Seastar.{BoundedQueue}
use cpv_cql_driver.Connection.State.{Connection, close, deliver, enqueue, receive_message}
use cpv_cql_driver.Connection.Order.{
  is_waiting, is_waiting-set, waiters-set, is_waiting-get, messages_of, messages_of-append, kept_in,
  kept_in-set, kept_in-get, IsSound, history, close-IsSound, close-history,
}

module _ {Message : Type 0} (Q : BoundedQueue Message) where
  abbrev pub has_room : List Q.Carrier → ℕ → Bool
  has_room [] i = false
  has_room (q ∷ qs) zero = ltb (length (Q.contents q)) (Q.capacity q)
  has_room (q ∷ qs) (suc i) = has_room qs i

  has_room-get :
      (qs : List Q.Carrier) (i : ℕ) (q : Q.Carrier)
      → get_elem? qs i ≡ some q
      → has_room qs i ≡ ltb (length (Q.contents q)) (Q.capacity q)
  has_room-get [] i q e = cc
  has_room-get (p ∷ qs) zero q e = ap room e
    where
      room : Option Q.Carrier → Bool
      room none = false
      room (some x) = ltb (length (Q.contents x)) (Q.capacity x)
  has_room-get (p ∷ qs) (suc i) q e = has_room-get qs i q e

  -- A message of a stream of this connection is taken if somebody waits for it or it can be kept.
  abbrev pub is_taken : Connection Q → ℕ → Bool
  is_taken c i = ltb i (length c.queues) && (is_waiting c.waiting i || has_room c.queues i)

  -- What the receiver does with message `m` of stream `i`.
  pub record IsReceived (c : Connection Q) (i : ℕ) (m : Message) (stops : Bool) (c' : Connection Q)
      : Type 0 where
    pub sound : IsSound Q c'
    pub history_grows :
        (j : ℕ) → history Q j c' ≡ history Q j c ++ (if is_taken c i && i == j then m ∷ [] else [])
    pub ready : c'.is_ready ≡ (if is_taken c i then c.is_ready else false)
    pub stops_unwaited : stops ≡ (c'.receiving_promise_count == 0)

  module _ (c : Connection Q) (i : ℕ) (m : Message) (v : IsSound Q c) where
    module _ (w : get_elem? c.waiting i ≡ some true) where
      waits : is_waiting c.waiting i ≡ true
      waits = is_waiting-get c.waiting i true w

      in_range : i < length c.waiting
      in_range = get_elem?-lt c.waiting i true w

      size : i < length c.queues
      size = omega (arith, in_range, v.same_size)

      taken : is_taken c i ≡ true
      taken = ground (arith, size, waits)

      handed_over :
          (j : ℕ)
          → messages_of j (c.completed ++ (i, ok m) ∷ []) ++ kept_in Q c.queues j
            ≡ history Q j c ++ (if i == j then m ∷ [] else [])
      handed_over j = elim (Bool-cases (i == j)) [
        | inl same ↦
            let nothing : kept_in Q c.queues j ≡ [] = v.idle j (ground (arith, waits)) in
            rw
              (
                messages_of-append j c.completed ((i, ok m) ∷ []),
                same,
                nothing,
                append-nil (messages_of j c.completed),
              )
              (append-nil (messages_of j c.completed ++ m ∷ []))
        | inr other ↦
            rw
              (
                messages_of-append j c.completed ((i, ok m) ∷ []),
                other,
                append-nil (messages_of j c.completed),
              )
              (sym (append-nil _))
      ]

      deliver_lem : IsReceived c i m (deliver Q c i m).0 (deliver Q c i m).1
      unfolding deliver
      deliver_lem =
          let busy : (c.receiving_promise_count == 0) ≡ false =
            ground (arith, v.counted, waiters-set c.waiting i false in_range, waits) in
          rw busy (record {
            sound = record {
              same_size = length-set c.waiting i false ∙ v.same_size;
              counted = ground (arith, v.counted, waiters-set c.waiting i false in_range, waits);
              idle = λ j h. v.idle j (ground (arith, is_waiting-set c.waiting i j false in_range));
            };
            history_grows = λ j. rw taken (handed_over j);
            ready = rw taken;
            stops_unwaited = refl;
          })

    close_lem : is_taken c i ≡ false → IsReceived c i m true (close Q c)
    unfolding close
    close_lem h = record {
      sound = unfold close in close-IsSound Q c v;
      history_grows =
          λ j. unfold close in rw h (close-history Q c j ∙ sym (append-nil (history Q j c)));
      ready = rw h;
      stops_unwaited = refl;
    }

    module _ (q : Q.Carrier) (at : get_elem? c.queues i ≡ some q)
        (w : get_elem? c.waiting i ≡ some false) where
      size' : i < length c.queues
      size' = get_elem?-lt c.queues i q at

      free : is_waiting c.waiting i ≡ false
      free = is_waiting-get c.waiting i false w

      is_taken-room : is_taken c i ≡ ltb (length (Q.contents q)) (Q.capacity q)
      is_taken-room = ground (arith, size', free, has_room-get c.queues i q at)

      kept_more :
          ltb (length (Q.contents q)) (Q.capacity q) ≡ true
          → (j : ℕ)
          → kept_in Q (set c.queues i (Q.push q m).1) j
            ≡ kept_in Q c.queues j ++ (if i == j then m ∷ [] else [])
      kept_more room j = elim (Bool-cases (i == j)) [
        | inl same ↦
            let e : i ≡ j = ground arith in
            kept_in-set Q c.queues i j (Q.push q m).1 size'
            ∙ rw same (
                Q.contents-push q m
                ∙ rw room (
                    ap (λ xs. xs ++ m ∷ [])
                      (sym (kept_in-get Q c.queues i q at) ∙ ap (kept_in Q c.queues) e)))
        | inr other ↦
            kept_in-set Q c.queues i j (Q.push q m).1 size'
            ∙ rw other (sym (append-nil (kept_in Q c.queues j)))
      ]

      enqueue_lem : IsReceived c i m (enqueue Q c i m q).0 (enqueue Q c i m q).1
      enqueue_lem = elim (Bool-cases (ltb (length (Q.contents q)) (Q.capacity q))) [
        | inl room ↦
            unfold enqueue in
            rw (Q.push_result q m ∙ room) (record {
              sound = record {
                same_size = v.same_size ∙ sym (length-set c.queues i (Q.push q m).1);
                counted = v.counted;
                idle = λ j h. elim (Bool-cases (i == j)) [
                  | inl same ↦ let e : i ≡ j = ground arith in absurd (cc (free, e))
                  | inr other ↦
                      kept_in-set Q c.queues i j (Q.push q m).1 size' ∙ rw other (v.idle j h)
                ];
              };
              history_grows = λ j.
                  rw (is_taken-room, room, kept_more room j)
                    (sym (append_assoc (messages_of j c.completed) (kept_in Q c.queues j) _));
              ready = rw (is_taken-room, room);
              stops_unwaited = refl;
            })
        | inr full ↦
            unfold enqueue in rw (Q.push_result q m ∙ full) (close_lem (is_taken-room ∙ full))
      ]

  no_such_stream : {A : Type 0} (xs : List A) (i : ℕ) → get_elem? xs i ≡ none → length xs ≤ i
  no_such_stream [] i e = omega arith
  no_such_stream (x ∷ xs) zero e = cc
  no_such_stream (x ∷ xs) (suc i) e = omega (arith, no_such_stream xs i e)

  abbrev counted_up : Connection Q → Connection Q
  counted_up c = record c { messages_received = c.messages_received + 1 }

  receive_counted :
      (c : Connection Q) (i : ℕ) (m : Message)
      → IsSound Q c
      → IsReceived (counted_up c) i m (receive_message Q c i m).0 (receive_message Q c i m).1
  unfolding receive_message
  receive_counted c i m v =
      let v' : IsSound Q (counted_up c) = record {
        same_size = v.same_size;
        counted = v.counted;
        idle = v.idle;
      } in
      elim (Option-cases (get_elem? c.queues i)) [
        | inl n ↦
            rw (n, receive_message)
              (close_lem (counted_up c) i m v' (ground (arith, no_such_stream c.queues i n)))
        | inr (q, e) ↦ elim (Option-cases (get_elem? c.waiting i)) [
          | inl n ↦
              rw (e, n, receive_message)
                (close_lem (counted_up c) i m v'
                  (ground (arith, no_such_stream c.waiting i n, v.same_size)))
          | inr (true, w) ↦ rw (e, w, receive_message) (deliver_lem (counted_up c) i m v' w)
          | inr (false, w) ↦ rw (e, w, receive_message) (enqueue_lem (counted_up c) i m v' q e w)
        ]
      ]

  -- A message that is taken joins the history of its stream at the end, and no other stream's
  -- history changes; the connection is closed where a message is not taken, and otherwise is as
  -- ready as before. The receiver stops exactly where nobody waits any more, its count being the
  -- number of waiters before and after.
  pub receive_message-IsReceived :
      (c : Connection Q) (i : ℕ) (m : Message)
      → IsSound Q c
      → IsReceived c i m (receive_message Q c i m).0 (receive_message Q c i m).1
  receive_message-IsReceived c i m v =
      let r = receive_counted c i m v in
      record {
        sound = r.sound;
        history_grows = r.history_grows;
        ready = r.ready;
        stops_unwaited = r.stops_unwaited;
      }
