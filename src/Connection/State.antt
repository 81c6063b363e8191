-- ===== src/Connection/State.antt =====
-- `waitNextMessage`, the receiver's handling of a message, and `close`, of
-- src/LowLevel/Connection.cpp. A promise is named by its stream, since a stream has one at a time.
use cpv_cql_driver.Common.{
  ℕ, ◌+◌, ◌-◌, List, [], ◌∷◌, ◌++◌, Bool, true, false, not, ◌==◌, if◌then◌else◌, get_elem?, set,
  replicate, none, some, logic_exception, network_exception, out_of_range, Result, ok, err,
}
use cpv_cql_driver.Seastar.{BoundedQueue}

-- Each waiter gets a NetworkException, in the order of the streams; `i` is the first stream.
unfoldable pub cancel_waiters : {Message : Type 0} → ℕ → List Bool → List (ℕ × Result Message)
cancel_waiters i [] = []
cancel_waiters i (w ∷ rest) =
    let others = cancel_waiters (i + 1) rest in
    if w then (i, err network_exception) ∷ others else others

unfoldable pub none_waiting : List Bool → List Bool
none_waiting [] = []
none_waiting (w ∷ rest) = false ∷ none_waiting rest

module _ {Message : Type 0} (Q : BoundedQueue Message) where
  pub record Connection : Type 0 where
    pub is_ready : Bool
    -- `receivingPromiseMap_[i].first`
    pub waiting : List Bool
    pub queues : List Q.Carrier
    pub receiving_promise_count : ℕ
    -- The futures that have been completed so far, with the stream that waited.
    pub completed : List (ℕ × Result Message)
    pub messages_received : ℕ
    pub receive_message_errors : ℕ

  -- The constructor, for `getMaxStreams()` and `getMaxPendingMessages()`.
  unfoldable pub make_connection : ℕ → ℕ → Connection
  make_connection max_streams max_pending = record {
    is_ready = false;
    waiting = replicate max_streams false;
    queues = replicate max_streams (Q.make max_pending);
    receiving_promise_count = 0;
    completed = [];
    messages_received = 0;
    receive_message_errors = 0;
  }

  -- `Connection::close`
  unfoldable pub close : Connection → Connection
  close c = record c {
    is_ready = false;
    receiving_promise_count = 0;
    waiting = none_waiting c.waiting;
    completed = c.completed ++ cancel_waiters 0 c.waiting;
  }

  -- What `waitNextMessage` hands back: a future that is complete, or one that is not; `true` says
  -- that the caller is the first waiter, and starts the receiver.
  pub data Wait : Type 0 where
    now : Result Message → Wait
    later : Bool → Wait

  unfoldable pub register_waiter : Connection → ℕ → Wait × Connection
  register_waiter c i = elim (get_elem? c.waiting i) [
    | none ↦ (now (err out_of_range), c)
    | some true ↦ (now (err logic_exception), c)
    | some false ↦ (
      later (c.receiving_promise_count == 0),
      record c {
        waiting = set c.waiting i true;
        receiving_promise_count = c.receiving_promise_count + 1;
      },
    )
  ]

  -- `waitNextMessage` on a valid stream.
  unfoldable pub wait_next_message : Connection → ℕ → Wait × Connection
  unfolding register_waiter
  wait_next_message c i = elim (get_elem? c.queues i) [
    | none ↦ (now (err out_of_range), c)
    | some q ↦
        if not (Q.is_empty q)
        then (elim (Q.pop q) [
          | none ↦ (now (err out_of_range), c)
          | some (m, rest) ↦ (
            now (ok m),
            record c { queues = set c.queues i rest; completed = c.completed ++ (i, ok m) ∷ [] },
          )
        ])
        else register_waiter c i
  ]

  -- The message goes to the waiter of its stream.
  unfoldable pub deliver : Connection → ℕ → Message → Bool × Connection
  deliver c i m =
      let c' = record c {
        waiting = set c.waiting i false;
        completed = c.completed ++ (i, ok m) ∷ [];
      } in
      if c.receiving_promise_count == 0 then (true, close c') else (
        c.receiving_promise_count - 1 == 0,
        record c' { receiving_promise_count = c.receiving_promise_count - 1 },
      )

  -- Nobody waits: the message is kept for later, or the connection closed if there is no room.
  unfoldable pub enqueue : Connection → ℕ → Message → Q.Carrier → Bool × Connection
  enqueue c i m q =
      let (fits, q') = Q.push q m in
      if fits
      then (c.receiving_promise_count == 0, record c { queues = set c.queues i q' })
      else (true, close c)

  -- The receiver on a decoded message `m` of stream `i`; true stands for
  -- `seastar::stop_iteration::yes`.
  unfoldable pub receive_message : Connection → ℕ → Message → Bool × Connection
  unfolding deliver enqueue
  receive_message c₀ i m =
      let c = record c₀ { messages_received = c₀.messages_received + 1 } in
      elim (get_elem? c.queues i) [
        | none ↦ (true, close c)
        | some q ↦ elim (get_elem? c.waiting i) [
          | none ↦ (true, close c)
          | some true ↦ deliver c i m
          | some false ↦ enqueue c i m q
        ]
      ]

  -- The receiver's `handle_exception`.
  unfoldable pub receive_failed : Connection → Connection
  receive_failed c = close (record c { receive_message_errors = c.receive_message_errors + 1 })
