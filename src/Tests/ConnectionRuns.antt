-- ===== src/Tests/ConnectionRuns.antt =====
-- Runs of a connection with two streams, on the second of which a request waits.
use cpv_cql_driver.Common.{ℕ, zero, suc, ◌≡◌, refl, List, [], ◌∷◌, ◌++◌, true, false, arith}
use cpv_cql_driver.Seastar.{BoundedQueue, list_queue}
use cpv_cql_driver.Connection.Stream.{
  ConnectionStream, initial_free_ids, opens, closes, use_streams, IsAccounted,
  use_streams-IsAccounted,
}
use cpv_cql_driver.Connection.State.{
  Connection, make_connection, wait_next_message, receive_message,
}
use cpv_cql_driver.Connection.Order.{IsSound, is_waiting, kept_in, messages_of}
use cpv_cql_driver.Connection.Receive.{IsReceived, receive_message-IsReceived}
use cpv_cql_driver.Connection.Waiting.{IsAnswered, wait_next_message-IsAnswered}
use cpv_cql_driver.Connection.Fifo.{Event, waits, arrives, breaks, run, taken_in, run_fifo}

abbrev queue : BoundedQueue ℕ
queue = list_queue ℕ

abbrev one_waits : Connection queue
one_waits = record {
  is_ready = true;
  waiting = false ∷ true ∷ [];
  queues = (7 ∷ [], 2) ∷ ([], 2) ∷ [];
  receiving_promise_count = 1;
  completed = [];
  messages_received = 1;
  receive_message_errors = 0;
}

only_second_waits :
    (i : ℕ) → is_waiting one_waits.waiting i ≡ true → kept_in queue one_waits.queues i ≡ []
only_second_waits zero h = cc (h)
only_second_waits (suc zero) h = refl
only_second_waits (suc (suc i)) h = refl

one_waits-IsSound : IsSound queue one_waits
one_waits-IsSound = record { same_size = refl; counted = refl; idle = only_second_waits }

receive_message-IsReceived_example :
    IsReceived queue one_waits 1 5
      (receive_message queue one_waits 1 5).0
      (receive_message queue one_waits 1 5).1
receive_message-IsReceived_example =
    receive_message-IsReceived queue one_waits 1 5 one_waits-IsSound

wait_next_message-IsAnswered_example :
    IsAnswered queue one_waits 0
      (wait_next_message queue one_waits 0).0
      (wait_next_message queue one_waits 0).1
wait_next_message-IsAnswered_example =
    wait_next_message-IsAnswered queue one_waits 0 one_waits-IsSound (omega arith)

abbrev events : List (Event ℕ)
events = waits 1 ∷ arrives 1 5 ∷ arrives 0 6 ∷ breaks ∷ []

run_fifo_example :
    IsSound queue (run queue (make_connection queue 2 3) events)
    × (messages_of 1 (run queue (make_connection queue 2 3) events).completed
          ++ kept_in queue (run queue (make_connection queue 2 3) events).queues 1
        ≡ taken_in queue 1 (make_connection queue 2 3) events)
run_fifo_example = run_fifo queue 2 3 events 1

use_streams-IsAccounted_example :
    IsAccounted 4
      (use_streams (initial_free_ids 4, []) (opens ∷ opens ∷ closes 0 ∷ closes 0 ∷ [])).0
      (use_streams (initial_free_ids 4, []) (opens ∷ opens ∷ closes 0 ∷ closes 0 ∷ [])).1
use_streams-IsAccounted_example =
    use_streams-IsAccounted 4 (opens ∷ opens ∷ closes 0 ∷ closes 0 ∷ []) (omega arith)

abbrev first : ConnectionStream
first = record { is_valid = true; stream_id = 1 }

abbrev second : ConnectionStream
second = record { is_valid = true; stream_id = 2 }
