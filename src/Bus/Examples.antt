-- ===== src/Bus/Examples.antt =====
-- Runs of the ring of src/bus/message_bus.c at concrete messages.
use primagen.Base.{
  true, ℕ, ◌^◌, ◌≡◌, refl, Bool, false, ltb, ltb→lt, List, [], ◌∷◌, ◌++◌, some, none, arith, ◌⊎◌,
  pos, is_positive, map,
}
use primagen.Bus.Queue.{
  MessageQueue, inbound, initial, advance, put, grow, copy_live, message_queue_send,
  message_queue_init, message_queue_receive, take_front, message_queue_receive_timed, await_empty,
  message_queue_free, message_queue_close, woken, null,
}
use primagen.Bus.Fifo.{contents, IsValid}
use primagen.Bus.Sending.{Bounded, Sent, message_queue_send_lem}
use primagen.Bus.Runs.{
  Op, sends, receives, closes, run, step, start, IsFifo, IsSane, run-IsFifo, initial-IsValid, Takes,
  message_queue_receive_lem,
}
use primagen.Bus.Waiting.{Outcome, message_queue_receive_timed_lem, message_queue_free_lem}

-- A `malloc` that serves what PTRDIFF_MAX allows.
abbrev generous : ℕ → Bool
generous n = ltb n (2 ^ 63)

generous-Bounded : Bounded generous
generous-Bounded n h = ltb→lt n (2 ^ 63) h

-- Sixteen sends make the ring of sixteen slots grow.
abbrev send_each : List ℕ → List (Op ℕ)
send_each [] = []
send_each (n ∷ ns) = sends generous n ∷ send_each ns

abbrev rest : List ℕ
rest = 6 ∷ 7 ∷ 8 ∷ 9 ∷ 10 ∷ 11 ∷ 12 ∷ 13 ∷ 14 ∷ 15 ∷ 16 ∷ 17 ∷ 18 ∷ 19 ∷ []

abbrev history : List (Op ℕ)
history =
    send_each (1 ∷ 2 ∷ 3 ∷ 4 ∷ 5 ∷ [])
    ++ (receives ∷ receives ∷ (send_each rest ++ (receives ∷ closes ∷ [])))

send_each-IsSane : (ns : List ℕ) (ops : List (Op ℕ)) → IsSane ops → IsSane (send_each ns ++ ops)
send_each-IsSane [] ops h = h
send_each-IsSane (n ∷ ns) ops h = (generous-Bounded, send_each-IsSane ns ops h)

history_grows :
    let t = run (start (initial inbound)) history in
    (t.queue.capacity ≡ 32) × (t.received ≡ map some (1 ∷ 2 ∷ 3 ∷ [])) × (t.queue.front ≡ 1)
unfolding run step message_queue_send message_queue_receive put grow copy_live advance take_front
    message_queue_close
history_grows = (refl, refl, refl)

run-IsFifo_example : IsFifo (run (start (initial inbound)) history)
unfolding message_queue_init
run-IsFifo_example = run-IsFifo generous inbound (initial inbound) history refl (
    send_each-IsSane (1 ∷ 2 ∷ 3 ∷ 4 ∷ 5 ∷ [])
      (receives ∷ receives ∷ (send_each rest ++ (receives ∷ closes ∷ [])))
      (send_each-IsSane rest (receives ∷ closes ∷ []) tt))

-- Three messages in a full ring of four slots.
abbrev full : MessageQueue ℕ
full = record {
  items = some 8 ∷ some 9 ∷ none ∷ some 7 ∷ [];
  front = 3;
  rear = 2;
  capacity = 4;
  message_kind = inbound;
  closed = false;
}

full-IsValid : IsValid full
full-IsValid = record {
  front_in = omega arith;
  rear_in = omega arith;
  array = refl;
  addressable = omega arith;
}

message_queue_send_lem_example :
    Sent generous generous-Bounded full 5 (message_queue_send generous full 5)
message_queue_send_lem_example =
    message_queue_send_lem generous generous-Bounded full 5 full-IsValid

message_queue_receive_lem_example : Takes full (message_queue_receive full)
message_queue_receive_lem_example = message_queue_receive_lem full full-IsValid

message_queue_receive_timed_lem_example :
    ((is_positive (pos 10) ≡ false)
      × (message_queue_receive_timed (initial inbound) (pos 10) (woken full ∷ [])
          ≡ (null, initial inbound)))
    ⊎ ((is_positive (pos 10) ≡ true)
        × Outcome
            (initial inbound)
            (woken full ∷ [])
            (message_queue_receive_timed (initial inbound) (pos 10) (woken full ∷ [])))
message_queue_receive_timed_lem_example =
    message_queue_receive_timed_lem (initial inbound) (pos 10) (woken full ∷ [])
      (initial-IsValid inbound, full-IsValid)

message_queue_free_lem_example :
    message_queue_free full [] ≡ contents (await_empty 100 (message_queue_close full) [])
message_queue_free_lem_example = message_queue_free_lem full [] full-IsValid tt
