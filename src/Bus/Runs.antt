-- ===== src/Bus/Runs.antt =====
-- Whole histories of one queue of src/bus/message_bus.c, and what ends them.
use mathlib.Core.List.{map-append}
use primagen.Base.{
  ℕ, ◌≡◌, refl, sym, ◌∙◌, inl, inr, Bool, true, false, List, [], ◌∷◌, ◌++◌, map, append_assoc,
  Option, none, some, arith, if◌then◌else◌, get_or, Bool-cases,
}
use primagen.Bus.Queue.{
  MessageQueue, MessageKind, Reply, blocked, null, got, Fate, queued, freed, initial,
  message_queue_init, message_queue_close, message_queue_send, is_empty, take_front,
  message_queue_receive,
}
use primagen.Bus.Fifo.{contents, IsValid, popped, popped-IsValid, contents-popped, is_empty_iff}
use primagen.Bus.Sending.{Bounded, Sends, message_queue_send_lem}

pub data Op (M : Type 0) : Type 0 where
  sends : (ℕ → Bool) → M → Op M
  receives closes : Op M

-- A queue, what was received from it and what it accepted, in order.
pub record Traffic (M : Type 0) : Type 0 where
  pub queue : MessageQueue M
  pub received : List (Option M)
  pub accepted : List M

module _ {M : Type 0} where
  after_send : Traffic M → M → MessageQueue M × Fate → Traffic M
  after_send t msg (q, queued) = record t { queue = q; accepted = t.accepted ++ msg ∷ [] }
  after_send t msg (q, freed) = record t { queue = q }

  after_receive : Traffic M → Reply M × MessageQueue M → Traffic M
  after_receive t (got slot, q) = record t { queue = q; received = t.received ++ slot ∷ [] }
  after_receive t (_, q) = record t { queue = q }

  unfoldable pub step : Traffic M → Op M → Traffic M
  unfolding after_send after_receive
  step t (sends malloc msg) = after_send t msg (message_queue_send malloc t.queue msg)
  step t receives = after_receive t (message_queue_receive t.queue)
  step t closes = record t { queue = message_queue_close t.queue }

  unfoldable pub run : Traffic M → List (Op M) → Traffic M
  run t [] = t
  run t (op ∷ ops) = run (step t op) ops

  abbrev pub start : MessageQueue M → Traffic M
  start q = record { queue = q; received = []; accepted = [] }

  abbrev pub IsSane : List (Op M) → Type 0
  IsSane [] = Unit
  IsSane (sends malloc msg ∷ ops) = Bounded malloc × IsSane ops
  IsSane (_ ∷ ops) = IsSane ops

  -- The queue is well formed, and what was received and what it still holds is what it accepted.
  abbrev pub IsFifo : Traffic M → Type 0
  IsFifo t = IsValid t.queue × (t.received ++ contents t.queue ≡ map some t.accepted)

  send-IsFifo :
      (t : Traffic M) (malloc : ℕ → Bool) (bounded : Bounded malloc) (msg : M)
      (r : MessageQueue M × Fate)
      → IsFifo t
      → IsValid r.0
      → Sends malloc bounded t.queue msg r
      → IsFifo (after_send t msg r)
  unfolding after_send
  send-IsFifo t malloc b msg (q', queued) (v, e) v' (inl (_, _, s)) = (
    v',
    rw (s, ← append_assoc t.received (contents t.queue) (some msg ∷ []), e)
        (sym (map-append some t.accepted (msg ∷ []))),
  )
  send-IsFifo t malloc b msg (q', queued) (v, e) v' (inr (f, _, _)) = cc
  send-IsFifo t malloc b msg (q', freed) (v, e) v' (inl (f, _, _)) = cc
  send-IsFifo t malloc b msg (q', freed) (v, e) v' (inr (_, same, _)) = rw same (v, e)

  -- What a receive comes to: it waits at an open queue with no message, it returns NULL at a
  -- closed one, and else it takes the oldest message.
  abbrev pub Takes : MessageQueue M → Reply M × MessageQueue M → Type 0
  Takes q (blocked, q') = (q' ≡ q) × (contents q ≡ []) × (q.closed ≡ false)
  Takes q (null, q') = (q' ≡ q) × (contents q ≡ []) × (q.closed ≡ true)
  Takes q (got slot, q') = IsValid q' × (contents q ≡ slot ∷ contents q')

  pub take_front_eq :
      (q : MessageQueue M)
      → is_empty q ≡ false
      → take_front q ≡ (got (get_or q.items q.front none), popped q)
  unfolding take_front
  take_front_eq q e = simp e

  pub take_front-Takes :
      (q : MessageQueue M) → IsValid q → is_empty q ≡ false → Takes q (take_front q)
  take_front-Takes q v e = rw (take_front_eq q e) (popped-IsValid q v, contents-popped q v e)

  pub receive_eq :
      (q : MessageQueue M)
      → message_queue_receive q
        ≡ (if is_empty q then (if q.closed then (null, q) else (blocked, q)) else take_front q)
  unfolding message_queue_receive take_front
  receive_eq q = ground arith

  at_empty :
      (q : MessageQueue M) (c : Bool)
      → contents q ≡ []
      → q.closed ≡ c
      → Takes q (if c then (null, q) else (blocked, q))
  at_empty q true h e = (refl, h, e)
  at_empty q false h e = (refl, h, e)

  -- A receive on a well formed ring takes the oldest message off it and leaves the others, and
  -- does so exactly when there is one; on an empty ring it returns NULL if the queue is closed
  -- and waits if it is open, and changes nothing.
  pub message_queue_receive_lem :
      (q : MessageQueue M) → IsValid q → Takes q (message_queue_receive q)
  message_queue_receive_lem q v = rw (receive_eq q) (elim (Bool-cases (is_empty q)) [
    | inl e ↦ rw e (at_empty q q.closed ((is_empty_iff q v).0 e) refl)
    | inr e ↦ rw e (take_front-Takes q v e)
  ])

  receive-IsFifo :
      (t : Traffic M) (r : Reply M × MessageQueue M)
      → IsFifo t
      → Takes t.queue r
      → IsFifo (after_receive t r)
  unfolding after_receive
  receive-IsFifo t (blocked, q') (v, e) (same, _, _) = rw same (v, e)
  receive-IsFifo t (null, q') (v, e) (same, _, _) = rw same (v, e)
  receive-IsFifo t (got slot, q') (v, e) (v', c) =
      (v', append_assoc t.received (slot ∷ []) (contents q') ∙ rw (← c) e)

  pub close-IsValid : (q : MessageQueue M) → IsValid q → IsValid (message_queue_close q)
  unfolding message_queue_close
  close-IsValid q v = record {
    front_in = v.front_in;
    rear_in = v.rear_in;
    array = v.array;
    addressable = v.addressable;
  }

  step-IsFifo : (t : Traffic M) (op : Op M) → IsSane (op ∷ []) → IsFifo t → IsFifo (step t op)
  unfolding step message_queue_close
  step-IsFifo t (sends malloc msg) (b, _) f =
      let (v, s) = message_queue_send_lem malloc b t.queue msg f.0 in
      send-IsFifo t malloc b msg (message_queue_send malloc t.queue msg) f v s
  step-IsFifo t receives _ f =
      receive-IsFifo t (message_queue_receive t.queue) f (message_queue_receive_lem t.queue f.0)
  step-IsFifo t closes _ (v, e) = (close-IsValid t.queue v, e)

  run-IsFifo_lem : (t : Traffic M) (ops : List (Op M)) → IsSane ops → IsFifo t → IsFifo (run t ops)
  unfolding run
  run-IsFifo_lem t [] h f = f
  run-IsFifo_lem t (sends malloc msg ∷ ops) (b, h) f =
      run-IsFifo_lem (step t (sends malloc msg)) ops h (step-IsFifo t (sends malloc msg) (b, tt) f)
  run-IsFifo_lem t (receives ∷ ops) h f =
      run-IsFifo_lem (step t receives) ops h (step-IsFifo t receives tt f)
  run-IsFifo_lem t (closes ∷ ops) h f =
      run-IsFifo_lem (step t closes) ops h (step-IsFifo t closes tt f)

  pub initial-IsValid : (kind : MessageKind) → IsValid (initial {M = M} kind)
  initial-IsValid kind = record {
    front_in = omega arith;
    rear_in = omega arith;
    array = refl;
    addressable = omega arith;
  }

  init-IsFifo :
      (malloc : ℕ → Bool) (kind : MessageKind) (q : MessageQueue M)
      → message_queue_init malloc kind ≡ some q
      → IsFifo (start q)
  unfolding message_queue_init
  init-IsFifo malloc kind q h =
      let e : q ≡ initial kind = ground arith in rw e (initial-IsValid kind, refl)

  -- In any history of sends, receives and closes of a new queue, whatever `malloc` answers, the
  -- messages received and then those still queued are the accepted messages in the order of their
  -- sends: none is lost, repeated, reordered or read from a slot that was never written.
  pub run-IsFifo :
      (malloc : ℕ → Bool) (kind : MessageKind) (q : MessageQueue M) (ops : List (Op M))
      → message_queue_init malloc kind ≡ some q
      → IsSane ops
      → IsFifo (run (start q) ops)
  run-IsFifo malloc kind q ops h sane =
      run-IsFifo_lem (start q) ops sane (init-IsFifo malloc kind q h)
