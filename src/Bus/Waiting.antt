-- ===== src/Bus/Waiting.antt =====
-- The timed receive and the end of a queue in src/bus/message_bus.c.
use primagen.Base.{
  ℕ, zero, suc, ◌≤◌, ◌≡◌, refl, sym, ap, ◌∙◌, ◌⊎◌, inl, inr, true, false, List, [], ◌∷◌, none,
  arith, if◌then◌else◌, get_or, Bool-cases, if_elim, ℤ, is_positive,
}
use primagen.Bus.Queue.{
  MessageQueue, Reply, blocked, null, got, Wake, timed_out, woken, is_empty, take_front, wait_timed,
  message_queue_receive_timed, await_empty, drain, message_queue_free, message_queue_close,
}
use primagen.Bus.Positions.{dist, advance_lem}
use primagen.Bus.Fifo.{contents, IsValid, popped, popped-IsValid, contents-popped, is_empty_iff}
use primagen.Bus.Runs.{take_front_eq, close-IsValid}

module _ {M : Type 0} where
  abbrev pub AllValid : MessageQueue M → List (Wake M) → Type 0
  AllValid q [] = IsValid q
  AllValid q (timed_out q' ∷ wakes) = IsValid q × IsValid q'
  AllValid q (woken q' ∷ wakes) = IsValid q × AllValid q' wakes

  -- What a receive at a queue that it need not wait for comes to.
  abbrev pub TakesNow : MessageQueue M → Reply M × MessageQueue M → Type 0
  TakesNow q (blocked, q') = ⊥
  TakesNow q (null, q') = (q' ≡ q) × (contents q ≡ []) × (q.closed ≡ true)
  TakesNow q (got slot, q') = IsValid q' × (contents q ≡ slot ∷ contents q')

  abbrev pub IsWaiting : MessageQueue M → Type 0
  IsWaiting q = (contents q ≡ []) × (q.closed ≡ false)

  -- What a timed receive comes to: at an open queue with no message it waits for the next wake, and
  -- a timeout ends it with NULL; at any other queue it acts at once.
  abbrev pub Outcome : MessageQueue M → List (Wake M) → Reply M × MessageQueue M → Type 0
  Outcome q [] r = (IsWaiting q × (r ≡ (blocked, q))) ⊎ TakesNow q r
  Outcome q (timed_out q' ∷ wakes) r = (IsWaiting q × (r ≡ (null, q'))) ⊎ TakesNow q r
  Outcome q (woken q' ∷ wakes) r = (IsWaiting q × Outcome q' wakes r) ⊎ TakesNow q r

  take_front-TakesNow :
      (q : MessageQueue M) → IsValid q → is_empty q ≡ false → TakesNow q (take_front q)
  take_front-TakesNow q v e = rw (take_front_eq q e) (popped-IsValid q v, contents-popped q v e)

  timed_out_eq :
      (q q' : MessageQueue M) (wakes : List (Wake M))
      → wait_timed q (timed_out q' ∷ wakes)
        ≡ (if is_empty q then (if q.closed then (null, q) else (null, q')) else take_front q)
  unfolding wait_timed take_front
  timed_out_eq q q' wakes = ground arith

  woken_eq :
      (q q' : MessageQueue M) (wakes : List (Wake M))
      → wait_timed q (woken q' ∷ wakes) ≡ (
          if is_empty q
          then (if q.closed then (null, q) else wait_timed q' wakes)
          else take_front q)
  unfolding wait_timed take_front
  woken_eq q q' wakes = ground arith

  nothing_eq :
      (q : MessageQueue M)
      → wait_timed q []
        ≡ (if is_empty q then (if q.closed then (null, q) else (blocked, q)) else take_front q)
  unfolding wait_timed take_front
  nothing_eq q = ground arith

  -- One round of the wait: `Next` is what follows where it goes on.
  round_lem :
      (q : MessageQueue M) (Next : Reply M × MessageQueue M → Type 0)
      (next : Reply M × MessageQueue M)
      → IsValid q
      → Next next
      → let r = if is_empty q then (if q.closed then (null, q) else next) else take_front q in
        (IsWaiting q × Next r) ⊎ TakesNow q r
  round_lem q Next next v h =
      if_elim Good (is_empty q) _ _
        (λ e.
          let nil = (is_empty_iff q v).0 e in
          if_elim Good q.closed _ _ (λ c. inr (refl, nil, c)) (λ c. inl ((nil, c), h)))
        (λ e. inr (take_front-TakesNow q v e))
    where
      Good : Reply M × MessageQueue M → Type 0
      Good r = (IsWaiting q × Next r) ⊎ TakesNow q r

  wait_timed-Outcome :
      (q : MessageQueue M) (wakes : List (Wake M))
      → AllValid q wakes
      → Outcome q wakes (wait_timed q wakes)
  wait_timed-Outcome q [] v =
      rw (nothing_eq q) (round_lem q (λ r. r ≡ (blocked, q)) (blocked, q) v refl)
  wait_timed-Outcome q (timed_out q' ∷ wakes) (v, v') =
      rw (timed_out_eq q q' wakes) (round_lem q (λ r. r ≡ (null, q')) (null, q') v refl)
  wait_timed-Outcome q (woken q' ∷ wakes) (v, vs) =
      rw (woken_eq q q' wakes)
        (round_lem q (Outcome q' wakes) (wait_timed q' wakes) v (wait_timed-Outcome q' wakes vs))

  -- Over well formed rings, a timed receive with a timeout that is not positive returns NULL at once and
  -- leaves the queue as it is. With a positive one it waits, wake after wake, while the queue is open and has
  -- no message; at the first state of the queue that has a message it takes the oldest and leaves the others; at
  -- the first that is closed and empty it returns NULL; a timeout in between ends it with NULL and takes nothing.
  pub message_queue_receive_timed_lem :
      (q : MessageQueue M) (timeout_ms : ℤ) (wakes : List (Wake M))
      → AllValid q wakes
      → ((is_positive timeout_ms ≡ false)
          × (message_queue_receive_timed q timeout_ms wakes ≡ (null, q)))
        ⊎ ((is_positive timeout_ms ≡ true)
            × Outcome q wakes (message_queue_receive_timed q timeout_ms wakes))
  unfolding message_queue_receive_timed
  message_queue_receive_timed_lem q timeout_ms wakes v =
      elim (Bool-cases (is_positive timeout_ms)) [
        | inl e ↦ inr (e, rw e (wait_timed-Outcome q wakes v))
        | inr e ↦ inl (e, rw e refl)
      ]

  none_left :
      (q : MessageQueue M) → IsValid q → dist q.capacity q.front q.rear ≤ 0 → is_empty q ≡ true
  none_left q v h = ground arith

  drain_lem :
      (fuel : ℕ) (q : MessageQueue M)
      → IsValid q
      → dist q.capacity q.front q.rear ≤ fuel
      → drain fuel q ≡ contents q
  unfolding drain
  drain_lem zero q v h = sym ((is_empty_iff q v).0 (none_left q v h))
  drain_lem (suc fuel) q v h =
      let rest = drain_lem fuel (popped q) (popped-IsValid q v) in
      if_elim (λ l. l ≡ contents q) (is_empty q) _ _ (λ e. sym ((is_empty_iff q v).0 e))
        λ e.
          ap (◌∷◌ (get_or q.items q.front none))
            (rest (ground (arith, advance_lem q.capacity q.front)))
          ∙ sym (contents-popped q v e)

  abbrev pub AllQueues : List (MessageQueue M) → Type 0
  AllQueues [] = Unit
  AllQueues (q ∷ qs) = IsValid q × AllQueues qs

  await_empty-IsValid :
      (rounds : ℕ) (q : MessageQueue M) (others : List (MessageQueue M))
      → IsValid q
      → AllQueues others
      → IsValid (await_empty rounds q others)
  unfolding await_empty
  await_empty-IsValid zero q others v vs = v
  await_empty-IsValid (suc rounds) q [] v vs = v
  await_empty-IsValid (suc rounds) q (q' ∷ others) v (v', vs) =
      if_elim IsValid (is_empty q) _ _ (λ _. v) (λ _. await_empty-IsValid rounds q' others v' vs)

  -- Freeing a well formed queue frees each message that the receivers left in it, once and in
  -- order.
  pub message_queue_free_lem :
      (q : MessageQueue M) (others : List (MessageQueue M))
      → IsValid q
      → AllQueues others
      → message_queue_free q others ≡ contents (await_empty 100 (message_queue_close q) others)
  unfolding message_queue_free message_queue_close
  message_queue_free_lem q others v vs =
      let left = await_empty 100 (message_queue_close q) others in
      let lv = await_empty-IsValid 100 (message_queue_close q) others (close-IsValid q v) vs in
      drain_lem left.capacity left lv (ground (arith, lv))
