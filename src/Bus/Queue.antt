-- ===== src/Bus/Queue.antt =====
-- The ring of messages of src/bus/message_bus.c. A message is any value, and a slot that none was
-- written to is `none`. `malloc n` says whether an allocation of n bytes succeeds. The mutex makes
-- each function one step; a wait on the condition is an outcome, and what other threads did to the
-- queue in the meantime an argument.
use primagen.Base.{
  ℕ, zero, suc, ◌+◌, ◌*◌, ◌/◌, ◌%◌, ◌^◌, Bool, true, false, not, ◌&&◌, List, [], ◌∷◌, Option, none,
  some, ◌==◌, if◌then◌else◌, get_or, set, replicate, ℤ, is_positive,
}

pub data MessageKind : Type 0 where
  inbound outbound internal : MessageKind

-- `size_t`
abbrev pub u64 : ℕ → ℕ
u64 n = n % 2 ^ 64

abbrev pub pointer_size : ℕ
pointer_size = 8

pub record MessageQueue {ℓ} (M : Type ℓ) : Type ℓ where
  pub items : List (Option M)
  pub front : ℕ
  pub rear : ℕ
  pub capacity : ℕ
  pub message_kind : MessageKind
  pub closed : Bool

-- What a receive comes to: it waits, it returns NULL, or it returns the content of a slot.
pub data Reply {ℓ} (M : Type ℓ) : Type ℓ where
  blocked null : Reply M
  got : Option M → Reply M

-- Whether a send stored its message or freed it.
pub data Fate : Type 0 where
  queued freed : Fate

-- How a timed wait ends, with the queue as the other threads left it.
pub data Wake {ℓ} (M : Type ℓ) : Type ℓ where
  timed_out woken : MessageQueue M → Wake M

-- `(i + 1) % capacity`
unfoldable pub advance : ℕ → ℕ → ℕ
advance capacity i = u64 (i + 1) % capacity

module _ {ℓ} {M : Type ℓ} where
  abbrev pub initial : MessageKind → MessageQueue M
  initial kind = record {
    items = replicate 16 none;
    front = 0;
    rear = 0;
    capacity = 16;
    message_kind = kind;
    closed = false;
  }

  unfoldable pub message_queue_init : (ℕ → Bool) → MessageKind → Option (MessageQueue M)
  message_queue_init malloc kind = if malloc (16 * pointer_size) then some (initial kind) else none

  unfoldable pub message_queue_close : MessageQueue M → MessageQueue M
  message_queue_close q = record q { closed = true }

  -- The loop that copies the messages to the new array; `j` counts them.
  unfoldable pub copy_live :
      ℕ → List (Option M) → ℕ → ℕ → ℕ → List (Option M) → ℕ → List (Option M) × ℕ
  copy_live zero items cap i rear new_items j = (new_items, j)
  copy_live (suc fuel) items cap i rear new_items j =
      let rest =
        copy_live fuel items cap (advance cap i) rear (set new_items j (get_or items i none))
          (u64 (j + 1)) in
      if i == rear then (new_items, j) else rest

  -- The array is replaced by one of `new_cap` pointers.
  unfoldable pub grow : MessageQueue M → ℕ → MessageQueue M
  grow q new_cap =
      let fresh = replicate (u64 (new_cap * pointer_size) / pointer_size) none in
      let (new_items, j) = copy_live q.capacity q.items q.capacity q.front q.rear fresh 0 in
      record q { items = new_items; front = 0; rear = j; capacity = new_cap }

  unfoldable pub put : MessageQueue M → M → MessageQueue M
  unfolding advance
  put q msg = record q { items = set q.items q.rear (some msg); rear = advance q.capacity q.rear }

  unfoldable pub message_queue_send : (ℕ → Bool) → MessageQueue M → M → MessageQueue M × Fate
  message_queue_send malloc q msg =
      if q.closed
      then (q, freed)
      else if advance q.capacity q.rear == q.front
      then (let new_cap = u64 (q.capacity * 2) in
          if malloc (u64 (new_cap * pointer_size))
          then (put (grow q new_cap) msg, queued)
          else (q, freed))
      else (put q msg, queued)

  abbrev pub is_empty : MessageQueue M → Bool
  is_empty q = q.front == q.rear

  -- What follows the wait: NULL from an empty queue, and else the front slot.
  unfoldable pub take_front : MessageQueue M → Reply M × MessageQueue M
  take_front q =
      if is_empty q
      then (null, q)
      else (got (get_or q.items q.front none), record q { front = advance q.capacity q.front })

  unfoldable pub message_queue_receive : MessageQueue M → Reply M × MessageQueue M
  message_queue_receive q = if is_empty q && not q.closed then (blocked, q) else take_front q

  -- The wait loop: one `Wake` for each return of `pthread_cond_timedwait`.
  unfoldable pub wait_timed : MessageQueue M → List (Wake M) → Reply M × MessageQueue M
  wait_timed q [] = if is_empty q && not q.closed then (blocked, q) else take_front q
  wait_timed q (timed_out q' ∷ wakes) =
      if is_empty q && not q.closed then (null, q') else take_front q
  wait_timed q (woken q' ∷ wakes) =
      let rest = wait_timed q' wakes in if is_empty q && not q.closed then rest else take_front q

  unfoldable pub message_queue_receive_timed :
      MessageQueue M → ℤ → List (Wake M) → Reply M × MessageQueue M
  message_queue_receive_timed q timeout_ms wakes =
      if is_positive timeout_ms then wait_timed q wakes else (null, q)

  -- `message_queue_free` waits, a hundred times at most, for the receivers to empty the queue.
  unfoldable pub await_empty : ℕ → MessageQueue M → List (MessageQueue M) → MessageQueue M
  await_empty zero q others = q
  await_empty (suc rounds) q [] = q
  await_empty (suc rounds) q (q' ∷ others) =
      let rest = await_empty rounds q' others in if is_empty q then q else rest

  -- The messages that are freed, in order.
  unfoldable pub drain : ℕ → MessageQueue M → List (Option M)
  drain zero q = []
  drain (suc fuel) q =
      let rest = drain fuel (record q { front = advance q.capacity q.front }) in
      if is_empty q then [] else get_or q.items q.front none ∷ rest

  unfoldable pub message_queue_free : MessageQueue M → List (MessageQueue M) → List (Option M)
  message_queue_free q others =
      let left = await_empty 100 (record q { closed = true }) others in drain left.capacity left
