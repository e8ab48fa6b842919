-- ===== src/Bus/Sending.antt =====
-- What `message_queue_send` of src/bus/message_bus.c comes to, on every path.
use primagen.Base.{
  ℕ, ◌+◌, ◌*◌, ◌^◌, ◌<◌, ◌≡◌, refl, ap, ◌∙◌, ◌⊎◌, inl, inr, Bool, true, false, [], ◌∷◌, ◌++◌, some,
  arith, ◌==◌, Bool-cases,
}
use primagen.Bus.Queue.{
  MessageQueue, Fate, queued, freed, u64, pointer_size, advance, grow, put, message_queue_send,
}
use primagen.Bus.Positions.{advance_lem, dist}
use primagen.Bus.Fifo.{contents, IsValid, put-IsValid, contents-put, grow_lem}

-- What the C library says of `malloc`: no object is larger than PTRDIFF_MAX.
abbrev pub Bounded : (ℕ → Bool) → Type 0
Bounded malloc = (n : ℕ) → malloc n ≡ true → n < 2 ^ 63

module _ {M : Type 0} (malloc : ℕ → Bool) (bounded : Bounded malloc) where
  -- What a send comes to: the message is the last of a queue that is open, or it is freed and the
  -- queue is as it was, which is closed, or full with its growth refused.
  abbrev pub Sends : MessageQueue M → M → MessageQueue M × Fate → Type 0
  Sends q msg (q', fate) =
      ((fate ≡ queued) × (q.closed ≡ false) × (contents q' ≡ contents q ++ some msg ∷ []))
      ⊎ ((fate ≡ freed)
          × (q' ≡ q)
          × ((q.closed ≡ true)
              ⊎ ((malloc (q.capacity * 2 * pointer_size) ≡ false)
                  × (dist q.capacity q.front q.rear + 1 ≡ q.capacity))))

  send_put :
      (q : MessageQueue M) (msg : M)
      → q.closed ≡ false
      → (advance q.capacity q.rear == q.front) ≡ false
      → message_queue_send malloc q msg ≡ (put q msg, queued)
  unfolding message_queue_send
  send_put q msg c h = simp (c, h)

  send_grow :
      (q : MessageQueue M) (msg : M)
      → q.closed ≡ false
      → (advance q.capacity q.rear == q.front) ≡ true
      → q.capacity * 2 < 2 ^ 60
      → malloc (q.capacity * 2 * pointer_size) ≡ true
      → message_queue_send malloc q msg ≡ (put (grow q (q.capacity * 2)) msg, queued)
  unfolding message_queue_send
  send_grow q msg c h room ok =
      let e : u64 (q.capacity * 2) ≡ q.capacity * 2 = omega arith in
      let e' : u64 (q.capacity * 2 * pointer_size) ≡ q.capacity * 2 * pointer_size = omega arith in
      simp (c, h, e, e', ok)

  send_drop :
      (q : MessageQueue M) (msg : M)
      → q.capacity < 2 ^ 60
      → (q.closed ≡ true)
        ⊎ ((advance q.capacity q.rear == q.front) ≡ true)
          × (malloc (q.capacity * 2 * pointer_size) ≡ false)
      → message_queue_send malloc q msg ≡ (q, freed)
  unfolding message_queue_send
  send_drop q msg small (inl c) = simp c
  send_drop q msg small (inr (h, no_room)) =
      let e : u64 (q.capacity * 2) ≡ q.capacity * 2 = omega arith in
      let e' : u64 (q.capacity * 2 * pointer_size) ≡ q.capacity * 2 * pointer_size = omega arith in
      elim (Bool-cases q.closed) [ inl c ↦ simp c | inr c ↦ simp (c, h, e, e', no_room) ]

  -- What holds after a send: the ring is well formed and the outcome is one of `Sends`.
  abbrev pub Sent : MessageQueue M → M → MessageQueue M × Fate → Type 0
  Sent q msg r = IsValid r.0 × Sends q msg r

  send_open :
      (q : MessageQueue M) (msg : M)
      → IsValid q
      → q.closed ≡ false
      → Sent q msg (message_queue_send malloc q msg)
  send_open q msg v c = elim (Bool-cases (advance q.capacity q.rear == q.front)) [
    | inr h ↦ rw (send_put q msg c h) (put-IsValid q msg v, inl (refl, c, contents-put q msg v h))
    | inl h ↦ elim (Bool-cases (malloc (q.capacity * 2 * pointer_size))) [
      | inl ok ↦
          let room : q.capacity * 2 < 2 ^ 60 =
            omega (arith, bounded (q.capacity * 2 * pointer_size) ok) in
          let (gv, same, more) = grow_lem q v room h in
          let g = grow q (q.capacity * 2) in
          rw (send_grow q msg c h room ok) (
            put-IsValid g msg gv,
            inl (refl, c, contents-put g msg gv more ∙ ap (λ l. l ++ some msg ∷ []) same),
          )
      | inr no_room ↦
          rw (send_drop q msg v.addressable (inr (h, no_room)))
            (v, inr (refl, refl, inr (no_room, ground (arith, advance_lem q.capacity q.rear))))
    ]
  ]

  -- A send keeps a well formed ring so. Either the queue is open and the message is stored
  -- behind all others, or it is freed and nothing changes, the queue being closed, or full
  -- while `malloc` refuses the larger array. The `malloc` serves no more than an address can
  -- reach.
  pub message_queue_send_lem :
      (q : MessageQueue M) (msg : M) → IsValid q → Sent q msg (message_queue_send malloc q msg)
  message_queue_send_lem q msg v = elim (Bool-cases q.closed) [
    | inl c ↦ rw (send_drop q msg v.addressable (inl c)) (v, inr (refl, refl, inl c))
    | inr c ↦ send_open q msg v c
  ]
