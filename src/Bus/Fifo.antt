-- ===== src/Bus/Fifo.antt =====
-- The ring of src/bus/message_bus.c as a queue: what each operation does to the messages in order.
use native.Mathlib.Nat.{add-zero, zero-add}
use primagen.Base.{
  ℕ, zero, suc, ◌+◌, ◌*◌, ◌/◌, ◌^◌, ◌≤◌, ◌<◌, ◌≡◌, ◌≢◌, ◌↔◌, refl, ap, ◌∙◌, inl, inr, true, false,
  List, [], ◌∷◌, ◌++◌, append-nil, append_assoc, Option, none, some, arith, ◌==◌, ==_iff, get_or,
  set, replicate, length, length-set, length-replicate, Bool-cases,
}
use primagen.Bus.Queue.{MessageQueue, u64, pointer_size, advance, copy_live, grow, put, is_empty}
use primagen.Bus.Positions.{advance_lem, dist, slots, slots-set_end}

from_start : (room j : ℕ) → dist room 0 j ≡ j
from_start room j = ground arith

shift : (j n : ℕ) → j + suc n ≡ suc j + n
shift j n = omega arith

module _ {M : Type 0} where
  -- The messages of the queue, oldest first.
  abbrev pub contents : MessageQueue M → List (Option M)
  contents q = slots q.items q.capacity q.front (dist q.capacity q.front q.rear)

  -- The indices are in range, and the array has the bytes that `size_t` can count.
  pub record IsValid (q : MessageQueue M) : Type 0 where
    pub front_in : q.front < q.capacity
    pub rear_in : q.rear < q.capacity
    pub array : length q.items ≡ q.capacity
    pub addressable : q.capacity < 2 ^ 60

  pub put-IsValid : (q : MessageQueue M) (msg : M) → IsValid q → IsValid (put q msg)
  unfolding put
  put-IsValid q msg v =
      ground (arith, advance_lem q.capacity q.rear, length-set q.items q.rear (some msg))

  -- A put that does not meet the front adds its message at the end.
  pub contents-put :
      (q : MessageQueue M) (msg : M)
      → IsValid q
      → (advance q.capacity q.rear == q.front) ≡ false
      → contents (put q msg) ≡ contents q ++ some msg ∷ []
  unfolding put
  contents-put q msg v h =
      let e : dist q.capacity q.front (advance q.capacity q.rear)
          ≡ suc (dist q.capacity q.front q.rear) =
        ground (arith, advance_lem q.capacity q.rear) in
      rw e (
        slots-set_end q.items q.capacity q.front q.rear (some msg) v.front_in v.rear_in
          (omega arith) (omega arith))

  copy_live_stop :
      (fuel : ℕ) (items : List (Option M)) (size i rear : ℕ) (new_items : List (Option M)) (j : ℕ)
      → i ≡ rear
      → copy_live fuel items size i rear new_items j ≡ (new_items, j)
  unfolding copy_live
  copy_live_stop zero items size i rear new_items j h = refl
  copy_live_stop (suc fuel) items size i rear new_items j h = rw ((==_iff i rear).1 h)

  copy_live_go :
      (fuel : ℕ) (items : List (Option M)) (size i rear : ℕ) (new_items : List (Option M)) (j : ℕ)
      → (i == rear) ≡ false
      → copy_live (suc fuel) items size i rear new_items j
        ≡ copy_live fuel items size
            (advance size i)
            rear
            (set new_items j (get_or items i none))
            (u64 (j + 1))
  unfolding copy_live
  copy_live_go fuel items size i rear new_items j h = rw h

  -- A copy of `k` messages, those of `seg`, at the start of an array of `room` slots.
  abbrev Copied : ℕ → ℕ → List (Option M) → List (Option M) × ℕ → Type 0
  Copied room k seg r = (r.1 ≡ k) × (length r.0 ≡ room) × (slots r.0 room 0 k ≡ seg)

  -- With fuel for the way from `i` to `rear` the loop copies every slot on it.
  copy_live_lem :
      (fuel n : ℕ) (items : List (Option M)) (size i rear : ℕ) (new_items : List (Option M))
      (j room : ℕ)
      → n ≡ dist size i rear
      → n ≤ fuel
      → i < size
      → rear < size
      → size < 2 ^ 60
      → length new_items ≡ room
      → room ≤ 2 ^ 60
      → j + n < room
      → Copied room
          (j + n)
          (slots new_items room 0 j ++ slots items size i n)
          (copy_live fuel items size i rear new_items j)
  copy_live_lem fuel zero items size i rear new_items j room hn hf hi hr hs hl hm hj =
      rw (copy_live_stop fuel items size i rear new_items j (ground arith), add-zero j, append-nil)
        (refl, hl, refl)
  copy_live_lem zero (suc n) items size i rear new_items j room hn hf hi hr hs hl hm hj =
      elim hf [ ]
  copy_live_lem (suc fuel) (suc n) items size i rear new_items j room hn hf hi hr hs hl hm hj =
      let v = get_or items i none in
      let e : u64 (j + 1) ≡ suc j = omega arith in
      let ih =
        copy_live_lem fuel n items size (advance size i) rear (set new_items j v) (suc j) room
          (ground (arith, advance_lem size i)) (omega arith) (ground (arith, advance_lem size i)) hr
          hs (length-set new_items j v ∙ hl) hm (omega arith) in
      let seg : slots (set new_items j v) room 0 (suc j) ≡ slots new_items room 0 j ++ v ∷ [] =
        rw (from_start room j) at
          (slots-set_end new_items room 0 j v (omega arith) (omega arith) hm (omega arith)) in
      rw (copy_live_go fuel items size i rear new_items j (ground arith), e, shift j n)
        (
          ih.0,
          ih.1,
          ih.2
              ∙ ap (λ l. l ++ slots items size (advance size i) n) seg
              ∙ append_assoc (slots new_items room 0 j) (v ∷ [])
                  (slots items size (advance size i) n),
        )

  -- The array that a growth allocates has `new_cap` slots.
  abbrev fresh : ℕ → List (Option M)
  fresh new_cap = replicate (u64 (new_cap * pointer_size) / pointer_size) none

  grown :
      (q : MessageQueue M)
      → IsValid q
      → q.capacity * 2 < 2 ^ 60
      → Copied
          (q.capacity * 2)
          (dist q.capacity q.front q.rear)
          (contents q)
          (copy_live q.capacity q.items q.capacity q.front q.rear (fresh (q.capacity * 2)) 0)
  grown q v room = rw (zero-add (dist q.capacity q.front q.rear)) at (
      copy_live_lem q.capacity (dist q.capacity q.front q.rear) q.items q.capacity q.front q.rear
        (fresh (q.capacity * 2)) 0 (q.capacity * 2) refl (ground arith) v.front_in v.rear_in
        v.addressable
        (length-replicate (u64 (q.capacity * 2 * pointer_size) / pointer_size) none ∙ omega arith)
        (omega arith) (ground arith))

  -- The new array holds the same messages, from index 0, and has room for more.
  pub grow_lem :
      (q : MessageQueue M)
      → IsValid q
      → q.capacity * 2 < 2 ^ 60
      → (advance q.capacity q.rear == q.front) ≡ true
      → let g = grow q (q.capacity * 2) in
        IsValid g × (contents g ≡ contents q) × ((advance g.capacity g.rear == g.front) ≡ false)
  unfolding grow
  grow_lem q v room full =
      let (at_rear, sized, same) = grown q v room in
      let r =
        (copy_live q.capacity q.items q.capacity q.front q.rear (fresh (q.capacity * 2)) 0).1 in
      let short : dist q.capacity q.front q.rear + 1 ≤ q.capacity = ground (arith, v) in
      (
        record { front_in = omega arith; rear_in = omega arith; array = sized; addressable = room },
        rw (from_start (q.capacity * 2) r, at_rear) same,
        ground (arith, advance_lem (q.capacity * 2) r),
      )

  -- The queue without its front slot.
  abbrev pub popped : MessageQueue M → MessageQueue M
  popped q = record q { front = advance q.capacity q.front }

  pub popped-IsValid : (q : MessageQueue M) → IsValid q → IsValid (popped q)
  popped-IsValid q v = record {
    front_in = ground (arith, advance_lem q.capacity q.front);
    rear_in = v.rear_in;
    array = v.array;
    addressable = v.addressable;
  }

  -- The front slot of a queue that is not empty is the oldest message.
  pub contents-popped :
      (q : MessageQueue M)
      → IsValid q
      → is_empty q ≡ false
      → contents q ≡ get_or q.items q.front none ∷ contents (popped q)
  contents-popped q v h =
      let n = dist q.capacity (advance q.capacity q.front) q.rear in
      let e : dist q.capacity q.front q.rear ≡ suc n =
        ground (arith, advance_lem q.capacity q.front) in
      ap (slots q.items q.capacity q.front) e

  not_empty : (q : MessageQueue M) → IsValid q → is_empty q ≡ false → contents q ≢ []
  not_empty q v h e = cc (contents-popped q v h)

  -- A queue is empty by its indices exactly when it holds no message.
  pub is_empty_iff : (q : MessageQueue M) → IsValid q → (is_empty q ≡ true) ↔ (contents q ≡ [])
  is_empty_iff q v = (
    λ h. rw (nothing_between q h),
    λ h. elim (Bool-cases (is_empty q)) [ inl e ↦ e | inr e ↦ absurd (not_empty q v e h) ],
  )
    where
      nothing_between :
          (q : MessageQueue M) → is_empty q ≡ true → dist q.capacity q.front q.rear ≡ 0
      nothing_between q h = ground arith
