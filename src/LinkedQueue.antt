-- ===== src/LinkedQueue.antt =====
-- The singly linked queue with a head and a tail pointer that src/tools/tool_executor.c writes out, and
-- src/agent/agent_loop.c again for its inbox: nodes stand in a store, by address.
pub mod Laws
use primagen.Base.{ℕ, ◌==◌, Bool, List, [], ◌∷◌, Option, none, some, if◌then◌else◌}

pub record Node (A : Type 0) : Type 0 where
  pub item : A
  pub next : Option ℕ

pub record LinkedQueue (A : Type 0) : Type 0 where
  pub nodes : ℕ → Option (Node A)
  pub head : Option ℕ
  pub tail : Option ℕ

-- The tail after the head moved on: there is none without a head.
abbrev pub new_tail : Option ℕ → Option ℕ → Option ℕ
new_tail none tail = none
new_tail (some _) tail = tail

module _ {A : Type 0} where
  abbrev pub write : (ℕ → Option (Node A)) → ℕ → Option (Node A) → ℕ → Option (Node A)
  write nodes p n q = if p == q then n else nodes q

  abbrev pub empty : LinkedQueue A
  empty = record { nodes = λ _. none; head = none; tail = none }

  -- `node->next = link`; a dangling pointer is not written through.
  abbrev pub with_next : Option (Node A) → Option ℕ → Option (Node A)
  with_next none link = none
  with_next (some n) link = some (record n { next = link })

  abbrev pub link_tail : LinkedQueue A → ℕ → Option ℕ → LinkedQueue A
  link_tail q p none = record q { head = some p; tail = some p }
  link_tail q p (some t) = record q {
    nodes = write q.nodes t (with_next (q.nodes t) (some p));
    tail = some p;
  }

  -- The node at `p`, which `malloc` returned, behind the tail.
  unfoldable pub enqueue : LinkedQueue A → ℕ → A → LinkedQueue A
  enqueue q p x =
      link_tail (record q { nodes = write q.nodes p (some (record { item = x; next = none })) }) p
        q.tail

  -- The tail is reset with the last node; the node itself is freed.
  abbrev pub unlink : LinkedQueue A → ℕ → Node A → LinkedQueue A
  unlink q p n = record q {
    nodes = write q.nodes p none;
    head = n.next;
    tail = new_tail n.next q.tail;
  }

  abbrev pub dequeue_at : LinkedQueue A → ℕ → Option (Node A) → Option A × LinkedQueue A
  dequeue_at q p none = (none, q)
  dequeue_at q p (some n) = (some n.item, unlink q p n)

  abbrev pub dequeue_head : LinkedQueue A → Option ℕ → Option A × LinkedQueue A
  dequeue_head q none = (none, q)
  dequeue_head q (some p) = dequeue_at q p (q.nodes p)

  -- `none` for an empty queue.
  unfoldable pub dequeue : LinkedQueue A → Option A × LinkedQueue A
  dequeue q = dequeue_head q q.head
