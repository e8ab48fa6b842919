-- ===== src/LinkedQueue/Laws.antt =====
-- The linked queue holds a list: what is added goes to its end, what is taken comes from its front.
use mathlib.Core.Path.{subst}
use primagen.Base.{
  ℕ, ◌==◌, ==_iff, ◌≡◌, ◌≢◌, refl, sym, ap, ◌∙◌, List, [], ◌∷◌, ◌++◌, Option, none, some, if_elim,
  arith,
}
use primagen.LinkedQueue.{
  Node, LinkedQueue, write, empty, with_next, new_tail, link_tail, enqueue, dequeue_at,
  dequeue_head, dequeue,
}

module _ {A : Type 0} where
  -- The chain of nodes from a pointer: their addresses and items.
  abbrev pub Chain : (ℕ → Option (Node A)) → Option ℕ → List (ℕ × A) → Type 0
  Chain nodes start [] = start ≡ none
  Chain nodes start ((p, x) ∷ cells) =
      (start ≡ some p)
      × ((link : Option ℕ) × (nodes p ≡ some (record { item = x; next = link }))
          × Chain nodes link cells)

  abbrev pub last_of : List (ℕ × A) → Option ℕ
  last_of [] = none
  last_of ((p, x) ∷ []) = some p
  last_of (c ∷ d ∷ cells) = last_of (d ∷ cells)

  abbrev pub IsFresh : ℕ → List (ℕ × A) → Type 0
  IsFresh p [] = Unit
  IsFresh p ((q, x) ∷ cells) = (p ≢ q) × IsFresh p cells

  abbrev pub Distinct : List (ℕ × A) → Type 0
  Distinct [] = Unit
  Distinct ((p, x) ∷ cells) = IsFresh p cells × Distinct cells

  -- The queue is the list of these cells, and its tail is the last of them.
  abbrev pub Holds : LinkedQueue A → List (ℕ × A) → Type 0
  Holds q cells = Chain q.nodes q.head cells × (q.tail ≡ last_of cells) × Distinct cells

  write_ne :
      (nodes : ℕ → Option (Node A)) (p q : ℕ) (n : Option (Node A))
      → p ≢ q
      → write nodes p n q ≡ nodes q
  write_ne nodes p q n h =
      if_elim (λ o. o ≡ nodes q) (p == q) _ _ (λ e. absurd (h ((==_iff p q).0 e))) (λ _. refl)

  write_self : (nodes : ℕ → Option (Node A)) (p : ℕ) (n : Option (Node A)) → write nodes p n p ≡ n
  write_self nodes p n = if_elim (λ o. o ≡ n) (p == p) _ _ (λ _. refl) (λ e. absurd (ground arith))

  Chain-write :
      (nodes : ℕ → Option (Node A)) (p : ℕ) (n : Option (Node A)) (start : Option ℕ)
      (cells : List (ℕ × A))
      → IsFresh p cells
      → Chain nodes start cells
      → Chain (write nodes p n) start cells
  Chain-write nodes p n start [] f c = c
  Chain-write nodes p n start ((q, x) ∷ cells) (ne, f) (s, (link, at, c)) =
      (s, (link, write_ne nodes p q n ne ∙ at, Chain-write nodes p n link cells f c))

  some_none : {o : Option (Node A)} {n : Node A} → o ≡ none → o ≡ some n → ⊥
  some_none a b = cc

  -- A free address is none of the chain's.
  free-IsFresh :
      (nodes : ℕ → Option (Node A)) (p : ℕ) (start : Option ℕ) (cells : List (ℕ × A))
      → nodes p ≡ none
      → Chain nodes start cells
      → IsFresh p cells
  free-IsFresh nodes p start [] h c = tt
  free-IsFresh nodes p start ((q, x) ∷ cells) h (s, (link, at, c)) =
      ((λ e. some_none (sym (ap nodes e) ∙ h) at), free-IsFresh nodes p link cells h c)

  IsFresh-snoc :
      (p q : ℕ) (x : A) (cells : List (ℕ × A))
      → p ≢ q
      → IsFresh p cells
      → IsFresh p (cells ++ (q, x) ∷ [])
  IsFresh-snoc p q x [] h f = (h, tt)
  IsFresh-snoc p q x ((r, y) ∷ cells) h (ne, f) = (ne, IsFresh-snoc p q x cells h f)

  Distinct-snoc :
      (q : ℕ) (x : A) (cells : List (ℕ × A))
      → IsFresh q cells
      → Distinct cells
      → Distinct (cells ++ (q, x) ∷ [])
  Distinct-snoc q x [] f d = (tt, tt)
  Distinct-snoc q x ((p, y) ∷ cells) (ne, f) (fp, d) =
      (IsFresh-snoc p q x cells (λ e. ne (sym e)) fp, Distinct-snoc q x cells f d)

  last-snoc : (p : ℕ) (x : A) (cells : List (ℕ × A)) → last_of (cells ++ (p, x) ∷ []) ≡ some p
  last-snoc p x [] = refl
  last-snoc p x (c ∷ []) = refl
  last-snoc p x (c ∷ d ∷ cells) = last-snoc p x (d ∷ cells)

  last_ne : (p t : ℕ) (cells : List (ℕ × A)) → IsFresh p cells → last_of cells ≡ some t → t ≢ p
  last_ne p t [] f l = λ _. (ground arith)
  last_ne p t ((q, y) ∷ []) (ne, f) l = λ e. ne (ground arith)
  last_ne p t (c ∷ d ∷ cells) (ne, f) l = last_ne p t (d ∷ cells) f l

  -- The last node linked to a new one.
  Chain-snoc :
      (nodes : ℕ → Option (Node A)) (t p : ℕ) (x : A) (start : Option ℕ) (cells : List (ℕ × A))
      → Chain nodes start cells
      → Distinct cells
      → last_of cells ≡ some t
      → nodes p ≡ some (record { item = x; next = none })
      → IsFresh p cells
      → Chain (write nodes t (with_next (nodes t) (some p))) start (cells ++ (p, x) ∷ [])
  Chain-snoc nodes t p x start [] c d l at f = absurd (ground arith)
  Chain-snoc nodes t p x start ((q, y) ∷ []) (s, (link, here, c)) d l at (ne, f) =
      let same : t ≡ q = ground arith in
      let n = with_next (nodes t) (some p) in
      let linked : n ≡ some (record { item = y; next = some p }) =
        ap (λ o. with_next o (some p)) (ap nodes same ∙ here) in
      (
        s,
        (
          some p,
          ap (write nodes t n) (sym same) ∙ (write_self nodes t n ∙ linked),
          (refl, (none, write_ne nodes t p n (λ e. ne (sym e ∙ same)) ∙ at, refl)),
        ),
      )
  Chain-snoc nodes t p x start ((q, y) ∷ e ∷ cells) (s, (link, here, c)) (fq, d) l at (ne, f) =
      let n = with_next (nodes t) (some p) in
      (
        s,
        (
          link,
          write_ne nodes t q n (last_ne q t (e ∷ cells) fq l) ∙ here,
          Chain-snoc nodes t p x link (e ∷ cells) c d l at f,
        ),
      )

  last_some : (c : ℕ × A) (cells : List (ℕ × A)) → (t : ℕ) × (last_of (c ∷ cells) ≡ some t)
  last_some (p, x) [] = (p, refl)
  last_some (p, x) (d ∷ cells) = last_some d cells

  -- What is put in goes behind all others.
  pub enqueue-Holds :
      (q : LinkedQueue A) (cells : List (ℕ × A)) (p : ℕ) (x : A)
      → Holds q cells
      → q.nodes p ≡ none
      → Holds (enqueue q p x) (cells ++ (p, x) ∷ [])
  unfolding enqueue
  enqueue-Holds q [] p x (c, l, d) free =
      let q' = record q { nodes = write q.nodes p (some (record { item = x; next = none })) } in
      subst (λ o. Holds (link_tail q' p o) ((p, x) ∷ [])) (sym l)
        (
          (refl, (none, write_self q.nodes p (some (record { item = x; next = none })), refl)),
          refl,
          (tt, tt),
        )
  enqueue-Holds q (e ∷ cells) p x (c, l, d) free =
      let new : Option (Node A) = some (record { item = x; next = none }) in
      let q' = record q { nodes = write q.nodes p new } in
      let f = free-IsFresh q.nodes p q.head (e ∷ cells) free c in
      let (t, last) = last_some e cells in
      subst (λ o. Holds (link_tail q' p o) (e ∷ (cells ++ (p, x) ∷ []))) (sym (l ∙ last))
        (
          Chain-snoc (write q.nodes p new) t p x q.head (e ∷ cells)
              (Chain-write q.nodes p new q.head (e ∷ cells) f c) d last (write_self q.nodes p new)
              f,
          sym (last-snoc p x (e ∷ cells)),
          Distinct-snoc p x (e ∷ cells) f d,
        )

  -- What is taken is the first, and an empty queue gives nothing.
  pub dequeue-Holds :
      (q : LinkedQueue A) (cells : List (ℕ × A)) (p : ℕ) (x : A)
      → Holds q ((p, x) ∷ cells)
      → ((dequeue q).0 ≡ some x) × Holds (dequeue q).1 cells
  unfolding dequeue
  dequeue-Holds q cells p x ((s, (link, at, c)), l, (f, d)) =
      subst (λ o. Taken (dequeue_head q o)) (sym s)
        (subst (λ o. Taken (dequeue_at q p o)) (sym at)
          (refl, (Chain-write q.nodes p none link cells f c, tail_lem cells link c l, d)))
    where
      Taken : Option A × LinkedQueue A → Type 0
      Taken r = (r.0 ≡ some x) × Holds r.1 cells

      tail_lem :
          (cells : List (ℕ × A)) (link : Option ℕ)
          → Chain q.nodes link cells
          → q.tail ≡ last_of ((p, x) ∷ cells)
          → new_tail link q.tail ≡ last_of cells
      tail_lem [] link c l = ap (λ o. new_tail o q.tail) c
      tail_lem ((r, y) ∷ cells) link (s, more) l = ap (λ o. new_tail o q.tail) s ∙ l

  pub dequeue_empty : (q : LinkedQueue A) → Holds q [] → dequeue q ≡ (none, q)
  unfolding dequeue
  dequeue_empty q (s, l, d) = ap (dequeue_head q) s

pub empty-Holds : (A : Type 0) → Holds {A = A} empty []
empty-Holds A = (refl, refl, tt)
