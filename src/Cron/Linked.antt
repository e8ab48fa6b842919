-- ===== src/Cron/Linked.antt =====
-- src/cron/cron.c: the list of jobs around one of its nodes, when no two nodes share an address or an id.
use primagen.Base.{
  ℕ, ◌==◌, ◌≡◌, ◌≢◌, refl, sym, ap, ◌∙◌, Bool, true, false, [], ◌∷◌, ◌++◌, Option, none, some,
  if◌then◌else◌, arith, Text, text_eq, text_eq_iff, text_eq_refl,
}
use primagen.Cron.{CronJob}
use primagen.Cron.Jobs.{same_text}
use primagen.Cron.Worker.{
  Nodes, node_at, before_node, behind_node, up_to, find_by_id, set_node, unlink,
}

abbrev pub Apart : ℕ × CronJob → ℕ × CronJob → Type 0
Apart (p, j) (q, k) = (p ≢ q) × (j.id ≢ k.id)

abbrev pub ApartFrom : ℕ × CronJob → Nodes → Type 0
ApartFrom n [] = Unit
ApartFrom n (m ∷ ms) = Apart n m × ApartFrom n ms

-- Every job has an id, and no two nodes have the same address or the same id.
abbrev pub Distinct : Nodes → Type 0
Distinct [] = Unit
Distinct ((p, j) ∷ ns) = ((t : Text) × (j.id ≡ some t)) × ApartFrom (p, j) ns × Distinct ns

abbrev pub last_node : Nodes → Option ℕ
last_node [] = none
last_node ((p, j) ∷ []) = some p
last_node (n ∷ m ∷ ns) = last_node (m ∷ ns)

ApartFrom-at :
    (n : ℕ × CronJob) (xs ys : Nodes) (m : ℕ × CronJob) → ApartFrom n (xs ++ m ∷ ys) → Apart n m
ApartFrom-at n [] ys m a = a.0
ApartFrom-at n (x ∷ xs) ys m a = ApartFrom-at n xs ys m a.1

ApartFrom-without :
    (n : ℕ × CronJob) (xs ys : Nodes) (m : ℕ × CronJob)
    → ApartFrom n (xs ++ m ∷ ys)
    → ApartFrom n (xs ++ ys)
ApartFrom-without n [] ys m a = a.1
ApartFrom-without n (x ∷ xs) ys m a = (a.0, ApartFrom-without n xs ys m a.1)

ApartFrom-replaced :
    (n : ℕ × CronJob) (xs ys : Nodes) (p : ℕ) (j k : CronJob)
    → k.id ≡ j.id
    → ApartFrom n (xs ++ (p, j) ∷ ys)
    → ApartFrom n (xs ++ (p, k) ∷ ys)
ApartFrom-replaced n [] ys p j k h a = ((a.0.0, λ e. a.0.1 (e ∙ h)), a.1)
ApartFrom-replaced n (x ∷ xs) ys p j k h a = (a.0, ApartFrom-replaced n xs ys p j k h a.1)

ApartFrom-same :
    (p : ℕ) (j k : CronJob) (ns : Nodes) → k.id ≡ j.id → ApartFrom (p, j) ns → ApartFrom (p, k) ns
ApartFrom-same p j k [] h a = tt
ApartFrom-same p j k (n ∷ ns) h a = ((a.0.0, λ e. a.0.1 (sym h ∙ e)), ApartFrom-same p j k ns h a.1)

pub Distinct-without :
    (xs ys : Nodes) (m : ℕ × CronJob) → Distinct (xs ++ m ∷ ys) → Distinct (xs ++ ys)
Distinct-without [] ys m d = d.2
Distinct-without (x ∷ xs) ys m d =
    (d.0, ApartFrom-without x xs ys m d.1, Distinct-without xs ys m d.2)

pub Distinct-replaced :
    (xs ys : Nodes) (p : ℕ) (j k : CronJob)
    → k.id ≡ j.id
    → Distinct (xs ++ (p, j) ∷ ys)
    → Distinct (xs ++ (p, k) ∷ ys)
Distinct-replaced [] ys p j k h d = ((d.0.0, h ∙ d.0.1), ApartFrom-same p j k ys h d.1, d.2)
Distinct-replaced (x ∷ xs) ys p j k h d =
    (d.0, ApartFrom-replaced x xs ys p j k h d.1, Distinct-replaced xs ys p j k h d.2)

same_self : (o : Option Text) (t : Text) → o ≡ some t → same_text o o ≡ true
same_self none t h = absurd (ground arith)
same_self (some a) t h = text_eq_refl a

same_ne : (a b : Option Text) → a ≢ b → same_text b a ≡ false
same_ne none none h = refl
same_ne none (some t) h = refl
same_ne (some s) none h = refl
same_ne (some s) (some t) h = differ (text_eq t s) (λ e. h (ap some (sym ((text_eq_iff t s).0 e))))
  where
    differ : (b : Bool) → b ≢ true → b ≡ false
    differ b h = ground arith

pub if_true : {A : Type 0} {b : Bool} (x y : A) → b ≡ true → (if b then x else y) ≡ x
if_true x y h = ap (λ b. if b then x else y) h

pub if_false : {A : Type 0} {b : Bool} (x y : A) → b ≡ false → (if b then x else y) ≡ y
if_false x y h = ap (λ b. if b then x else y) h

eq_self : (p : ℕ) → (p == p) ≡ true
eq_self p = ground arith

eq_ne : {p q : ℕ} → p ≢ q → (p == q) ≡ false
eq_ne h = ground arith

module _ (ys : Nodes) (p : ℕ) (j : CronJob) where
  pub node_at_lem :
      (xs : Nodes) → Distinct (xs ++ (p, j) ∷ ys) → node_at p (xs ++ (p, j) ∷ ys) ≡ some j
  node_at_lem [] d = if_true _ _ (eq_self p)
  node_at_lem (x ∷ xs) d =
      if_false _ _ (eq_ne (ApartFrom-at x xs ys (p, j) d.1).0) ∙ node_at_lem xs d.2

  pub before_node_lem :
      (xs : Nodes) → Distinct (xs ++ (p, j) ∷ ys) → before_node p (xs ++ (p, j) ∷ ys) ≡ xs
  before_node_lem [] d = if_true _ _ (eq_self p)
  before_node_lem (x ∷ xs) d =
      if_false _ _ (eq_ne (ApartFrom-at x xs ys (p, j) d.1).0) ∙ ap (◌∷◌ x) (before_node_lem xs d.2)

  pub behind_node_lem :
      (xs : Nodes) → Distinct (xs ++ (p, j) ∷ ys) → behind_node p (xs ++ (p, j) ∷ ys) ≡ ys
  behind_node_lem [] d = if_true _ _ (eq_self p)
  behind_node_lem (x ∷ xs) d =
      if_false _ _ (eq_ne (ApartFrom-at x xs ys (p, j) d.1).0) ∙ behind_node_lem xs d.2

  pub find_by_id_lem :
      (xs : Nodes)
      → Distinct (xs ++ (p, j) ∷ ys)
      → find_by_id j.id (xs ++ (p, j) ∷ ys) ≡ some (p, j)
  find_by_id_lem [] d = if_true _ _ (same_self j.id d.0.0 d.0.1)
  find_by_id_lem (x ∷ xs) d =
      if_false _ _ (same_ne x.1.id j.id (ApartFrom-at x xs ys (p, j) d.1).1) ∙ find_by_id_lem xs d.2

  pub set_node_lem :
      (k : CronJob) (xs : Nodes)
      → Distinct (xs ++ (p, j) ∷ ys)
      → set_node p k (xs ++ (p, j) ∷ ys) ≡ xs ++ (p, k) ∷ ys
  set_node_lem k [] d = if_true _ _ (eq_self p)
  set_node_lem k (x ∷ xs) d =
      if_false _ _ (eq_ne (ApartFrom-at x xs ys (p, j) d.1).0) ∙ ap (◌∷◌ x) (set_node_lem k xs d.2)

last_apart :
    (x : ℕ × CronJob) (n : ℕ × CronJob) (xs ys : Nodes)
    → ApartFrom x (n ∷ xs ++ ys)
    → last_node (n ∷ xs) ≢ some x.0
last_apart x n [] ys a = λ e. a.0.0 (sym (the e))
  where
    the : {a b : ℕ} → some a ≡ some b → a ≡ b
    the h = ground arith
last_apart x n (m ∷ xs) ys a = last_apart x m xs ys a.1

-- Up to its last node, a list is all of itself.
up_to-last :
    (q : ℕ) (n : ℕ × CronJob) (xs ys : Nodes)
    → Distinct (n ∷ xs ++ ys)
    → last_node (n ∷ xs) ≡ some q
    → up_to q (n ∷ xs) ≡ some (n ∷ xs)
up_to-last q n [] ys d h = if_true _ _ (ap (λ p. n.0 == p) (sym (the h)) ∙ eq_self n.0)
  where
    the : {a b : ℕ} → some a ≡ some b → a ≡ b
    the h = ground arith
up_to-last q n (m ∷ xs) ys d h =
    if_false _ _ (eq_ne (λ e. last_apart n m xs ys d.1 (h ∙ ap some (sym e))))
    ∙ ap (λ o. elim o [ none ↦ none | some r ↦ some (n ∷ r) ]) (up_to-last q m xs ys d.2 h)

pub unlink_lem :
    (xs ys : Nodes) (p : ℕ) (j : CronJob)
    → Distinct (xs ++ (p, j) ∷ ys)
    → unlink (last_node xs) p (xs ++ (p, j) ∷ ys) ≡ some (xs ++ ys)
unlink_lem [] ys p j d = ap some (behind_node_lem ys p j [] d)
unlink_lem (n ∷ xs) ys p j d =
    let (q, last) = last_some n xs in
    ap (λ o. unlink o p (n ∷ xs ++ (p, j) ∷ ys)) last
    ∙ ap
        (λ b. elim (up_to q b) as (λ _. Option Nodes) [
          | none ↦ none
          | some kept ↦ some (kept ++ behind_node p (n ∷ xs ++ (p, j) ∷ ys))
        ])
        (before_node_lem ys p j (n ∷ xs) d)
    ∙ ap
        (λ o. elim o as (λ _. Option Nodes) [
          | none ↦ none
          | some kept ↦ some (kept ++ behind_node p (n ∷ xs ++ (p, j) ∷ ys))
        ])
        (up_to-last q n xs ((p, j) ∷ ys) d last)
    ∙ ap (λ b. some (n ∷ xs ++ b)) (behind_node_lem ys p j (n ∷ xs) d)
  where
    last_some : (c : ℕ × CronJob) (cs : Nodes) → (t : ℕ) × (last_node (c ∷ cs) ≡ some t)
    last_some c [] = (c.0, refl)
    last_some c (e ∷ cs) = last_some e cs

pub last_node-snoc : (xs : Nodes) (p : ℕ) (j : CronJob) → last_node (xs ++ (p, j) ∷ []) ≡ some p
last_node-snoc [] p j = refl
last_node-snoc (x ∷ []) p j = refl
last_node-snoc (x ∷ y ∷ xs) p j = last_node-snoc (y ∷ xs) p j
