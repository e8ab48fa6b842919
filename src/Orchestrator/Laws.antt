-- ===== src/Orchestrator/Laws.antt =====
-- src/agent/session_orchestrator.c: the list of tasks as a map from session keys to tasks.
use mathlib.Core.Path.{subst}
use primagen.Base.{
  ◌≡◌, ◌≢◌, refl, ap, true, false, List, [], ◌∷◌, ◌++◌, none, some, arith, if◌then◌else◌, if_elim,
  Text, text_eq, text_eq_iff, copy_to, Bool-cases, inl, inr,
}
use primagen.Orchestrator.{ActiveTask, has_id, has_key, find_task, update_first, remove_first}

-- Every task is the only one with its id and with its key, and the buffers of a snapshot hold both.
abbrev pub IsFresh : ActiveTask → List ActiveTask → Type 0
IsFresh t ts = (find_task (has_id t.id) ts ≡ none) × (find_task (has_key t.session_key) ts ≡ none)

abbrev pub IsShort : ActiveTask → Type 0
IsShort t = (copy_to 32 t.id ≡ t.id) × (copy_to 512 t.session_key ≡ t.session_key)

abbrev pub Distinct : List ActiveTask → Type 0
Distinct [] = Unit
Distinct (t ∷ ts) = IsFresh t ts × IsShort t × Distinct ts

-- A change that keeps the id and the key of a task.
abbrev pub IsInPlace : (ActiveTask → ActiveTask) → Type 0
IsInPlace f = (t : ActiveTask) → ((f t).id ≡ t.id) × ((f t).session_key ≡ t.session_key)

pub found-has_key :
    (key : Text) (ts : List ActiveTask) (t : ActiveTask)
    → find_task (has_key key) ts ≡ some t
    → t.session_key ≡ key
unfolding find_task
found-has_key key [] t h = ground arith
found-has_key key (u ∷ ts) t h =
    ground (arith, text_eq_iff u.session_key key, found-has_key key ts t)

pub found-IsShort :
    (key : Text) (ts : List ActiveTask) (t : ActiveTask)
    → Distinct ts
    → find_task (has_key key) ts ≡ some t
    → IsShort t
unfolding find_task
found-IsShort key [] t d h = ground arith
found-IsShort key (u ∷ ts) t d h = elim (Bool-cases (has_key key u)) [
  | inl k ↦ let same : u ≡ t = ground arith in subst IsShort same d.1
  | inr k ↦ found-IsShort key ts t d.2 (ground arith)
]

pub find-update_same :
    (key : Text) (f : ActiveTask → ActiveTask) (ts : List ActiveTask) (t : ActiveTask)
    → IsInPlace f
    → find_task (has_key key) ts ≡ some t
    → find_task (has_key key) (update_first (has_key key) f ts) ≡ some (f t)
unfolding find_task update_first
find-update_same key f [] t p h = ground arith
find-update_same key f (u ∷ ts) t p h = ground (arith, p u, find-update_same key f ts t p)

pub find-update_ne :
    (key j : Text) (f : ActiveTask → ActiveTask) (ts : List ActiveTask)
    → IsInPlace f
    → text_eq key j ≡ false
    → find_task (has_key j) (update_first (has_key key) f ts) ≡ find_task (has_key j) ts
unfolding find_task update_first
find-update_ne key j f [] p h = refl
find-update_ne key j f (u ∷ ts) p h = ground (
  arith,
  p u,
  text_eq_iff u.session_key key,
  text_eq_iff key j,
  text_eq_iff u.session_key j,
  find-update_ne key j f ts p h,
)

absent-update :
    (key k : Text) (i : Text) (f : ActiveTask → ActiveTask) (ts : List ActiveTask)
    → IsInPlace f
    → (find_task (has_id i) ts ≡ none) × (find_task (has_key k) ts ≡ none)
    → let us = update_first (has_key key) f ts in
      (find_task (has_id i) us ≡ none) × (find_task (has_key k) us ≡ none)
unfolding find_task update_first
absent-update key k i f [] p h = h
absent-update key k i f (u ∷ ts) p h = ground (arith, p u, absent-update key k i f ts p)

pub update-Distinct :
    (key : Text) (f : ActiveTask → ActiveTask) (ts : List ActiveTask)
    → IsInPlace f
    → Distinct ts
    → Distinct (update_first (has_key key) f ts)
unfolding update_first
update-Distinct key f [] p d = tt
update-Distinct key f (u ∷ ts) p (fresh, short, d) =
    if_elim Distinct (has_key key u) _ _ (λ _. rw ((p u).0, (p u).1) (fresh, short, d))
      (λ _.
        (absent-update key u.session_key u.id f ts p fresh, short, update-Distinct key f ts p d))

id_present :
    (key : Text) (ts : List ActiveTask) (t : ActiveTask)
    → find_task (has_key key) ts ≡ some t
    → find_task (has_id t.id) ts ≢ none
unfolding find_task
id_present key [] t h e = ground arith
id_present key (u ∷ ts) t h e = elim (Bool-cases (has_key key u)) [
  | inl k ↦
      let same : u ≡ t = ground arith in
      ground (arith, ap (λ (v : ActiveTask). v.id) same, text_eq_iff u.id t.id)
  | inr k ↦ ground (arith, id_present key ts t)
]

-- A task leaves by its id; as no other task has it, it is the task of its key that goes.
remove_id :
    (key : Text) (ts : List ActiveTask) (t : ActiveTask)
    → Distinct ts
    → find_task (has_key key) ts ≡ some t
    → remove_first (has_id t.id) ts ≡ remove_first (has_key key) ts
unfolding find_task remove_first
remove_id key [] t d h = refl
remove_id key (u ∷ ts) t (fresh, short, d) h = elim (Bool-cases (has_key key u)) [
  | inl k ↦
      let same : u ≡ t = ground arith in
      let hit : has_id t.id u ≡ true =
        (text_eq_iff u.id t.id).1 (ap (λ (v : ActiveTask). v.id) same) in
      rw (k, hit) refl
  | inr k ↦
      let rest : find_task (has_key key) ts ≡ some t = ground arith in
      let miss : has_id t.id u ≡ false =
        ground (arith, id_present key ts t rest, text_eq_iff u.id t.id) in
      rw (k, miss) (ap (◌∷◌ u) (remove_id key ts t d rest))
]

find-remove_self :
    (key : Text) (ts : List ActiveTask)
    → Distinct ts
    → find_task (has_key key) (remove_first (has_key key) ts) ≡ none
unfolding find_task remove_first
find-remove_self key [] d = refl
find-remove_self key (u ∷ ts) (fresh, short, d) =
    ground (arith, text_eq_iff u.session_key key, find-remove_self key ts d)

find-remove_ne :
    (key j : Text) (ts : List ActiveTask)
    → text_eq key j ≡ false
    → find_task (has_key j) (remove_first (has_key key) ts) ≡ find_task (has_key j) ts
unfolding find_task remove_first
find-remove_ne key j [] h = refl
find-remove_ne key j (u ∷ ts) h = ground (
  arith,
  text_eq_iff u.session_key key,
  text_eq_iff key j,
  text_eq_iff u.session_key j,
  find-remove_ne key j ts h,
)

absent-remove :
    (key k i : Text) (ts : List ActiveTask)
    → (find_task (has_id i) ts ≡ none) × (find_task (has_key k) ts ≡ none)
    → let us = remove_first (has_key key) ts in
      (find_task (has_id i) us ≡ none) × (find_task (has_key k) us ≡ none)
unfolding find_task remove_first
absent-remove key k i [] h = h
absent-remove key k i (u ∷ ts) h = ground (arith, absent-remove key k i ts)

remove-Distinct :
    (key : Text) (ts : List ActiveTask) → Distinct ts → Distinct (remove_first (has_key key) ts)
unfolding remove_first
remove-Distinct key [] d = tt
remove-Distinct key (u ∷ ts) (fresh, short, d) =
    if_elim Distinct (has_key key u) _ _ (λ _. d)
      (λ _. (absent-remove key u.session_key u.id ts fresh, short, remove-Distinct key ts d))

-- Where the tasks have distinct ids and sessions, the removal of a session's task by the id that
-- its snapshot gives takes that task away, and every other session keeps its own.
pub find-remove :
    (key j : Text) (ts : List ActiveTask) (t : ActiveTask)
    → Distinct ts
    → find_task (has_key key) ts ≡ some t
    → find_task (has_key j) (remove_first (has_id (copy_to 32 t.id)) ts)
      ≡ (if text_eq key j then none else find_task (has_key j) ts)
find-remove key j ts t d h =
    rw ((found-IsShort key ts t d h).0, remove_id key ts t d h)
      (if_elim (λ o. find_task (has_key j) (remove_first (has_key key) ts) ≡ o) (text_eq key j) _ _
        (λ e.
          subst (λ k. find_task (has_key k) (remove_first (has_key key) ts) ≡ none)
            ((text_eq_iff key j).0 e) (find-remove_self key ts d))
        (λ e. find-remove_ne key j ts e))

pub removed-Distinct :
    (key : Text) (ts : List ActiveTask) (t : ActiveTask)
    → Distinct ts
    → find_task (has_key key) ts ≡ some t
    → Distinct (remove_first (has_id (copy_to 32 t.id)) ts)
removed-Distinct key ts t d h =
    rw ((found-IsShort key ts t d h).0, remove_id key ts t d h) (remove-Distinct key ts d)

-- A change of the task that a session has, keeping its id and session, reaches that session only.
pub find-update :
    (key j : Text) (f : ActiveTask → ActiveTask) (ts : List ActiveTask) (t : ActiveTask)
    → IsInPlace f
    → find_task (has_key key) ts ≡ some t
    → find_task (has_key j) (update_first (has_key key) f ts)
      ≡ (if text_eq key j then some (f t) else find_task (has_key j) ts)
find-update key j f ts t p h =
    if_elim (λ o. find_task (has_key j) (update_first (has_key key) f ts) ≡ o) (text_eq key j) _ _
      (λ e.
        subst (λ k. find_task (has_key k) (update_first (has_key key) f ts) ≡ some (f t))
          ((text_eq_iff key j).0 e) (find-update_same key f ts t p h))
      (λ e. find-update_ne key j f ts p e)

pub find-add :
    (j : Text) (ts : List ActiveTask) (t : ActiveTask)
    → find_task (has_key t.session_key) ts ≡ none
    → find_task (has_key j) (ts ++ t ∷ [])
      ≡ (if text_eq t.session_key j then some t else find_task (has_key j) ts)
unfolding find_task
find-add j [] t h = refl
find-add j (u ∷ ts) t h = ground (
  arith,
  text_eq_iff u.session_key j,
  text_eq_iff t.session_key j,
  text_eq_iff u.session_key t.session_key,
  find-add j ts t,
)

absent-add :
    (i k : Text) (ts : List ActiveTask) (t : ActiveTask)
    → text_eq t.id i ≡ false
    → text_eq t.session_key k ≡ false
    → (find_task (has_id i) ts ≡ none) × (find_task (has_key k) ts ≡ none)
    → let us = ts ++ t ∷ [] in (find_task (has_id i) us ≡ none) × (find_task (has_key k) us ≡ none)
unfolding find_task
absent-add i k [] t p q h = ground arith
absent-add i k (u ∷ ts) t p q h = ground (arith, absent-add i k ts t)

pub add-Distinct :
    (ts : List ActiveTask) (t : ActiveTask)
    → Distinct ts
    → IsFresh t ts
    → IsShort t
    → Distinct (ts ++ t ∷ [])
unfolding find_task
add-Distinct [] t d f s = ((refl, refl), s, tt)
add-Distinct (u ∷ ts) t (fresh, short, d) (i, k) s = (
  absent-add u.id u.session_key ts t (ground (arith, text_eq_iff u.id t.id, text_eq_iff t.id u.id))
      (ground
        (arith, text_eq_iff u.session_key t.session_key, text_eq_iff t.session_key u.session_key))
      fresh,
  short,
  add-Distinct ts t d (ground arith, ground arith) s,
)
