-- ===== src/Session/Callers.antt =====
-- What the tests of `session_snapshot_for_context` in src/session/session.c say of the chains of tool
-- calls.
use mathlib.Core.Path.{subst}
use primagen.Base.{
  ℕ, zero, suc, ◌-◌, ◌<◌, ◌≡◌, ◌≢◌, refl, sym, ap, ◌∙◌, ◌+◌, inl, inr, Bool, true, false, ◌&&◌,
  ◌||◌, not, List, [], ◌∷◌, Option, none, some, arith, length, get_elem?, take, drop, Text, text_eq,
  text_eq_iff, Bool-cases, if_elim, ◌==◌, ==_iff,
}
use primagen.Messages.{Message, MessageRole, user, assistant, tool, ToolCall}
use primagen.Session.Context.{
  any_id, is_nil, is_assistant, is_tool, assistant_has_tool_call_id, find_caller, first_caller,
  calls_tools,
}
use primagen.Session.ToolChain.{
  HasId, LacksId, IsCaller, IsNoCaller, CallsTools, CallsNone, NoCallers, AnswersNone, GoesBack,
  stays, to_caller,
}

assistant_of : (r : MessageRole) → is_assistant r ≡ true → r ≡ assistant
assistant_of user h = absurd (ground arith)
assistant_of assistant h = refl
assistant_of tool h = absurd (ground arith)

no_assistant_of : (r : MessageRole) → is_assistant r ≡ false → r ≢ assistant
no_assistant_of r h e = absurd (clash h (rw e refl))
  where
    clash : {b : Bool} → b ≡ false → b ≡ true → ⊥
    clash p q = cc

any_id-HasId : (cs : List ToolCall) (id : Text) → any_id cs id ≡ true → HasId id cs
unfolding any_id
any_id-HasId [] id h = absurd (ground arith)
any_id-HasId (c ∷ cs) id h = elim (Bool-cases (text_eq c.id id)) [
  | inl e ↦ inl ((text_eq_iff c.id id).0 e)
  | inr e ↦ inr (any_id-HasId cs id (rest e h))
]
  where
    rest : {x y : Bool} → x ≡ false → (x || y) ≡ true → y ≡ true
    rest p q = ground arith

any_id-LacksId : (cs : List ToolCall) (id : Text) → any_id cs id ≡ false → LacksId id cs
unfolding any_id
any_id-LacksId [] id h = tt
any_id-LacksId (c ∷ cs) id h = (
  (λ e. clash (or_left _ _ h) ((text_eq_iff c.id id).1 e)),
  any_id-LacksId cs id (or_right _ _ h),
)
  where
    clash : {b : Bool} → b ≡ false → b ≡ true → ⊥
    clash p q = cc

    or_left : (x y : Bool) → (x || y) ≡ false → x ≡ false
    or_left x y h = ground arith

    or_right : (x y : Bool) → (x || y) ≡ false → y ≡ false
    or_right x y h = ground arith

nonempty_of {ℓ} : {A : Type ℓ} (l : List A) → not (is_nil l) ≡ true → 0 < length l
nonempty_of [] h = absurd (ground arith)
nonempty_of (x ∷ l) h = omega arith

empty_of {ℓ} : {A : Type ℓ} (l : List A) → not (is_nil l) ≡ false → l ≡ []
empty_of [] h = refl
empty_of (x ∷ l) h = absurd (ground arith)

IsCaller-of :
    (id : Text) (o : Option Message) → assistant_has_tool_call_id o id ≡ true → IsCaller id o
unfolding assistant_has_tool_call_id
IsCaller-of id none h = absurd (ground arith)
IsCaller-of id (some m) h = (
  assistant_of m.role (ground arith),
  nonempty_of id (ground arith),
  any_id-HasId m.tool_calls id (ground arith),
)

IsNoCaller-of :
    (id : Text) (o : Option Message) → assistant_has_tool_call_id o id ≡ false → IsNoCaller id o
unfolding assistant_has_tool_call_id
IsNoCaller-of id none h = tt
IsNoCaller-of id (some m) h = elim (Bool-cases (is_assistant m.role)) [
  | inr e ↦ inl (no_assistant_of m.role e)
  | inl e ↦ elim (Bool-cases (not (is_nil id))) [
    | inr n ↦ inr (inl (empty_of id n))
    | inl n ↦ inr (inr (any_id-LacksId m.tool_calls id (last e n h)))
  ]
]
  where
    last : {x y z : Bool} → x ≡ true → y ≡ true → ((x && y) && z) ≡ false → z ≡ false
    last p q h = ground arith

pub calls_of : (o : Option Message) → calls_tools o ≡ true → CallsTools o
unfolding calls_tools
calls_of none h = absurd (ground arith)
calls_of (some m) h = (assistant_of m.role (ground arith), nonempty_of m.tool_calls (ground arith))

pub no_calls_of : (o : Option Message) → calls_tools o ≡ false → CallsNone o
unfolding calls_tools
no_calls_of none h = tt
no_calls_of (some m) h = elim (Bool-cases (is_assistant m.role)) [
  | inr e ↦ inl (no_assistant_of m.role e)
  | inl e ↦ inr (empty_of m.tool_calls (second e h))
]
  where
    second : {x y : Bool} → x ≡ true → (x && y) ≡ false → y ≡ false
    second p h = ground arith

find_caller-IsCaller :
    (ms : List Message) (id : Text) (n j : ℕ)
    → find_caller ms id n ≡ some j
    → (j < n) × IsCaller id (get_elem? ms j)
unfolding find_caller
find_caller-IsCaller ms id zero j h = absurd (ground arith)
find_caller-IsCaller ms id (suc n) j h =
    let ih = find_caller-IsCaller ms id n j in
    if_elim (λ o. o ≡ some j → (j < suc n) × IsCaller id (get_elem? ms j))
      (assistant_has_tool_call_id (get_elem? ms n) id) _ _
      (λ e h.
        let same : n ≡ j = ground arith in
        (omega arith, subst (λ k. IsCaller id (get_elem? ms k)) same (IsCaller-of id _ e)))
      (λ _ h. let (lt, c) = ih h in (omega arith, c)) h

no_callers :
    (ms : List Message) (id : Text) (n : ℕ)
    → ((j : ℕ) → j < n → IsNoCaller id (get_elem? ms j))
    → NoCallers id (take n ms)
no_callers ms id zero h = tt
no_callers [] id (suc n) h = tt
no_callers (m ∷ ms) id (suc n) h =
    (h 0 (omega arith), no_callers ms id n (λ j lt. h (suc j) (omega arith)))

find_caller-IsNoCaller :
    (ms : List Message) (id : Text) (n : ℕ)
    → find_caller ms id n ≡ none
    → (j : ℕ) → j < n
    → IsNoCaller id (get_elem? ms j)
unfolding find_caller
find_caller-IsNoCaller ms id zero h j lt = absurd (omega arith)
find_caller-IsNoCaller ms id (suc n) h j lt =
    let ih = find_caller-IsNoCaller ms id n in
    if_elim (λ o. o ≡ none → IsNoCaller id (get_elem? ms j))
      (assistant_has_tool_call_id (get_elem? ms n) id) _ _ (λ _ h. absurd (ground arith))
      (λ e h. elim (Bool-cases (n == j)) [
        | inl same ↦
            subst (λ k. IsNoCaller id (get_elem? ms k)) ((==_iff n j).0 same) (IsNoCaller-of id _ e)
        | inr other ↦ ih h j (ground arith)
      ])
      h

get_elem?-drop :
    (k : ℕ) (ms : List Message) (j : ℕ) → get_elem? (drop k ms) j ≡ get_elem? ms (k + j)
get_elem?-drop zero ms j = let e : j ≡ 0 + j = omega arith in ap (get_elem? ms) e
get_elem?-drop (suc k) [] j = refl
get_elem?-drop (suc k) (m ∷ ms) j =
    let e : suc (k + j) ≡ suc k + j = omega arith in
    get_elem?-drop k ms j ∙ ap (get_elem? (m ∷ ms)) e

-- The caller that is found is the nearest.
find_caller-nearest :
    (ms : List Message) (id : Text) (n j : ℕ)
    → find_caller ms id n ≡ some j
    → (i : ℕ) → j < i
    → i < n
    → IsNoCaller id (get_elem? ms i)
unfolding find_caller
find_caller-nearest ms id zero j h i lo hi = absurd (omega arith)
find_caller-nearest ms id (suc n) j h i lo hi =
    let ih = find_caller-nearest ms id n j in
    if_elim (λ o. o ≡ some j → IsNoCaller id (get_elem? ms i))
      (assistant_has_tool_call_id (get_elem? ms n) id) _ _
      (λ _ h. absurd (outside (ground arith) lo hi))
      (λ e h. elim (Bool-cases (n == i)) [
        | inl same ↦
            subst (λ k. IsNoCaller id (get_elem? ms k)) ((==_iff n i).0 same) (IsNoCaller-of id _ e)
        | inr other ↦ ih h i lo (ground arith)
      ])
      h
  where
    outside : n ≡ j → j < i → i < suc n → ⊥
    outside e lo hi = omega arith

NoCallers-between :
    (ms : List Message) (id : Text) (n j : ℕ)
    → find_caller ms id n ≡ some j
    → NoCallers id (take (n - suc j) (drop (suc j) ms))
NoCallers-between ms id n j h = no_callers (drop (suc j) ms) id (n - suc j) (λ i lt.
    subst (IsNoCaller id) (sym (get_elem?-drop (suc j) ms i))
      (find_caller-nearest ms id n j h (suc j + i) (omega arith) (omega arith)))

tool_of : (r : MessageRole) → is_tool r ≡ true → r ≡ tool
tool_of user h = absurd (ground arith)
tool_of assistant h = absurd (ground arith)
tool_of tool h = refl

no_tool_of : (r : MessageRole) → is_tool r ≡ false → r ≢ tool
no_tool_of r h e = absurd (clash h (rw e refl))
  where
    clash : {b : Bool} → b ≡ false → b ≡ true → ⊥
    clash p q = cc

-- Where the code finds no caller, the message answers no earlier call.
pub first_caller-AnswersNone :
    (ms : List Message) (a : ℕ) (o : Option Message)
    → first_caller ms a o ≡ none
    → AnswersNone (take a ms) o
unfolding first_caller
first_caller-AnswersNone ms a none h = tt
first_caller-AnswersNone ms a (some m) h =
    if_elim (λ r. r ≡ none → AnswersNone (take a ms) (some m)) (is_tool m.role) _ _
      (λ _ h. inr (no_callers ms m.tool_call_id a (find_caller-IsNoCaller ms m.tool_call_id a h)))
      (λ e _. inl (no_tool_of m.role e)) h

-- Where it finds one, the start may go back to it.
pub first_caller-GoesBack :
    (ms : List Message) (a j : ℕ)
    → first_caller ms a (get_elem? ms a) ≡ some j
    → (j < a) × GoesBack ms a j
unfolding first_caller
first_caller-GoesBack ms a j h = by_first (get_elem? ms a) refl h
  where
    by_first :
        (o : Option Message)
        → get_elem? ms a ≡ o
        → first_caller ms a o ≡ some j
        → (j < a) × GoesBack ms a j
    by_first none e h = absurd (ground arith)
    by_first (some m) e h =
        if_elim (λ r. r ≡ some j → (j < a) × GoesBack ms a j) (is_tool m.role) _ _
          (λ t h.
            let (lt, c) = find_caller-IsCaller ms m.tool_call_id a j h in
            (
              lt,
              to_caller e (tool_of m.role t) lt c (NoCallers-between ms m.tool_call_id a j h) stays,
            ))
          (λ _ h. absurd (ground arith)) h
