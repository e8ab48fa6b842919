-- ===== src/Session/Window.antt =====
-- The window of messages that src/session/session.c hands to the LLM.
use mathlib.Core.Path.{subst}
use primagen.Base.{
  ℕ, zero, suc, ◌-◌, ◌≤◌, ◌<◌, ◌≡◌, refl, ◌⊎◌, inl, inr, Bool, true, false, ◌&&◌, ◌||◌, List, none,
  arith, ltb, leb, ◌==◌, ==_iff, if_elim, length, get_elem?, drop, Bool-cases, Option-cases,
}
use primagen.Messages.{Message}
use primagen.Session.{Session}
use primagen.Session.Context.{
  first_caller, calls_tools, step_over, round, adjust_loop, adjust_context_start_for_tool_chain,
  context_start, session_snapshot_for_context,
}
use primagen.Session.ToolChain.{
  CallsNone, IsCleanStart, GoesBack, stays, over_calls, GoesBack-le, GoesBack-trans,
}
use primagen.Session.Callers.{
  calls_of, no_calls_of, first_caller-AnswersNone, first_caller-GoesBack,
}

-- A round goes back for a reason, or stays at a clean start.
abbrev Round : List Message → ℕ → ℕ × Bool → Type 0
Round ms a r =
    ((r.1 ≡ true) × (r.0 < a) × GoesBack ms a r.0) ⊎ ((r.1 ≡ false) × (r.0 ≡ a) × IsCleanStart ms a)

-- The step over an assistant's calls.
abbrev Over : List Message → ℕ → Bool → ℕ × Bool → Type 0
Over ms j changed r =
    ((r.1 ≡ true) × (r.0 < j) × GoesBack ms j r.0)
    ⊎ ((r.1 ≡ changed) × (r.0 ≡ j) × ((j ≡ 0) ⊎ CallsNone (get_elem? ms (j - 1))))

over_lem : (ms : List Message) (j : ℕ) (changed : Bool) → Over ms j changed (step_over ms j changed)
unfolding step_over
over_lem ms j changed =
    if_elim (Over ms j changed) (ltb 0 j && calls_tools (get_elem? ms (j - 1))) _ _
      (λ e.
        let pos : 0 < j = ground arith in
        let back : GoesBack ms (suc (j - 1)) (j - 1) =
          over_calls (calls_of (get_elem? ms (j - 1)) (ground arith)) stays in
        inl (refl, omega arith, subst (λ k. GoesBack ms k (j - 1)) (omega arith) back))
      (λ e. inr (refl, refl, not_over e))
  where
    second : {x y : Bool} → x ≡ true → (x && y) ≡ false → y ≡ false
    second p h = ground arith

    not_over :
        (ltb 0 j && calls_tools (get_elem? ms (j - 1))) ≡ false
        → (j ≡ 0) ⊎ CallsNone (get_elem? ms (j - 1))
    not_over e = elim (Bool-cases (ltb 0 j)) [
      | inl p ↦ inr (no_calls_of (get_elem? ms (j - 1)) (second p e))
      | inr z ↦ inl (ground arith)
    ]

round-Round : (ms : List Message) (a : ℕ) → Round ms a (round ms a)
unfolding round
round-Round ms a =
    if_elim (Round ms a) (a == 0) _ _ (λ z. inr (refl, refl, inl ((==_iff a 0).0 z)))
      λ _. elim (Option-cases (first_caller ms a (get_elem? ms a))) [
        | inl e ↦ rw e (from_here e (over_lem ms a false))
        | inr (j, e) ↦ rw e (from_caller (first_caller-GoesBack ms a j e) (over_lem ms j true))
      ]
  where
    from_here :
        {r : ℕ × Bool}
        → first_caller ms a (get_elem? ms a) ≡ none
        → Over ms a false r
        → Round ms a r
    from_here e (inl moved) = inl moved
    from_here e (inr (c, same, inl z)) = inr (c, same, inl z)
    from_here e (inr (c, same, inr q)) =
        inr (c, same, inr (first_caller-AnswersNone ms a (get_elem? ms a) e, q))

    from_caller :
        {r : ℕ × Bool} {j : ℕ} → (j < a) × GoesBack ms a j → Over ms j true r → Round ms a r
    from_caller (lt, g) (inl (c, below, g')) = inl (c, omega arith, GoesBack-trans g g')
    from_caller (lt, g) (inr (c, same, _)) = inl (c, rw same lt, rw same g)

adjust_loop_lem :
    (fuel : ℕ) (ms : List Message) (a : ℕ)
    → a < fuel
    → GoesBack ms a (adjust_loop fuel ms a) × IsCleanStart ms (adjust_loop fuel ms a)
unfolding adjust_loop
adjust_loop_lem zero ms a h = elim h [ ]
adjust_loop_lem (suc fuel) ms a h =
    let ih = adjust_loop_lem fuel ms (round ms a).0 in
    elim (round-Round ms a) [
      | inl (c, lt, g) ↦ let (g', clean) = ih (omega arith) in rw c (GoesBack-trans g g', clean)
      | inr (c, same, clean) ↦ rw c (rw same (stays, clean))
    ]

-- The start and what it is for: the whole session where its length is not over the limit, and else
-- the limit's start, moved back for a reason only, until it is clean.
abbrev pub IsStart : List Message → ℕ → ℕ → Type 0
IsStart ms n a =
    (((n ≡ 0) ⊎ (length ms ≤ n)) × (a ≡ 0))
    ⊎ ((0 < n) × (n < length ms) × GoesBack ms (length ms - n) a × IsCleanStart ms a)

adjusted-IsStart :
    (ms : List Message) (n : ℕ)
    → 0 < n
    → n < length ms
    → IsStart ms n (adjust_context_start_for_tool_chain ms (length ms - n))
unfolding adjust_context_start_for_tool_chain
adjusted-IsStart ms n pos lt =
    let b = length ms - n in
    if_elim (IsStart ms n) ((b == 0) || leb (length ms) b) _ _ (λ e. absurd (ground arith))
      (λ e. let (g, clean) = adjust_loop_lem (suc b) ms b (omega arith) in inr (pos, lt, g, clean))

context_start-IsStart : (ms : List Message) (n : ℕ) → IsStart ms n (context_start ms n)
unfolding context_start
context_start-IsStart ms n =
    if_elim (IsStart ms n) (ltb 0 n && ltb n (length ms)) _ _
      (λ e. adjusted-IsStart ms n (ground arith) (ground arith)) (λ e. inl (whole e, refl))
  where
    whole : (ltb 0 n && ltb n (length ms)) ≡ false → (n ≡ 0) ⊎ (length ms ≤ n)
    whole e = ground arith

start_below : (ms : List Message) (n a : ℕ) → IsStart ms n a → a ≤ length ms - n
start_below ms n a (inl (_, e)) = omega arith
start_below ms n a (inr (_, _, g, _)) = GoesBack-le g

-- What the LLM is shown is the end of the session from some start, and it is marked as truncated exactly
-- when something is left out. Where `max_messages` is 0 or the session has no more messages than that, the start is
-- the first message. Else the start goes back from the last `max_messages` messages for two reasons only: to
-- the nearest earlier assistant message with the call that the first message shown answers, and over an assistant message
-- with calls right before it; and it ends where neither is left to do.
pub session_snapshot_for_context_lem :
    (s : Session) (max_messages : ℕ)
    → let snap = session_snapshot_for_context s max_messages in
      (a : ℕ) × (snap.messages ≡ drop a s.messages)
      × (snap.truncated ≡ ltb 0 a)
      × (a ≤ length s.messages - max_messages)
      × IsStart s.messages max_messages a
unfolding session_snapshot_for_context
session_snapshot_for_context_lem s max_messages =
    let start = context_start-IsStart s.messages max_messages in
    (
      context_start s.messages max_messages,
      refl,
      refl,
      start_below s.messages max_messages (context_start s.messages max_messages) start,
      start,
    )
