-- ===== src/Agent/Turns.antt =====
-- src/agent/agent_loop.c: the turns of a task: the model's call, its tool runs, their answers.
use mathlib.Core.Path.{subst}
use primagen.Base.{
  ℕ, suc, ◌≤◌, ◌≡◌, refl, sym, ap, ◌∙◌, true, false, List, [], ◌∷◌, ◌++◌, map, some, arith, leb,
  if_elim, length, pos, is_positive, pred_ℤ, Text, text_eq_refl, copy_to,
}
use primagen.Messages.{ToolCall}
use primagen.Orchestrator.{
  ActiveTask, waiting_llm, waiting_tool, with_state, with_pending, one_less, next_turn,
  remaining_of, session_orchestrator_update_task_state,
  session_orchestrator_decrement_task_pending_tools, session_orchestrator_increment_task_turn,
  TaskSnapshot, snapshot_by_key,
}
use primagen.Agent.{AgentLoop, World, remove_active_task, trigger_llm_async, send_error_response}
use primagen.Agent.LlmResults.{run_of}
use primagen.Agent.ToolResults.{max_turns, limit_text, next_llm_turn, count_down}
use primagen.Agent.Flow.{InFlight, count_calls, count_runs, count_calls-append, count_runs-append}
use primagen.Agent.Phases.{
  IsFor, settle, finish, IsSound, short_key, held, moved-elsewhere, moved_here, count-runs_of,
  IsSoundElsewhere, moved, task_of, runs_of-IsFor,
}

-- The calls of a response, all of them submitted.
abbrev pub with_runs : AgentLoop → Text → List ToolCall → ℕ → AgentLoop
with_runs a key calls n =
    let b = moved a key (with_state waiting_tool) a.llm_calls a.tool_runs in
    moved b key (with_pending (pos n)) b.llm_calls (b.tool_runs ++ map (run_of key) calls)

pub with_runs-IsSound :
    (key : Text) (t : ActiveTask) (a : AgentLoop) (calls : List ToolCall) (n : ℕ)
    → IsSoundElsewhere key a
    → task_of a key ≡ some t
    → (1 ≤ t.turn) × (t.turn ≤ max_turns a) × (held a key ≡ true)
    → count_calls key a.llm_calls ≡ 0
    → count_runs key a.tool_runs ≡ 0
    → length calls ≡ suc n
    → IsSound (with_runs a key calls (suc n))
with_runs-IsSound key t a calls n s found (low, high, h) c r l =
    let b = moved a key (with_state waiting_tool) a.llm_calls a.tool_runs in
    let k = short_key key a t s found in
    let sb =
      moved-elsewhere key (with_state waiting_tool) a.llm_calls a.tool_runs a (λ _. (refl, refl))
        (λ _ _. (refl, refl)) s in
    let fb =
      moved_here key (with_state waiting_tool) a.llm_calls a.tool_runs a t (λ _. (refl, refl))
        found in
    let runs = b.tool_runs ++ map (run_of key) calls in
    let total : count_runs key runs ≡ suc n = omega (
      arith,
      count_runs-append key a.tool_runs (map (run_of key) calls),
      count-runs_of key calls k,
    ) in
    settle key (moved b key (with_pending (pos (suc n))) b.llm_calls runs)
      (with_pending (pos (suc n)) (with_state waiting_tool t))
      (moved-elsewhere key (with_pending (pos (suc n))) b.llm_calls runs b (λ _. (refl, refl))
        (runs_of-IsFor key calls b k) sb)
      (moved_here key (with_pending (pos (suc n))) b.llm_calls runs b (with_state waiting_tool t)
        (λ _. (refl, refl)) fb)
      (low, high, h, (c, ap pos (sym total), omega (arith, total)))

pub one_call :
    (key : Text) (a : AgentLoop)
    → copy_to 512 key ≡ key
    → IsFor key a (a.llm_calls ++ copy_to 512 key ∷ []) a.tool_runs
one_call key a h j e =
    (rw h (omega (arith, count_calls-append j a.llm_calls (key ∷ []), none_here)), refl)
  where
    none_here : count_calls j (key ∷ []) ≡ 0
    none_here = rw e refl

-- The call of the model for a session.
abbrev pub with_call : AgentLoop → Text → AgentLoop
with_call a key =
    moved a key (with_state waiting_llm) (a.llm_calls ++ copy_to 512 key ∷ []) a.tool_runs

pub with_call-IsSound :
    (key : Text) (t : ActiveTask) (a : AgentLoop)
    → IsSoundElsewhere key a
    → task_of a key ≡ some t
    → (1 ≤ t.turn) × (t.turn ≤ max_turns a) × (held a key ≡ true)
    → count_calls key a.llm_calls ≡ 0
    → count_runs key a.tool_runs ≡ 0
    → IsSound (with_call a key)
with_call-IsSound key t a s found (low, high, h) c r =
    let k = short_key key a t s found in
    let one : count_calls key (a.llm_calls ++ copy_to 512 key ∷ []) ≡ 1 =
      rw k (omega (arith, count_calls-append key a.llm_calls (key ∷ []), here)) in
    settle key (with_call a key) (with_state waiting_llm t)
      (moved-elsewhere key (with_state waiting_llm) (a.llm_calls ++ copy_to 512 key ∷ [])
        a.tool_runs a (λ _. (refl, refl)) (one_call key a k) s)
      (moved_here key (with_state waiting_llm) (a.llm_calls ++ copy_to 512 key ∷ []) a.tool_runs a t
        (λ _. (refl, refl)) found)
      (low, high, h, (one, r))
  where
    here : count_calls key (key ∷ []) ≡ 1
    here = rw (text_eq_refl key) refl

-- Another turn, or the end of the task at the limit.
pub next_llm_turn-IsSound :
    (w : World) (key : Text) (t : ActiveTask) (a : AgentLoop) (snap : TaskSnapshot)
    → IsSoundElsewhere key a
    → task_of a key ≡ some t
    → snap.turn ≡ t.turn
    → snap.task_id ≡ copy_to 32 t.id
    → held a key ≡ true
    → count_calls key a.llm_calls ≡ 0
    → count_runs key a.tool_runs ≡ 0
    → IsSound (next_llm_turn w a key snap)
unfolding next_llm_turn send_error_response session_orchestrator_increment_task_turn
    session_orchestrator_update_task_state trigger_llm_async
next_llm_turn-IsSound w key t a snap s found turn id h c r =
    if_elim IsSound (leb (max_turns a) snap.turn) _ _
      (λ _.
        let b = send_error_response a snap.channel snap.chat_id limit_text in
        subst (λ i. IsSound (remove_active_task w b i)) (sym id) (finish w key t b s found c r))
      (λ more.
        let b = moved a key next_turn a.llm_calls a.tool_runs in
        with_call-IsSound key (next_turn t) b
          (moved-elsewhere key next_turn a.llm_calls a.tool_runs a (λ _. (refl, refl))
            (λ _ _. (refl, refl)) s)
          (moved_here key next_turn a.llm_calls a.tool_runs a t (λ _. (refl, refl)) found)
          (omega arith, ground arith, h) c r)

-- An answered tool run.
pub count_down-IsSound :
    (w : World) (key : Text) (t : ActiveTask) (a : AgentLoop) (snap : TaskSnapshot)
    → IsSoundElsewhere key a
    → task_of a key ≡ some t
    → snap ≡ snapshot_by_key (some t)
    → t.state ≡ waiting_tool
    → t.pending_tool_count ≡ pos (suc (count_runs key a.tool_runs))
    → (1 ≤ t.turn) × (t.turn ≤ max_turns a) × (held a key ≡ true)
    → count_calls key a.llm_calls ≡ 0
    → IsSound (count_down w a key snap)
unfolding count_down session_orchestrator_decrement_task_pending_tools
count_down-IsSound w key t a snap s found same state pending (low, high, h) c =
    let b = moved a key one_less a.llm_calls a.tool_runs in
    let sb =
      moved-elsewhere key one_less a.llm_calls a.tool_runs a (λ _. (refl, refl))
        (λ _ _. (refl, refl)) s in
    let fb = moved_here key one_less a.llm_calls a.tool_runs a t (λ _. (refl, refl)) found in
    let left : remaining_of (task_of a key) ≡ pos (count_runs key a.tool_runs) =
      ap remaining_of found ∙ ap pred_ℤ pending in
    if_elim IsSound (is_positive (remaining_of (task_of a key))) _ _
      (λ more. settle key b (one_less t) sb fb (
        low,
        high,
        h,
        subst
            (λ st.
              InFlight st (one_less t).pending_tool_count (count_calls key a.llm_calls)
                (count_runs key a.tool_runs))
            (sym state)
            (
              c,
              ap pred_ℤ pending,
              some_left (count_runs key a.tool_runs) (sym (ap is_positive left) ∙ more),
            ),
      ))
      (λ last.
        next_llm_turn-IsSound w key (one_less t) b snap sb fb
          (ap (λ (x : TaskSnapshot). x.turn) same) (ap (λ (x : TaskSnapshot). x.task_id) same) h c
          (none_left (count_runs key a.tool_runs) (sym (ap is_positive left) ∙ last)))
  where
    some_left : (n : ℕ) → is_positive (pos n) ≡ true → 1 ≤ n
    some_left n e = ground arith

    none_left : (n : ℕ) → is_positive (pos n) ≡ false → n ≡ 0
    none_left n e = ground arith
