-- ===== src/Agent/InFlight.antt =====
-- src/agent/agent_loop.c: what work in flight says of the task that waits for it.
use mathlib.Core.Path.{subst}
use primagen.Base.{
  ℕ, suc, ◌+◌, ◌≤◌, ◌≡◌, refl, sym, ap, ◌∙◌, Bool, true, List, ◌∷◌, ◌++◌, Option, none, some, arith,
  if◌then◌else◌, pos, Text, text_eq, text_eq_refl,
}
use primagen.Orchestrator.{ActiveTask, SessionState, idle, waiting_llm, waiting_tool}
use primagen.Agent.{AgentLoop, ToolRun}
use primagen.Agent.ToolResults.{max_turns}
use primagen.Agent.Flow.{
  InFlight, Phase, Others-in_flight, count_calls, count_runs, count_calls-append, count_runs-append,
}
use primagen.Agent.Phases.{held, IsSound, task_of}
use primagen.Agent.Events.{Ready}

-- Taking one of the calls in flight.
count_calls-split :
    (key j : Text) (xs ys : List Text)
    → count_calls j (xs ++ key ∷ ys) ≡ (if text_eq key j then 1 else 0) + count_calls j (xs ++ ys)
count_calls-split key j xs ys =
    omega (arith, count_calls-append j xs (key ∷ ys), count_calls-append j xs ys)

count_runs-split :
    (run : ToolRun) (j : Text) (xs ys : List ToolRun)
    → count_runs j (xs ++ run ∷ ys)
      ≡ (if text_eq run.session_key j then 1 else 0) + count_runs j (xs ++ ys)
count_runs-split run j xs ys =
    omega (arith, count_runs-append j xs (run ∷ ys), count_runs-append j xs ys)

-- Work in flight for a session means that it has a task, which waits for that kind of work.
call-Phase :
    (limit : ℕ) (found : Option ActiveTask) (calls runs : ℕ) (has : Bool)
    → Phase limit found (suc calls) runs has
    → (t : ActiveTask) × (found ≡ some t)
      × ((1 ≤ t.turn) × (t.turn ≤ limit) × (has ≡ true))
      × (calls ≡ 0)
      × (runs ≡ 0)
call-Phase limit none calls runs has (c, r) = absurd (omega (arith, c))
call-Phase limit (some t) calls runs has (low, high, h, p) = go t.state p
  where
    go :
        (st : SessionState)
        → InFlight st t.pending_tool_count (suc calls) runs
        → (u : ActiveTask) × (some t ≡ some u)
          × ((1 ≤ u.turn) × (u.turn ≤ limit) × (has ≡ true))
          × (calls ≡ 0)
          × (runs ≡ 0)
    go idle q = absurd q
    go waiting_llm (c, r) = (t, refl, (low, high, h), omega (arith, c), r)
    go waiting_tool (c, p, r) = absurd (omega (arith, c))

run-Phase :
    (limit : ℕ) (found : Option ActiveTask) (calls runs : ℕ) (has : Bool)
    → Phase limit found calls (suc runs) has
    → (t : ActiveTask) × (found ≡ some t)
      × ((1 ≤ t.turn) × (t.turn ≤ limit) × (has ≡ true))
      × (calls ≡ 0)
      × (t.state ≡ waiting_tool)
      × (t.pending_tool_count ≡ pos (suc runs))
run-Phase limit none calls runs has (c, r) = absurd (omega (arith, r))
run-Phase limit (some t) calls runs has (low, high, h, p) = go t.state refl p
  where
    go :
        (st : SessionState)
        → t.state ≡ st
        → InFlight st t.pending_tool_count calls (suc runs)
        → (u : ActiveTask) × (some t ≡ some u)
          × ((1 ≤ u.turn) × (u.turn ≤ limit) × (has ≡ true))
          × (calls ≡ 0)
          × (u.state ≡ waiting_tool)
          × (u.pending_tool_count ≡ pos (suc runs))
    go idle e q = absurd q
    go waiting_llm e (c, r) = absurd (omega (arith, r))
    go waiting_tool e (c, pending, some_runs) = (t, refl, (low, high, h), c, e, pending)

abbrev pub without_call : AgentLoop → List Text → AgentLoop
without_call a calls = record a { llm_calls = calls }

abbrev pub without_run : AgentLoop → List ToolRun → AgentLoop
without_run a runs = record a { tool_runs = runs }

pub call-Ready :
    (a : AgentLoop) (key : Text) (xs ys : List Text)
    → IsSound a
    → a.llm_calls ≡ xs ++ key ∷ ys
    → (t : ActiveTask) × Ready key (without_call a (xs ++ ys)) t 0
call-Ready a key xs ys (table, (d, all)) e =
    let here : count_calls key a.llm_calls ≡ suc (count_calls key (xs ++ ys)) =
      ap (count_calls key) e
      ∙ (count_calls-split key key xs ys ∙ rw (text_eq_refl key) (omega arith)) in
    let (t, found, bounds, c, r) =
      call-Phase (max_turns a) (task_of a key) (count_calls key (xs ++ ys))
        (count_runs key a.tool_runs) (held a key)
        (subst
          (λ n. Phase (max_turns a) (task_of a key) n (count_runs key a.tool_runs) (held a key))
          here (all key)) in
    (
      t,
      (
        (
          table,
          Others-in_flight (held a) key a.session_orchestrator a.llm_calls (xs ++ ys) a.tool_runs
              a.tool_runs a.max_tool_iterations
              (λ j n. (
                sym (ap (count_calls j) e ∙ (count_calls-split key j xs ys ∙ rw n (omega arith))),
                refl,
              ))
              (d, λ j _. all j),
        ),
        found,
        bounds,
        c,
        r,
      ),
    )

pub run-Ready :
    (a : AgentLoop) (run : ToolRun) (xs ys : List ToolRun)
    → IsSound a
    → a.tool_runs ≡ xs ++ run ∷ ys
    → (t : ActiveTask) × Ready run.session_key
        (without_run a (xs ++ ys))
        t
        (count_runs run.session_key (xs ++ ys))
      × (t.state ≡ waiting_tool)
      × (t.pending_tool_count ≡ pos (suc (count_runs run.session_key (xs ++ ys))))
run-Ready a run xs ys (table, (d, all)) e =
    let key = run.session_key in
    let here : count_runs key a.tool_runs ≡ suc (count_runs key (xs ++ ys)) =
      ap (count_runs key) e
      ∙ (count_runs-split run key xs ys ∙ rw (text_eq_refl key) (omega arith)) in
    let (t, found, bounds, c, state, pending) =
      run-Phase (max_turns a) (task_of a key) (count_calls key a.llm_calls)
        (count_runs key (xs ++ ys)) (held a key)
        (subst
          (λ n. Phase (max_turns a) (task_of a key) (count_calls key a.llm_calls) n (held a key))
          here (all key)) in
    (
      t,
      (
        (
          table,
          Others-in_flight (held a) key a.session_orchestrator a.llm_calls a.llm_calls a.tool_runs
              (xs ++ ys) a.max_tool_iterations
              (λ j n. (
                refl,
                sym (ap (count_runs j) e ∙ (count_runs-split run j xs ys ∙ rw n (omega arith))),
              ))
              (d, λ j _. all j),
        ),
        found,
        bounds,
        c,
        refl,
      ),
      state,
      pending,
    )
