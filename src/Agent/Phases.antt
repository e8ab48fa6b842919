-- ===== src/Agent/Phases.antt =====
-- src/agent/agent_loop.c: the ways in which a handler moves the task of one session.
use mathlib.Core.Path.{subst}
use primagen.Base.{
  ◌≤◌, ◌≡◌, refl, sym, Bool, true, false, List, [], ◌∷◌, ◌++◌, map, Option, some, arith, is_some,
  length, Text, text_eq, text_eq_refl, copy_to,
}
use primagen.Messages.{ToolCall}
use primagen.Session.Table.{session_manager_get}
use primagen.Session.Lookup.{IsTable}
use primagen.Orchestrator.{
  ActiveTask, has_key, find_task, update_task, session_orchestrator_remove_task,
}
use primagen.Orchestrator.Laws.{find-update, find-remove, found-IsShort, found-has_key, IsInPlace}
use primagen.Agent.{AgentLoop, World, ToolRun, remove_active_task}
use primagen.Agent.LlmResults.{run_of}
use primagen.Agent.ToolResults.{max_turns}
use primagen.Agent.Flow.{
  InFlight, view, At, IsFlow, Others, Others-IsFlow, Others-update, Others-remove, Others-in_flight,
  Others-mono, count_calls, count_runs, count_runs-append,
}
use primagen.Agent.Quiet.{Quiet, remove_active_task-view}

abbrev pub held : AgentLoop → Text → Bool
held a key = is_some (session_manager_get a.session_mgr key)

-- Between two steps of the worker, every session is in order.
abbrev pub IsSound : AgentLoop → Type 0
IsSound a = IsTable a.session_mgr × IsFlow (held a) (view a)

-- Every session but the one that a handler is at work on.
abbrev pub IsSoundElsewhere : Text → AgentLoop → Type 0
IsSoundElsewhere key a = IsTable a.session_mgr × Others (held a) key (view a)

abbrev pub task_of : AgentLoop → Text → Option ActiveTask
task_of a key = find_task (has_key key) a.session_orchestrator.active_tasks

pub elsewhere-Quiet :
    (key : Text) (a b : AgentLoop) → Quiet a b → IsSoundElsewhere key a → IsSoundElsewhere key b
elsewhere-Quiet key a b (v, k) (t, others) =
    let (tb, more) = k t in
    (
      tb,
      subst (Others (held b) key) (sym v) (Others-mono (held a) (held b) key (view a) more others),
    )

-- The removal of the task that a key has.
removed_here :
    (key : Text) (t : ActiveTask) (a : AgentLoop) (s : Text → Bool)
    → Others s key (view a)
    → task_of a key ≡ some t
    → count_calls key a.llm_calls ≡ 0
    → count_runs key a.tool_runs ≡ 0
    → At s key (
      session_orchestrator_remove_task a.session_orchestrator (copy_to 32 t.id),
      a.llm_calls,
      a.tool_runs,
      a.max_tool_iterations,
    )
unfolding session_orchestrator_remove_task
removed_here key t a s (d, others) found c r =
    rw (find-remove key key a.session_orchestrator.active_tasks t d found, text_eq_refl key) (c, r)

-- A task that ends when nothing is in flight for it.
pub finish :
    (w : World) (key : Text) (t : ActiveTask) (a : AgentLoop)
    → IsSoundElsewhere key a
    → task_of a key ≡ some t
    → count_calls key a.llm_calls ≡ 0
    → count_runs key a.tool_runs ≡ 0
    → IsSound (remove_active_task w a (copy_to 32 t.id))
finish w key t a (table, others) found c r =
    let b = remove_active_task w a (copy_to 32 t.id) in
    let (v, k) = remove_active_task-view w a (copy_to 32 t.id) in
    let (tb, more) = k table in
    let o = session_orchestrator_remove_task a.session_orchestrator (copy_to 32 t.id) in
    let here : At (held b) key (o, a.llm_calls, a.tool_runs, a.max_tool_iterations) =
      removed_here key t a (held b) (Others-mono (held a) (held b) key (view a) more others) found c
        r in
    (
      tb,
      subst (IsFlow (held b)) (sym v) (
          Others-IsFlow (held b) key (o, a.llm_calls, a.tool_runs, a.max_tool_iterations)
            (Others-remove (held b) key t a.session_orchestrator a.llm_calls a.tool_runs
              a.max_tool_iterations found (Others-mono (held a) (held b) key (view a) more others))
            here),
    )

-- The change of one session's task, and what is in flight after it.
abbrev pub moved :
    AgentLoop → Text → (ActiveTask → ActiveTask) → List Text → List ToolRun → AgentLoop
moved a key f calls runs = record a {
  session_orchestrator = update_task a.session_orchestrator key f;
  llm_calls = calls;
  tool_runs = runs;
}

-- What is in flight changes for one session only.
abbrev pub IsFor : Text → AgentLoop → List Text → List ToolRun → Type 0
IsFor key a calls runs =
    (j : Text)
    → text_eq key j ≡ false
    → (count_calls j calls ≡ count_calls j a.llm_calls)
      × (count_runs j runs ≡ count_runs j a.tool_runs)

pub moved-elsewhere :
    (key : Text) (f : ActiveTask → ActiveTask) (calls : List Text) (runs : List ToolRun)
    (a : AgentLoop)
    → IsInPlace f
    → IsFor key a calls runs
    → IsSoundElsewhere key a
    → IsSoundElsewhere key (moved a key f calls runs)
moved-elsewhere key f calls runs a p own (table, others) = (
  table,
  Others-update (held a) key f a.session_orchestrator calls runs a.max_tool_iterations p (
      Others-in_flight (held a) key a.session_orchestrator a.llm_calls calls a.tool_runs runs
        a.max_tool_iterations own others),
)

-- The runs of a session's calls.
runs_of-none :
    (key j : Text) (cs : List ToolCall)
    → copy_to 512 key ≡ key
    → text_eq key j ≡ false
    → count_runs j (map (run_of key) cs) ≡ 0
unfolding run_of
runs_of-none key j [] h e = refl
runs_of-none key j (c ∷ cs) h e = rw (h, e) (omega (arith, runs_of-none key j cs h e))

pub runs_of-IsFor :
    (key : Text) (cs : List ToolCall) (a : AgentLoop)
    → copy_to 512 key ≡ key
    → IsFor key a a.llm_calls (a.tool_runs ++ map (run_of key) cs)
runs_of-IsFor key cs a h j e = (
  refl,
  omega (arith, count_runs-append j a.tool_runs (map (run_of key) cs), runs_of-none key j cs h e),
)

pub count-runs_of :
    (key : Text) (cs : List ToolCall)
    → copy_to 512 key ≡ key
    → count_runs key (map (run_of key) cs) ≡ length cs
unfolding run_of
count-runs_of key [] h = refl
count-runs_of key (c ∷ cs) h = rw (h, text_eq_refl key) (omega (arith, count-runs_of key cs h))

-- The task of the session that was moved.
pub moved_here :
    (key : Text) (f : ActiveTask → ActiveTask) (calls : List Text) (runs : List ToolRun)
    (a : AgentLoop) (t : ActiveTask)
    → IsInPlace f
    → task_of a key ≡ some t
    → task_of (moved a key f calls runs) key ≡ some (f t)
moved_here key f calls runs a t p found =
    rw (find-update key key f a.session_orchestrator.active_tasks t p found, text_eq_refl key) refl

-- The task is in a phase that its state allows.
abbrev pub Busy : Text → AgentLoop → ActiveTask → Type 0
Busy key a t =
    (1 ≤ t.turn)
    × (t.turn ≤ max_turns a)
    × (held a key ≡ true)
    × InFlight t.state t.pending_tool_count (count_calls key a.llm_calls)
        (count_runs key a.tool_runs)

pub settle :
    (key : Text) (a : AgentLoop) (t : ActiveTask)
    → IsSoundElsewhere key a
    → task_of a key ≡ some t
    → Busy key a t
    → IsSound a
settle key a t (table, others) found busy =
    (table, Others-IsFlow (held a) key (view a) others (rw found busy))

pub short_key :
    (key : Text) (a : AgentLoop) (t : ActiveTask)
    → IsSoundElsewhere key a
    → task_of a key ≡ some t
    → copy_to 512 key ≡ key
short_key key a t (table, others) found =
    subst (λ k. copy_to 512 k ≡ k) (found-has_key key a.session_orchestrator.active_tasks t found)
      (found-IsShort key a.session_orchestrator.active_tasks t others.0 found).1
