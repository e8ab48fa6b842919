-- ===== src/Agent/Flow.antt =====
-- src/agent/agent_loop.c: what is in flight for a session, against the state of its task.
use mathlib.Core.Path.{subst}
use primagen.Base.{
  ℕ, ◌+◌, ◌≤◌, ◌≡◌, Bool, true, false, List, [], ◌∷◌, ◌++◌, Option, none, some, arith,
  if◌then◌else◌, ℤ, pos, Text, text_eq, text_eq_iff, copy_to, Bool-cases, inl, inr,
}
use primagen.Orchestrator.{
  SessionState, ActiveTask, SessionOrchestrator, idle, waiting_llm, waiting_tool, has_key,
  find_task, update_task, session_orchestrator_add_task, session_orchestrator_remove_task,
}
use primagen.Orchestrator.Laws.{
  Distinct, IsFresh, IsShort, IsInPlace, update-Distinct, find-update_ne, removed-Distinct,
  find-remove, add-Distinct, find-add,
}
use primagen.Agent.{AgentLoop, ToolRun}
use primagen.Agent.ToolResults.{limit_of}

abbrev pub count_calls : Text → List Text → ℕ
count_calls key [] = 0
count_calls key (k ∷ ks) = (if text_eq k key then 1 else 0) + count_calls key ks

abbrev pub count_runs : Text → List ToolRun → ℕ
count_runs key [] = 0
count_runs key (r ∷ rs) = (if text_eq r.session_key key then 1 else 0) + count_runs key rs

-- What is in flight in each state: nothing without a task, one LLM call while it waits for the
-- model, and as many tool runs as it still counts while it waits for tools. A task in the list is
-- never idle between two steps of the worker.
abbrev pub InFlight : SessionState → ℤ → ℕ → ℕ → Type 0
InFlight idle pending calls runs = ⊥
InFlight waiting_llm pending calls runs = (calls ≡ 1) × (runs ≡ 0)
InFlight waiting_tool pending calls runs = (calls ≡ 0) × (pending ≡ pos runs) × (1 ≤ runs)

-- With that, a task is in one of its turns, and its session is in the table (`held`).
abbrev pub Phase : ℕ → Option ActiveTask → ℕ → ℕ → Bool → Type 0
Phase limit none calls runs held = (calls ≡ 0) × (runs ≡ 0)
Phase limit (some t) calls runs held =
    (1 ≤ t.turn)
    × (t.turn ≤ limit)
    × (held ≡ true)
    × InFlight t.state t.pending_tool_count calls runs

pub count_calls-append :
    (key : Text) (xs ys : List Text)
    → count_calls key (xs ++ ys) ≡ count_calls key xs + count_calls key ys
count_calls-append key [] ys = omega arith
count_calls-append key (x ∷ xs) ys = ground (arith, count_calls-append key xs ys)

pub count_runs-append :
    (key : Text) (xs ys : List ToolRun)
    → count_runs key (xs ++ ys) ≡ count_runs key xs + count_runs key ys
count_runs-append key [] ys = omega arith
count_runs-append key (x ∷ xs) ys = ground (arith, count_runs-append key xs ys)

-- The part of the state that the flow of work depends on.
abbrev pub View : Type 0
View = SessionOrchestrator × List Text × List ToolRun × ℤ

abbrev pub view : AgentLoop → View
view loop = (loop.session_orchestrator, loop.llm_calls, loop.tool_runs, loop.max_tool_iterations)

module _ (held : Text → Bool) where
  abbrev pub At : Text → View → Type 0
  At key (o, calls, runs, m) =
      Phase (limit_of m) (find_task (has_key key) o.active_tasks) (count_calls key calls)
        (count_runs key runs) (held key)

  abbrev pub IsFlow : View → Type 0
  IsFlow v = Distinct v.0.active_tasks × ((key : Text) → At key v)

  -- The same of every session but one.
  abbrev pub Others : Text → View → Type 0
  Others key v = Distinct v.0.active_tasks × ((j : Text) → text_eq key j ≡ false → At j v)

  pub Others-IsFlow : (key : Text) (v : View) → Others key v → At key v → IsFlow v
  Others-IsFlow key v (d, others) here = (
    d,
    λ j. elim (Bool-cases (text_eq key j)) [
      | inl e ↦ subst (λ k. At k v) ((text_eq_iff key j).0 e) here
      | inr e ↦ others j e
    ],
  )

  pub Others-update :
      (key : Text) (f : ActiveTask → ActiveTask) (o : SessionOrchestrator) (calls : List Text)
      (runs : List ToolRun) (m : ℤ)
      → IsInPlace f
      → Others key (o, calls, runs, m)
      → Others key (update_task o key f, calls, runs, m)
  Others-update key f o calls runs m p (d, others) = (
    update-Distinct key f o.active_tasks p d,
    λ j e. rw (find-update_ne key j f o.active_tasks p e) (others j e),
  )

  pub Others-remove :
      (key : Text) (t : ActiveTask) (o : SessionOrchestrator) (calls : List Text)
      (runs : List ToolRun) (m : ℤ)
      → find_task (has_key key) o.active_tasks ≡ some t
      → Others key (o, calls, runs, m)
      → Others key (session_orchestrator_remove_task o (copy_to 32 t.id), calls, runs, m)
  unfolding session_orchestrator_remove_task
  Others-remove key t o calls runs m h (d, others) = (
    removed-Distinct key o.active_tasks t d h,
    λ j e. rw (find-remove key j o.active_tasks t d h, e) (others j e),
  )

  pub Others-add :
      (key : Text) (t : ActiveTask) (o : SessionOrchestrator) (calls : List Text)
      (runs : List ToolRun) (m : ℤ)
      → t.session_key ≡ key
      → IsFresh t o.active_tasks
      → IsShort t
      → Others key (o, calls, runs, m)
      → Others key (session_orchestrator_add_task o t, calls, runs, m)
  unfolding session_orchestrator_add_task
  Others-add key t o calls runs m k fresh short (d, others) = (
    add-Distinct o.active_tasks t d fresh short,
    λ j e. rw (find-add j o.active_tasks t fresh.1, k, e) (others j e),
  )

  -- What comes or goes in flight for one session leaves the others alone.
  pub Others-in_flight :
      (key : Text) (o : SessionOrchestrator) (calls calls' : List Text) (runs runs' : List ToolRun)
      (m : ℤ)
      → ((j : Text)
          → text_eq key j ≡ false
          → (count_calls j calls' ≡ count_calls j calls) × (count_runs j runs' ≡ count_runs j runs))
      → Others key (o, calls, runs, m)
      → Others key (o, calls', runs', m)
  Others-in_flight key o calls calls' runs runs' m same (d, others) =
      (d, λ j e. rw ((same j e).0, (same j e).1) (others j e))

pub Phase-mono :
    (limit : ℕ) (found : Option ActiveTask) (calls runs : ℕ) (held held' : Bool)
    → (held ≡ true → held' ≡ true)
    → Phase limit found calls runs held
    → Phase limit found calls runs held'
Phase-mono limit none calls runs held held' p h = h
Phase-mono limit (some t) calls runs held held' p (a, b, c, d) = (a, b, p c, d)

-- More sessions in the table do no harm.
pub Others-mono :
    (held held' : Text → Bool) (key : Text) (v : View)
    → ((j : Text) → held j ≡ true → held' j ≡ true)
    → Others held key v
    → Others held' key v
Others-mono held held' key (o, calls, runs, m) p (d, others) = (
  d,
  λ j e.
      Phase-mono (limit_of m) (find_task (has_key j) o.active_tasks) (count_calls j calls)
        (count_runs j runs) (held j) (held' j) (p j) (others j e),
)
