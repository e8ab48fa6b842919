-- ===== src/Agent/Dispatch.antt =====
-- src/agent/command_dispatcher.c: what the slash commands leave of the work in flight.
use mathlib.Core.Path.{subst}
use primagen.Base.{
  ℕ, ◌≡◌, refl, sym, ap, ◌∙◌, Bool, true, false, List, [], ◌∷◌, map, Option, none, some,
  if◌then◌else◌, if_elim, Text, arith,
}
use primagen.Orchestrator.{
  ActiveTask, SessionOrchestrator, has_id, has_key, find_task, cancel, cancels, cancel_each,
  session_orchestrator_cancel_tasks_by_session, session_orchestrator_cancel_all_tasks,
  session_orchestrator_snapshot_task, snapshot_by_key,
}
use primagen.Orchestrator.Laws.{Distinct}
use primagen.Agent.{AgentLoop}
use primagen.Agent.Flow.{Phase, count_calls, count_runs}
use primagen.Agent.Phases.{held, IsSound}
use primagen.Agent.ToolResults.{limit_of}
use primagen.Agent.Commands.{CommandContext, send_response, stop_active_tasks, cmd_stop}

-- A task, whether it is cancelled or not.
abbrev plain : ActiveTask → ActiveTask
plain t = record t { cancelled = false }

map-cancel_each :
    (key : Text) (ts : List ActiveTask) → map plain (cancel_each key ts).0 ≡ map plain ts
unfolding cancel_each
map-cancel_each key [] = refl
map-cancel_each key (t ∷ ts) =
    if_elim (λ (r : List ActiveTask × ℕ). map plain r.0 ≡ map plain (t ∷ ts)) (cancels key t) _ _
      (λ _. ap (◌∷◌ (plain t)) (map-cancel_each key ts))
      (λ _. ap (◌∷◌ (plain t)) (map-cancel_each key ts))

map-cancel : (ts : List ActiveTask) → map plain (map cancel ts) ≡ map plain ts
map-cancel [] = refl
map-cancel (t ∷ ts) = ap (◌∷◌ (plain t)) (map-cancel ts)

abbrev plain_of : Option ActiveTask → Option ActiveTask
plain_of none = none
plain_of (some t) = some (plain t)

find-plain :
    (test : ActiveTask → Bool) (same : (t : ActiveTask) → test (plain t) ≡ test t)
    (ts : List ActiveTask)
    → plain_of (find_task test ts) ≡ find_task test (map plain ts)
unfolding find_task
find-plain test same [] = refl
find-plain test same (t ∷ ts) =
    by_test (test t) (find-plain test same ts)
    ∙ ap (λ b. if b then some (plain t) else find_task test (map plain ts)) (sym (same t))
  where
    by_test :
        (b : Bool)
        → plain_of (find_task test ts) ≡ find_task test (map plain ts)
        → plain_of (if b then some t else find_task test ts)
          ≡ (if b then some (plain t) else find_task test (map plain ts))
    by_test true rest = refl
    by_test false rest = rest

key-plain :
    (key : Text) (ts : List ActiveTask)
    → plain_of (find_task (has_key key) ts) ≡ find_task (has_key key) (map plain ts)
key-plain key ts = find-plain (has_key key) (λ t. refl) ts

id-plain :
    (id : Text) (ts : List ActiveTask)
    → plain_of (find_task (has_id id) ts) ≡ find_task (has_id id) (map plain ts)
id-plain id ts = find-plain (has_id id) (λ t. refl) ts

plain_none : (o : Option ActiveTask) → plain_of o ≡ none → o ≡ none
plain_none none h = refl
plain_none (some t) h = absurd (ground arith)

Distinct-plain : (ts : List ActiveTask) → Distinct ts → Distinct (map plain ts)
Distinct-plain [] d = tt
Distinct-plain (t ∷ ts) ((no_id, no_key), short, d) = (
  (
    sym (id-plain t.id ts) ∙ ap plain_of no_id,
    sym (key-plain t.session_key ts) ∙ ap plain_of no_key,
  ),
  short,
  Distinct-plain ts d,
)

Distinct-from_plain : (ts : List ActiveTask) → Distinct (map plain ts) → Distinct ts
Distinct-from_plain [] d = tt
Distinct-from_plain (t ∷ ts) ((no_id, no_key), short, d) = (
  (
    plain_none (find_task (has_id t.id) ts) (id-plain t.id ts ∙ no_id),
    plain_none (find_task (has_key t.session_key) ts) (key-plain t.session_key ts ∙ no_key),
  ),
  short,
  Distinct-from_plain ts d,
)

Phase-plain :
    (limit : ℕ) (o : Option ActiveTask) (calls runs : ℕ) (h : Bool)
    → Phase limit o calls runs h
    → Phase limit (plain_of o) calls runs h
Phase-plain limit none calls runs h p = p
Phase-plain limit (some t) calls runs h p = p

Phase-from_plain :
    (limit : ℕ) (o : Option ActiveTask) (calls runs : ℕ) (h : Bool)
    → Phase limit (plain_of o) calls runs h
    → Phase limit o calls runs h
Phase-from_plain limit none calls runs h p = p
Phase-from_plain limit (some t) calls runs h p = p

snapshot-plain : (o : Option ActiveTask) → snapshot_by_key (plain_of o) ≡ snapshot_by_key o
snapshot-plain none = refl
snapshot-plain (some t) = refl

-- Two orchestrators that differ in cancellations only.
abbrev pub AreAlike : SessionOrchestrator → SessionOrchestrator → Type 0
AreAlike o o' = map plain o'.active_tasks ≡ map plain o.active_tasks

alike_found :
    (o o' : SessionOrchestrator) (key : Text)
    → AreAlike o o'
    → plain_of (find_task (has_key key) o'.active_tasks)
      ≡ plain_of (find_task (has_key key) o.active_tasks)
alike_found o o' key alike =
    key-plain key o'.active_tasks
    ∙ ap (find_task (has_key key)) alike
    ∙ sym (key-plain key o.active_tasks)

pub alike_sound :
    (a : AgentLoop) (o : SessionOrchestrator)
    → AreAlike a.session_orchestrator o
    → IsSound a
    → IsSound (record a { session_orchestrator = o })
alike_sound a o alike (table, (d, all)) = (
  table,
  (
    Distinct-from_plain o.active_tasks
        (subst Distinct (sym alike) (Distinct-plain a.session_orchestrator.active_tasks d)),
    λ key.
        let calls = count_calls key a.llm_calls in
        let runs = count_runs key a.tool_runs in
        let limit = limit_of a.max_tool_iterations in
        Phase-from_plain limit (find_task (has_key key) o.active_tasks) calls runs (held a key) (
          subst (λ t. Phase limit t calls runs (held a key))
            (sym (alike_found a.session_orchestrator o key alike))
            (Phase-plain limit (find_task (has_key key) a.session_orchestrator.active_tasks) calls
              runs (held a key) (all key))),
  ),
)

pub stopped-AreAlike :
    (ctx : CommandContext) (loop : AgentLoop)
    → AreAlike loop.session_orchestrator (stop_active_tasks ctx loop).0.session_orchestrator
unfolding stop_active_tasks session_orchestrator_cancel_tasks_by_session
    session_orchestrator_cancel_all_tasks
stopped-AreAlike ctx loop = by_key ctx.session_key
  where
    by_key :
        (key : Text)
        → AreAlike loop.session_orchestrator
            (stop_active_tasks (record ctx { session_key = key }) loop).0.session_orchestrator
    by_key [] = map-cancel loop.session_orchestrator.active_tasks
    by_key (c ∷ cs) = map-cancel_each (c ∷ cs) loop.session_orchestrator.active_tasks

-- "/stop" marks tasks as cancelled, but the snapshot of every session, which is all that the handlers of the
-- worker read of a task, is afterwards what it was before: nothing stops.
pub snapshot-cmd_stop :
    (ctx : CommandContext) (loop : AgentLoop) (key : Text)
    → session_orchestrator_snapshot_task (cmd_stop ctx loop).session_orchestrator key
      ≡ session_orchestrator_snapshot_task loop.session_orchestrator key
unfolding cmd_stop session_orchestrator_snapshot_task send_response
snapshot-cmd_stop ctx loop key =
    let o' = (stop_active_tasks ctx loop).0.session_orchestrator in
    sym (snapshot-plain (find_task (has_key key) o'.active_tasks))
    ∙ ap snapshot_by_key (alike_found loop.session_orchestrator o' key (stopped-AreAlike ctx loop))
    ∙ snapshot-plain (find_task (has_key key) loop.session_orchestrator.active_tasks)
