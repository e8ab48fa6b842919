-- ===== src/Agent/Starting.antt =====
-- src/agent/agent_loop.c: an inbound message against the flow of work.
use mathlib.Core.Path.{subst}
use primagen.Base.{
  ℕ, ◌-◌, ◌≤◌, ◌≡◌, refl, sym, ap, ◌∙◌, Bool, true, false, not, [], ◌∷◌, ◌++◌, Option, none, some,
  arith, is_some, if_elim, take_all, length-take-le, ℤ, pos, negsuc, Text, codes, text_eq_refl,
  copy_to,
}
use primagen.Messages.{InboundMessage, user, message_new, outbound_message_new}
use primagen.Session.{Session}
use primagen.Session.Table.{session_manager_get, session_manager_load_into}
use primagen.Session.File.{session_manager_load}
use primagen.Session.Lookup.{session_manager_load-key, get-insert, IsTable}
use primagen.Orchestrator.{
  ActiveTask, SessionState, is_idle, idle, waiting_llm, waiting_tool, has_id, has_key, find_task,
  with_state, next_turn, snapshot_by_key, session_orchestrator_snapshot_task,
  session_orchestrator_add_task, session_orchestrator_set_current_session_key,
  session_orchestrator_update_task_state, session_orchestrator_increment_task_turn,
}
use primagen.Orchestrator.Laws.{find-add}
use primagen.Agent.{
  AgentLoop, World, new_task, add_active_task, trigger_llm_async, maybe_auto_consolidate_memory,
  add_message, send,
}
use primagen.Agent.ToolResults.{limit_of, max_turns}
use primagen.Agent.Inbound.{
  process_inbound_message, process_message_async, start_task, key_of, formatted_content,
  message_count, load_missing, is_command, is_empty, is_busy, busy_text,
}
use primagen.Agent.Flow.{
  View, InFlight, Phase, Phase-mono, IsFlow, Others-add, count_calls, count_runs,
  count_calls-append,
}
use primagen.Agent.Quiet.{
  Quiet, Quiet-refl, Quiet-trans, Keeps-insert, send-Quiet, add_message-Quiet, consolidate-Quiet,
}
use primagen.Agent.Phases.{
  held, IsSound, IsSoundElsewhere, task_of, moved, moved-elsewhere, moved_here, settle,
}
use primagen.Agent.Turns.{one_call}

pub IsSound-Quiet : (a b : AgentLoop) → Quiet a b → IsSound a → IsSound b
IsSound-Quiet a b (v, k) (t, (d, all)) =
    let (tb, more) = k t in
    (
      tb,
      subst (IsFlow (held b)) (sym v) (
        d,
        λ j.
            Phase-mono (max_turns a) (task_of a j) (count_calls j a.llm_calls)
              (count_runs j a.tool_runs) (held a j) (held b j) (more j) (all j),
      ),
    )

IsSound-elsewhere : (key : Text) (a : AgentLoop) → IsSound a → IsSoundElsewhere key a
IsSound-elsewhere key a (t, (d, all)) = (t, (d, λ j _. all j))

limit-positive : (m : ℤ) → 1 ≤ limit_of m
limit-positive (pos n) = ground arith
limit-positive (negsuc n) = omega arith

copy_copy : (n m : ℕ) (t : Text) → n ≤ m → copy_to m (copy_to n t) ≡ copy_to n t
copy_copy n m t h = take_all (m - 1) (copy_to n t) (omega (arith, length-take-le (n - 1) t))

-- A message that finds no task and makes one.
add_task-elsewhere :
    (a : AgentLoop) (task_id key : Text) (m : InboundMessage) (n : ℕ)
    → IsSoundElsewhere key a
    → copy_to 512 key ≡ key
    → task_of a key ≡ none
    → find_task (has_id (copy_to 32 task_id)) a.session_orchestrator.active_tasks ≡ none
    → IsSoundElsewhere key (add_active_task a task_id key m n)
      × (task_of (add_active_task a task_id key m n) key ≡ some (new_task task_id key m n))
unfolding add_active_task new_task session_orchestrator_add_task
add_task-elsewhere a task_id key m n (table, others) k free fresh =
    let t = new_task task_id key m n in
    let alone : find_task (has_key t.session_key) a.session_orchestrator.active_tasks ≡ none =
      rw k free in
    (
      (
        table,
        Others-add (held a) key t a.session_orchestrator a.llm_calls a.tool_runs
            a.max_tool_iterations k (fresh, alone)
            (copy_copy 32 32 task_id (omega arith), copy_copy 512 512 key (omega arith)) others,
      ),
      find-add key a.session_orchestrator.active_tasks t alone ∙ rw (k, text_eq_refl key) refl,
    )

-- The first call of the model for a task that was just made.
process_message_async-IsSound :
    (a : AgentLoop) (m : InboundMessage) (t : ActiveTask)
    → IsSoundElsewhere (key_of m) a
    → task_of a (key_of m) ≡ some t
    → t.turn ≡ 0
    → held a (key_of m) ≡ true
    → count_calls (key_of m) a.llm_calls ≡ 0
    → count_runs (key_of m) a.tool_runs ≡ 0
    → copy_to 512 (key_of m) ≡ key_of m
    → IsSound (process_message_async a m)
unfolding process_message_async session_orchestrator_set_current_session_key
    session_orchestrator_update_task_state session_orchestrator_increment_task_turn
    trigger_llm_async
process_message_async-IsSound a m t s found turn h c r k =
    let key = key_of m in
    let b = record a {
      session_orchestrator =
          session_orchestrator_set_current_session_key a.session_orchestrator key;
    } in
    let u = moved b key (with_state waiting_llm) b.llm_calls b.tool_runs in
    let calls = a.llm_calls ++ copy_to 512 key ∷ [] in
    let one : count_calls key calls ≡ 1 =
      rw k (omega (arith, count_calls-append key a.llm_calls (key ∷ []), here)) in
    settle key (moved u key next_turn calls a.tool_runs) (next_turn (with_state waiting_llm t))
      (moved-elsewhere key next_turn calls a.tool_runs u (λ _. (refl, refl)) (one_call key u k)
        (moved-elsewhere key (with_state waiting_llm) b.llm_calls b.tool_runs b (λ _. (refl, refl))
          (λ _ _. (refl, refl)) s))
      (moved_here key next_turn calls a.tool_runs u (with_state waiting_llm t) (λ _. (refl, refl))
        (moved_here key (with_state waiting_llm) b.llm_calls b.tool_runs b t (λ _. (refl, refl))
          found))
      (omega (arith, turn), omega (arith, turn, limit-positive a.max_tool_iterations), h, (one, r))
  where
    here : count_calls (key_of m) (key_of m ∷ []) ≡ 1
    here = rw (text_eq_refl (key_of m)) refl

pub load_missing-Quiet :
    (w : World) (a : AgentLoop) (key : Text) (found : Option Session)
    → IsTable a.session_mgr
    → session_manager_get a.session_mgr key ≡ found
    → Quiet a (load_missing w a key found) × (held (load_missing w a key found) key ≡ true)
unfolding session_manager_load_into
load_missing-Quiet w a key (some s) t e = (Quiet-refl a, ap is_some e)
load_missing-Quiet w a key none t e =
    let s = session_manager_load w.line_bytes (a.files key) key w.now in
    let k = session_manager_load-key w.line_bytes (a.files key) key w.now in
    (
      (refl, Keeps-insert a.session_mgr key s k),
      rw (get-insert a.session_mgr key key s t k, text_eq_refl key) refl,
    )

start_task-IsSound :
    (w : World) (a : AgentLoop) (m : InboundMessage)
    → IsSound a
    → task_of a (key_of m) ≡ none
    → held a (key_of m) ≡ true
    → find_task (has_id (copy_to 32 w.task_id)) a.session_orchestrator.active_tasks ≡ none
    → copy_to 512 (key_of m) ≡ key_of m
    → IsSound (start_task w a m)
unfolding start_task add_active_task session_orchestrator_add_task
start_task-IsSound w a m s free h fresh k =
    let key = key_of m in
    let msg = message_new user (formatted_content m) in
    let n = message_count (session_manager_get a.session_mgr key) in
    let b = add_message w a key msg in
    let c = maybe_auto_consolidate_memory w b key in
    let (v, keeps) =
      Quiet-trans a b c (add_message-Quiet w a key msg) (consolidate-Quiet w b key) in
    let free' : task_of c key ≡ none =
      ap (λ (x : View). find_task (has_key key) x.0.active_tasks) v ∙ free in
    let fresh' : find_task (has_id (copy_to 32 w.task_id)) c.session_orchestrator.active_tasks
        ≡ none =
      ap (λ (x : View). find_task (has_id (copy_to 32 w.task_id)) x.0.active_tasks) v ∙ fresh in
    let (tc, (dc, all)) = IsSound-Quiet a c (v, keeps) s in
    let (none_called, none_run) =
      subst
        (λ o.
          Phase (max_turns c) o (count_calls key c.llm_calls) (count_runs key c.tool_runs)
            (held c key))
        free' (all key) in
    let (sd, found) =
      add_task-elsewhere c w.task_id key m n (IsSound-elsewhere key c (tc, (dc, all))) k free'
        fresh' in
    process_message_async-IsSound (add_active_task c w.task_id key m n) m
      (new_task w.task_id key m n) sd found (unfold new_task in refl) ((keeps s.0).1 key h)
      none_called none_run k

-- A task that is not busy is none at all.
free_of :
    (limit : ℕ) (found : Option ActiveTask) (calls runs : ℕ) (has : Bool)
    → Phase limit found calls runs has
    → is_busy (snapshot_by_key found) ≡ false
    → found ≡ none
free_of limit none calls runs has p e = refl
free_of limit (some t) calls runs has (low, high, h, p) e = absurd (go t.state p e)
  where
    go :
        (st : SessionState)
        → InFlight st t.pending_tool_count calls runs
        → not (is_idle st) ≡ false
        → ⊥
    go idle q e = q
    go waiting_llm q e = ground arith
    go waiting_tool q e = ground arith

-- A message to the worker, with a task id that no task has. Commands go to the dispatcher instead.
pub process_inbound_message-IsSound :
    (dispatch : World → AgentLoop → InboundMessage → AgentLoop) (w : World) (a : AgentLoop)
    (m : InboundMessage)
    → IsSound a
    → is_command m.content ≡ false
    → find_task (has_id (copy_to 32 w.task_id)) a.session_orchestrator.active_tasks ≡ none
    → IsSound (process_inbound_message dispatch w a m)
unfolding process_inbound_message session_orchestrator_snapshot_task
process_inbound_message-IsSound dispatch w a m s plain fresh =
    if_elim IsSound (is_empty m.content) _ _ (λ _. s)
      (λ _.
        if_elim IsSound (is_command m.content) _ _ (λ e. absurd (clash e))
          (λ _.
            if_elim IsSound (is_busy (snapshot_by_key (task_of b key))) _ _
              (λ _.
                IsSound-Quiet b (send b (outbound_message_new m.channel m.chat_id busy_text))
                  (send-Quiet b (outbound_message_new m.channel m.chat_id busy_text)) sb)
              (λ idle.
                start_task-IsSound w b m sb
                  (free_of (max_turns b) (task_of b key) (count_calls key b.llm_calls)
                    (count_runs key b.tool_runs) (held b key) (sb.1.1 key) idle)
                  loaded.1
                  (ap (λ (x : View). find_task (has_id (copy_to 32 w.task_id)) x.0.active_tasks)
                      loaded.0.0
                    ∙ fresh)
                  (unfold key_of in
                    copy_copy 256 512 (m.channel ++ (codes ":" ++ m.chat_id)) (omega arith)))))
  where
    key : Text
    key = key_of m

    b : AgentLoop
    b = load_missing w a key (session_manager_get a.session_mgr key)

    loaded : Quiet a b × (held b key ≡ true)
    loaded = load_missing-Quiet w a key (session_manager_get a.session_mgr key) s.0 refl

    sb : IsSound b
    sb = IsSound-Quiet a b loaded.0 s

    clash : is_command m.content ≡ true → ⊥
    clash e = ground arith
