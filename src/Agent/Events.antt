-- ===== src/Agent/Events.antt =====
-- src/agent/agent_loop.c: the handlers of the processing worker against the flow of work.
use mathlib.Core.Path.{subst}
use primagen.Base.{
  ℕ, suc, ◌≤◌, ◌≡◌, refl, sym, ap, ◌∙◌, true, List, [], ◌∷◌, map, Option, none, some, arith,
  is_some, if_elim, length, length-map, pos, Text, copy_to,
}
use primagen.Messages.{
  ToolCall, LlmResult, ToolResult, assistant, message_new, outbound_message_new, is_error,
}
use primagen.Session.{Session}
use primagen.Session.Table.{session_manager_get}
use primagen.Utils.{strip_think_tags}
use primagen.Orchestrator.{
  ActiveTask, waiting_tool, TaskSnapshot, snapshot_by_key, has_key, find_task,
  session_orchestrator_snapshot_task, session_orchestrator_update_task_state,
  session_orchestrator_update_task_pending_tools,
}
use primagen.Agent.{
  AgentLoop, World, send, error_text, add_message, record_session, remove_active_task,
}
use primagen.Agent.LlmResults.{
  assistant_content, record_answer, handle_llm_text_response, resolve_call, add_tool_calls,
  send_progress, handle_llm_tool_calls, handle_llm_error, llm_result_for, llm_result_with,
  handle_event_llm_result, if_some,
}
use primagen.Agent.ToolResults.{
  limit_of, max_turns, tool_message, tool_result_for, tool_result_with, handle_event_tool_result,
}
use primagen.Agent.Flow.{View, count_calls, count_runs}
use primagen.Agent.Quiet.{Quiet, Quiet-refl, Quiet-trans, send-Quiet, added-Quiet}
use primagen.Agent.Phases.{held, IsSound, IsSoundElsewhere, task_of, elsewhere-Quiet, finish}
use primagen.Agent.Turns.{with_runs, with_runs-IsSound, count_down-IsSound}

-- The session of a handled event: its task, and what is left in flight for it.
abbrev pub Ready : Text → AgentLoop → ActiveTask → ℕ → Type 0
Ready key a t runs =
    IsSoundElsewhere key a
    × (task_of a key ≡ some t)
    × ((1 ≤ t.turn) × (t.turn ≤ max_turns a) × (held a key ≡ true))
    × (count_calls key a.llm_calls ≡ 0)
    × (count_runs key a.tool_runs ≡ runs)

Ready-Quiet :
    (key : Text) (a b : AgentLoop) (t : ActiveTask) (runs : ℕ)
    → Quiet a b
    → Ready key a t runs
    → Ready key b t runs
Ready-Quiet key a b t runs (v, k) (s, found, (low, high, h), c, r) = (
  elsewhere-Quiet key a b (v, k) s,
  ap (λ (x : View). find_task (has_key key) x.0.active_tasks) v ∙ found,
  (low, subst (λ (x : View). t.turn ≤ limit_of x.3) (sym v) high, (k s.0).1 key h),
  ap (λ (x : View). count_calls key x.1) v ∙ c,
  ap (λ (x : View). count_runs key x.2) v ∙ r,
)

finished :
    (w : World) (key : Text) (a : AgentLoop) (t : ActiveTask)
    → Ready key a t 0
    → IsSound (remove_active_task w a (copy_to 32 t.id))
finished w key a t (s, found, bounds, c, r) = finish w key t a s found c r

record_answer-Quiet :
    (w : World) (a : AgentLoop) (key : Text) (snap : TaskSnapshot) (content : Text)
    → Quiet a (record_answer w a key snap content)
record_answer-Quiet w a key snap [] = Quiet-refl a
record_answer-Quiet w a key snap (c ∷ cs) =
    added-Quiet w a key (message_new assistant (c ∷ cs)) snap.no_session_record

send_progress-Quiet :
    (a : AgentLoop) (snap : TaskSnapshot) (clean : Option Text)
    → Quiet a (send_progress a snap clean)
send_progress-Quiet a snap none = Quiet-refl a
send_progress-Quiet a snap (some []) = Quiet-refl a
send_progress-Quiet a snap (some (c ∷ cs)) =
    send-Quiet a (outbound_message_new snap.channel snap.chat_id (c ∷ cs))

text-IsSound :
    (w : World) (a : AgentLoop) (event : LlmResult) (t : ActiveTask) (clean : Option Text)
    → Ready event.session_key a t 0
    → IsSound (handle_llm_text_response w a event (snapshot_by_key (some t)) clean)
unfolding handle_llm_text_response
text-IsSound w a event t clean ready =
    let snap = snapshot_by_key (some t) in
    let key = event.session_key in
    let content = assistant_content w event snap clean in
    let b = record_answer w a key snap content in
    let c = send b (outbound_message_new snap.channel snap.chat_id content) in
    finished w key c t (
      Ready-Quiet key a c t 0
        (Quiet-trans a b c (record_answer-Quiet w a key snap content)
          (send-Quiet b (outbound_message_new snap.channel snap.chat_id content)))
        ready)

error-IsSound :
    (w : World) (a : AgentLoop) (event : LlmResult) (t : ActiveTask)
    → Ready event.session_key a t 0
    → IsSound (handle_llm_error w a event (snapshot_by_key (some t)))
unfolding handle_llm_error
error-IsSound w a event t ready =
    let snap = snapshot_by_key (some t) in
    let key = event.session_key in
    let msg = message_new assistant (error_text event.llm_error.message) in
    let b = record_session w (add_message w a key msg) key snap.no_session_record in
    let out = outbound_message_new snap.channel snap.chat_id (error_text event.llm_error.message) in
    finished w key (send b out) t (
      Ready-Quiet key a (send b out) t 0
        (Quiet-trans a b (send b out) (added-Quiet w a key msg snap.no_session_record)
          (send-Quiet b out))
        ready)

tools-IsSound :
    (w : World) (a : AgentLoop) (event : LlmResult) (t : ActiveTask) (clean : Option Text) (n : ℕ)
    → Ready event.session_key a t 0
    → length event.tool_calls ≡ suc n
    → IsSound (handle_llm_tool_calls w a event (snapshot_by_key (some t)) clean)
unfolding handle_llm_tool_calls session_orchestrator_update_task_state
    session_orchestrator_update_task_pending_tools
tools-IsSound w a event t clean n ready l =
    let snap = snapshot_by_key (some t) in
    let key = event.session_key in
    let calls = map (resolve_call a.tool_registry) event.tool_calls in
    let b = send_progress a snap clean in
    let msg = add_tool_calls (message_new assistant (if_some clean event.llm_response)) calls in
    let c = record_session w (add_message w b key msg) key snap.no_session_record in
    let q =
      Quiet-trans a b c (send_progress-Quiet a snap clean)
        (added-Quiet w b key msg snap.no_session_record) in
    let (s, found, bounds, none_called, none_run) = Ready-Quiet key a c t 0 q ready in
    subst (λ m. IsSound (with_runs c key calls m)) (sym l)
      (with_runs-IsSound key t c calls n s found bounds none_called none_run
        (length-map (resolve_call a.tool_registry) event.tool_calls ∙ l))

response-IsSound :
    (w : World) (a : AgentLoop) (event : LlmResult) (t : ActiveTask) (calls : List ToolCall)
    (clean : Option Text)
    → event.tool_calls ≡ calls
    → Ready event.session_key a t 0
    → IsSound (elim calls [
      | [] ↦ handle_llm_text_response w a event (snapshot_by_key (some t)) clean
      | c ∷ cs ↦ handle_llm_tool_calls w a event (snapshot_by_key (some t)) clean
    ])
response-IsSound w a event t [] clean e ready = text-IsSound w a event t clean ready
response-IsSound w a event t (c ∷ cs) clean e ready =
    tools-IsSound w a event t clean (length cs) ready (ap length e)

result-IsSound :
    (w : World) (a : AgentLoop) (event : LlmResult) (t : ActiveTask) (found : Option Session)
    → Ready event.session_key a t 0
    → IsSound (llm_result_for w a event (snapshot_by_key (some t)) found)
result-IsSound w a event t none ready = finished w event.session_key a t ready
result-IsSound w a event t (some s) ready =
    if_elim IsSound (is_error event.llm_error) _ _ (λ _. error-IsSound w a event t ready)
      (λ _.
        response-IsSound w a event t event.tool_calls (strip_think_tags event.llm_response) refl
          ready)

-- The result of an LLM call that was in flight.
pub handle_event_llm_result-IsSound :
    (w : World) (a : AgentLoop) (event : LlmResult) (t : ActiveTask)
    → Ready event.session_key a t 0
    → IsSound (handle_event_llm_result w a event)
unfolding handle_event_llm_result session_orchestrator_snapshot_task
handle_event_llm_result-IsSound w a event t ready =
    subst (λ o. IsSound (llm_result_with w a event (snapshot_by_key o))) (sym ready.1)
      (result-IsSound w a event t (session_manager_get a.session_mgr event.session_key) ready)

tool_result-IsSound :
    (w : World) (a : AgentLoop) (event : ToolResult) (t : ActiveTask) (found : Option Session)
    (runs : ℕ)
    → session_manager_get a.session_mgr event.session_key ≡ found
    → Ready event.session_key a t runs
    → t.state ≡ waiting_tool
    → t.pending_tool_count ≡ pos (suc runs)
    → IsSound (tool_result_for w a event (snapshot_by_key (some t)) found)
tool_result-IsSound w a event t none runs got (s, found, (low, high, h), c, r) state pending =
    absurd (none_held (session_manager_get a.session_mgr event.session_key) got h)
  where
    none_held : (o : Option Session) → o ≡ none → is_some o ≡ true → ⊥
    none_held none e p = ground arith
    none_held (some x) e p = ground arith
tool_result-IsSound w a event t (some x) runs got ready state pending =
    let snap = snapshot_by_key (some t) in
    let key = event.session_key in
    let b =
      record_session w (add_message w a key (tool_message event)) key snap.no_session_record in
    let (s, found, bounds, c, r) =
      Ready-Quiet key a b t runs (added-Quiet w a key (tool_message event) snap.no_session_record)
        ready in
    count_down-IsSound w key t b snap s found refl state (pending ∙ ap (λ n. pos (suc n)) (sym r))
      bounds c

-- The result of a tool run that was in flight.
pub handle_event_tool_result-IsSound :
    (w : World) (a : AgentLoop) (event : ToolResult) (t : ActiveTask) (runs : ℕ)
    → Ready event.session_key a t runs
    → t.state ≡ waiting_tool
    → t.pending_tool_count ≡ pos (suc runs)
    → IsSound (handle_event_tool_result w a event)
unfolding handle_event_tool_result session_orchestrator_snapshot_task
handle_event_tool_result-IsSound w a event t runs ready state pending =
    subst (λ o. IsSound (tool_result_with w a event (snapshot_by_key o))) (sym ready.1)
      (tool_result-IsSound w a event t (session_manager_get a.session_mgr event.session_key) runs
        refl ready state pending)
