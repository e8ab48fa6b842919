-- ===== src/Agent/ToolResults.antt =====
-- src/agent/agent_loop.c: what the processing worker does with the result of a tool run.
use primagen.Base.{
  ℕ, not, Option, none, some, leb, ltb, if◌then◌else◌, ℤ, pos, is_positive, Text, codes,
}
use primagen.Messages.{Message, tool, ToolResult, message_new, is_error}
use primagen.Session.{Session}
use primagen.Session.Table.{session_manager_get}
use primagen.Orchestrator.{
  TaskSnapshot, waiting_llm, session_orchestrator_snapshot_task,
  session_orchestrator_update_task_state, session_orchestrator_decrement_task_pending_tools,
  session_orchestrator_increment_task_turn,
}
use primagen.Agent.{
  AgentLoop, World, send_error_response, add_message, record_session, remove_active_task,
  trigger_llm_async,
}
use primagen.Agent.LlmResults.{on_tasks}

-- The message that answers one call of a tool.
unfoldable pub tool_message : ToolResult → Message
unfolding message_new
tool_message event =
    record (message_new tool
      (if is_error event.tool_error then event.tool_error.message else event.tool_result)) {
        tool_call_id = event.tool_call_id;
        name = event.tool_name;
      }

-- The configured limit on the turns of a task, or 15.
abbrev pub limit_of : ℤ → ℕ
limit_of (pos n) = if ltb 0 n then n else 15
limit_of _ = 15

abbrev pub max_turns : AgentLoop → ℕ
max_turns loop = limit_of loop.max_tool_iterations

abbrev pub limit_text : Text
limit_text =
    codes "I reached the maximum number of tool call iterations without completing the task."

-- The next turn, once the last tool of this one has answered.
unfoldable pub next_llm_turn : World → AgentLoop → Text → TaskSnapshot → AgentLoop
unfolding send_error_response remove_active_task trigger_llm_async
    session_orchestrator_increment_task_turn session_orchestrator_update_task_state
next_llm_turn w loop key snap =
    if leb (max_turns loop) snap.turn
    then remove_active_task w (send_error_response loop snap.channel snap.chat_id limit_text)
        snap.task_id
    else let loop = on_tasks loop (λ o. session_orchestrator_increment_task_turn o key) in
      let loop = on_tasks loop (λ o. session_orchestrator_update_task_state o key waiting_llm) in
      trigger_llm_async loop key

-- The answered call is taken off; the task goes on when none is left.
unfoldable pub count_down : World → AgentLoop → Text → TaskSnapshot → AgentLoop
unfolding session_orchestrator_decrement_task_pending_tools
count_down w loop key snap =
    let (o, remaining) =
      session_orchestrator_decrement_task_pending_tools loop.session_orchestrator key in
    let answered = on_tasks loop (λ _. o) in
    if is_positive remaining then answered else next_llm_turn w answered key snap

abbrev pub tool_result_for :
    World → AgentLoop → ToolResult → TaskSnapshot → Option Session → AgentLoop
tool_result_for w loop event snap none = remove_active_task w loop snap.task_id
tool_result_for w loop event snap (some s) =
    let key = event.session_key in
    let recorded =
      record_session w (add_message w loop key (tool_message event)) key snap.no_session_record in
    count_down w recorded key snap

abbrev pub tool_result_cancelled : World → AgentLoop → ToolResult → TaskSnapshot → AgentLoop
tool_result_cancelled w loop event snap =
    let (o, remaining) =
      session_orchestrator_decrement_task_pending_tools loop.session_orchestrator
        event.session_key in
    let answered = on_tasks loop (λ _. o) in
    if is_positive remaining then answered else remove_active_task w answered snap.task_id

abbrev pub tool_result_with : World → AgentLoop → ToolResult → TaskSnapshot → AgentLoop
tool_result_with w loop event snap =
    if not snap.valid
    then loop
    else if snap.cancelled
    then tool_result_cancelled w loop event snap
    else tool_result_for w loop event snap (session_manager_get loop.session_mgr event.session_key)

unfoldable pub handle_event_tool_result : World → AgentLoop → ToolResult → AgentLoop
unfolding session_orchestrator_snapshot_task
handle_event_tool_result w loop event =
    tool_result_with w loop event
      (session_orchestrator_snapshot_task loop.session_orchestrator event.session_key)
