-- ===== src/Agent/LlmResults.antt =====
-- src/agent/agent_loop.c: what the processing worker does with the result of an LLM call.
use primagen.Base.{
  ℕ, Bool, false, not, ◌&&◌, List, [], ◌∷◌, ◌++◌, map, Option, none, some, leb, ◌==◌, is_some,
  if◌then◌else◌, length, ℤ, pos, Text, codes, text_eq, copy_to,
}
use primagen.Messages.{
  Message, assistant, ToolCall, LlmResult, outbound_message_new, message_new, message_add_tool_call,
  is_error,
}
use primagen.Session.{Session}
use primagen.Session.Table.{session_manager_get}
use primagen.Tools.{ToolRegistry, tool_registry_get}
use primagen.Utils.{strip_think_tags}
use primagen.Orchestrator.{
  TaskSnapshot, waiting_tool, SessionOrchestrator, session_orchestrator_snapshot_task,
  session_orchestrator_update_task_state, session_orchestrator_update_task_pending_tools,
}
use primagen.Agent.{
  AgentLoop, World, ToolRun, send, error_text, add_message, record_session, remove_active_task,
}

-- A change of the orchestrator alone.
abbrev pub on_tasks : AgentLoop → (SessionOrchestrator → SessionOrchestrator) → AgentLoop
on_tasks loop f = record loop { session_orchestrator = f loop.session_orchestrator }

abbrev pub is_zero : ℤ → Bool
is_zero (pos n) = n == 0
is_zero _ = false

unfoldable pub reminder_should_fallback_schedule : ℕ → ℤ → Bool
reminder_should_fallback_schedule turn pending_tool_count = leb turn 1 && is_zero pending_tool_count

abbrev pub if_some : Option Text → Text → Text
if_some none other = other
if_some (some t) _ = t

abbrev pub if_nonempty : Option Text → Text → Text
if_nonempty (some (c ∷ cs)) other = c ∷ cs
if_nonempty _ other = other

-- The text that answers the user: the confirmation of a reminder that could be scheduled, else the
-- response without its thoughts, else the response as it came.
unfoldable pub assistant_content : World → LlmResult → TaskSnapshot → Option Text → Text
unfolding reminder_should_fallback_schedule
assistant_content w event snap clean_content =
    let text = if_nonempty clean_content event.llm_response in
    if reminder_should_fallback_schedule snap.turn snap.pending_tool_count
    then if_some (w.reminder snap.latest_user_content) text
    else text

-- A message of the assistant in the session and its file; an empty one is left out.
abbrev pub record_answer : World → AgentLoop → Text → TaskSnapshot → Text → AgentLoop
record_answer w loop key snap [] = loop
record_answer w loop key snap (c ∷ cs) =
    record_session w (add_message w loop key (message_new assistant (c ∷ cs))) key
      snap.no_session_record

unfoldable pub handle_llm_text_response :
    World → AgentLoop → LlmResult → TaskSnapshot → Option Text → AgentLoop
unfolding assistant_content message_new outbound_message_new remove_active_task
handle_llm_text_response w loop event snap clean_content =
    let content = assistant_content w event snap clean_content in
    let recorded = record_answer w loop event.session_key snap content in
    remove_active_task w (send recorded (outbound_message_new snap.channel snap.chat_id content))
      snap.task_id

-- The arguments of a `skill` call, in a buffer of 256 bytes; the name has one of 128.
unfoldable pub skill_args : Text → Text
skill_args name =
    copy_to 256 (codes "{\"action\":\"load\",\"name\":\"" ++ (copy_to 128 name ++ codes "\"}"))

-- A call of a tool that the registry does not have becomes a call of `skill` that loads its name.
unfoldable pub resolve_call : ToolRegistry → ToolCall → ToolCall
unfolding skill_args tool_registry_get
resolve_call reg call =
    if not (is_some (tool_registry_get reg call.name)) && not (text_eq call.name (codes "skill"))
    then record { id = call.id; name = codes "skill"; arguments = skill_args call.name }
    else call

unfoldable pub add_tool_calls : Message → List ToolCall → Message
unfolding message_add_tool_call
add_tool_calls msg [] = msg
add_tool_calls msg (c ∷ cs) = add_tool_calls (message_add_tool_call msg c.id c.name c.arguments) cs

-- The run that is submitted for a call; the buffers of its callback truncate.
unfoldable pub run_of : Text → ToolCall → ToolRun
run_of session_key call = record {
  session_key = copy_to 512 session_key;
  tool_call_id = copy_to 128 call.id;
  tool_name = copy_to 128 call.name;
  arguments = call.arguments;
}

abbrev pub send_progress : AgentLoop → TaskSnapshot → Option Text → AgentLoop
send_progress loop snap (some (c ∷ cs)) =
    send loop (outbound_message_new snap.channel snap.chat_id (c ∷ cs))
send_progress loop snap _ = loop

unfoldable pub handle_llm_tool_calls :
    World → AgentLoop → LlmResult → TaskSnapshot → Option Text → AgentLoop
unfolding resolve_call message_new add_tool_calls run_of outbound_message_new
    session_orchestrator_update_task_state session_orchestrator_update_task_pending_tools
handle_llm_tool_calls w loop event snap clean_content =
    let calls = map (resolve_call loop.tool_registry) event.tool_calls in
    let key = event.session_key in
    let loop = send_progress loop snap clean_content in
    let msg =
      add_tool_calls (message_new assistant (if_some clean_content event.llm_response)) calls in
    let loop = record_session w (add_message w loop key msg) key snap.no_session_record in
    let loop = on_tasks loop (λ o. session_orchestrator_update_task_state o key waiting_tool) in
    let loop =
      on_tasks loop (λ o.
        session_orchestrator_update_task_pending_tools o key (pos (length event.tool_calls))) in
    record loop { tool_runs = loop.tool_runs ++ map (run_of key) calls }

-- An error of the call is told to the user and ends the task.
unfoldable pub handle_llm_error : World → AgentLoop → LlmResult → TaskSnapshot → AgentLoop
unfolding error_text message_new outbound_message_new remove_active_task
handle_llm_error w loop event snap =
    let full_msg = error_text event.llm_error.message in
    let loop = add_message w loop event.session_key (message_new assistant full_msg) in
    let loop = record_session w loop event.session_key snap.no_session_record in
    let loop = send loop (outbound_message_new snap.channel snap.chat_id full_msg) in
    remove_active_task w loop snap.task_id

abbrev pub handle_llm_response : World → AgentLoop → LlmResult → TaskSnapshot → AgentLoop
handle_llm_response w loop event snap = elim (event.tool_calls) [
  | [] ↦ handle_llm_text_response w loop event snap (strip_think_tags event.llm_response)
  | c ∷ cs ↦ handle_llm_tool_calls w loop event snap (strip_think_tags event.llm_response)
]

abbrev pub llm_result_for :
    World → AgentLoop → LlmResult → TaskSnapshot → Option Session → AgentLoop
llm_result_for w loop event snap none = remove_active_task w loop snap.task_id
llm_result_for w loop event snap (some s) =
    if is_error event.llm_error
    then handle_llm_error w loop event snap
    else handle_llm_response w loop event snap

abbrev pub llm_result_with : World → AgentLoop → LlmResult → TaskSnapshot → AgentLoop
llm_result_with w loop event snap =
    if not snap.valid
    then loop
    else if snap.cancelled
    then remove_active_task w loop snap.task_id
    else llm_result_for w loop event snap (session_manager_get loop.session_mgr event.session_key)

unfoldable pub handle_event_llm_result : World → AgentLoop → LlmResult → AgentLoop
unfolding session_orchestrator_snapshot_task
handle_event_llm_result w loop event =
    llm_result_with w loop event
      (session_orchestrator_snapshot_task loop.session_orchestrator event.session_key)
