-- ===== src/Agent/Inbound.antt =====
-- src/agent/agent_loop.c: what the processing worker does with an inbound message.
use primagen.Base.{
  ℕ, Bool, true, false, not, ◌&&◌, [], ◌∷◌, ◌++◌, Option, none, some, ◌==◌, if◌then◌else◌, length,
  Text, codes, copy_to,
}
use primagen.Messages.{user, InboundMessage, outbound_message_new, message_new}
use primagen.Session.{Session}
use primagen.Session.Table.{session_manager_get, session_manager_load_into}
use primagen.Utils.{str_trim_left}
use primagen.Orchestrator.{
  TaskSnapshot, waiting_llm, is_idle, session_orchestrator_snapshot_task,
  session_orchestrator_update_task_state, session_orchestrator_increment_task_turn,
  session_orchestrator_set_current_session_key,
}
use primagen.Agent.{
  AgentLoop, World, send, add_message, add_active_task, trigger_llm_async,
  maybe_auto_consolidate_memory,
}
use primagen.Agent.LlmResults.{on_tasks}

-- The key of a conversation, in a buffer of 256 bytes.
unfoldable pub key_of : InboundMessage → Text
key_of inbound = copy_to 256 (inbound.channel ++ (codes ":" ++ inbound.chat_id))

unfoldable pub process_message_async : AgentLoop → InboundMessage → AgentLoop
unfolding key_of trigger_llm_async session_orchestrator_set_current_session_key
    session_orchestrator_update_task_state session_orchestrator_increment_task_turn
process_message_async loop inbound =
    let key = key_of inbound in
    let loop = on_tasks loop (λ o. session_orchestrator_set_current_session_key o key) in
    let loop = on_tasks loop (λ o. session_orchestrator_update_task_state o key waiting_llm) in
    let loop = on_tasks loop (λ o. session_orchestrator_increment_task_turn o key) in
    trigger_llm_async loop key

-- The content behind the name of its sender, if there is one.
unfoldable pub formatted_content : InboundMessage → Text
formatted_content inbound = elim (inbound.sender_name) [
  | [] ↦ inbound.content
  | c ∷ cs ↦ codes "[" ++ ((c ∷ cs) ++ (codes "]: " ++ inbound.content))
]

abbrev pub busy_text : Text
busy_text = codes "Session is busy processing the previous request. Please wait for it to finish."

-- `session_manager_load` where the table has no session of the key.
abbrev pub load_missing : World → AgentLoop → Text → Option Session → AgentLoop
load_missing w loop key (some s) = loop
load_missing w loop key none = record loop {
  session_mgr = session_manager_load_into w.line_bytes loop.session_mgr (loop.files key) key w.now;
}

abbrev pub message_count : Option Session → ℕ
message_count none = 0
message_count (some s) = length s.messages

-- A message that starts a task.
unfoldable pub start_task : World → AgentLoop → InboundMessage → AgentLoop
unfolding formatted_content message_new maybe_auto_consolidate_memory add_active_task
    process_message_async key_of
start_task w loop inbound =
    let key = key_of inbound in
    let session_msg_count_before = message_count (session_manager_get loop.session_mgr key) in
    let loop = add_message w loop key (message_new user (formatted_content inbound)) in
    let loop = maybe_auto_consolidate_memory w loop key in
    let loop = add_active_task loop w.task_id key inbound session_msg_count_before in
    process_message_async loop inbound

abbrev pub is_command : Text → Bool
is_command content = elim (str_trim_left content) [ [] ↦ false | c ∷ cs ↦ c == b'/' ]

abbrev pub is_empty : Text → Bool
is_empty [] = true
is_empty _ = false

abbrev pub is_busy : TaskSnapshot → Bool
is_busy snap = snap.valid && not (is_idle snap.state)

-- `dispatch` is what becomes of a command; Dispatcher has the dispatcher's own. A session can always be
-- created, so "Session unavailable." is never sent.
unfoldable pub process_inbound_message :
    (World → AgentLoop → InboundMessage → AgentLoop)
    → World
    → AgentLoop
    → InboundMessage
    → AgentLoop
unfolding key_of session_manager_get session_manager_load_into str_trim_left
    session_orchestrator_snapshot_task outbound_message_new start_task
process_inbound_message dispatch w loop inbound =
    if is_empty inbound.content
    then loop
    else let key = key_of inbound in
      let loop = load_missing w loop key (session_manager_get loop.session_mgr key) in
      if is_command inbound.content
      then dispatch w loop inbound
      else if is_busy (session_orchestrator_snapshot_task loop.session_orchestrator key)
      then send loop (outbound_message_new inbound.channel inbound.chat_id busy_text)
      else start_task w loop inbound
