-- ===== src/Agent.antt =====
-- src/agent/agent_loop.c: the handlers of the processing worker and the state that they share. The
-- worker is one thread, so each handler is one step. What a handler hands to another component is
-- kept in order: the messages it sends, the LLM calls that have no result yet and the tool runs that
-- have none. With no provider the callback is made at once, so that result too is on its way.
pub mod LlmResults
pub mod ToolResults
pub mod Inbound
pub mod Commands
pub mod Dispatcher
pub mod Dispatch
pub mod Answers
pub mod CommandExamples
pub mod Flow
pub mod Quiet
pub mod Phases
pub mod Turns
pub mod Events
pub mod InFlight
pub mod Starting
pub mod Steps
pub mod ReplyTexts
pub mod Replies
pub mod Examples
use primagen.Base.{
  ℕ, ◌+◌, ◌-◌, Bool, true, false, ◌&&◌, not, List, [], ◌∷◌, ◌++◌, Option, none, some, ltb, leb,
  if◌then◌else◌, length, ℤ, pos, is_positive, Text, codes, text_eq, copy_to,
}
use primagen.Messages.{
  Message, MessageRole, Error, OutboundMessage, InboundMessage, outbound_message_new,
}
use primagen.Session.{Session, session_add_message, session_rollback_messages}
use primagen.Session.File.{SessionFile, Disk, Line, session_manager_save}
use primagen.Session.Table.{SessionManager, session_manager_get, update_session}
use primagen.Tools.{ToolRegistry}
use primagen.Orchestrator.{
  SessionOrchestrator, ActiveTask, idle, find_task, has_id, session_orchestrator_add_task,
  session_orchestrator_remove_task,
}

-- A tool run that was submitted to the executor.
pub record ToolRun : Type 0 where
  pub session_key : Text
  pub tool_call_id : Text
  pub tool_name : Text
  pub arguments : Text

pub record AgentLoop : Type 0 where
  pub session_mgr : SessionManager
  pub files : Text → SessionFile
  pub tool_registry : ToolRegistry
  pub max_tool_iterations : ℤ
  pub memory_window : ℤ
  pub session_orchestrator : SessionOrchestrator
  pub sent : List OutboundMessage
  pub llm_calls : List Text
  pub tool_runs : List ToolRun

-- What the world answers during one handler: the time, the disk, the bytes that cJSON prints a line of
-- a session's file with, whether the history entry and the
-- consolidation of src/memory/memory.c succeed, the new task's id, and the confirmation of a
-- reminder where maybe_schedule_reminder_fallback schedules one.
pub record World : Type 0 where
  pub now : ℕ
  pub disk : Disk
  pub line_bytes : Line → ℕ
  pub memory_appends : Bool
  pub memory_consolidates : Bool
  pub task_id : Text
  pub reminder : Text → Option Text

abbrev pub send : AgentLoop → OutboundMessage → AgentLoop
send loop msg = record loop { sent = loop.sent ++ msg ∷ [] }

-- `snprintf` into a buffer of `ERROR_MSG_MAX` bytes.
unfoldable pub error_text : Text → Text
error_text msg = copy_to 1024 (codes "Sorry, I encountered an error: " ++ msg)

unfoldable pub send_error_response : AgentLoop → Text → Text → Text → AgentLoop
unfolding error_text outbound_message_new
send_error_response loop channel chat_id error_msg =
    send loop (outbound_message_new channel chat_id (error_text error_msg))

-- The session of a key, changed through its pointer.
abbrev pub on_session : AgentLoop → Text → (Session → Session) → AgentLoop
on_session loop key f = record loop { session_mgr = update_session loop.session_mgr key f }

abbrev pub add_message : World → AgentLoop → Text → Message → AgentLoop
add_message w loop key msg = on_session loop key (λ s. session_add_message s msg w.now)

abbrev set_file : (Text → SessionFile) → Text → SessionFile → Text → SessionFile
set_file files key file j = if text_eq key j then file else files j

abbrev save_found : World → AgentLoop → Text → Option Session → AgentLoop
save_found w loop key none = loop
save_found w loop key (some s) =
    let r = session_manager_save w.disk s (loop.files key) in
    record loop {
      session_mgr = update_session loop.session_mgr key (λ _. r.session);
      files = set_file loop.files key r.file;
    }

-- `session_manager_save` for the session of a key; every caller drops its error.
unfoldable pub save_session : World → AgentLoop → Text → AgentLoop
save_session w loop key = save_found w loop key (session_manager_get loop.session_mgr key)

-- Saved unless the task leaves no record.
abbrev pub record_session : World → AgentLoop → Text → Bool → AgentLoop
record_session w loop key no_session_record =
    if no_session_record then loop else save_session w loop key

unfoldable pub new_task : Text → Text → InboundMessage → ℕ → ActiveTask
new_task task_id session_key msg session_msg_count_before = record {
  id = copy_to 32 task_id;
  session_key = copy_to 512 session_key;
  ctx = record {
    state = idle;
    turn = 0;
    channel = copy_to 64 msg.channel;
    chat_id = copy_to 512 msg.chat_id;
    latest_user_content = copy_to 1024 msg.content;
    no_session_record = msg.no_session_record;
    session_msg_count_before = session_msg_count_before;
  };
  cancelled = false;
  pending_tool_count = pos 0;
}

unfoldable pub add_active_task : AgentLoop → Text → Text → InboundMessage → ℕ → AgentLoop
unfolding session_orchestrator_add_task new_task
add_active_task loop task_id session_key msg session_msg_count_before = record loop {
  session_orchestrator =
      session_orchestrator_add_task loop.session_orchestrator
        (new_task task_id session_key msg session_msg_count_before);
}

-- A task that leaves no record takes its messages back before it goes.
abbrev roll_back_for : World → AgentLoop → Option ActiveTask → AgentLoop
roll_back_for w loop none = loop
roll_back_for w loop (some t) =
    if t.no_session_record && ltb 0 (length t.session_key)
    then on_session loop t.session_key
        (λ s. session_rollback_messages s t.session_msg_count_before w.now)
    else loop

unfoldable pub remove_active_task : World → AgentLoop → Text → AgentLoop
unfolding session_orchestrator_remove_task
remove_active_task w loop task_id =
    let found = find_task (has_id task_id) loop.session_orchestrator.active_tasks in
    let rolled = roll_back_for w loop found in
    record rolled {
      session_orchestrator = session_orchestrator_remove_task rolled.session_orchestrator task_id;
    }

-- `trigger_llm_async`; the context that it builds for the provider is not modelled.
unfoldable pub trigger_llm_async : AgentLoop → Text → AgentLoop
trigger_llm_async loop session_key = record loop {
  llm_calls = loop.llm_calls ++ copy_to 512 session_key ∷ [];
}

-- The cursor is capped to the number of messages before anything else.
abbrev capped : Session → Session
capped s = record s {
  last_consolidated =
      if ltb (length s.messages) s.last_consolidated
      then length s.messages
      else s.last_consolidated;
}

abbrev pub window_of : AgentLoop → ℕ
window_of loop = elim (loop.memory_window) [ pos n ↦ if ltb 0 n then n else 100 | _ ↦ 100 ]

abbrev consolidated : Session → Session
consolidated s = record s { last_consolidated = length s.messages; needs_full_save = true }

abbrev consolidate_found : World → AgentLoop → Text → Option Session → AgentLoop
consolidate_found w loop key none = loop
consolidate_found w loop key (some s) =
    let loop' = on_session loop key capped in
    if ltb (length s.messages - (capped s).last_consolidated) (window_of loop)
    then loop'
    else if w.memory_appends && w.memory_consolidates
    then save_session w (on_session loop' key consolidated) key
    else loop'

unfoldable pub maybe_auto_consolidate_memory : World → AgentLoop → Text → AgentLoop
unfolding save_session
maybe_auto_consolidate_memory w loop key =
    consolidate_found w loop key (session_manager_get loop.session_mgr key)
