-- ===== src/Agent/Replies.antt =====
-- src/agent/agent_loop.c: what the user is told when the model has answered.
use primagen.Base.{
  ◌≡◌, refl, sym, ap, ◌∙◌, Bool, ◌&&◌, List, [], ◌∷◌, ◌++◌, append-nil, Option, none, some, if_elim,
  length, ltb, Text, inl, inr, ◌<◌, false, arith,
}
use primagen.Messages.{
  ToolCall, LlmResult, OutboundMessage, outbound_message_new, assistant, message_new, is_error,
}
use primagen.Session.{Session}
use primagen.Session.Table.{session_manager_get}
use primagen.Utils.{strip_think_tags}
use primagen.Orchestrator.{
  ActiveTask, TaskSnapshot, find_task, has_id, has_key, snapshot_by_key,
  session_orchestrator_snapshot_task,
}
use primagen.Agent.{
  AgentLoop, World, send, error_text, add_message, save_found, save_session, record_session,
  roll_back_for, remove_active_task,
}
use primagen.Agent.LlmResults.{
  assistant_content, record_answer, send_progress, handle_llm_text_response, handle_llm_tool_calls,
  handle_llm_error, llm_result_for, llm_result_with, handle_event_llm_result,
}
use primagen.Agent.ReplyTexts.{IsReply, assistant_content-IsAnswer}

save_found-sent :
    (w : World) (a : AgentLoop) (key : Text) (found : Option Session)
    → (save_found w a key found).sent ≡ a.sent
save_found-sent w a key none = refl
save_found-sent w a key (some s) = refl

record_session-sent :
    (w : World) (a : AgentLoop) (key : Text) (b : Bool) → (record_session w a key b).sent ≡ a.sent
unfolding save_session
record_session-sent w a key b =
    if_elim (λ (r : AgentLoop). r.sent ≡ a.sent) b _ _ (λ _. refl)
      (λ _. save_found-sent w a key (session_manager_get a.session_mgr key))

roll_back_for-sent :
    (w : World) (a : AgentLoop) (found : Option ActiveTask)
    → (roll_back_for w a found).sent ≡ a.sent
roll_back_for-sent w a none = refl
roll_back_for-sent w a (some t) =
    if_elim (λ (r : AgentLoop). r.sent ≡ a.sent)
      (t.no_session_record && ltb 0 (length t.session_key)) _ _ (λ _. refl) (λ _. refl)

removed-sent :
    (w : World) (a : AgentLoop) (task_id : Text) → (remove_active_task w a task_id).sent ≡ a.sent
unfolding remove_active_task
removed-sent w a task_id =
    roll_back_for-sent w a (find_task (has_id task_id) a.session_orchestrator.active_tasks)

record_answer-sent :
    (w : World) (a : AgentLoop) (key : Text) (snap : TaskSnapshot) (content : Text)
    → (record_answer w a key snap content).sent ≡ a.sent
record_answer-sent w a key snap [] = refl
record_answer-sent w a key snap (c ∷ cs) =
    record_session-sent w (add_message w a key (message_new assistant (c ∷ cs))) key
      snap.no_session_record

text-sent :
    (w : World) (a : AgentLoop) (event : LlmResult) (snap : TaskSnapshot) (clean : Option Text)
    → (handle_llm_text_response w a event snap clean).sent
      ≡ a.sent
        ++ outbound_message_new snap.channel snap.chat_id (assistant_content w event snap clean)
          ∷ []
unfolding handle_llm_text_response
text-sent w a event snap clean =
    let content = assistant_content w event snap clean in
    let b = record_answer w a event.session_key snap content in
    let msg = outbound_message_new snap.channel snap.chat_id content in
    removed-sent w (send b msg) snap.task_id
    ∙ ap (λ l. l ++ msg ∷ []) (record_answer-sent w a event.session_key snap content)

error-sent :
    (w : World) (a : AgentLoop) (event : LlmResult) (snap : TaskSnapshot)
    → (handle_llm_error w a event snap).sent
      ≡ a.sent
        ++ outbound_message_new snap.channel snap.chat_id (error_text event.llm_error.message) ∷ []
unfolding handle_llm_error
error-sent w a event snap =
    let text = error_text event.llm_error.message in
    let key = event.session_key in
    let msg = outbound_message_new snap.channel snap.chat_id text in
    let b =
      record_session w (add_message w a key (message_new assistant text)) key
        snap.no_session_record in
    removed-sent w (send b msg) snap.task_id
    ∙ ap (λ l. l ++ msg ∷ [])
        (record_session-sent w (add_message w a key (message_new assistant text)) key
          snap.no_session_record)

-- The messages that the text of a progress report makes.
abbrev told : TaskSnapshot → Option Text → List OutboundMessage
told snap (some (c ∷ cs)) = outbound_message_new snap.channel snap.chat_id (c ∷ cs) ∷ []
told snap _ = []

progress-sent :
    (a : AgentLoop) (snap : TaskSnapshot) (clean : Option Text)
    → (send_progress a snap clean).sent ≡ a.sent ++ told snap clean
progress-sent a snap none = sym (append-nil a.sent)
progress-sent a snap (some []) = sym (append-nil a.sent)
progress-sent a snap (some (c ∷ cs)) = refl

tools-sent :
    (w : World) (a : AgentLoop) (event : LlmResult) (snap : TaskSnapshot) (clean : Option Text)
    → (handle_llm_tool_calls w a event snap clean).sent ≡ a.sent ++ told snap clean
unfolding handle_llm_tool_calls
tools-sent w a event snap clean =
    record_session-sent w (add_message w (send_progress a snap clean) event.session_key _)
      event.session_key snap.no_session_record
    ∙ progress-sent a snap clean

told-IsReply :
    (w : World) (event : LlmResult) (t : ActiveTask) (s : Session) (clean : Option Text)
    → is_error event.llm_error ≡ false
    → 0 < length event.tool_calls
    → strip_think_tags event.llm_response ≡ clean
    → IsReply w event (some t) (some s) (told (snapshot_by_key (some t)) clean)
told-IsReply w event t s none e calls h = inr (inr (inr (e, calls, inl h, refl)))
told-IsReply w event t s (some []) e calls h = inr (inr (inr (e, calls, inr h, refl)))
told-IsReply w event t s (some (c ∷ cs)) e calls h =
    inr (inr (inl (e, calls, c ∷ cs, h, omega arith, refl)))

-- What was sent before, and a reply behind it.
abbrev pub Replies :
    World → LlmResult → Option ActiveTask → Option Session → AgentLoop → AgentLoop → Type 0
Replies w event task found a b =
    (l : List OutboundMessage) × (b.sent ≡ a.sent ++ l) × IsReply w event task found l

response-Replies :
    (w : World) (a : AgentLoop) (event : LlmResult) (t : ActiveTask) (s : Session)
    (calls : List ToolCall)
    → is_error event.llm_error ≡ false
    → event.tool_calls ≡ calls
    → let clean = strip_think_tags event.llm_response in
      let snap = snapshot_by_key (some t) in
      Replies w event (some t) (some s) a (elim calls as (λ _. AgentLoop) [
        | [] ↦ handle_llm_text_response w a event snap clean
        | c ∷ cs ↦ handle_llm_tool_calls w a event snap clean
      ])
response-Replies w a event t s [] e h =
    let snap = snapshot_by_key (some t) in
    let clean = strip_think_tags event.llm_response in
    (
      _,
      text-sent w a event snap clean,
      inr (inl (e, h, _, assistant_content-IsAnswer w event t, refl)),
    )
response-Replies w a event t s (c ∷ cs) e h =
    let snap = snapshot_by_key (some t) in
    let clean = strip_think_tags event.llm_response in
    let some_calls : 0 < length event.tool_calls = rw h (omega arith) in
    (_, tools-sent w a event snap clean, told-IsReply w event t s clean e some_calls refl)

result-Replies :
    (w : World) (a : AgentLoop) (event : LlmResult) (t : ActiveTask) (found : Option Session)
    → Replies w event (some t) found a (llm_result_for w a event (snapshot_by_key (some t)) found)
unfolding error_text
result-Replies w a event t none =
    ([], removed-sent w a (snapshot_by_key (some t)).task_id ∙ sym (append-nil a.sent), refl)
result-Replies w a event t (some s) =
    let snap = snapshot_by_key (some t) in
    if_elim (Replies w event (some t) (some s) a) (is_error event.llm_error) _ _
      (λ e. (_, error-sent w a event snap, inl (e, refl)))
      (λ e. response-Replies w a event t s event.tool_calls e refl)

-- Whatever the model answers, at most one message goes out, behind all that was sent before: where the
-- session has a task and is in the table, an error is told to the chat of the task as an apology; a result
-- without tool calls is answered there, by the confirmation of a reminder if the turn is at most the first, no tools are
-- awaited and the user's text gives one, else by the response without its thoughts, else, if that is empty,
-- by the response as it came; with tool calls the text that came with them is sent, if there is one. Where the
-- session has no task or is not in the table, nothing is sent.
pub handle_event_llm_result-Replies :
    (w : World) (a : AgentLoop) (event : LlmResult)
    → Replies w event
        (find_task (has_key event.session_key) a.session_orchestrator.active_tasks)
        (session_manager_get a.session_mgr event.session_key)
        a
        (handle_event_llm_result w a event)
unfolding handle_event_llm_result session_orchestrator_snapshot_task
handle_event_llm_result-Replies w a event =
    go (find_task (has_key event.session_key) a.session_orchestrator.active_tasks)
  where
    go :
        (task : Option ActiveTask)
        → Replies w event task
            (session_manager_get a.session_mgr event.session_key)
            a
            (llm_result_with w a event (snapshot_by_key task))
    go none = ([], sym (append-nil a.sent), refl)
    go (some t) = result-Replies w a event t (session_manager_get a.session_mgr event.session_key)
