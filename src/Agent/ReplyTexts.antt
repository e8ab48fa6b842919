-- ===== src/Agent/ReplyTexts.antt =====
-- src/agent/agent_loop.c: which text answers the result of a call to the model, said of the task and the
-- result themselves.
use primagen.Base.{
  ◌≡◌, refl, Bool, ◌&&◌, List, [], ◌∷◌, ◌++◌, Option, none, some, if_elim, length, Text, Bool-cases,
  inl, inr, ◌⊎◌, ◌↔◌, ◌≢◌, ◌<◌, ◌≤◌, ℤ, pos, negsuc, codes, copy_to, true, false, leb, arith,
}
use primagen.Messages.{LlmResult, OutboundMessage, outbound_message_new, is_error}
use primagen.Session.{Session}
use primagen.Utils.{strip_think_tags}
use primagen.Orchestrator.{ActiveTask, snapshot_by_key}
use primagen.Agent.{World}
use primagen.Agent.LlmResults.{
  assistant_content, if_some, if_nonempty, is_zero, reminder_should_fallback_schedule,
}

-- A message with this text to the chat of the task.
abbrev pub IsTo : ActiveTask → Text → List OutboundMessage → Type 0
IsTo t text sent =
    sent ≡ outbound_message_new (copy_to 64 t.channel) (copy_to 512 t.chat_id) text ∷ []

-- The response with its thoughts stripped has no text.
abbrev pub IsBare : LlmResult → Type 0
IsBare event =
    (strip_think_tags event.llm_response ≡ none) ⊎ (strip_think_tags event.llm_response ≡ some [])

-- The request is not for a reminder that could be scheduled: the model was asked before, or tools
-- are awaited, or there is no reminder in the user's text.
abbrev pub NoReminder : World → ActiveTask → Type 0
NoReminder w t =
    (1 < t.turn)
    ⊎ (t.pending_tool_count ≢ pos 0)
    ⊎ (w.reminder (copy_to 1024 t.latest_user_content) ≡ none)

-- The text that answers the user: the confirmation of the reminder, else what is left of the
-- response, else the response as it came.
abbrev pub IsAnswer : World → LlmResult → ActiveTask → Text → Type 0
IsAnswer w event t text =
    ((t.turn ≤ 1)
      × (t.pending_tool_count ≡ pos 0)
      × (w.reminder (copy_to 1024 t.latest_user_content) ≡ some text))
    ⊎ (NoReminder w t × (strip_think_tags event.llm_response ≡ some text) × (0 < length text))
    ⊎ (NoReminder w t × IsBare event × (text ≡ event.llm_response))

-- What is sent for the result of a call to the model, given the task and the session of its key.
abbrev pub IsReply :
    World → LlmResult → Option ActiveTask → Option Session → List OutboundMessage → Type 0
IsReply w event none found sent = sent ≡ []
IsReply w event (some t) none sent = sent ≡ []
IsReply w event (some t) (some s) sent =
    ((is_error event.llm_error ≡ true)
      × IsTo t (copy_to 1024 (codes "Sorry, I encountered an error: " ++ event.llm_error.message))
          sent)
    ⊎ ((is_error event.llm_error ≡ false)
        × (event.tool_calls ≡ [])
        × (text : Text) × IsAnswer w event t text
        × IsTo t text sent)
    ⊎ ((is_error event.llm_error ≡ false)
        × (0 < length event.tool_calls)
        × (text : Text) × (strip_think_tags event.llm_response ≡ some text)
        × (0 < length text)
        × IsTo t text sent)
    ⊎ ((is_error event.llm_error ≡ false)
        × (0 < length event.tool_calls)
        × IsBare event
        × (sent ≡ []))

-- One of the texts is chosen by the reminder, and else by the stripped response.
chosen-IsAnswer :
    (w : World) (event : LlmResult) (t : ActiveTask) (clean : Option Text)
    → strip_think_tags event.llm_response ≡ clean
    → NoReminder w t
    → IsAnswer w event t (if_nonempty clean event.llm_response)
chosen-IsAnswer w event t none e h = inr (inr (h, inl e, refl))
chosen-IsAnswer w event t (some []) e h = inr (inr (h, inr e, refl))
chosen-IsAnswer w event t (some (c ∷ cs)) e h = inr (inl (h, e, omega arith))

is_zero_iff : (n : ℤ) → (is_zero n ≡ true) ↔ (n ≡ pos 0)
is_zero_iff (pos n) = ground arith
is_zero_iff (negsuc n) = ground arith

pub assistant_content-IsAnswer :
    (w : World) (event : LlmResult) (t : ActiveTask)
    → IsAnswer w event t
        (assistant_content w event (snapshot_by_key (some t)) (strip_think_tags event.llm_response))
unfolding assistant_content reminder_should_fallback_schedule
assistant_content-IsAnswer w event t =
    if_elim (IsAnswer w event t) (leb t.turn 1 && is_zero t.pending_tool_count) _ _
      (λ e.
        by_reminder (ground arith) ((is_zero_iff t.pending_tool_count).0 (ground arith))
          (w.reminder (copy_to 1024 t.latest_user_content)) refl)
      (λ e. other (no_reminder e))
  where
    other :
        NoReminder w t
        → IsAnswer w event t (if_nonempty (strip_think_tags event.llm_response) event.llm_response)
    other h = chosen-IsAnswer w event t (strip_think_tags event.llm_response) refl h

    by_reminder :
        t.turn ≤ 1
        → t.pending_tool_count ≡ pos 0
        → (o : Option Text) → w.reminder (copy_to 1024 t.latest_user_content) ≡ o
        → IsAnswer w event t
            (if_some o (if_nonempty (strip_think_tags event.llm_response) event.llm_response))
    by_reminder turn pending none e = other (inr (inr e))
    by_reminder turn pending (some text) e = inl (turn, pending, e)

    clash : {x y : Bool} → x ≡ true → y ≡ true → (x && y) ≡ false → ⊥
    clash p q r = ground arith

    no_reminder : (leb t.turn 1 && is_zero t.pending_tool_count) ≡ false → NoReminder w t
    no_reminder e = elim (Bool-cases (leb t.turn 1)) [
      | inl l ↦ inr (inl λ z. absurd (clash l ((is_zero_iff t.pending_tool_count).1 z) e))
      | inr l ↦ inl (ground arith)
    ]
