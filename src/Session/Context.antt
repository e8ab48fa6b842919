-- ===== src/Session/Context.antt =====
-- `session_snapshot_for_context` of src/session/session.c: the messages that go to the LLM. A clone
-- of a message is the message; that an allocation fails is not modelled.
use primagen.Base.{
  ℕ, zero, suc, ◌-◌, Bool, true, false, ◌&&◌, ◌||◌, not, List, [], ◌∷◌, Option, none, some, ltb,
  leb, ◌==◌, if◌then◌else◌, length, get_elem?, drop, Text, text_eq,
}
use primagen.Messages.{Message, MessageRole, assistant, tool, ToolCall}
use primagen.Session.{Session}

unfoldable pub any_id : List ToolCall → Text → Bool
any_id [] id = false
any_id (c ∷ cs) id = text_eq c.id id || any_id cs id

abbrev pub is_nil {ℓ} : {A : Type ℓ} → List A → Bool
is_nil [] = true
is_nil (x ∷ xs) = false

abbrev pub is_assistant : MessageRole → Bool
is_assistant assistant = true
is_assistant _ = false

abbrev pub is_tool : MessageRole → Bool
is_tool tool = true
is_tool _ = false

unfoldable pub assistant_has_tool_call_id : Option Message → Text → Bool
unfolding any_id
assistant_has_tool_call_id none id = false
assistant_has_tool_call_id (some msg) id =
    is_assistant msg.role && not (is_nil id) && any_id msg.tool_calls id

-- The loop that looks for the caller, from the message before `j` backwards.
unfoldable pub find_caller : List Message → Text → ℕ → Option ℕ
find_caller messages id zero = none
find_caller messages id (suc j) =
    let rest = find_caller messages id j in
    if assistant_has_tool_call_id (get_elem? messages j) id then some j else rest

-- The caller of the first message, if that is the answer of a tool.
unfoldable pub first_caller : List Message → ℕ → Option Message → Option ℕ
first_caller messages adjusted none = none
first_caller messages adjusted (some first) =
    if is_tool first.role then find_caller messages first.tool_call_id adjusted else none

-- An assistant message that calls tools.
unfoldable pub calls_tools : Option Message → Bool
calls_tools none = false
calls_tools (some prev) = is_assistant prev.role && not (is_nil prev.tool_calls)

unfoldable pub step_over : List Message → ℕ → Bool → ℕ × Bool
step_over messages adjusted changed =
    if ltb 0 adjusted && calls_tools (get_elem? messages (adjusted - 1))
    then (adjusted - 1, true)
    else (adjusted, changed)

-- The body of the loop: the new start, and `changed`.
unfoldable pub round : List Message → ℕ → ℕ × Bool
unfolding step_over
round messages adjusted =
    if adjusted == 0
    then (adjusted, false)
    else elim (first_caller messages adjusted (get_elem? messages adjusted)) [
      | none ↦ step_over messages adjusted false
      | some j ↦ step_over messages j true
    ]

unfoldable pub adjust_loop : ℕ → List Message → ℕ → ℕ
adjust_loop zero messages adjusted = adjusted
adjust_loop (suc fuel) messages adjusted =
    let (next, changed) = round messages adjusted in
    let rest = adjust_loop fuel messages next in if changed then rest else next

-- Each round but the last lowers the start, so one more round than the start is enough.
unfoldable pub adjust_context_start_for_tool_chain : List Message → ℕ → ℕ
adjust_context_start_for_tool_chain messages start_idx =
    if (start_idx == 0) || leb (length messages) start_idx
    then start_idx
    else adjust_loop (suc start_idx) messages start_idx

pub record SessionSnapshot : Type 0 where
  pub messages : List Message
  pub truncated : Bool

unfoldable pub context_start : List Message → ℕ → ℕ
context_start messages max_messages =
    if ltb 0 max_messages && ltb max_messages (length messages)
    then adjust_context_start_for_tool_chain messages (length messages - max_messages)
    else 0

unfoldable pub session_snapshot_for_context : Session → ℕ → SessionSnapshot
unfolding context_start
session_snapshot_for_context s max_messages =
    let start_idx = context_start s.messages max_messages in
    record { messages = drop start_idx s.messages; truncated = ltb 0 start_idx }
