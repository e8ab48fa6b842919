-- ===== src/Messages.antt =====
-- The data that the components exchange: src/include/message.h, src/common/message.c and the error
-- values of src/include/common.h. A `String` is the text it holds; that an allocation of such a
-- small object fails is not modelled.
use primagen.Base.{Bool, true, false, List, [], ◌∷◌, ◌++◌, Text, copy_to}

pub data ErrorCode : Type 0 where
  none memory file network json tool invalid_param content_filter connection timeout : ErrorCode

pub record Error : Type 0 where
  pub code : ErrorCode
  pub message : Text

-- `Error.message` holds 256 bytes.
unfoldable pub error_new : ErrorCode → Text → Error
error_new code message = record { code = code; message = copy_to 256 message }

-- `err.code != ERR_NONE`
abbrev pub is_error : Error → Bool
is_error e = elim (e.code) [ ErrorCode.none ↦ false | _ ↦ true ]

pub data MessageRole : Type 0 where
  user assistant tool : MessageRole

pub record ToolCall : Type 0 where
  pub id : Text
  pub name : Text
  pub arguments : Text

pub record Message : Type 0 where
  pub role : MessageRole
  pub content : Text
  pub timestamp : Text
  pub tool_calls : List ToolCall
  pub tool_call_id : Text
  pub name : Text

unfoldable pub message_new : MessageRole → Text → Message
message_new role content = record {
  role = role;
  content = content;
  timestamp = [];
  tool_calls = [];
  tool_call_id = [];
  name = [];
}

unfoldable pub message_add_tool_call : Message → Text → Text → Text → Message
message_add_tool_call msg id name args =
    let call : ToolCall = record { id = id; name = name; arguments = args } in
    record msg { tool_calls = msg.tool_calls ++ call ∷ [] }

pub record InboundMessage : Type 0 where
  pub channel : Text
  pub chat_id : Text
  pub content : Text
  pub sender_name : Text
  pub attachments : List Text
  pub no_session_record : Bool

unfoldable pub inbound_message_new : Text → Text → Text → Text → InboundMessage
inbound_message_new channel chat_id content sender_name = record {
  channel = channel;
  chat_id = chat_id;
  content = content;
  sender_name = sender_name;
  attachments = [];
  no_session_record = false;
}

pub record OutboundMessage : Type 0 where
  pub channel : Text
  pub chat_id : Text
  pub content : Text
  pub attachments : List Text

unfoldable pub outbound_message_new : Text → Text → Text → OutboundMessage
outbound_message_new channel chat_id content = record {
  channel = channel;
  chat_id = chat_id;
  content = content;
  attachments = [];
}

pub record LlmResult : Type 0 where
  pub session_key : Text
  pub llm_error : Error
  pub llm_response : Text
  pub tool_calls : List ToolCall

pub record ToolResult : Type 0 where
  pub session_key : Text
  pub tool_call_id : Text
  pub tool_name : Text
  pub tool_result : Text
  pub tool_error : Error

-- The `type` tag and the fields that go with it.
pub data InternalEvent : Type 0 where
  event_llm_result : LlmResult → InternalEvent
  event_tool_result : ToolResult → InternalEvent

unfoldable pub internal_event_new_llm_result : Text → Error → Text → List ToolCall → InternalEvent
internal_event_new_llm_result session_key err response calls = event_llm_result (record {
  session_key = session_key;
  llm_error = err;
  llm_response = response;
  tool_calls = calls;
})

unfoldable pub internal_event_new_tool_result : Text → Text → Text → Text → Error → InternalEvent
internal_event_new_tool_result session_key tool_call_id tool_name result err =
    event_tool_result (record {
      session_key = session_key;
      tool_call_id = tool_call_id;
      tool_name = tool_name;
      tool_result = result;
      tool_error = err;
    })
