-- ===== src/Session/File.antt =====
-- The session file of src/session/session.c. A line is the JSON object that cJSON prints and parses,
-- given by the items that the code adds to it or asks it for; an absent item is `none`. cJSON itself,
-- and the directory of the files, are not modelled; how many bytes it prints a line with is an argument
-- of the load.
use primagen.Base.{
  ℕ, Bool, true, false, not, ◌||◌, List, [], ◌∷◌, map, Option, none, some, ltb, if◌then◌else◌,
  is_some, length, drop, Text, codes, text_eq,
}
use primagen.Messages.{
  Message, MessageRole, user, assistant, tool, ToolCall, Error, error_new, ErrorCode,
}
use primagen.Session.{Session, new_session, session_add_message}

-- The item "content": it is no string, it is null, or it is a string.
pub data ContentItem : Type 0 where
  absent null : ContentItem
  string : Text → ContentItem

pub record MessageLine : Type 0 where
  pub role : Option Text
  pub content : ContentItem
  pub timestamp : Option Text
  pub tool_calls : Option (List ToolCall)
  pub tool_call_id : Option Text
  pub name : Option Text

pub record MetadataLine : Type 0 where
  pub key : Text
  pub created_at : ℕ
  pub updated_at : ℕ
  pub last_consolidated : ℕ
  pub saved_count : ℕ

pub data Line : Type 0 where
  metadata : MetadataLine → Line
  message : MessageLine → Line

abbrev pub role_name : MessageRole → Text
role_name user = codes "user"
role_name assistant = codes "assistant"
role_name tool = codes "tool"

abbrev pub unless_empty : Text → Option Text
unless_empty [] = none
unless_empty (c ∷ cs) = some (c ∷ cs)

abbrev pub calls_item : MessageRole → List ToolCall → Option (List ToolCall)
calls_item assistant (c ∷ cs) = some (c ∷ cs)
calls_item _ _ = none

abbrev pub tool_item : MessageRole → Text → Option Text
tool_item tool t = unless_empty t
tool_item _ _ = none

unfoldable pub serialize_message_to_fp : Message → Line
serialize_message_to_fp msg = message (record {
  role = some (role_name msg.role);
  content = string msg.content;
  timestamp = some msg.timestamp;
  tool_calls = calls_item msg.role msg.tool_calls;
  tool_call_id = tool_item msg.role msg.tool_call_id;
  name = tool_item msg.role msg.name;
})

unfoldable pub serialize_metadata_to_fp : Session → ℕ → Line
serialize_metadata_to_fp s save_count = metadata (record {
  key = s.key;
  created_at = s.created_at;
  updated_at = s.updated_at;
  last_consolidated = s.last_consolidated;
  saved_count = save_count;
})

-- The lines of the file, or `none` where there is no file.
abbrev pub SessionFile : Type 0
SessionFile = Option (List Line)

-- What the file system answers: whether the file opens for writing, which lines the file has after
-- lines were written behind its old ones and it was closed, and whether the rename that puts the new
-- file in its place succeeds.
pub record Disk : Type 0 where
  pub opens : Bool
  pub written : List Line → List Line → List Line
  pub renames : Bool

pub record Saved : Type 0 where
  pub session : Session
  pub file : SessionFile
  pub error : Error

abbrev no_error : Error
no_error = record { code = ErrorCode.none; message = [] }

abbrev pub lines_of : SessionFile → List Line
lines_of none = []
lines_of (some ls) = ls

abbrev pub needs_full : Session → SessionFile → Bool
needs_full s file =
    s.needs_full_save || not (is_some file) || ltb (length s.messages) s.last_saved_count

-- `fprintf` and `fclose` may fail, and their results are not read; without a line there is no write.
abbrev pub write_lines : Disk → List Line → List Line → List Line
write_lines disk old [] = old
write_lines disk old (l ∷ ls) = disk.written old (l ∷ ls)

unfoldable pub save_full : Disk → Session → SessionFile → Saved
unfolding error_new
save_full disk s file =
    let lines =
      serialize_metadata_to_fp s (length s.messages) ∷ map serialize_message_to_fp s.messages in
    let s' : Session = record s { last_saved_count = length s.messages; needs_full_save = false } in
    if disk.opens
    then (if disk.renames
        then record { session = s'; file = some (write_lines disk [] lines); error = no_error }
        else record {
          session = s';
          file = file;
          error = error_new ErrorCode.file (codes "Failed to commit session file");
        })
    else record {
      session = s;
      file = file;
      error = error_new ErrorCode.file (codes "Cannot open session file for writing");
    }

unfoldable pub save_append : Disk → Session → SessionFile → Saved
unfolding error_new
save_append disk s file =
    if disk.opens
    then record {
      session = record s { last_saved_count = length s.messages };
      file = some (
          write_lines disk (lines_of file)
            (map serialize_message_to_fp (drop s.last_saved_count s.messages)));
      error = no_error;
    }
    else record {
      session = s;
      file = file;
      error = error_new ErrorCode.file (codes "Cannot open session file for appending");
    }

-- The path of the file fits its buffer.
unfoldable pub session_manager_save : Disk → Session → SessionFile → Saved
unfolding save_full save_append
session_manager_save disk s file =
    if needs_full s file then save_full disk s file else save_append disk s file

-- Reading: any role but "assistant" and "tool" is the user's.
unfoldable pub role_of : Text → MessageRole
role_of t =
    if text_eq t (codes "assistant")
    then assistant
    else if text_eq t (codes "tool")
    then tool
    else user

abbrev pub text_of : Option Text → Text
text_of none = []
text_of (some t) = t

abbrev pub calls_of : MessageRole → Option (List ToolCall) → List ToolCall
calls_of assistant (some calls) = calls
calls_of _ _ = []

abbrev pub tool_text : MessageRole → Option Text → Text
tool_text tool t = text_of t
tool_text _ _ = []

-- The message of a line with a role and a content.
unfoldable pub read_message : Text → Text → MessageLine → Message
unfolding role_of
read_message role content l =
    let r = role_of role in
    record {
      role = r;
      content = content;
      timestamp = text_of l.timestamp;
      tool_calls = calls_of r l.tool_calls;
      tool_call_id = tool_text r l.tool_call_id;
      name = tool_text r l.name;
    }

abbrev pub add_line : Session → Option Text → ContentItem → MessageLine → ℕ → Session
add_line s (some role) (string content) l now =
    session_add_message s (read_message role content l) now
add_line s (some role) null l now = session_add_message s (read_message role [] l) now
add_line s _ _ l now = s

-- The buffer of `fgets` has 4096 bytes.
abbrev pub fits : (Line → ℕ) → Line → Bool
fits line_bytes l = ltb (line_bytes l) 4096

-- One round of the loop over the lines; the flag is `metadata_loaded`. A message's line that does
-- not fit is read in pieces, and none is such a line: the first ends before its closing brace, and
-- inside the others each quote is escaped, but for those of the tool calls, which have no role. A
-- metadata line always fits, since a key has 255 bytes at most.
unfoldable pub load_line : (Line → ℕ) → Session × Bool → Line → ℕ → Session × Bool
load_line line_bytes (s, loaded) (metadata m) now = (
  record s {
    last_consolidated = m.last_consolidated;
    created_at = m.created_at;
    updated_at = m.updated_at;
  },
  true,
)
load_line line_bytes (s, loaded) (message l) now =
    (if fits line_bytes (message l) then add_line s l.role l.content l now else s, loaded)

unfoldable pub load_lines : (Line → ℕ) → Session × Bool → List Line → ℕ → Session × Bool
load_lines line_bytes st [] now = st
load_lines line_bytes st (l ∷ ls) now = load_lines line_bytes (load_line line_bytes st l now) ls now

-- `file` is what stands at the path, or else at the legacy path; `line_bytes` is how many bytes cJSON
-- prints a line with, without the newline.
unfoldable pub session_manager_load : (Line → ℕ) → SessionFile → Text → ℕ → Session
session_manager_load line_bytes none key now = new_session key now
session_manager_load line_bytes (some lines) key now =
    let (s, loaded) = load_lines line_bytes (new_session key now, false) lines now in
    record s {
      last_consolidated = if loaded then s.last_consolidated else length s.messages;
      last_saved_count = length s.messages;
      needs_full_save = false;
    }
