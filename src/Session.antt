-- ===== src/Session.antt =====
-- src/session/session.c: one session, its messages and its file. A time is a number of seconds. The
-- growth of the message array and the lock of the session are not modelled.
pub mod File
pub mod Context
pub mod ToolChain
pub mod Callers
pub mod Window
pub mod Table
pub mod Lookup
pub mod Reading
pub mod Persist
pub mod Recovery
pub mod Rollback
pub mod Examples
use primagen.Base.{
  ℕ, ◌-◌, ◌+◌, Bool, true, false, List, [], ◌∷◌, ◌++◌, leb, if◌then◌else◌, length, take, Text,
}
use primagen.Messages.{Message}

pub record Session : Type 0 where
  pub key : Text
  pub messages : List Message
  pub created_at : ℕ
  pub updated_at : ℕ
  pub last_consolidated : ℕ
  pub last_saved_count : ℕ
  pub needs_full_save : Bool

-- The session that `session_manager_create` puts in the table.
unfoldable pub new_session : Text → ℕ → Session
new_session key now = record {
  key = key;
  messages = [];
  created_at = now;
  updated_at = now;
  last_consolidated = 0;
  last_saved_count = 0;
  needs_full_save = true;
}

unfoldable pub session_add_message : Session → Message → ℕ → Session
session_add_message s msg now = record s { messages = s.messages ++ msg ∷ []; updated_at = now }

-- `if (x > to_count) x = to_count;`
abbrev pub cap_to : ℕ → ℕ → ℕ
cap_to to_count x = if leb x to_count then x else to_count

unfoldable pub session_rollback_messages : Session → ℕ → ℕ → Session
session_rollback_messages s to_count now =
    if leb (length s.messages) to_count then s else record s {
      messages = take to_count s.messages;
      last_saved_count = cap_to to_count s.last_saved_count;
      last_consolidated = cap_to to_count s.last_consolidated;
      updated_at = now;
    }
