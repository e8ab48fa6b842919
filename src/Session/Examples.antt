-- ===== src/Session/Examples.antt =====
-- Sessions of src/session/session.c at concrete messages.
use primagen.Base.{
  ℕ, ◌-◌, ◌≤◌, ◌≡◌, ◌≢◌, refl, true, false, ltb, List, [], ◌∷◌, ◌++◌, some, none, arith, inl, inr,
  length, drop, take, codes, text_eq, if◌then◌else◌,
}
use primagen.Messages.{Message, user, assistant, tool, message_new, message_add_tool_call, is_error}
use primagen.Session.{Session, new_session, session_rollback_messages}
use primagen.Session.File.{
  Disk, Line, metadata, message, serialize_message_to_fp, serialize_metadata_to_fp,
  session_manager_save, save_append, session_manager_load,
}
use primagen.Session.Context.{
  session_snapshot_for_context, context_start, adjust_context_start_for_tool_chain, adjust_loop,
  round, step_over, first_caller, find_caller, assistant_has_tool_call_id, any_id, calls_tools,
}
use primagen.Session.Window.{IsStart, session_snapshot_for_context_lem}
use primagen.Session.Table.{session_manager_new, session_manager_get, session_manager_create}
use primagen.Session.Lookup.{session_manager_new-IsTable, get-create}
use primagen.Session.Reading.{AllPlain, short_ones, transcript, body}
use primagen.Session.Persist.{Complete, IsSynced, session_manager_save-Kept}
use primagen.Session.Recovery.{load-save, load-save_short, load-save_full, SameMeta}
use primagen.Session.Rollback.{
  session_rollback_messages_lem, rollback-IsSynced, rollback_resurrects, failed_rename_forgotten,
}

abbrev question : Message
question = message_new user (codes "hi")

abbrev call : Message
call = message_add_tool_call (message_new assistant []) (codes "c1") (codes "exec") (codes "{}")

abbrev result : Message
result = record (message_new tool (codes "ok")) { tool_call_id = codes "c1"; name = codes "exec" }

abbrev talk : Session
talk = record {
  key = codes "cli:1";
  messages = question ∷ call ∷ result ∷ [];
  created_at = 5;
  updated_at = 9;
  last_consolidated = 1;
  last_saved_count = 2;
  needs_full_save = false;
}

abbrev works : Disk
works = record { opens = true; written = ◌++◌; renames = true }

abbrev fails : Disk
fails = record { opens = true; written = ◌++◌; renames = false }

abbrev saved_lines : List Line
saved_lines =
    serialize_metadata_to_fp talk 2
    ∷ serialize_message_to_fp question
    ∷ serialize_message_to_fp call
    ∷ []

talk-IsSynced : IsSynced talk (some saved_lines)
unfolding serialize_metadata_to_fp serialize_message_to_fp
talk-IsSynced = inr (omega arith, refl)

talk-AllPlain : AllPlain talk.messages
unfolding message_new message_add_tool_call
talk-AllPlain =
    ((inr refl, inr (refl, refl)), ((inl refl, inr (refl, refl)), ((inr refl, inl refl), tt)))

append_succeeds : is_error (session_manager_save works talk (some saved_lines)).error ≡ false
unfolding session_manager_save save_append
append_succeeds = refl

session_manager_save-Kept_example :
    let r = session_manager_save works talk (some saved_lines) in
    Complete talk r.file × (r.session.messages ≡ talk.messages) × IsSynced r.session r.file
session_manager_save-Kept_example =
    session_manager_save-Kept works talk (some saved_lines) talk-IsSynced (λ old new. refl)
      append_succeeds

-- Lines of a hundred bytes, and one of the assistant's that is too long.
abbrev all_short : Line → ℕ
all_short l = 100

abbrev call_too_long : Line → ℕ
call_too_long (metadata m) = 100
call_too_long (message l) = elim (l.tool_calls) [ none ↦ 100 | some calls ↦ 5000 ]

load-save_short_example :
    let r =
      session_manager_load call_too_long
        (session_manager_save works talk (some saved_lines)).file
        (codes "cli:1")
        20 in
    (r.messages ≡ short_ones call_too_long talk.messages)
    × (r.last_saved_count ≡ length (short_ones call_too_long talk.messages))
    × (r.needs_full_save ≡ false)
load-save_short_example =
    load-save_short call_too_long works talk (some saved_lines) (codes "cli:1") 20 talk-IsSynced
      talk-AllPlain (λ old new. refl) append_succeeds

-- The call is lost, the answer to it is not.
call_lost : short_ones call_too_long talk.messages ≡ question ∷ result ∷ []
unfolding serialize_message_to_fp message_new message_add_tool_call
call_lost = refl

load-save_example :
    let r =
      session_manager_load all_short
        (session_manager_save works talk (some saved_lines)).file
        (codes "cli:1")
        20 in
    (r.messages ≡ talk.messages)
    × (r.last_saved_count ≡ length talk.messages)
    × (r.needs_full_save ≡ false)
load-save_example =
    load-save all_short works talk (some saved_lines) (codes "cli:1") 20 talk-IsSynced talk-AllPlain
      (omega arith, (omega arith, (omega arith, tt))) (λ old new. refl) append_succeeds

load-save_full_example :
    SameMeta
      (session_manager_load all_short
        (session_manager_save works talk none).file
        (codes "cli:1")
        20)
      talk
load-save_full_example =
    load-save_full all_short works talk none (codes "cli:1") 20 talk-AllPlain refl refl
      (λ old new. refl) refl

session_snapshot_for_context_lem_example :
    let snap = session_snapshot_for_context talk 1 in
    (a : ℕ) × (snap.messages ≡ drop a talk.messages)
    × (snap.truncated ≡ ltb 0 a)
    × (a ≤ length talk.messages - 1)
    × IsStart talk.messages 1 a
session_snapshot_for_context_lem_example = session_snapshot_for_context_lem talk 1

-- The window moves back from the answer of a tool to the call.
window_moves : (session_snapshot_for_context talk 1).messages ≡ call ∷ result ∷ []
unfolding session_snapshot_for_context context_start adjust_context_start_for_tool_chain adjust_loop
    round step_over first_caller find_caller assistant_has_tool_call_id any_id calls_tools
    message_new message_add_tool_call text_eq
window_moves = refl

session_rollback_messages_lem_example :
    let r = session_rollback_messages talk 1 30 in
    (r.messages ≡ take 1 talk.messages)
    × (r.last_saved_count ≤ length r.messages)
    × (r.last_consolidated ≤ length r.messages)
session_rollback_messages_lem_example =
    session_rollback_messages_lem talk 1 30 (omega arith) (omega arith)

rollback-IsSynced_example : IsSynced (session_rollback_messages talk 2 30) (some saved_lines)
rollback-IsSynced_example =
    rollback-IsSynced talk (some saved_lines) 2 30 talk-IsSynced (omega arith)

rollback_resurrects_example :
    let r = session_manager_save works (session_rollback_messages talk 1 30) (some saved_lines) in
    (is_error r.error ≡ false)
    × (r.session.messages ≡ take 1 talk.messages)
    × (r.file ≡ some saved_lines)
    × (body saved_lines ≢ transcript r.session.messages)
unfolding serialize_metadata_to_fp serialize_message_to_fp
rollback_resurrects_example =
    rollback_resurrects works talk saved_lines 1 30 refl (omega arith) refl (omega arith) refl

abbrev fresh_talk : Session
fresh_talk = record talk { needs_full_save = true }

failed_rename_forgotten_example :
    let first = session_manager_save fails fresh_talk (some []) in
    let second = session_manager_save works first.session first.file in
    (is_error first.error ≡ true)
    × (is_error second.error ≡ false)
    × (second.session.messages ≡ fresh_talk.messages)
    × (second.file ≡ some [])
failed_rename_forgotten_example =
    failed_rename_forgotten fails works fresh_talk [] refl refl refl refl

get-create_example :
    session_manager_get
      (session_manager_create session_manager_new (codes "cli:1") 7)
      (codes "cli:2")
    ≡ (if text_eq (codes "cli:1") (codes "cli:2")
        then some (new_session (codes "cli:1") 7)
        else session_manager_get session_manager_new (codes "cli:2"))
get-create_example =
    get-create session_manager_new (codes "cli:1") (codes "cli:2") 7 session_manager_new-IsTable
