-- ===== src/Agent/Quiet.antt =====
-- src/agent/agent_loop.c: the steps of a handler that leave the tasks and what is in flight alone.
use primagen.Base.{
  ℕ, ◌≡◌, refl, sym, ap, ◌∙◌, Bool, true, ◌&&◌, List, [], ◌∷◌, ◌-◌, Option, none, some, arith,
  is_some, if_elim, length, ltb, Text, text_eq, text_eq_iff, Bool-cases, inl, inr,
}
use primagen.Messages.{Message, OutboundMessage}
use primagen.Session.{Session, session_add_message, session_rollback_messages}
use primagen.Session.File.{
  SessionFile, Disk, Saved, needs_full, save_full, save_append, session_manager_save,
}
use primagen.Session.Table.{
  SessionManager, find_entry, session_manager_get, update_session, insert_entry, bucket_of,
}
use primagen.Session.Lookup.{
  IsTable, map_some, get-update, get-insert, insert-IsTable, update-IsTable,
}
use primagen.Orchestrator.{ActiveTask, find_task, has_id, session_orchestrator_remove_task}
use primagen.Agent.{
  AgentLoop, World, send, on_session, add_message, save_found, save_session, record_session,
  remove_active_task, maybe_auto_consolidate_memory, consolidate_found, capped, consolidated,
  window_of, roll_back_for,
}
use primagen.Agent.Flow.{View, view}

-- The table stays a table, and no session leaves it.
abbrev pub Keeps : SessionManager → SessionManager → Type 0
Keeps mgr mgr' =
    IsTable mgr
    → IsTable mgr'
      × ((key : Text)
          → is_some (session_manager_get mgr key) ≡ true
          → is_some (session_manager_get mgr' key) ≡ true)

Keeps-trans : (a b c : SessionManager) → Keeps a b → Keeps b c → Keeps a c
Keeps-trans a b c p q t =
    let (tb, kb) = p t in let (tc, kc) = q tb in (tc, λ key h. kc key (kb key h))

Keeps-update :
    (mgr : SessionManager) (key : Text) (f : Session → Session)
    → ((s : Session) → s.key ≡ key → (f s).key ≡ key)
    → Keeps mgr (update_session mgr key f)
Keeps-update mgr key f p t = (
  update-IsTable mgr key f t,
  λ j h. rw (get-update mgr key j f t p) (
      if_elim (λ o. is_some o ≡ true) (text_eq key j) _ _
        (λ e. some_map (session_manager_get mgr key) (rw ((text_eq_iff key j).0 e) h)) (λ _. h)),
)
  where
    some_map : (o : Option Session) → is_some o ≡ true → is_some (map_some f o) ≡ true
    some_map none h = h
    some_map (some s) h = refl

pub Keeps-insert :
    (mgr : SessionManager) (key : Text) (s : Session)
    → s.key ≡ key
    → Keeps mgr (insert_entry mgr key s)
Keeps-insert mgr key s k t = (
  insert-IsTable mgr key s t,
  λ j h.
      rw (get-insert mgr key j s t k)
        (if_elim (λ o. is_some o ≡ true) (text_eq key j) _ _ (λ _. refl) (λ _. h)),
)

find_entry-key :
    (b : List Session) (key : Text) (s : Session) → find_entry b key ≡ some s → s.key ≡ key
unfolding find_entry
find_entry-key [] key s h = ground arith
find_entry-key (u ∷ b) key s h = elim (Bool-cases (text_eq u.key key)) [
  | inl e ↦
      let same : u ≡ s = ground arith in
      ap (λ (v : Session). v.key) (sym same) ∙ (text_eq_iff u.key key).0 e
  | inr e ↦ find_entry-key b key s (ground arith)
]

get-key :
    (mgr : SessionManager) (key : Text) (s : Session)
    → session_manager_get mgr key ≡ some s
    → s.key ≡ key
unfolding session_manager_get
get-key mgr key s h = find_entry-key (bucket_of mgr key) key s h

save-key :
    (disk : Disk) (s : Session) (file : SessionFile)
    → (session_manager_save disk s file).session.key ≡ s.key
unfolding session_manager_save save_full save_append
save-key disk s file =
    if_elim P (needs_full s file) _ _
      (λ _.
        if_elim P disk.opens _ _ (λ _. if_elim P disk.renames _ _ (λ _. refl) (λ _. refl))
          (λ _. refl))
      (λ _. if_elim P disk.opens _ _ (λ _. refl) (λ _. refl))
  where
    P : Saved → Type 0
    P r = r.session.key ≡ s.key

abbrev pub Quiet : AgentLoop → AgentLoop → Type 0
Quiet a b = (view b ≡ view a) × Keeps a.session_mgr b.session_mgr

pub Keeps-refl : (mgr : SessionManager) → Keeps mgr mgr
Keeps-refl mgr t = (t, λ key h. h)

pub Quiet-refl : (a : AgentLoop) → Quiet a a
Quiet-refl a = (refl, Keeps-refl a.session_mgr)

pub Quiet-trans : (a b c : AgentLoop) → Quiet a b → Quiet b c → Quiet a c
Quiet-trans a b c (p, k) (q, l) = (q ∙ p, Keeps-trans a.session_mgr b.session_mgr c.session_mgr k l)

pub send-Quiet : (a : AgentLoop) (msg : OutboundMessage) → Quiet a (send a msg)
send-Quiet a msg = (refl, Keeps-refl a.session_mgr)

on_session-Quiet :
    (a : AgentLoop) (key : Text) (f : Session → Session)
    → ((s : Session) → s.key ≡ key → (f s).key ≡ key)
    → Quiet a (on_session a key f)
on_session-Quiet a key f p = (refl, Keeps-update a.session_mgr key f p)

pub add_message-Quiet :
    (w : World) (a : AgentLoop) (key : Text) (msg : Message) → Quiet a (add_message w a key msg)
add_message-Quiet w a key msg =
    on_session-Quiet a key (λ s. session_add_message s msg w.now)
      (λ s h. unfold session_add_message in h)

save_found-Quiet :
    (w : World) (a : AgentLoop) (key : Text) (found : Option Session)
    → session_manager_get a.session_mgr key ≡ found
    → Quiet a (save_found w a key found)
save_found-Quiet w a key none h = Quiet-refl a
save_found-Quiet w a key (some s) h = (
  refl,
  Keeps-update a.session_mgr key (λ _. (session_manager_save w.disk s (a.files key)).session)
      (λ _ _. save-key w.disk s (a.files key) ∙ get-key a.session_mgr key s h),
)

pub save_session-Quiet : (w : World) (a : AgentLoop) (key : Text) → Quiet a (save_session w a key)
unfolding save_session
save_session-Quiet w a key = save_found-Quiet w a key (session_manager_get a.session_mgr key) refl

pub record_session-Quiet :
    (w : World) (a : AgentLoop) (key : Text) (b : Bool) → Quiet a (record_session w a key b)
record_session-Quiet w a key b =
    if_elim (Quiet a) b _ _ (λ _. Quiet-refl a) (λ _. save_session-Quiet w a key)

-- A message that a handler adds and records.
pub added-Quiet :
    (w : World) (a : AgentLoop) (key : Text) (msg : Message) (b : Bool)
    → Quiet a (record_session w (add_message w a key msg) key b)
added-Quiet w a key msg b =
    let c = add_message w a key msg in
    Quiet-trans a c (record_session w c key b) (add_message-Quiet w a key msg)
      (record_session-Quiet w c key b)

rollback-key : (s : Session) (n now : ℕ) → (session_rollback_messages s n now).key ≡ s.key
unfolding session_rollback_messages
rollback-key s n now = ground arith

-- The rollback of a removed task.
pub roll_back_for-Quiet :
    (w : World) (a : AgentLoop) (found : Option ActiveTask) → Quiet a (roll_back_for w a found)
roll_back_for-Quiet w a none = Quiet-refl a
roll_back_for-Quiet w a (some t) =
    if_elim (Quiet a) (t.no_session_record && ltb 0 (length t.session_key)) _ _
      (λ _.
        on_session-Quiet a t.session_key
          (λ s. session_rollback_messages s t.session_msg_count_before w.now)
          (λ s h. rollback-key s t.session_msg_count_before w.now ∙ h))
      (λ _. Quiet-refl a)

consolidate_found-Quiet :
    (w : World) (a : AgentLoop) (key : Text) (found : Option Session)
    → Quiet a (consolidate_found w a key found)
consolidate_found-Quiet w a key none = Quiet-refl a
consolidate_found-Quiet w a key (some s) =
    let b = on_session a key capped in
    let c = on_session b key consolidated in
    let ab : Quiet a b = on_session-Quiet a key capped (λ _ h. h) in
    if_elim (Quiet a) (ltb (length s.messages - (capped s).last_consolidated) (window_of a)) _ _
      (λ _. ab)
      (λ _.
        if_elim (Quiet a) (w.memory_appends && w.memory_consolidates) _ _
          (λ _. Quiet-trans a b (save_session w c key) ab (
            Quiet-trans b c (save_session w c key) (on_session-Quiet b key consolidated (λ _ h. h))
              (save_session-Quiet w c key)))
          (λ _. ab))

pub consolidate-Quiet :
    (w : World) (a : AgentLoop) (key : Text) → Quiet a (maybe_auto_consolidate_memory w a key)
unfolding maybe_auto_consolidate_memory
consolidate-Quiet w a key = consolidate_found-Quiet w a key (session_manager_get a.session_mgr key)

-- A removed task: its session may be rolled back, and the rest of the tasks stays.
pub remove_active_task-view :
    (w : World) (a : AgentLoop) (task_id : Text)
    → let b = remove_active_task w a task_id in
      (view b ≡ (
        session_orchestrator_remove_task a.session_orchestrator task_id,
        a.llm_calls,
        a.tool_runs,
        a.max_tool_iterations,
      ))
      × Keeps a.session_mgr b.session_mgr
unfolding remove_active_task
remove_active_task-view w a task_id =
    let found = find_task (has_id task_id) a.session_orchestrator.active_tasks in
    let (v, k) = roll_back_for-Quiet w a found in
    (ap (λ (x : View). (session_orchestrator_remove_task x.0 task_id, x.1, x.2, x.3)) v, k)
