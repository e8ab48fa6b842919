-- ===== src/Session/Rollback.antt =====
-- `session_rollback_messages` of src/session/session.c and the file of the session.
use primagen.Base.{
  ℕ, zero, suc, ◌≤◌, ◌<◌, ◌≡◌, ◌≢◌, refl, sym, ap, ◌∙◌, inl, inr, Bool, true, false, List, [], ◌∷◌,
  none, some, leb, arith, if_elim, length, length-map, take, drop, drop_all, length-take, take_all,
}
use primagen.Messages.{Message, is_error, error_new}
use primagen.Session.{Session, session_rollback_messages, cap_to}
use primagen.Session.File.{
  Line, serialize_message_to_fp, SessionFile, Disk, Saved, needs_full, save_full, save_append,
  session_manager_save, write_lines,
}
use primagen.Session.Reading.{body, transcript}
use primagen.Session.Persist.{IsSynced, never_appends}

take-take : (k n : ℕ) (ms : List Message) → k ≤ n → take k (take n ms) ≡ take k ms
take-take zero n ms h = refl
take-take (suc k) zero ms h = elim h [ ]
take-take (suc k) (suc n) [] h = refl
take-take (suc k) (suc n) (m ∷ ms) h = ap (◌∷◌ m) (take-take k n ms (omega arith))

-- Of a session whose counts of saved and of consolidated messages are within its messages, a
-- rollback keeps the first `to_count` messages, or all if there are no more, and keeps both
-- counts within them.
pub session_rollback_messages_lem :
    (s : Session) (to_count now : ℕ)
    → s.last_saved_count ≤ length s.messages
    → s.last_consolidated ≤ length s.messages
    → let r = session_rollback_messages s to_count now in
      (r.messages ≡ take to_count s.messages)
      × (r.last_saved_count ≤ length r.messages)
      × (r.last_consolidated ≤ length r.messages)
unfolding session_rollback_messages
session_rollback_messages_lem s to_count now h k =
    if_elim
      (λ (r : Session).
        (r.messages ≡ take to_count s.messages)
        × (r.last_saved_count ≤ length r.messages)
        × (r.last_consolidated ≤ length r.messages))
      (leb (length s.messages) to_count) _ _
      (λ e. (sym (take_all to_count s.messages (ground arith)), h, k))
      (λ e. (
        refl,
        ground (arith, length-take to_count s.messages),
        ground (arith, length-take to_count s.messages),
      ))

-- A rollback to a point that was not saved yet leaves the session in step with its file.
pub rollback-IsSynced :
    (s : Session) (file : SessionFile) (to_count now : ℕ)
    → IsSynced s file
    → s.last_saved_count ≤ to_count
    → IsSynced (session_rollback_messages s to_count now) file
unfolding session_rollback_messages
rollback-IsSynced s none to_count now h small = tt
rollback-IsSynced s (some ls) to_count now h small =
    if_elim (λ r. IsSynced r (some ls)) (leb (length s.messages) to_count) _ _ (λ e. h)
      (λ e. elim h [
        | inl full ↦ inl full
        | inr (a, b) ↦
            let c : cap_to to_count s.last_saved_count ≡ s.last_saved_count = ground arith in
            inr (
              ground (arith, length-take to_count s.messages),
              rw (c, take-take s.last_saved_count to_count s.messages small) b,
            )
      ])

-- The session after a rollback to below what was saved.
abbrev cut : Session → ℕ → ℕ → Session
cut s to_count now = record s {
  messages = take to_count s.messages;
  last_saved_count = to_count;
  last_consolidated = cap_to to_count s.last_consolidated;
  updated_at = now;
}

rollback_eq :
    (s : Session) (to_count now : ℕ)
    → s.last_saved_count ≤ length s.messages
    → to_count < s.last_saved_count
    → session_rollback_messages s to_count now ≡ cut s to_count now
unfolding session_rollback_messages
rollback_eq s to_count now h below =
    let e : leb (length s.messages) to_count ≡ false = ground arith in
    let c : cap_to to_count s.last_saved_count ≡ to_count = ground arith in simp (e, c)

clash : {b : Bool} → b ≡ true → b ≡ false → ⊥
clash p q = cc

-- A session that counts all its messages as saved.
saves_nothing :
    (disk : Disk) (t : Session) (ls : List Line)
    → t.needs_full_save ≡ false
    → t.last_saved_count ≡ length t.messages
    → disk.opens ≡ true
    → let r = session_manager_save disk t (some ls) in
      (is_error r.error ≡ false) × (r.file ≡ some ls) × (r.session.messages ≡ t.messages)
unfolding session_manager_save save_append
saves_nothing disk t ls clean all opens =
    let full : needs_full t (some ls) ≡ false = ground arith in
    let none_new : drop t.last_saved_count t.messages ≡ [] =
      drop_all t.last_saved_count t.messages (omega arith) in
    if_elim Good (needs_full t (some ls)) _ _ (λ f. absurd (clash f full))
      (λ _.
        if_elim Good disk.opens _ _
          (λ _. (refl, ap some (ap (λ ms. write_lines disk ls (transcript ms)) none_new), refl))
          (λ o. absurd (clash opens o)))
  where
    Good : Saved → Type 0
    Good r = (is_error r.error ≡ false) × (r.file ≡ some ls) × (r.session.messages ≡ t.messages)

longer :
    (s : Session) (to_count : ℕ)
    → s.last_saved_count ≤ length s.messages
    → to_count < s.last_saved_count
    → transcript (take s.last_saved_count s.messages) ≢ transcript (take to_count s.messages)
longer s to_count h below e = absurd (
    omega (
      arith,
      ap length e,
      length-map serialize_message_to_fp (take s.last_saved_count s.messages),
      length-map serialize_message_to_fp (take to_count s.messages),
      length-take s.last_saved_count s.messages h,
      length-take to_count s.messages (omega arith),
    ))

-- A rollback to below the saved count leaves no mark for the next save: from a session in step
-- with its file that needs no full save, that save, where the file opens, reports success, writes
-- nothing, and the file keeps the messages that were rolled back.
pub rollback_resurrects :
    (disk : Disk) (s : Session) (ls : List Line) (to_count now : ℕ)
    → s.needs_full_save ≡ false
    → s.last_saved_count ≤ length s.messages
    → body ls ≡ transcript (take s.last_saved_count s.messages)
    → to_count < s.last_saved_count
    → disk.opens ≡ true
    → let r = session_manager_save disk (session_rollback_messages s to_count now) (some ls) in
      (is_error r.error ≡ false)
      × (r.session.messages ≡ take to_count s.messages)
      × (r.file ≡ some ls)
      × (body ls ≢ transcript r.session.messages)
rollback_resurrects disk s ls to_count now clean h e below opens =
    let (ok, file, ms) =
      saves_nothing disk (cut s to_count now) ls clean
        (sym (length-take to_count s.messages (omega arith))) opens in
    rw (rollback_eq s to_count now h below)
      (ok, ms, file, λ same. longer s to_count h below (sym e ∙ same ∙ ap transcript ms))

abbrev counted : Session → Session
counted s = record s { last_saved_count = length s.messages; needs_full_save = false }

failed_rename :
    (failing : Disk) (s : Session) (ls : List Line)
    → s.needs_full_save ≡ true
    → failing.opens ≡ true
    → failing.renames ≡ false
    → let r = session_manager_save failing s (some ls) in
      (r.session ≡ counted s) × (r.file ≡ some ls) × (is_error r.error ≡ true)
unfolding session_manager_save save_full error_new
failed_rename failing s ls full fo fr =
    if_elim Good (needs_full s (some ls)) _ _
      (λ _.
        if_elim Good failing.opens _ _
          (λ _.
            if_elim Good failing.renames _ _ (λ r. absurd (clash r fr)) (λ _. (refl, refl, refl)))
          (λ o. absurd (clash fo o)))
      (λ f. absurd (never_appends s ls full f))
  where
    Good : Saved → Type 0
    Good r = (r.session ≡ counted s) × (r.file ≡ some ls) × (is_error r.error ≡ true)

-- Of a session that needs a full save and has a file, a rewrite whose rename fails is forgotten:
-- the session counts its messages as saved, and the next save reports success and leaves the old
-- file, whatever messages that lacks.
pub failed_rename_forgotten :
    (failing disk : Disk) (s : Session) (ls : List Line)
    → s.needs_full_save ≡ true
    → failing.opens ≡ true
    → failing.renames ≡ false
    → disk.opens ≡ true
    → let first = session_manager_save failing s (some ls) in
      let second = session_manager_save disk first.session first.file in
      (is_error first.error ≡ true)
      × (is_error second.error ≡ false)
      × (second.session.messages ≡ s.messages)
      × (second.file ≡ some ls)
failed_rename_forgotten failing disk s ls full fo fr opens =
    let (counts, kept, fails) = failed_rename failing s ls full fo fr in
    let (ok, same, ms) = saves_nothing disk (counted s) ls refl refl opens in
    rw (counts, kept) (fails, ok, ms, same)
