-- ===== src/Session/Recovery.antt =====
-- Saving a session of src/session/session.c and loading it again.
use mathlib.Core.Path.{subst}
use primagen.Base.{
  ℕ, ◌≡◌, refl, sym, ap, Bool, true, false, List, [], ◌∷◌, none, some, if_elim, if◌then◌else◌, ltb,
  ◌<◌, ◌++◌, ◌∙◌, arith, length, Text,
}
use primagen.Messages.{Message, is_error}
use primagen.Session.{Session, new_session, session_add_message}
use primagen.Session.File.{
  serialize_metadata_to_fp, SessionFile, Disk, Saved, needs_full, save_full, session_manager_save,
  load_line, load_lines, session_manager_load, Line, fits, serialize_message_to_fp,
}
use primagen.Session.Reading.{AllPlain, short_ones, transcript, load_line-serialize, load_lines_lem}
use primagen.Session.Persist.{IsSynced, Complete, session_manager_save-Kept}

load-Complete :
    (line_bytes : Line → ℕ) (s : Session) (file : SessionFile) (key : Text) (now : ℕ)
    → AllPlain s.messages
    → Complete s file
    → let r = session_manager_load line_bytes file key now in
      (r.messages ≡ short_ones line_bytes s.messages)
      × (r.last_saved_count ≡ length (short_ones line_bytes s.messages))
      × (r.needs_full_save ≡ false)
unfolding session_manager_load new_session
load-Complete line_bytes s none key now p c = absurd c
load-Complete line_bytes s (some ls) key now p c =
    let e : (load_lines line_bytes (new_session key now, false) ls now).0.messages
        ≡ short_ones line_bytes s.messages =
      load_lines_lem line_bytes (new_session key now) false ls s.messages now p c in
    (e, ap length e, refl)

-- A session in step with its file, whose messages are such as the program makes, is saved without an error
-- on a disk where all that is written reaches the file. A load then brings back, in order, exactly the
-- messages whose lines have fewer than 4096 bytes; the others are lost without an error. Those that come back
-- are counted as saved, and no full save is asked for.
pub load-save_short :
    (line_bytes : Line → ℕ) (disk : Disk) (s : Session) (file : SessionFile) (key : Text) (now : ℕ)
    → IsSynced s file
    → AllPlain s.messages
    → ((old new : List Line) → disk.written old new ≡ old ++ new)
    → is_error (session_manager_save disk s file).error ≡ false
    → let r = session_manager_load line_bytes (session_manager_save disk s file).file key now in
      (r.messages ≡ short_ones line_bytes s.messages)
      × (r.last_saved_count ≡ length (short_ones line_bytes s.messages))
      × (r.needs_full_save ≡ false)
load-save_short line_bytes disk s file key now h p writes ok =
    load-Complete line_bytes s (session_manager_save disk s file).file key now p
      (session_manager_save-Kept disk s file h writes ok).0

-- The line of each message fits the buffer of the load.
abbrev pub AllFit : (Line → ℕ) → List Message → Type 0
AllFit line_bytes [] = Unit
AllFit line_bytes (m ∷ ms) = (line_bytes (serialize_message_to_fp m) < 4096) × AllFit line_bytes ms

short_ones-AllFit :
    (line_bytes : Line → ℕ) (ms : List Message)
    → AllFit line_bytes ms
    → short_ones line_bytes ms ≡ ms
short_ones-AllFit line_bytes [] f = refl
short_ones-AllFit line_bytes (m ∷ ms) (f, fs) =
    let fit : ltb (line_bytes (serialize_message_to_fp m)) 4096 ≡ true = ground arith in
    rw fit (ap (◌∷◌ m) (short_ones-AllFit line_bytes ms fs))

-- A session in step with its file, whose messages are such as the program makes and have lines of fewer than
-- 4096 bytes, that is saved without an error on a disk where all that is written reaches the file, is loaded
-- with the same messages in the same order, all of them counted as saved, so that the next save appends.
pub load-save :
    (line_bytes : Line → ℕ) (disk : Disk) (s : Session) (file : SessionFile) (key : Text) (now : ℕ)
    → IsSynced s file
    → AllPlain s.messages
    → AllFit line_bytes s.messages
    → ((old new : List Line) → disk.written old new ≡ old ++ new)
    → is_error (session_manager_save disk s file).error ≡ false
    → let r = session_manager_load line_bytes (session_manager_save disk s file).file key now in
      (r.messages ≡ s.messages)
      × (r.last_saved_count ≡ length s.messages)
      × (r.needs_full_save ≡ false)
load-save line_bytes disk s file key now h p fit writes ok =
    let (same, count, full) = load-save_short line_bytes disk s file key now h p writes ok in
    let all = short_ones-AllFit line_bytes s.messages fit in
    (same ∙ all, count ∙ ap length all, full)

-- The part of a session that only metadata changes.
abbrev pub SameMeta : Session → Session → Type 0
SameMeta r s = (r.last_consolidated ≡ s.last_consolidated) × (r.created_at ≡ s.created_at)

SameMeta-add :
    (b : Bool) (s : Session) (m : Message) (now : ℕ)
    → SameMeta (if b then session_add_message s m now else s) s
unfolding session_add_message
SameMeta-add true s m now = (refl, refl)
SameMeta-add false s m now = (refl, refl)

load_transcript :
    (line_bytes : Line → ℕ) (s : Session) (loaded : Bool) (ms : List Message) (now : ℕ)
    → AllPlain ms
    → let r = load_lines line_bytes (s, loaded) (transcript ms) now in
      SameMeta r.0 s × (r.1 ≡ loaded)
unfolding load_lines
load_transcript line_bytes s loaded [] now p = ((refl, refl), refl)
load_transcript line_bytes s loaded (m ∷ ms) now (p, ps) =
    let s' =
      if fits line_bytes (serialize_message_to_fp m) then session_add_message s m now else s in
    let (meta, flag) = load_transcript line_bytes s' loaded ms now ps in
    let (c, d) = SameMeta-add (fits line_bytes (serialize_message_to_fp m)) s m now in
    subst
      (λ st.
        SameMeta (load_lines line_bytes st (transcript ms) now).0 s
        × ((load_lines line_bytes st (transcript ms) now).1 ≡ loaded))
      (sym (load_line-serialize line_bytes s loaded m now p)) ((meta.0 ∙ c, meta.1 ∙ d), flag)

-- Where the save rewrites the whole file, the file opens, all that is written reaches it, and it is renamed,
-- the consolidation cursor and the time of creation come back from a load, for messages such as the
-- program makes, whatever the lengths of their lines.
pub load-save_full :
    (line_bytes : Line → ℕ) (disk : Disk) (s : Session) (file : SessionFile) (key : Text) (now : ℕ)
    → AllPlain s.messages
    → needs_full s file ≡ true
    → disk.opens ≡ true
    → ((old new : List Line) → disk.written old new ≡ old ++ new)
    → disk.renames ≡ true
    → SameMeta (session_manager_load line_bytes (session_manager_save disk s file).file key now) s
unfolding session_manager_save session_manager_load save_full load_lines load_line
    serialize_metadata_to_fp
load-save_full line_bytes disk s file key now p full opens writes renames =
    if_elim Good (needs_full s file) _ _
      (λ _.
        if_elim Good disk.opens _ _
          (λ _.
            if_elim Good disk.renames _ _
              (λ _.
                rw
                  (writes []
                    (serialize_metadata_to_fp s (length s.messages) ∷ transcript s.messages))
                  (rw loaded.1 loaded.0))
              (λ e. absurd (clash renames e)))
          (λ e. absurd (clash opens e)))
      (λ e. absurd (clash full e))
  where
    started : Session
    started = record (new_session key now) {
      last_consolidated = s.last_consolidated;
      created_at = s.created_at;
      updated_at = s.updated_at;
    }

    loaded :
        let r = load_lines line_bytes (started, true) (transcript s.messages) now in
        SameMeta r.0 started × (r.1 ≡ true)
    loaded = load_transcript line_bytes started true s.messages now p

    Good : Saved → Type 0
    Good r = SameMeta (session_manager_load line_bytes r.file key now) s

    clash : {b : Bool} → b ≡ true → b ≡ false → ⊥
    clash p q = cc
