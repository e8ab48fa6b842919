-- ===== src/Session/Persist.antt =====
-- What the file of src/session/session.c keeps of a session.
use mathlib.Core.List.{map-append}
use primagen.Base.{
  ◌≤◌, ◌≡◌, refl, sym, ap, ◌∙◌, ◌⊎◌, inl, inr, true, false, List, [], ◌∷◌, ◌++◌, append-nil, none,
  some, arith, if_elim, length, take, drop, take-append-drop, take_all,
}
use primagen.Messages.{Message, error_new, is_error}
use primagen.Session.{Session}
use primagen.Session.File.{
  Line, metadata, message, serialize_message_to_fp, serialize_metadata_to_fp, SessionFile, Disk,
  Saved, needs_full, save_full, save_append, session_manager_save, write_lines,
}
use primagen.Session.Reading.{body, transcript}

-- The file has the messages that the session counts as saved, unless the next save rewrites it.
abbrev pub IsSynced : Session → SessionFile → Type 0
IsSynced s none = Unit
IsSynced s (some ls) =
    (s.needs_full_save ≡ true)
    ⊎ ((s.last_saved_count ≤ length s.messages)
        × (body ls ≡ transcript (take s.last_saved_count s.messages)))

abbrev pub Complete : Session → SessionFile → Type 0
Complete s none = ⊥
Complete s (some ls) = body ls ≡ transcript s.messages

body-append : (ls ks : List Line) → body (ls ++ ks) ≡ body ls ++ body ks
body-append [] ks = refl
body-append (metadata m ∷ ls) ks = body-append ls ks
body-append (message l ∷ ls) ks = ap (◌∷◌ (message l)) (body-append ls ks)

body-transcript : (ms : List Message) → body (transcript ms) ≡ transcript ms
unfolding serialize_message_to_fp
body-transcript [] = refl
body-transcript (m ∷ ms) = ap (◌∷◌ (serialize_message_to_fp m)) (body-transcript ms)

-- All lines that are written reach the file, behind those that it has.
abbrev pub Writes : Disk → Type 0
Writes disk = (old new : List Line) → disk.written old new ≡ old ++ new

write_lines_eq :
    (disk : Disk) (old new : List Line) → Writes disk → write_lines disk old new ≡ old ++ new
write_lines_eq disk old [] w = sym (append-nil old)
write_lines_eq disk old (l ∷ ls) w = w old (l ∷ ls)

-- What a save without an error has done.
abbrev Kept : Session → Saved → Type 0
Kept s r =
    is_error r.error ≡ false
    → Complete s r.file × (r.session.messages ≡ s.messages) × IsSynced r.session r.file

take-length : (ms : List Message) → take (length ms) ms ≡ ms
take-length ms = take_all (length ms) ms (omega arith)

save_full-Kept :
    (disk : Disk) (s : Session) (file : SessionFile) → Writes disk → Kept s (save_full disk s file)
unfolding save_full serialize_metadata_to_fp error_new
save_full-Kept disk s file w =
    if_elim (Kept s) disk.opens _ _
      (λ _.
        if_elim (Kept s) disk.renames _ _
          (λ _ ok.
            (whole, refl, inr (omega arith, whole ∙ ap transcript (sym (take-length s.messages)))))
          (λ _ ok. cc))
      (λ _ ok. cc)
  where
    whole :
        body (
          write_lines disk []
            (serialize_metadata_to_fp s (length s.messages) ∷ transcript s.messages))
        ≡ transcript s.messages
    whole =
        ap body (
          write_lines_eq disk []
            (serialize_metadata_to_fp s (length s.messages) ∷ transcript s.messages) w)
        ∙ body-transcript s.messages

save_append-Kept :
    (disk : Disk) (s : Session) (ls : List Line)
    → Writes disk
    → s.last_saved_count ≤ length s.messages
    → body ls ≡ transcript (take s.last_saved_count s.messages)
    → Kept s (save_append disk s (some ls))
unfolding save_append error_new
save_append-Kept disk s ls w small e =
    if_elim (Kept s) disk.opens _ _
      (λ _ ok.
        (whole, refl, inr (omega arith, whole ∙ ap transcript (sym (take-length s.messages)))))
      (λ _ ok. cc)
  where
    new : List Message
    new = drop s.last_saved_count s.messages

    whole : body (write_lines disk ls (transcript new)) ≡ transcript s.messages
    whole =
        ap body (write_lines_eq disk ls (transcript new) w)
        ∙ body-append ls (transcript new)
        ∙ rw (e, body-transcript new)
            (sym (map-append serialize_message_to_fp (take s.last_saved_count s.messages) new)
              ∙ ap transcript (take-append-drop s.last_saved_count s.messages))

needs_full-none : (s : Session) → needs_full s none ≡ true
needs_full-none s = ground arith

pub never_appends :
    (s : Session) (ls : List Line) → s.needs_full_save ≡ true → needs_full s (some ls) ≡ false → ⊥
never_appends s ls h e = ground arith

-- Of a session in step with its file, a save that reports no error, on a disk where all that is written
-- reaches the file, leaves exactly the messages of the session in the file, in order; the session keeps its
-- messages, and is in step with the file again.
pub session_manager_save-Kept :
    (disk : Disk) (s : Session) (file : SessionFile)
    → IsSynced s file
    → ((old new : List Line) → disk.written old new ≡ old ++ new)
    → is_error (session_manager_save disk s file).error ≡ false
    → let r = session_manager_save disk s file in
      Complete s r.file × (r.session.messages ≡ s.messages) × IsSynced r.session r.file
unfolding session_manager_save
session_manager_save-Kept disk s none h w = rw (needs_full-none s) (save_full-Kept disk s none w)
session_manager_save-Kept disk s (some ls) (inl h) w =
    if_elim (Kept s) (needs_full s (some ls)) _ _ (λ _. save_full-Kept disk s (some ls) w)
      (λ e. absurd (never_appends s ls h e))
session_manager_save-Kept disk s (some ls) (inr (small, e)) w =
    if_elim (Kept s) (needs_full s (some ls)) _ _ (λ _. save_full-Kept disk s (some ls) w)
      (λ _. save_append-Kept disk s ls w small e)
