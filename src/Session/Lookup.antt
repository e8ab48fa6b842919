-- ===== src/Session/Lookup.antt =====
-- The table of src/session/session.c as a map from keys to sessions.
use native.Mathlib.Nat.{mod-lt}
use primagen.Base.{
  ℕ, ◌<◌, ◌≡◌, ◌≢◌, refl, ap, ◌∙◌, Bool, true, false, List, [], ◌∷◌, Option, none, some, arith,
  ◌==◌, ==_iff, if◌then◌else◌, if_elim, get_or, set, length, length-set, get_or-set_self,
  get_or-set_ne, Text, text_eq, text_eq_iff, Bool-cases, inl, inr,
}
use primagen.Session.{Session, new_session, session_add_message}
use primagen.Session.File.{
  SessionFile, session_manager_load, Line, metadata, message, MessageLine, ContentItem, string,
  null, absent, add_line, load_line, load_lines, fits,
}
use primagen.Session.Table.{
  session_hashtable_buckets, hash_from, session_key_hash_fast, SessionManager, bucket_of,
  session_manager_new, find_entry, session_manager_get, insert_entry, session_manager_create,
  update_entry, update_session,
}

-- The table has its 64 buckets.
abbrev pub IsTable : SessionManager → Type 0
IsTable mgr = length mgr.buckets ≡ session_hashtable_buckets

hash-lt : (key : Text) → session_key_hash_fast key < 64
unfolding session_key_hash_fast
hash-lt key = mod-lt (hash_from 5381 key) {m = 64} (omega arith)

pub session_manager_new-IsTable : IsTable session_manager_new
unfolding session_manager_new
session_manager_new-IsTable = refl

bucket-set :
    (bs : List (List Session)) (n m : ℕ) (b : List Session)
    → n < length bs
    → get_or (set bs n b) m [] ≡ (if n == m then b else get_or bs m [])
bucket-set bs n m b h = elim (Bool-cases (n == m)) [
  | inl e ↦ let same : n ≡ m = (==_iff n m).0 e in rw (e, ← same) (get_or-set_self bs n b [] h)
  | inr e ↦ rw e (get_or-set_ne bs n m b [] (λ same. ground arith))
]

find_entry-hit :
    (s : Session) (b : List Session) (j : Text)
    → text_eq s.key j ≡ true
    → find_entry (s ∷ b) j ≡ some s
unfolding find_entry
find_entry-hit s b j h = rw h

find_entry-miss :
    (s : Session) (b : List Session) (j : Text)
    → text_eq s.key j ≡ false
    → find_entry (s ∷ b) j ≡ find_entry b j
unfolding find_entry
find_entry-miss s b j h = rw h

same_bucket : (n m : ℕ) (P : Bool → Type 0) → n ≡ m → P true → P (n == m)
same_bucket n m P e p = rw ((==_iff n m).1 e) p

-- Putting a session in the table under its key makes it the session of that key and of no other.
pub get-insert :
    (mgr : SessionManager) (key j : Text) (s : Session)
    → IsTable mgr
    → s.key ≡ key
    → session_manager_get (insert_entry mgr key s) j
      ≡ (if text_eq key j then some s else session_manager_get mgr j)
unfolding session_manager_get insert_entry
get-insert mgr key j s t k =
    let n = session_key_hash_fast key in
    rw
      (bucket-set mgr.buckets n (session_key_hash_fast j) (s ∷ bucket_of mgr key)
        (omega (arith, hash-lt key)))
      (if_elim
        (λ o.
          find_entry
            (if n == session_key_hash_fast j then s ∷ bucket_of mgr key else bucket_of mgr j) j
          ≡ o)
        (text_eq key j) _ _
        (λ e.
          let same : key ≡ j = (text_eq_iff key j).0 e in
          same_bucket n (session_key_hash_fast j)
            (λ b. find_entry (if b then s ∷ bucket_of mgr key else bucket_of mgr j) j ≡ some s)
            (ap session_key_hash_fast same) (find_entry-hit s (bucket_of mgr key) j (rw k e)))
        (λ e.
          if_elim (λ b. find_entry b j ≡ find_entry (bucket_of mgr j) j)
            (n == session_key_hash_fast j) _ _
            (λ h.
              find_entry-miss s (bucket_of mgr key) j (rw k e)
              ∙ ap (λ m. find_entry (get_or mgr.buckets m []) j)
                  ((==_iff n (session_key_hash_fast j)).0 h))
            (λ _. refl)))

-- In a table with all its buckets, `session_manager_create` replaces the session of its key and
-- leaves every other session as it was, also where two keys share a bucket.
pub get-create :
    (mgr : SessionManager) (key j : Text) (time : ℕ)
    → IsTable mgr
    → session_manager_get (session_manager_create mgr key time) j
      ≡ (if text_eq key j then some (new_session key time) else session_manager_get mgr j)
unfolding session_manager_create
get-create mgr key j time t =
    get-insert mgr key j (new_session key time) t (unfold new_session in refl)

pub insert-IsTable :
    (mgr : SessionManager) (key : Text) (s : Session)
    → IsTable mgr
    → IsTable (insert_entry mgr key s)
unfolding insert_entry
insert-IsTable mgr key s t =
    length-set mgr.buckets (session_key_hash_fast key) (s ∷ bucket_of mgr key) ∙ t

abbrev pub map_some : (Session → Session) → Option Session → Option Session
map_some f none = none
map_some f (some s) = some (f s)

find_entry-update :
    (b : List Session) (key j : Text) (f : Session → Session)
    → ((s : Session) → s.key ≡ key → (f s).key ≡ key)
    → find_entry (update_entry b key f) j
      ≡ (if text_eq key j then map_some f (find_entry b key) else find_entry b j)
unfolding find_entry update_entry
find_entry-update [] key j f h = ground arith
find_entry-update (s ∷ b) key j f h = ground (
  arith,
  h s,
  text_eq_iff s.key key,
  text_eq_iff key j,
  text_eq_iff s.key j,
  text_eq_iff (f s).key j,
  find_entry-update b key j f h,
)

other_bucket :
    (key j : Text) → (session_key_hash_fast key == session_key_hash_fast j) ≡ false → key ≢ j
other_bucket key j e same =
    let hashes : session_key_hash_fast key ≡ session_key_hash_fast j =
      ap session_key_hash_fast same in
    ground arith

-- In a table with all its buckets, a write through a session pointer that keeps the session's key
-- is seen at its key and nowhere else.
pub get-update :
    (mgr : SessionManager) (key j : Text) (f : Session → Session)
    → IsTable mgr
    → ((s : Session) → s.key ≡ key → (f s).key ≡ key)
    → session_manager_get (update_session mgr key f) j ≡ (
        if text_eq key j
        then map_some f (session_manager_get mgr key)
        else session_manager_get mgr j)
unfolding session_manager_get update_session
get-update mgr key j f t h =
    let n = session_key_hash_fast key in
    let b = update_entry (bucket_of mgr key) key f in
    let found = find_entry-update (bucket_of mgr key) key j f h in
    rw (bucket-set mgr.buckets n (session_key_hash_fast j) b (omega (arith, hash-lt key))) (
      if_elim
        (λ c. find_entry c j ≡ (
          if text_eq key j
          then map_some f (find_entry (bucket_of mgr key) key)
          else find_entry (bucket_of mgr j) j))
        (n == session_key_hash_fast j) _ _
        (λ e.
          let same : n ≡ session_key_hash_fast j = (==_iff n (session_key_hash_fast j)).0 e in
          rw (← same) found)
        (λ e.
          if_elim (λ o. find_entry (bucket_of mgr j) j ≡ o) (text_eq key j) _ _
            (λ k. absurd (other_bucket key j e ((text_eq_iff key j).0 k))) (λ _. refl)))

pub update-IsTable :
    (mgr : SessionManager) (key : Text) (f : Session → Session)
    → IsTable mgr
    → IsTable (update_session mgr key f)
unfolding update_session
update-IsTable mgr key f t =
    length-set mgr.buckets (session_key_hash_fast key) (update_entry (bucket_of mgr key) key f) ∙ t

add_line-key :
    (s : Session) (role : Option Text) (content : ContentItem) (l : MessageLine) (now : ℕ)
    → (add_line s role content l now).key ≡ s.key
unfolding session_add_message
add_line-key s none content l now = refl
add_line-key s (some r) (string c) l now = refl
add_line-key s (some r) null l now = refl
add_line-key s (some r) absent l now = refl

load_lines-key :
    (line_bytes : Line → ℕ) (st : Session × Bool) (ls : List Line) (now : ℕ)
    → (load_lines line_bytes st ls now).0.key ≡ st.0.key
unfolding load_lines load_line session_add_message
load_lines-key line_bytes st [] now = refl
load_lines-key line_bytes (s, b) (metadata m ∷ ls) now =
    load_lines-key line_bytes (load_line line_bytes (s, b) (metadata m) now) ls now
load_lines-key line_bytes (s, b) (message l ∷ ls) now =
    load_lines-key line_bytes (load_line line_bytes (s, b) (message l) now) ls now
    ∙ if_elim (λ (r : Session). r.key ≡ s.key) (fits line_bytes (message l)) _ _
        (λ _. add_line-key s l.role l.content l now) (λ _. refl)

-- A loaded session has the key that it was asked for, whatever stands in its file.
pub session_manager_load-key :
    (line_bytes : Line → ℕ) (file : SessionFile) (key : Text) (now : ℕ)
    → (session_manager_load line_bytes file key now).key ≡ key
unfolding session_manager_load new_session
session_manager_load-key line_bytes none key now = refl
session_manager_load-key line_bytes (some ls) key now =
    load_lines-key line_bytes (new_session key now, false) ls now
