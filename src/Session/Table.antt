-- ===== src/Session/Table.antt =====
-- The table of sessions of src/session/session.c: 64 buckets, the newest session of a bucket first.
-- The locks are not modelled: each function is one step. `time` is the answer of `time(NULL)`.
use primagen.Base.{
  ℕ, ◌+◌, ◌*◌, ◌%◌, ◌^◌, List, [], ◌∷◌, Option, none, some, if◌then◌else◌, get_or, set, replicate,
  Text, text_eq,
}
use primagen.Session.{Session, new_session}
use primagen.Session.File.{Line, SessionFile, session_manager_load}

abbrev pub session_hashtable_buckets : ℕ
session_hashtable_buckets = 64

-- `uint32_t`
abbrev u32 : ℕ → ℕ
u32 n = n % 2 ^ 32

unfoldable pub hash_from : ℕ → Text → ℕ
hash_from hash [] = hash
hash_from hash (c ∷ cs) = hash_from (u32 (u32 (u32 (hash * 2 ^ 5) + hash) + c)) cs

unfoldable pub session_key_hash_fast : Text → ℕ
unfolding hash_from
session_key_hash_fast key = hash_from 5381 key % session_hashtable_buckets

pub record SessionManager : Type 0 where
  pub buckets : List (List Session)
  pub count : ℕ

abbrev pub bucket_of : SessionManager → Text → List Session
bucket_of mgr key = get_or mgr.buckets (session_key_hash_fast key) []

unfoldable pub session_manager_new : SessionManager
session_manager_new = record { buckets = replicate session_hashtable_buckets []; count = 0 }

-- The walk along a bucket.
unfoldable pub find_entry : List Session → Text → Option Session
find_entry [] key = none
find_entry (s ∷ entries) key = if text_eq s.key key then some s else find_entry entries key

unfoldable pub session_manager_get : SessionManager → Text → Option Session
unfolding find_entry
session_manager_get mgr key = find_entry (bucket_of mgr key) key

-- A session, new or loaded, at the head of its bucket.
unfoldable pub insert_entry : SessionManager → Text → Session → SessionManager
insert_entry mgr key s = record mgr {
  buckets = set mgr.buckets (session_key_hash_fast key) (s ∷ bucket_of mgr key);
  count = mgr.count + 1;
}

unfoldable pub session_manager_create : SessionManager → Text → ℕ → SessionManager
session_manager_create mgr key time = insert_entry mgr key (new_session key time)

-- `session_manager_load` creates the session and then fills it.
unfoldable pub session_manager_load_into :
    (Line → ℕ) → SessionManager → SessionFile → Text → ℕ → SessionManager
session_manager_load_into line_bytes mgr file key time =
    insert_entry mgr key (session_manager_load line_bytes file key time)

-- What a client writes through the pointer that `session_manager_get` gave it.
unfoldable pub update_entry : List Session → Text → (Session → Session) → List Session
update_entry [] key f = []
update_entry (s ∷ entries) key f =
    if text_eq s.key key then f s ∷ entries else s ∷ update_entry entries key f

unfoldable pub update_session : SessionManager → Text → (Session → Session) → SessionManager
unfolding update_entry
update_session mgr key f = record mgr {
  buckets = set mgr.buckets (session_key_hash_fast key) (update_entry (bucket_of mgr key) key f);
}
