-- ===== src/Orchestrator.antt =====
-- src/agent/session_orchestrator.c: the list of active tasks. A list node always has its task, the
-- lock makes each function one step, and the thread of a task, which nothing reads, is left out.
pub mod Laws
pub mod Examples
use primagen.Base.{
  ℕ, ◌+◌, Bool, true, false, not, ◌&&◌, List, [], ◌∷◌, ◌++◌, map, Option, none, some, if◌then◌else◌,
  ℤ, pos, negsuc, pred_ℤ, Text, text_eq, copy_to,
}
use primagen.Messages.{ToolCall}

pub data SessionState : Type 0 where
  idle waiting_llm waiting_tool : SessionState

abbrev pub is_idle : SessionState → Bool
is_idle idle = true
is_idle _ = false

pub record SessionContext : Type 0 where
  pub state : SessionState
  pub turn : ℕ
  pub channel : Text
  pub chat_id : Text
  pub latest_user_content : Text
  pub no_session_record : Bool
  pub session_msg_count_before : ℕ

pub record ActiveTask : Type 0 where
  pub id : Text
  pub session_key : Text
  pub ctx : SessionContext
  pub open ctx use *
  pub cancelled : Bool
  pub pending_tool_count : ℤ

pub record SessionOrchestrator : Type 0 where
  pub active_tasks : List ActiveTask
  pub current_session_key : Text

-- `calloc` and `memset(&snap, 0, sizeof(snap))`: every field is zero.
pub record TaskSnapshot : Type 0 where
  pub task_id : Text
  pub channel : Text
  pub chat_id : Text
  pub state : SessionState
  pub turn : ℕ
  pub pending_tool_count : ℤ
  pub valid : Bool
  pub cancelled : Bool
  pub no_session_record : Bool
  pub session_msg_count_before : ℕ
  pub latest_user_content : Text

abbrev pub no_snapshot : TaskSnapshot
no_snapshot = record {
  task_id = [];
  channel = [];
  chat_id = [];
  state = idle;
  turn = 0;
  pending_tool_count = pos 0;
  valid = false;
  cancelled = false;
  no_session_record = false;
  session_msg_count_before = 0;
  latest_user_content = [];
}

unfoldable pub session_orchestrator_new : SessionOrchestrator
session_orchestrator_new = record { active_tasks = []; current_session_key = [] }

abbrev pub has_id : Text → ActiveTask → Bool
has_id task_id t = text_eq t.id task_id

abbrev pub has_key : Text → ActiveTask → Bool
has_key session_key t = text_eq t.session_key session_key

-- The walks along the list: to the first task that passes the test, and to change or unlink it.
unfoldable pub find_task : (ActiveTask → Bool) → List ActiveTask → Option ActiveTask
find_task test [] = none
find_task test (t ∷ ts) = if test t then some t else find_task test ts

unfoldable pub update_first :
    (ActiveTask → Bool) → (ActiveTask → ActiveTask) → List ActiveTask → List ActiveTask
update_first test f [] = []
update_first test f (t ∷ ts) = if test t then f t ∷ ts else t ∷ update_first test f ts

unfoldable pub remove_first : (ActiveTask → Bool) → List ActiveTask → List ActiveTask
remove_first test [] = []
remove_first test (t ∷ ts) = if test t then ts else t ∷ remove_first test ts

unfoldable pub session_orchestrator_add_task :
    SessionOrchestrator → ActiveTask → SessionOrchestrator
session_orchestrator_add_task o task = record o { active_tasks = o.active_tasks ++ task ∷ [] }

unfoldable pub session_orchestrator_remove_task : SessionOrchestrator → Text → SessionOrchestrator
session_orchestrator_remove_task o task_id = record o {
  active_tasks = remove_first (has_id task_id) o.active_tasks;
}

abbrev pub cancel : ActiveTask → ActiveTask
cancel t = record t { cancelled = true }

unfoldable pub session_orchestrator_cancel_all_tasks : SessionOrchestrator → SessionOrchestrator
session_orchestrator_cancel_all_tasks o = record o { active_tasks = map cancel o.active_tasks }

abbrev pub cancels : Text → ActiveTask → Bool
cancels session_key t = has_key session_key t && not t.cancelled

unfoldable pub cancel_each : Text → List ActiveTask → List ActiveTask × ℕ
cancel_each session_key [] = ([], 0)
cancel_each session_key (t ∷ ts) =
    let (rest, count) = cancel_each session_key ts in
    if cancels session_key t then (cancel t ∷ rest, count + 1) else (t ∷ rest, count)

-- The number of tasks that were cancelled comes back beside the new list.
unfoldable pub session_orchestrator_cancel_tasks_by_session :
    SessionOrchestrator → Text → SessionOrchestrator × ℕ
session_orchestrator_cancel_tasks_by_session o session_key =
    let (tasks, count) = cancel_each session_key o.active_tasks in
    (record o { active_tasks = tasks }, count)

abbrev snapshot_by_id : Option ActiveTask → TaskSnapshot
snapshot_by_id none = no_snapshot
snapshot_by_id (some t) = record {
  task_id = copy_to 32 t.id;
  channel = copy_to 64 t.channel;
  chat_id = copy_to 512 t.chat_id;
  state = t.state;
  turn = t.turn;
  pending_tool_count = t.pending_tool_count;
  valid = true;
  cancelled = t.cancelled;
  no_session_record = t.no_session_record;
  session_msg_count_before = t.session_msg_count_before;
  latest_user_content = copy_to 1024 t.latest_user_content;
}

unfoldable pub session_orchestrator_get_task : SessionOrchestrator → Text → TaskSnapshot
session_orchestrator_get_task o task_id = snapshot_by_id (find_task (has_id task_id) o.active_tasks)

-- This copy of the fields has no line for `cancelled`.
abbrev pub snapshot_by_key : Option ActiveTask → TaskSnapshot
snapshot_by_key none = no_snapshot
snapshot_by_key (some t) = record {
  task_id = copy_to 32 t.id;
  channel = copy_to 64 t.channel;
  chat_id = copy_to 512 t.chat_id;
  state = t.state;
  turn = t.turn;
  pending_tool_count = t.pending_tool_count;
  valid = true;
  cancelled = false;
  no_session_record = t.no_session_record;
  session_msg_count_before = t.session_msg_count_before;
  latest_user_content = copy_to 1024 t.latest_user_content;
}

unfoldable pub session_orchestrator_snapshot_task : SessionOrchestrator → Text → TaskSnapshot
session_orchestrator_snapshot_task o session_key =
    snapshot_by_key (find_task (has_key session_key) o.active_tasks)

-- The first task of a session, changed.
abbrev pub update_task :
    SessionOrchestrator → Text → (ActiveTask → ActiveTask) → SessionOrchestrator
update_task o session_key f = record o {
  active_tasks = update_first (has_key session_key) f o.active_tasks;
}

abbrev pub with_state : SessionState → ActiveTask → ActiveTask
with_state state t = record t { ctx = record t.ctx { state = state } }

unfoldable pub session_orchestrator_update_task_state :
    SessionOrchestrator → Text → SessionState → SessionOrchestrator
session_orchestrator_update_task_state o session_key state =
    update_task o session_key (with_state state)

abbrev pub with_pending : ℤ → ActiveTask → ActiveTask
with_pending count t = record t { pending_tool_count = count }

unfoldable pub session_orchestrator_update_task_pending_tools :
    SessionOrchestrator → Text → ℤ → SessionOrchestrator
session_orchestrator_update_task_pending_tools o session_key count =
    update_task o session_key (with_pending count)

abbrev pub one_less : ActiveTask → ActiveTask
one_less t = record t { pending_tool_count = pred_ℤ t.pending_tool_count }

abbrev pub remaining_of : Option ActiveTask → ℤ
remaining_of none = negsuc 0
remaining_of (some t) = pred_ℤ t.pending_tool_count

unfoldable pub session_orchestrator_decrement_task_pending_tools :
    SessionOrchestrator → Text → SessionOrchestrator × ℤ
session_orchestrator_decrement_task_pending_tools o session_key = (
  update_task o session_key one_less,
  remaining_of (find_task (has_key session_key) o.active_tasks),
)

abbrev pub next_turn : ActiveTask → ActiveTask
next_turn t = record t { ctx = record t.ctx { turn = t.turn + 1 } }

unfoldable pub session_orchestrator_increment_task_turn :
    SessionOrchestrator → Text → SessionOrchestrator
session_orchestrator_increment_task_turn o session_key = update_task o session_key next_turn

-- `SESSION_KEY_MAX` is 512.
unfoldable pub session_orchestrator_set_current_session_key :
    SessionOrchestrator → Text → SessionOrchestrator
session_orchestrator_set_current_session_key o session_key = record o {
  current_session_key = copy_to 512 session_key;
}

-- What `session_orchestrator_free` waits for: no task is busy that is not cancelled.
unfoldable pub all_idle : List ActiveTask → Bool
all_idle [] = true
all_idle (t ∷ ts) = if not (is_idle t.state) && not t.cancelled then false else all_idle ts
