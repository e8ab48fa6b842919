-- ===== src/Orchestrator/Examples.antt =====
-- The task list of src/agent/session_orchestrator.c at two concrete tasks.
use primagen.Base.{
  ◌≡◌, refl, true, false, List, [], ◌∷◌, some, none, pos, codes, text_eq, copy_to, if◌then◌else◌,
}
use primagen.Orchestrator.{
  ActiveTask, SessionOrchestrator, waiting_llm, waiting_tool, has_id, has_key, find_task,
  update_first, remove_first, next_turn,
}
use primagen.Orchestrator.Laws.{Distinct, find-update, find-remove}

abbrev first : ActiveTask
first = record {
  id = codes "task_1_1";
  session_key = codes "cli:1";
  ctx = record {
    state = waiting_llm;
    turn = 1;
    channel = codes "cli";
    chat_id = codes "1";
    latest_user_content = codes "hi";
    no_session_record = false;
    session_msg_count_before = 0;
  };
  cancelled = true;
  pending_tool_count = pos 0;
}

abbrev second : ActiveTask
second = record first {
  id = codes "task_1_2";
  session_key = codes "cli:2";
  ctx = record first.ctx { state = waiting_tool };
  pending_tool_count = pos 2;
}

abbrev both : List ActiveTask
both = first ∷ second ∷ []

both-Distinct : Distinct both
unfolding find_task text_eq
both-Distinct = ((refl, refl), (refl, refl), ((refl, refl), (refl, refl), tt))

second_found : find_task (has_key (codes "cli:2")) both ≡ some second
unfolding find_task text_eq
second_found = refl

find-update_example :
    find_task (has_key (codes "cli:1")) (update_first (has_key (codes "cli:2")) next_turn both) ≡ (
      if text_eq (codes "cli:2") (codes "cli:1")
      then some (next_turn second)
      else find_task (has_key (codes "cli:1")) both)
find-update_example =
    find-update (codes "cli:2") (codes "cli:1") next_turn both second (λ t. (refl, refl))
      second_found

find-remove_example :
    find_task (has_key (codes "cli:1")) (remove_first (has_id (copy_to 32 second.id)) both) ≡ (
      if text_eq (codes "cli:2") (codes "cli:1")
      then none
      else find_task (has_key (codes "cli:1")) both)
find-remove_example =
    find-remove (codes "cli:2") (codes "cli:1") both second both-Distinct second_found

abbrev orchestrator : SessionOrchestrator
orchestrator = record { active_tasks = both; current_session_key = codes "cli:2" }
