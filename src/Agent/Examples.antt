-- ===== src/Agent/Examples.antt =====
-- A worker of src/agent/agent_loop.c that takes a message, and then the answer of the model.
use primagen.Base.{◌≡◌, refl, true, false, [], ◌∷◌, ◌++◌, none, pos, codes, copy_to, text_eq}
use primagen.Messages.{ErrorCode, InboundMessage, LlmResult}
use primagen.Session.File.{Disk, session_manager_load}
use primagen.Session.{new_session, session_add_message}
use primagen.Session.Table.{session_manager_get}
use primagen.Session.Table.{
  session_manager_new, session_key_hash_fast, update_session, insert_entry,
}
use primagen.Session.Lookup.{session_manager_new-IsTable}
use primagen.Utils.{str_trim_left, strip_think_tags, has_prefix}
use primagen.Tools.{tool_registry_new}
use primagen.Orchestrator.{find_task, has_key, has_id, update_first}
use primagen.Agent.{AgentLoop, World}
use primagen.Agent.Commands.{Outside, PluginManager}
use primagen.Agent.Dispatcher.{builtin_commands, dispatch}
use primagen.Agent.Inbound.{is_command, process_inbound_message}
use primagen.Agent.LlmResults.{handle_llm_text_response, handle_event_llm_result}
use primagen.Agent.Phases.{IsSound}
use primagen.Agent.Replies.{Replies, handle_event_llm_result-Replies}
use primagen.Agent.InFlight.{without_call}
use primagen.Agent.Steps.{
  Steps, agent_loop_new, agent_loop_new-IsSound, Step-IsSound, Steps-no_stuck_task,
}
use primagen.Agent.Steps.{takes_message, takes_llm_result, start, more}

abbrev works : Disk
works = record { opens = true; written = ◌++◌; renames = true }

abbrev pub w : World
w = record {
  now = 100;
  disk = works;
  line_bytes = λ _. 100;
  memory_appends = false;
  memory_consolidates = false;
  task_id = codes "task_1_1";
  reminder = λ _. none;
}

abbrev pub outside : Outside
outside = record {
  load_external = λ m. (m, pos 0);
  run_plugin = λ n ctx loop argv. loop;
  run_tool = λ t args. (args, record { code = ErrorCode.none; message = [] });
  plugin_name = λ t. none;
  args_json = λ args. args;
  load_skill = λ name. none;
}

-- The plugin manager with the dispatcher's own commands.
abbrev pub own_commands : PluginManager
own_commands = record {
  commands = builtin_commands;
  external_dir = codes "plugins";
  plugin_count = 0;
}

abbrev pub hello : InboundMessage
hello = record {
  channel = codes "cli";
  chat_id = codes "1";
  content = codes "hi";
  sender_name = [];
  attachments = [];
  no_session_record = false;
}

abbrev answer : LlmResult
answer = record {
  session_key = codes "cli:1";
  llm_error = record { code = ErrorCode.none; message = [] };
  llm_response = codes "hello";
  tool_calls = [];
}

abbrev pub new_loop : AgentLoop
new_loop = agent_loop_new session_manager_new (λ _. none) tool_registry_new (pos 3) (pos 0)

abbrev asked : AgentLoop
asked = process_inbound_message (dispatch outside own_commands) w new_loop hello

abbrev answered : AgentLoop
answered = handle_event_llm_result w (without_call asked []) answer

asked_calls : asked.llm_calls ≡ codes "cli:1" ∷ []
unfolding process_inbound_message find_task agent_loop_new session_manager_new session_key_hash_fast
    update_session insert_entry text_eq session_manager_load new_session session_add_message
asked_calls = refl

no_tasks_yet :
    find_task (has_id (copy_to 32 w.task_id)) new_loop.session_orchestrator.active_tasks ≡ none
unfolding find_task agent_loop_new
no_tasks_yet = refl

hello_plain : is_command hello.content ≡ false
unfolding str_trim_left
hello_plain = refl

answered_steps : Steps outside new_loop answered
answered_steps =
    more (more start (takes_message w hello own_commands hello_plain no_tasks_yet))
      (takes_llm_result w answer [] [] asked_calls)

answered_calls : answered.llm_calls ≡ []
unfolding handle_event_llm_result find_task process_inbound_message agent_loop_new
    session_manager_new session_key_hash_fast update_first update_session insert_entry text_eq
    session_manager_load new_session session_add_message handle_llm_text_response strip_think_tags
    has_prefix
answered_calls = refl

answered_runs : answered.tool_runs ≡ []
unfolding handle_event_llm_result find_task process_inbound_message agent_loop_new
    session_manager_new session_key_hash_fast update_first update_session insert_entry text_eq
    session_manager_load new_session session_add_message handle_llm_text_response strip_think_tags
    has_prefix
answered_runs = refl

Steps-no_stuck_task_example : answered.session_orchestrator.active_tasks ≡ []
Steps-no_stuck_task_example =
    Steps-no_stuck_task outside session_manager_new (λ _. none) tool_registry_new (pos 3) (pos 0)
      answered session_manager_new-IsTable answered_steps answered_calls answered_runs

Step-IsSound_example : IsSound asked
Step-IsSound_example =
    Step-IsSound outside new_loop asked
      (agent_loop_new-IsSound session_manager_new (λ _. none) tool_registry_new (pos 3) (pos 0)
        session_manager_new-IsTable)
      (takes_message w hello own_commands hello_plain no_tasks_yet)

handle_event_llm_result-Replies_example :
    Replies w answer
      (find_task (has_key answer.session_key) asked.session_orchestrator.active_tasks)
      (session_manager_get asked.session_mgr answer.session_key)
      asked
      (handle_event_llm_result w asked answer)
handle_event_llm_result-Replies_example = handle_event_llm_result-Replies w asked answer
