-- ===== src/Agent/CommandExamples.antt =====
-- Slash commands to the worker at concrete inputs.
use primagen.Base.{◌≡◌, refl, true, false, [], ◌∷◌, none, some, pos, codes, text_eq, ◌⊎◌}
use primagen.Utils.{str_trim_left}
use primagen.Messages.{InboundMessage}
use primagen.Session.Table.{session_manager_new}
use primagen.Session.Lookup.{session_manager_new-IsTable}
use primagen.Tools.{tool_registry_new}
use primagen.Orchestrator.{cancel_each, session_orchestrator_snapshot_task}
use primagen.Agent.{AgentLoop, new_task}
use primagen.Agent.Phases.{IsSound}
use primagen.Agent.Steps.{agent_loop_new-IsSound}
use primagen.Agent.Examples.{w, hello, new_loop, outside, own_commands}
use primagen.Agent.Commands.{Bot, cmd_stop, stop_active_tasks, parse_slash_command}
use primagen.Agent.Dispatcher.{context_of, command_dispatcher_handle_message}
use primagen.Agent.Dispatch.{snapshot-cmd_stop}
use primagen.Agent.Inbound.{is_command}
use primagen.Agent.Answers.{Answers, handle_message-Answers}

abbrev bot : Bot
bot = record { loop = new_loop; plugin_mgr = own_commands }

abbrev stop_message : InboundMessage
stop_message = record hello { content = codes "/stop now" }

new_loop-IsSound : IsSound new_loop
new_loop-IsSound =
    agent_loop_new-IsSound session_manager_new (λ _. none) tool_registry_new (pos 3) (pos 0)
      session_manager_new-IsTable

handle_message-Answers_example :
    let (done, handled) =
      command_dispatcher_handle_message outside w bot stop_message
        (codes "cli:1")
        (codes "/stop now") in
    ((is_command (codes "/stop now") ≡ true)
      × (handled ≡ true)
      × Answers (context_of stop_message (codes "cli:1")) new_loop done.loop)
    ⊎ ((is_command (codes "/stop now") ≡ false) × (handled ≡ false) × (done ≡ bot))
handle_message-Answers_example =
    handle_message-Answers outside w bot stop_message (codes "cli:1") (codes "/stop now")
      (refl, (refl, (refl, (refl, (refl, (refl, tt)))))) refl new_loop-IsSound

-- A loop with a task for the session.
abbrev with_task : AgentLoop
with_task = record new_loop {
  session_orchestrator = record {
    active_tasks = new_task (codes "task_1_1") (codes "cli:1") hello 0 ∷ [];
    current_session_key = codes "cli:1";
  };
}

snapshot-cmd_stop_example :
    session_orchestrator_snapshot_task
      (cmd_stop (context_of hello (codes "cli:1")) with_task).session_orchestrator
      (codes "cli:1")
    ≡ session_orchestrator_snapshot_task with_task.session_orchestrator (codes "cli:1")
snapshot-cmd_stop_example =
    snapshot-cmd_stop (context_of hello (codes "cli:1")) with_task (codes "cli:1")

-- One task is said to be stopped.
one_stopped : (stop_active_tasks (context_of hello (codes "cli:1")) with_task).1 ≡ 1
unfolding stop_active_tasks cancel_each text_eq new_task
one_stopped = refl

split_command : parse_slash_command (codes "  /stop now") 64 ≡ (codes "stop", some (codes "now"))
unfolding parse_slash_command str_trim_left
split_command = refl
