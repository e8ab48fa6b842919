-- ===== src/Agent/Commands.antt =====
-- src/agent/command_dispatcher.c, src/agent/agent_common.h: the slash commands and their handlers.
-- What plugins, tools, the skill files and cJSON do is what the outside answers.
use primagen.Base.{
  ℕ, suc, Bool, not, ◌&&◌, ◌||◌, List, [], ◌∷◌, ◌++◌, Option, none, some, ◌==◌, ltb, if◌then◌else◌,
  length, ℤ, Text, codes, copy_to,
}
use primagen.Libc.{decimal, print_d}
use primagen.Utils.{str_trim_left, has_prefix}
use primagen.Messages.{outbound_message_new, Error}
use primagen.Tools.{Tool}
use primagen.Orchestrator.{
  session_orchestrator_cancel_tasks_by_session, session_orchestrator_cancel_all_tasks,
}
use primagen.Agent.{AgentLoop, send}
use primagen.Agent.LlmResults.{on_tasks}

-- A handler: one of the dispatcher's own, or the function of a plugin.
pub data Handler : Type 0 where
  stop restart new_session help list_tools reload_plugins : Handler
  of_plugin : ℕ → Handler

pub record CommandPluginDef : Type 0 where
  pub name : Text
  pub description : Text
  pub handler : Handler

pub record PluginManager : Type 0 where
  pub commands : List CommandPluginDef
  pub external_dir : Text
  pub plugin_count : ℕ

-- What a command works on, beside its context.
pub record Bot : Type 0 where
  pub loop : AgentLoop
  pub plugin_mgr : PluginManager

pub record CommandContext : Type 0 where
  pub channel : Text
  pub chat_id : Text
  pub session_key : Text

-- `args_json` is the object {"args": ...} as cJSON prints it; `load_skill` is a skill's file, if there is one.
pub record Outside : Type 0 where
  pub load_external : PluginManager → PluginManager × ℤ
  pub run_plugin : ℕ → CommandContext → AgentLoop → List Text → AgentLoop
  pub run_tool : Tool → Text → Text × Error
  pub plugin_name : Tool → Option Text
  pub args_json : Text → Text
  pub load_skill : Text → Option Text

-- The text before the first space, and what follows it.
abbrev pub split_space : Text → Text × Option Text
split_space [] = ([], none)
split_space (c ∷ cs) =
    let (word, rest) = split_space cs in if c == b' ' then ([], some cs) else (c ∷ word, rest)

-- The name, in a buffer of that size, and the arguments.
abbrev named_in : ℕ → Text × Option Text → Text × Option Text
named_in size (name, args) = (copy_to size name, args)

unfoldable pub parse_slash_command : Text → ℕ → Text × Option Text
unfolding str_trim_left
parse_slash_command full_content size = elim (str_trim_left full_content) [
  | [] ↦ ([], none)
  | c ∷ cs ↦ if c == b'/' then named_in size (split_space cs) else ([], none)
]

unfoldable pub send_response : CommandContext → AgentLoop → Text → AgentLoop
unfolding outbound_message_new
send_response ctx loop message = send loop (outbound_message_new ctx.channel ctx.chat_id message)

-- The loop, and how many tasks were stopped.
unfoldable pub stop_active_tasks : CommandContext → AgentLoop → AgentLoop × ℕ
unfolding session_orchestrator_cancel_tasks_by_session session_orchestrator_cancel_all_tasks
stop_active_tasks ctx loop = elim ctx.session_key [
  | [] ↦ (on_tasks loop session_orchestrator_cancel_all_tasks, 0)
  | c ∷ cs ↦
      let (tasks, count) =
        session_orchestrator_cancel_tasks_by_session loop.session_orchestrator (c ∷ cs) in
      (record loop { session_orchestrator = tasks }, count)
]

-- `%zu`, of at most twenty digits.
abbrev print_zu : ℕ → Text
print_zu n = decimal 20 n

abbrev pub stop_text : ℕ → Text
stop_text cancelled = copy_to 256 (
    if ltb 0 cancelled
    then codes "Stopped " ++ print_zu cancelled ++ codes " task(s)."
    else codes "No active task to stop.")

unfoldable pub cmd_stop : CommandContext → AgentLoop → AgentLoop
unfolding stop_active_tasks send_response
cmd_stop ctx loop =
    let (stopped, cancelled) = stop_active_tasks ctx loop in
    send_response ctx stopped (stop_text cancelled)

-- It is only said to be restarted.
unfoldable pub cmd_restart : CommandContext → AgentLoop → AgentLoop
unfolding send_response
cmd_restart ctx loop = send_response ctx loop (codes "Restarting...")

-- `reset_session` only writes to the log.
unfoldable pub reset_session : CommandContext → AgentLoop → AgentLoop
reset_session ctx loop = loop

unfoldable pub cmd_new : CommandContext → AgentLoop → AgentLoop
unfolding send_response reset_session
cmd_new ctx loop = send_response ctx (reset_session ctx loop) (codes "New session started.")

abbrev help_lines : List CommandPluginDef → Text
help_lines [] = []
help_lines (c ∷ []) = codes "/" ++ c.name ++ codes " - " ++ c.description
help_lines (c ∷ d ∷ cs) =
    codes "/" ++ c.name ++ codes " - " ++ c.description ++ codes "  \n" ++ help_lines (d ∷ cs)

abbrev help_list : List CommandPluginDef → Text
help_list [] = codes "No commands registered."
help_list (c ∷ cs) = help_lines (c ∷ cs)

unfoldable pub cmd_help : CommandContext → PluginManager → AgentLoop → AgentLoop
unfolding send_response
cmd_help ctx plugin_mgr loop = send_response ctx loop (
    codes "\n      Primagen(Primitive Genesis) - AI Agent Framework  \n"
    ++ codes "===================================================================  \n"
    ++ codes "Primagen commands:  \n"
    ++ help_list plugin_mgr.commands)

abbrev pub is_mcp : Tool → Bool
is_mcp t = has_prefix (codes "primagen_") t.name || has_prefix (codes "mcp_") t.name

abbrev pub is_builtin : Tool → Bool
is_builtin t = not (is_mcp t) && not t.plugin_ref

abbrev pub from_plugin : Tool → Bool
from_plugin t = not (is_mcp t) && t.plugin_ref

abbrev pub count_tools : (Tool → Bool) → List Tool → ℕ
count_tools test [] = 0
count_tools test (t ∷ ts) = if test t then suc (count_tools test ts) else count_tools test ts

abbrev tool_lines : (Tool → Bool) → (Tool → Text) → List Tool → Text
tool_lines test note [] = []
tool_lines test note (t ∷ ts) =
    let rest = tool_lines test note ts in
    if test t then codes "- " ++ t.name ++ note t ++ codes "\n" ++ rest else rest

-- A section of the list, unless it is empty.
abbrev tool_section : Text → (Tool → Bool) → (Tool → Text) → List Tool → Text
tool_section title test note tools =
    if ltb 0 (count_tools test tools) then title ++ tool_lines test note tools else []

abbrev plugin_note : Option Text → Text
plugin_note none = []
plugin_note (some name) = codes " (" ++ name ++ codes ")"

abbrev tools_summary : List Tool → Text
tools_summary tools = copy_to 128 (
    codes "Total: "
    ++ print_zu (length tools)
    ++ codes " (builtin: "
    ++ print_zu (count_tools is_builtin tools)
    ++ codes ", plugin: "
    ++ print_zu (count_tools from_plugin tools)
    ++ codes ", mcp: "
    ++ print_zu (count_tools is_mcp tools)
    ++ codes ")\n")

unfoldable pub cmd_tools : Outside → CommandContext → AgentLoop → AgentLoop
unfolding send_response has_prefix
cmd_tools outside ctx loop =
    let tools = loop.tool_registry.tools in
    send_response ctx loop (
      codes "\nAvailable tools:\n"
      ++ tools_summary tools
      ++ tool_section (codes "\n[builtin]\n") is_builtin (λ t. []) tools
      ++ tool_section (codes "\n[plugin]\n") from_plugin (λ t. plugin_note (outside.plugin_name t))
          tools
      ++ tool_section (codes "\n[mcp]\n") is_mcp (λ t. []) tools)

unfoldable pub cmd_reload_plugins : Outside → CommandContext → Bot → Bot
unfolding send_response
cmd_reload_plugins outside ctx bot =
    let (plugin_mgr, reloaded) = outside.load_external bot.plugin_mgr in
    record {
      loop = send_response ctx bot.loop (
          copy_to 512 (
            codes "\nPlugin reload complete.\n"
            ++ codes "External dir: "
            ++ plugin_mgr.external_dir
            ++ codes "\nNew/reloaded plugins: "
            ++ print_d reloaded
            ++ codes "\nTotal loaded: "
            ++ print_zu plugin_mgr.plugin_count));
      plugin_mgr = plugin_mgr;
    }

unfoldable pub run_handler : Outside → Handler → CommandContext → List Text → Bot → Bot
unfolding cmd_stop cmd_restart cmd_new cmd_help cmd_tools cmd_reload_plugins
run_handler outside stop ctx argv bot = record bot { loop = cmd_stop ctx bot.loop }
run_handler outside restart ctx argv bot = record bot { loop = cmd_restart ctx bot.loop }
run_handler outside new_session ctx argv bot = record bot { loop = cmd_new ctx bot.loop }
run_handler outside help ctx argv bot = record bot { loop = cmd_help ctx bot.plugin_mgr bot.loop }
run_handler outside list_tools ctx argv bot = record bot { loop = cmd_tools outside ctx bot.loop }
run_handler outside reload_plugins ctx argv bot = cmd_reload_plugins outside ctx bot
run_handler outside (of_plugin n) ctx argv bot = record bot {
  loop = outside.run_plugin n ctx bot.loop argv;
}
