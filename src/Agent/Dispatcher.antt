-- ===== src/Agent/Dispatcher.antt =====
-- src/agent/command_dispatcher.c, src/agent/tool_router.c: what handles a slash command: a registered command, a
-- tool of its name, or a skill.
use primagen.Base.{
  Bool, true, false, List, [], ◌∷◌, ◌++◌, Option, none, some, ◌==◌, if◌then◌else◌, take, Text,
  codes, text_eq, copy_to,
}
use primagen.Libc.{tokens}
use primagen.Utils.{str_trim_left}
use primagen.Messages.{
  user, InboundMessage, outbound_message_new, message_new, Error, ErrorCode, error_new,
}
use primagen.Session.Table.{session_manager_get}
use primagen.Tools.{Tool, ToolRegistry, find_tool, tool_registry_execute}
use primagen.Orchestrator.{
  waiting_llm, session_orchestrator_update_task_state, session_orchestrator_increment_task_turn,
  session_orchestrator_set_current_session_key,
}
use primagen.Agent.{AgentLoop, World, send, add_message, add_active_task, trigger_llm_async}
use primagen.Agent.LlmResults.{on_tasks}
use primagen.Agent.Inbound.{key_of, message_count}
use primagen.Agent.Commands.{
  run_handler, CommandPluginDef, Outside, parse_slash_command, CommandContext, PluginManager,
  Handler, Bot, stop, restart, new_session, help, list_tools, reload_plugins,
}

unfoldable pub find_command : List CommandPluginDef → Text → Option Handler
unfolding text_eq
find_command [] name = none
find_command (c ∷ cs) name = if text_eq c.name name then some c.handler else find_command cs name

-- At most fifteen arguments, between spaces.
abbrev pub arguments : Option Text → List Text
arguments none = []
arguments (some args) = take 15 (tokens b' ' args)

-- The next step of the dispatcher, or `none` where it was not handled.
unfoldable pub handle_plugin_command : Outside → CommandContext → Bot → Text → Option Bot
unfolding parse_slash_command find_command run_handler tokens
handle_plugin_command outside ctx bot full_content =
    let (name, args) = parse_slash_command full_content 64 in
    elim (find_command bot.plugin_mgr.commands name) [
      | none ↦ none
      | some handler ↦ some (run_handler outside handler ctx (arguments args) bot)
    ]

abbrev pub args_or_empty : Option Text → Text
args_or_empty none = []
args_or_empty (some args) = args

-- `tool_router_get_tool` looks for the name as it is.
unfoldable pub tool_router_execute :
    (Tool → Text → Text × Error) → ToolRegistry → Text → Text → Text × Error
unfolding find_tool tool_registry_execute error_new
tool_router_execute run reg name args = elim (find_tool reg.tools name) [
  | none ↦ ([], error_new ErrorCode.tool (codes "Tool not found"))
  | some _ ↦ tool_registry_execute run reg name args
]

abbrev pub tool_reply : Text × Error → Text
tool_reply (result, err) = elim err.code [
  | ErrorCode.none ↦ result
  | _ ↦ copy_to 256 (codes "Error executing tool: " ++ err.message)
]

unfoldable pub tool_router_handle_fallback_command :
    Outside → AgentLoop → InboundMessage → Text → Option AgentLoop
unfolding parse_slash_command find_tool tool_router_execute outbound_message_new
tool_router_handle_fallback_command outside loop inbound full_content =
    let (name, args) = parse_slash_command full_content 64 in
    elim (find_tool loop.tool_registry.tools name) [
      | none ↦ none
      | some _ ↦
          let answer =
            tool_router_execute outside.run_tool loop.tool_registry name
              (outside.args_json (args_or_empty args)) in
          some
            (send loop (outbound_message_new inbound.channel inbound.chat_id (tool_reply answer)))
    ]

-- A task of its own for a skill: the command itself is the user's message. The channel that
-- `refresh_tool_routes` gives the tools is not modelled.
unfoldable pub start_skill : World → AgentLoop → InboundMessage → Text → Text → AgentLoop
unfolding message_new key_of add_active_task trigger_llm_async session_manager_get
    session_orchestrator_set_current_session_key session_orchestrator_update_task_state
    session_orchestrator_increment_task_turn
start_skill w loop inbound session_key full_content =
    let key = key_of inbound in
    let loop = add_message w loop session_key (message_new user full_content) in
    let loop = on_tasks loop (λ o. session_orchestrator_set_current_session_key o key) in
    let loop =
      add_active_task loop w.task_id key inbound
        (message_count (session_manager_get loop.session_mgr session_key)) in
    let loop = on_tasks loop (λ o. session_orchestrator_update_task_state o key waiting_llm) in
    let loop = on_tasks loop (λ o. session_orchestrator_increment_task_turn o key) in
    trigger_llm_async loop key

-- A skill's file that is there and not empty.
abbrev pub is_skill : Option Text → Bool
is_skill none = false
is_skill (some []) = false
is_skill (some (c ∷ cs)) = true

unfoldable pub handle_skill_fallback_command :
    Outside → World → AgentLoop → InboundMessage → Text → Text → Option AgentLoop
unfolding parse_slash_command start_skill
handle_skill_fallback_command outside w loop inbound session_key full_content =
    if is_skill (outside.load_skill (parse_slash_command full_content 64).0)
    then some (start_skill w loop inbound session_key full_content)
    else none

abbrev pub unknown_text : Text → Text
unknown_text trimmed =
    copy_to 256
      (codes "Unknown command: " ++ trimmed ++ codes ". Type /help for available commands.")

abbrev pub context_of : InboundMessage → Text → CommandContext
context_of inbound session_key = record {
  channel = inbound.channel;
  chat_id = inbound.chat_id;
  session_key = session_key;
}

-- What was handled, or else the next attempt.
abbrev pub or_unknown : Bot → InboundMessage → Text → Option AgentLoop → Bot
or_unknown bot inbound trimmed (some loop) = record bot { loop = loop }
or_unknown bot inbound trimmed none = record bot {
  loop =
      send bot.loop (outbound_message_new inbound.channel inbound.chat_id (unknown_text trimmed));
}

abbrev pub or_skill : Outside → World → Bot → InboundMessage → Text → Text → Option AgentLoop → Bot
or_skill outside w bot inbound session_key trimmed (some loop) = record bot { loop = loop }
or_skill outside w bot inbound session_key trimmed none =
    or_unknown bot inbound trimmed
      (handle_skill_fallback_command outside w bot.loop inbound session_key trimmed)

abbrev pub or_tool : Outside → World → Bot → InboundMessage → Text → Text → Option Bot → Bot
or_tool outside w bot inbound session_key trimmed (some done) = done
or_tool outside w bot inbound session_key trimmed none =
    or_skill outside w bot inbound session_key trimmed
      (tool_router_handle_fallback_command outside bot.loop inbound trimmed)

-- A slash command, by what handles it.
unfoldable pub handle_command : Outside → World → Bot → InboundMessage → Text → Text → Bot
unfolding handle_plugin_command
handle_command outside w bot inbound session_key trimmed =
    or_tool outside w bot inbound session_key trimmed
      (handle_plugin_command outside (context_of inbound session_key) bot trimmed)

-- The bot, and whether the message was a command.
unfoldable pub command_dispatcher_handle_message :
    Outside → World → Bot → InboundMessage → Text → Text → Bot × Bool
unfolding str_trim_left handle_command
command_dispatcher_handle_message outside w bot inbound session_key content =
    elim (str_trim_left content) [
      | [] ↦ (bot, false)
      | c ∷ cs ↦
          if c == b'/'
          then (handle_command outside w bot inbound session_key (c ∷ cs), true)
          else (bot, false)
    ]

abbrev builtin : Text → Text → Handler → CommandPluginDef
builtin name description handler = record {
  name = name;
  description = description;
  handler = handler;
}

-- The order in which they are registered.
abbrev pub builtin_commands : List CommandPluginDef
builtin_commands =
    builtin (codes "stop") (codes "Stop active tasks") stop
    ∷ builtin (codes "restart") (codes "Restart the bot") restart
    ∷ builtin (codes "new") (codes "Start a new conversation") new_session
    ∷ builtin (codes "help") (codes "Show available commands") help
    ∷ builtin (codes "tools") (codes "Show available tools (builtin/plugin/mcp)") list_tools
    ∷ builtin (codes "reload-plugins") (codes "Reload all plugins from the plugins directory")
        reload_plugins
    ∷ []

-- What the worker hands a command to: the trimmed content, with the session of the conversation.
unfoldable pub dispatch : Outside → PluginManager → World → AgentLoop → InboundMessage → AgentLoop
unfolding command_dispatcher_handle_message key_of str_trim_left
dispatch outside plugin_mgr w loop inbound =
    let bot : Bot = record { loop = loop; plugin_mgr = plugin_mgr } in
    (command_dispatcher_handle_message outside w bot inbound (key_of inbound)
      (str_trim_left inbound.content)).0.loop
