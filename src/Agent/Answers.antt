-- ===== src/Agent/Answers.antt =====
-- src/agent/command_dispatcher.c, src/agent/tool_router.c: every command is answered once, and leaves
-- the work in flight in order.
use mathlib.Core.Path.{subst}
use primagen.Base.{
  ◌≡◌, refl, sym, ap, ◌∙◌, Bool, true, false, List, [], ◌∷◌, ◌++◌, Option, none, some,
  if◌then◌else◌, if_elim, Text, text_eq, arith, inl, inr, ◌⊎◌, ◌==◌,
}
use primagen.Utils.{str_trim_left}
use primagen.Messages.{InboundMessage, outbound_message_new}
use primagen.Tools.{Tool, find_tool}
use primagen.Orchestrator.{
  session_orchestrator_cancel_tasks_by_session, session_orchestrator_cancel_all_tasks,
}
use primagen.Agent.{AgentLoop, World, send}
use primagen.Agent.Phases.{IsSound}
use primagen.Agent.Commands.{
  Handler, stop, restart, new_session, help, list_tools, reload_plugins, of_plugin,
  CommandPluginDef, Bot, CommandContext, Outside, send_response, stop_active_tasks, cmd_stop,
  run_handler, parse_slash_command, cmd_restart, cmd_new, cmd_help, cmd_tools, cmd_reload_plugins,
  reset_session,
}
use primagen.Agent.Dispatcher.{
  find_command, handle_plugin_command, tool_router_handle_fallback_command,
  handle_skill_fallback_command, handle_command, command_dispatcher_handle_message, context_of,
  arguments, tool_reply, tool_router_execute, args_or_empty, unknown_text, start_skill,
}
use primagen.Agent.Quiet.{send-Quiet}
use primagen.Agent.Starting.{IsSound-Quiet}
use primagen.Agent.Dispatch.{AreAlike, stopped-AreAlike, alike_sound}
use primagen.Session.Table.{session_manager_get}
use primagen.Agent.Inbound.{is_command, is_empty, key_of, load_missing, process_inbound_message}
use primagen.Agent.Starting.{load_missing-Quiet}
use primagen.Agent.Commands.{PluginManager}
use primagen.Agent.Dispatcher.{or_unknown, or_skill, or_tool, is_skill, dispatch}

-- One message more was sent, to that chat, and the work in flight is in order.
abbrev pub Answers : CommandContext → AgentLoop → AgentLoop → Type 0
Answers ctx a b =
    ((text : Text) × (b.sent ≡ a.sent ++ outbound_message_new ctx.channel ctx.chat_id text ∷ []))
    × IsSound b

abbrev AnswersBot : CommandContext → AgentLoop → Option Bot → Type 0
AnswersBot ctx a none = Unit
AnswersBot ctx a (some bot) = Answers ctx a bot.loop

abbrev AnswersLoop : CommandContext → AgentLoop → Option AgentLoop → Type 0
AnswersLoop ctx a none = Unit
AnswersLoop ctx a (some b) = Answers ctx a b

abbrev pub is_own : Handler → Bool
is_own (of_plugin n) = false
is_own _ = true

-- Every registered command is one of the dispatcher's own.
abbrev pub AllOwn : List CommandPluginDef → Type 0
AllOwn [] = Unit
AllOwn (c ∷ cs) = (is_own c.handler ≡ true) × AllOwn cs

sent-Answers :
    (ctx : CommandContext) (a b : AgentLoop) (text : Text)
    → b.sent ≡ a.sent
    → IsSound b
    → Answers ctx a (send b (outbound_message_new ctx.channel ctx.chat_id text))
sent-Answers ctx a b text same sound =
    let msg = outbound_message_new ctx.channel ctx.chat_id text in
    ((text, ap (λ l. l ++ msg ∷ []) same), IsSound-Quiet b (send b msg) (send-Quiet b msg) sound)

stopped-IsSound :
    (ctx : CommandContext) (a : AgentLoop)
    → IsSound a
    → ((stop_active_tasks ctx a).0.sent ≡ a.sent) × IsSound (stop_active_tasks ctx a).0
unfolding stop_active_tasks session_orchestrator_cancel_tasks_by_session
    session_orchestrator_cancel_all_tasks
stopped-IsSound ctx a sound = by_key ctx.session_key (stopped-AreAlike ctx a)
  where
    by_key :
        (key : Text)
        → AreAlike a.session_orchestrator
            (stop_active_tasks (record ctx { session_key = key }) a).0.session_orchestrator
        → ((stop_active_tasks (record ctx { session_key = key }) a).0.sent ≡ a.sent)
          × IsSound (stop_active_tasks (record ctx { session_key = key }) a).0
    by_key [] alike = (
      refl,
      alike_sound a (stop_active_tasks (record ctx { session_key = [] }) a).0.session_orchestrator
          alike sound,
    )
    by_key (c ∷ cs) alike = (
      refl,
      alike_sound a
          (stop_active_tasks (record ctx { session_key = c ∷ cs }) a).0.session_orchestrator alike
          sound,
    )

own-Answers :
    (outside : Outside) (h : Handler) (ctx : CommandContext) (argv : List Text) (bot : Bot)
    → is_own h ≡ true
    → IsSound bot.loop
    → Answers ctx bot.loop (run_handler outside h ctx argv bot).loop
unfolding run_handler cmd_stop cmd_restart cmd_new cmd_help cmd_tools cmd_reload_plugins
    reset_session send_response
own-Answers outside stop ctx argv bot own sound =
    let (same, sound') = stopped-IsSound ctx bot.loop sound in
    sent-Answers ctx bot.loop (stop_active_tasks ctx bot.loop).0 _ same sound'
own-Answers outside restart ctx argv bot own sound = sent-Answers ctx bot.loop bot.loop _ refl sound
own-Answers outside new_session ctx argv bot own sound =
    sent-Answers ctx bot.loop bot.loop _ refl sound
own-Answers outside help ctx argv bot own sound = sent-Answers ctx bot.loop bot.loop _ refl sound
own-Answers outside list_tools ctx argv bot own sound =
    sent-Answers ctx bot.loop bot.loop _ refl sound
own-Answers outside reload_plugins ctx argv bot own sound =
    sent-Answers ctx bot.loop bot.loop _ refl sound
own-Answers outside (of_plugin n) ctx argv bot own sound = absurd (ground arith)

found_own :
    (cs : List CommandPluginDef) (name : Text) (h : Handler)
    → AllOwn cs
    → find_command cs name ≡ some h
    → is_own h ≡ true
unfolding find_command
found_own [] name h own e = absurd (ground arith)
found_own (c ∷ cs) name h own e =
    if_elim (λ o. o ≡ some h → is_own h ≡ true) (text_eq c.name name) _ _
      (λ _ e. ap is_own (sym (the e)) ∙ own.0) (λ _ e. found_own cs name h own.1 e) e
  where
    the : {a b : Handler} → some a ≡ some b → a ≡ b
    the h = ground arith

module _ (outside : Outside) (ctx : CommandContext) where
  plugin-Answers :
      (bot : Bot) (content : Text)
      → AllOwn bot.plugin_mgr.commands
      → IsSound bot.loop
      → AnswersBot ctx bot.loop (handle_plugin_command outside ctx bot content)
  unfolding handle_plugin_command
  plugin-Answers bot content own sound =
      by_handler (find_command bot.plugin_mgr.commands (parse_slash_command content 64).0)
        (λ h e. found_own bot.plugin_mgr.commands (parse_slash_command content 64).0 h own e)
    where
      by_handler :
          (o : Option Handler)
          → ((h : Handler) → o ≡ some h → is_own h ≡ true)
          → AnswersBot ctx bot.loop (elim o [
            | none ↦ none
            | some h ↦
                some (run_handler outside h ctx (arguments (parse_slash_command content 64).1) bot)
          ])
      by_handler none own = tt
      by_handler (some h) own =
          own-Answers outside h ctx (arguments (parse_slash_command content 64).1) bot (own h refl)
            sound

  tool-Answers :
      (a : AgentLoop) (inbound : InboundMessage) (content : Text)
      → ctx.channel ≡ inbound.channel
      → ctx.chat_id ≡ inbound.chat_id
      → IsSound a
      → AnswersLoop ctx a (tool_router_handle_fallback_command outside a inbound content)
  unfolding tool_router_handle_fallback_command
  tool-Answers a inbound content channel chat sound =
      by_tool (find_tool a.tool_registry.tools (parse_slash_command content 64).0)
    where
      reply : Text
      reply = tool_reply (
          tool_router_execute outside.run_tool a.tool_registry (parse_slash_command content 64).0
            (outside.args_json (args_or_empty (parse_slash_command content 64).1)))

      by_tool :
          (o : Option Tool)
          → AnswersLoop ctx a (elim o [
            | none ↦ none
            | some _ ↦ some (send a (outbound_message_new inbound.channel inbound.chat_id reply))
          ])
      by_tool none = tt
      by_tool (some t) =
          subst (λ x. Answers ctx a (send a (outbound_message_new x inbound.chat_id reply))) channel
            (subst (λ y. Answers ctx a (send a (outbound_message_new ctx.channel y reply))) chat
              (sent-Answers ctx a a reply refl sound))

-- When every registered command is one of the dispatcher's own and there is no skill file of its name: a text that
-- begins with a slash, after blanks, sent to a worker whose work is in order is taken and answered by exactly one
-- message, to the chat that it came from, and the work of every session stays in order; a text that does not is left
-- to the caller, with nothing changed.
pub handle_message-Answers :
    (outside : Outside) (w : World) (bot : Bot) (inbound : InboundMessage)
    (session_key content : Text)
    → AllOwn bot.plugin_mgr.commands
    → outside.load_skill (parse_slash_command (str_trim_left content) 64).0 ≡ none
    → IsSound bot.loop
    → let (done, handled) =
        command_dispatcher_handle_message outside w bot inbound session_key content in
      ((is_command content ≡ true)
        × (handled ≡ true)
        × Answers (context_of inbound session_key) bot.loop done.loop)
      ⊎ ((is_command content ≡ false) × (handled ≡ false) × (done ≡ bot))
unfolding command_dispatcher_handle_message handle_command handle_skill_fallback_command
handle_message-Answers outside w bot inbound session_key content own no_skill sound =
    by_text (str_trim_left content) no_skill
  where
    ctx : CommandContext
    ctx = context_of inbound session_key

    Verdict : Bool → Bot × Bool → Type 0
    Verdict slash r =
        ((slash ≡ true) × (r.1 ≡ true) × Answers ctx bot.loop r.0.loop)
        ⊎ ((slash ≡ false) × (r.1 ≡ false) × (r.0 ≡ bot))

    by_skill :
        (trimmed : Text) (o : Option Text)
        → o ≡ none
        → Answers ctx bot.loop
            (or_unknown bot inbound trimmed (
              if is_skill o
              then some (start_skill w bot.loop inbound session_key trimmed)
              else none)).loop
    by_skill trimmed none h = sent-Answers ctx bot.loop bot.loop (unknown_text trimmed) refl sound
    by_skill trimmed (some s) h = absurd (ground arith)

    by_tool :
        (trimmed : Text) (o : Option AgentLoop)
        → outside.load_skill (parse_slash_command trimmed 64).0 ≡ none
        → AnswersLoop ctx bot.loop o
        → Answers ctx bot.loop (or_skill outside w bot inbound session_key trimmed o).loop
    by_tool trimmed none absent h =
        by_skill trimmed (outside.load_skill (parse_slash_command trimmed 64).0) absent
    by_tool trimmed (some loop) absent h = h

    by_plugin :
        (trimmed : Text) (o : Option Bot)
        → outside.load_skill (parse_slash_command trimmed 64).0 ≡ none
        → AnswersBot ctx bot.loop o
        → Answers ctx bot.loop (or_tool outside w bot inbound session_key trimmed o).loop
    by_plugin trimmed none absent h =
        by_tool trimmed (tool_router_handle_fallback_command outside bot.loop inbound trimmed)
          absent (tool-Answers outside ctx bot.loop inbound trimmed refl refl sound)
    by_plugin trimmed (some done) absent h = h

    by_text :
        (t : Text)
        → outside.load_skill (parse_slash_command t 64).0 ≡ none
        → Verdict
            (elim t as (λ _. Bool) [ [] ↦ false | c ∷ cs ↦ c == b'/' ])
            (elim t as (λ _. Bot × Bool) [
              | [] ↦ (bot, false)
              | c ∷ cs ↦
                  if c == b'/'
                  then (handle_command outside w bot inbound session_key (c ∷ cs), true)
                  else (bot, false)
            ])
    by_text [] absent = inr (refl, refl, refl)
    by_text (c ∷ cs) absent =
        if_elim (Verdict (c == b'/')) (c == b'/') _ _
          (λ slash. inl (
            slash,
            refl,
            by_plugin (c ∷ cs) (handle_plugin_command outside ctx bot (c ∷ cs)) absent
                (plugin-Answers outside ctx bot (c ∷ cs) own sound),
          ))
          (λ plain. inr (plain, refl, refl))

-- A command that the worker takes leaves the work of every session in order.
pub command-IsSound :
    (outside : Outside) (plugin_mgr : PluginManager) (w : World) (a : AgentLoop)
    (m : InboundMessage)
    → IsSound a
    → is_command m.content ≡ true
    → AllOwn plugin_mgr.commands
    → outside.load_skill (parse_slash_command (str_trim_left (str_trim_left m.content)) 64).0 ≡ none
    → IsSound (process_inbound_message (dispatch outside plugin_mgr) w a m)
unfolding process_inbound_message dispatch
command-IsSound outside plugin_mgr w a m sound slash own absent =
    if_elim IsSound (is_empty m.content) _ _ (λ _. sound)
      (λ _.
        if_elim IsSound (is_command m.content) _ _
          (λ _. by_verdict (
            handle_message-Answers outside w (record { loop = b; plugin_mgr = plugin_mgr }) m
              (key_of m) (str_trim_left m.content) own absent
              (IsSound-Quiet a b
                (load_missing-Quiet w a (key_of m) (session_manager_get a.session_mgr (key_of m))
                  sound.0 refl).0
                sound)))
          (λ plain. absurd (clash slash plain)))
  where
    b : AgentLoop
    b = load_missing w a (key_of m) (session_manager_get a.session_mgr (key_of m))

    clash : {x : Bool} → x ≡ true → x ≡ false → ⊥
    clash p q = cc

    by_verdict :
        {slash : Bool} {r : Bot × Bool}
        → ((slash ≡ true) × (r.1 ≡ true) × Answers (context_of m (key_of m)) b r.0.loop)
          ⊎ ((slash ≡ false) × (r.1 ≡ false) × (r.0 ≡ record { loop = b; plugin_mgr = plugin_mgr }))
        → IsSound r.0.loop
    by_verdict (inl (_, _, answered)) = answered.1
    by_verdict (inr (_, _, same)) =
        subst (λ (x : Bot). IsSound x.loop) (sym same)
          (IsSound-Quiet a b
            (load_missing-Quiet w a (key_of m) (session_manager_get a.session_mgr (key_of m))
              sound.0 refl).0
            sound)
