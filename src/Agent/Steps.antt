-- ===== src/Agent/Steps.antt =====
-- src/agent/agent_loop.c: the steps of the processing worker, and what holds after any of them.
use mathlib.Core.Path.{subst}
use primagen.Base.{
  ℕ, ◌≡◌, ◌≢◌, refl, sym, ap, Bool, true, false, List, [], ◌∷◌, ◌++◌, Option, none, some, arith, ℤ,
  Text, text_eq, text_eq_refl, copy_to,
}
use primagen.Messages.{LlmResult, ToolResult, InboundMessage}
use primagen.Session.Table.{SessionManager}
use primagen.Session.File.{SessionFile}
use primagen.Session.Lookup.{IsTable}
use primagen.Tools.{ToolRegistry}
use primagen.Orchestrator.{
  ActiveTask, SessionState, idle, waiting_llm, waiting_tool, has_id, has_key, find_task,
  session_orchestrator_new,
}
use primagen.Agent.{AgentLoop, World, ToolRun}
use primagen.Agent.LlmResults.{handle_event_llm_result}
use primagen.Agent.ToolResults.{handle_event_tool_result, max_turns}
use primagen.Agent.Inbound.{process_inbound_message, is_command}
use primagen.Utils.{str_trim_left}
use primagen.Agent.Commands.{Outside, PluginManager, parse_slash_command}
use primagen.Agent.Dispatcher.{dispatch}
use primagen.Agent.Answers.{AllOwn, command-IsSound}
use primagen.Agent.Flow.{InFlight, Phase, count_calls, count_runs}
use primagen.Agent.Phases.{held, IsSound, task_of}
use primagen.Agent.Events.{Ready, handle_event_llm_result-IsSound, handle_event_tool_result-IsSound}
use primagen.Agent.InFlight.{without_call, without_run, call-Ready, run-Ready}
use primagen.Agent.Starting.{process_inbound_message-IsSound}

module _ (outside : Outside) where
  -- One step of the worker: a message that is no command, whose task would get an id that no task
  -- has; a command, where the registered ones are the dispatcher's own and no skill has its name; the result of one of the LLM calls; or the result of one of the tool runs. Results come in
  -- any order, and one that is handled is in flight no more.
  pub data Step : AgentLoop → AgentLoop → Type 0 where
    takes_message :
        {a : AgentLoop} (w : World) (m : InboundMessage) (plugin_mgr : PluginManager)
        → is_command m.content ≡ false
        → find_task (has_id (copy_to 32 w.task_id)) a.session_orchestrator.active_tasks ≡ none
        → Step a (process_inbound_message (dispatch outside plugin_mgr) w a m)
    takes_command :
        {a : AgentLoop} (w : World) (m : InboundMessage) (plugin_mgr : PluginManager)
        → is_command m.content ≡ true
        → AllOwn plugin_mgr.commands
        → outside.load_skill (parse_slash_command (str_trim_left (str_trim_left m.content)) 64).0
          ≡ none
        → Step a (process_inbound_message (dispatch outside plugin_mgr) w a m)
    takes_llm_result :
        {a : AgentLoop} (w : World) (event : LlmResult) (xs ys : List Text)
        → a.llm_calls ≡ xs ++ event.session_key ∷ ys
        → Step a (handle_event_llm_result w (without_call a (xs ++ ys)) event)
    takes_tool_result :
        {a : AgentLoop} (w : World) (event : ToolResult) (run : ToolRun) (xs ys : List ToolRun)
        → a.tool_runs ≡ xs ++ run ∷ ys
        → event.session_key ≡ run.session_key
        → Step a (handle_event_tool_result w (without_run a (xs ++ ys)) event)

  pub data Steps : AgentLoop → AgentLoop → Type 0 where
    start : {a : AgentLoop} → Steps a a
    more : {a b c : AgentLoop} → Steps a b → Step b c → Steps a c

-- The loop of `agent_loop_new`, before it has handled anything.
unfoldable pub agent_loop_new :
    SessionManager → (Text → SessionFile) → ToolRegistry → ℤ → ℤ → AgentLoop
unfolding session_orchestrator_new
agent_loop_new session_mgr files tool_registry max_tool_iterations memory_window = record {
  session_mgr = session_mgr;
  files = files;
  tool_registry = tool_registry;
  max_tool_iterations = max_tool_iterations;
  memory_window = memory_window;
  session_orchestrator = session_orchestrator_new;
  sent = [];
  llm_calls = [];
  tool_runs = [];
}

pub agent_loop_new-IsSound :
    (mgr : SessionManager) (files : Text → SessionFile) (reg : ToolRegistry) (limit window : ℤ)
    → IsTable mgr
    → IsSound (agent_loop_new mgr files reg limit window)
unfolding agent_loop_new session_orchestrator_new find_task
agent_loop_new-IsSound mgr files reg limit window t = (t, (tt, λ key. (refl, refl)))

-- Every step keeps the worker sound: its tasks have distinct ids and sessions, and each one's session
-- is in the table; a session without a task has nothing in flight, a task that waits for the model
-- has one call in flight and no tool run, and a task that waits for tools has no call and exactly as
-- many tool runs in flight as it counts, at least one; and a task's turn is between one and the
-- configured limit. A step is a message that is no command, with a task id that no task has; a command, where
-- the registered ones are the dispatcher's own and no skill file has its name; or the
-- result of a call or of a run that is in flight.
pub Step-IsSound : (outside : Outside) (a b : AgentLoop) → IsSound a → Step outside a b → IsSound b
Step-IsSound outside a b s (takes_message w m plugin_mgr plain fresh) =
    process_inbound_message-IsSound (dispatch outside plugin_mgr) w a m s plain fresh
Step-IsSound outside a b s (takes_command w m plugin_mgr slash own absent) =
    command-IsSound outside plugin_mgr w a m s slash own absent
Step-IsSound outside a b s (takes_llm_result w event xs ys e) =
    let (t, ready) = call-Ready a event.session_key xs ys s e in
    handle_event_llm_result-IsSound w (without_call a (xs ++ ys)) event t ready
Step-IsSound outside a b s (takes_tool_result w event run xs ys e k) =
    let (t, ready, state, pending) = run-Ready a run xs ys s e in
    handle_event_tool_result-IsSound w (without_run a (xs ++ ys)) event t
      (count_runs run.session_key (xs ++ ys))
      (subst (λ key. Ready key (without_run a (xs ++ ys)) t (count_runs run.session_key (xs ++ ys)))
        (sym k) ready)
      state pending

pub Steps-IsSound :
    (outside : Outside) (a b : AgentLoop) → IsSound a → Steps outside a b → IsSound b
Steps-IsSound outside a b s start = s
Steps-IsSound outside a b s (more {b = c} steps last) =
    Step-IsSound outside c b (Steps-IsSound outside a c s steps) last

no_tasks : (ts : List ActiveTask) → ((key : Text) → find_task (has_key key) ts ≡ none) → ts ≡ []
unfolding find_task
no_tasks [] h = refl
no_tasks (t ∷ ts) h = absurd (hit (text_eq_refl t.session_key) (h t.session_key))
  where
    hit :
        text_eq t.session_key t.session_key ≡ true
        → find_task (has_key t.session_key) (t ∷ ts) ≢ none
    hit e p = ground arith

-- No task is ever stuck: whatever steps a new worker on a table with all its buckets has made,
-- once no LLM call and no tool run is in flight, it has no task left.
pub Steps-no_stuck_task :
    (outside : Outside) (mgr : SessionManager) (files : Text → SessionFile) (reg : ToolRegistry)
    (limit window : ℤ) (b : AgentLoop)
    → IsTable mgr
    → Steps outside (agent_loop_new mgr files reg limit window) b
    → b.llm_calls ≡ []
    → b.tool_runs ≡ []
    → b.session_orchestrator.active_tasks ≡ []
Steps-no_stuck_task outside mgr files reg limit window b t steps c r =
    let a = agent_loop_new mgr files reg limit window in
    let (tb, (d, all)) =
      Steps-IsSound outside a b (agent_loop_new-IsSound mgr files reg limit window t) steps in
    no_tasks b.session_orchestrator.active_tasks (λ key.
      none_left (max_turns b) (task_of b key) (count_calls key b.llm_calls)
        (count_runs key b.tool_runs) (held b key) (ap (count_calls key) c) (ap (count_runs key) r)
        (all key))
  where
    none_left :
        (limit : ℕ) (found : Option ActiveTask) (calls runs : ℕ) (has : Bool)
        → calls ≡ 0
        → runs ≡ 0
        → Phase limit found calls runs has
        → found ≡ none
    none_left limit none calls runs has p q h = refl
    none_left limit (some t) calls runs has p q (low, high, h, f) = absurd (go t.state f)
      where
        go : (st : SessionState) → InFlight st t.pending_tool_count calls runs → ⊥
        go idle f = f
        go waiting_llm (one, zero_runs) = omega (arith, one)
        go waiting_tool (zero_calls, pending, some_runs) = omega (arith, some_runs)
