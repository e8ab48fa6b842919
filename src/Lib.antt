-- ===== src/Lib.antt =====
-- Primagen: the core of the agent, as it runs between a message bus, a session store and a model.
--
-- A message arrives on a ring of src/bus/message_bus.c. The processing worker of
-- src/agent/agent_loop.c takes it: it finds or loads the session of the conversation
-- (src/session/session.c), adds the message, makes a task in the list of
-- src/agent/session_orchestrator.c and asks the model. The answer comes back as an event: a text
-- ends the task, and tool calls put it in the state that waits for tools until each has answered,
-- whereupon the model is asked again, up to a limit on the turns. Sessions are saved to a file of
-- JSON lines, by rewriting or by appending, and read again when a conversation is taken up. A message
-- that begins with a slash goes to the command dispatcher instead. Tools run on the threads of a pool,
-- after their arguments were checked against a schema, and a cron service sends messages of its own
-- when its jobs are due.
--
-- The files:
--   Base         shared names: tests, lists over the native numbers, byte texts, C's signed integers
--   Messages     src/include/message.h, src/common/message.c: messages, tool calls, events, errors
--   Bus          src/bus/message_bus.c: Queue has the ring and its operations; Positions and Fifo
--                relate it to the list of its messages; Sending, Runs and Waiting are its laws
--   Session      src/session/session.c: Session has add and rollback, File the save and the load,
--                Context the window for the model, Table the hash table; Reading, Persist, Recovery
--                and Rollback relate a session to its file, ToolChain and Callers say which starts of a window
--                are clean, Window and Lookup are laws
--   Orchestrator src/agent/session_orchestrator.c: the list of tasks, its operations and their laws
--   Tools        src/tools/tool.c: the registry of tools; Executor has the pool of src/tools/tool_executor.c,
--                Pool its threads step by step, and Delivery, Runs and Progress what holds of every run
--   LinkedQueue  the linked queue with head and tail pointers that the tool executor writes out
--   Validation   src/tools/tool_validation.c: Cast has the casts and the checks of a tool call's arguments,
--                Conformity what a schema accepts, and Verdict what is answered
--   Cron         src/cron/cron.c: Field and Schedule read schedules, Jobs and Store have the list and its
--                file, Worker a pass over the list; NextMinute, Ahead, Linked, Passes, Runs and JobLaws are laws
--   Libc         the conversions of the C library that the sources call
--   Utils        src/common/utils.c: trimming, thought stripping, escaping, the token estimate
--   Agent        src/agent/agent_loop.c: Agent has the state and what the handlers share; LlmResults,
--                ToolResults and Inbound the handlers; Flow says what may be in flight for a task,
--                Quiet, Phases and Turns follow the parts of a handler, Events and Starting the
--                handlers, InFlight reads a task's state from what is in flight, and Steps has the
--                steps of the worker; ReplyTexts and Replies say what the user is told; Commands has the slash
--                commands of src/agent/command_dispatcher.c, Dispatcher who handles one, with
--                src/agent/tool_router.c, and Dispatch and Answers their laws
-- An Examples file beside a part evaluates it at concrete inputs.
--
-- How the code is read. Each function keeps its name; a struct is a record, a pointer to a session
-- is its key in the table, and a function that writes returns the new state. A lock makes a
-- function one step. `size_t` and `uint32_t` arithmetic wraps where the code computes with it (the
-- capacity of a ring and the hash); counts of messages, tasks and turns are unbounded. Texts are
-- lists of bytes without the terminating NUL, and fixed buffers truncate (`copy_to`). What the
-- outside answers (the time, `malloc` of a ring, the file system, the memory files, the
-- confirmation of a reminder, the id of a new task) is an argument, `World` in Agent. The JSON of
-- a session's file is kept as the trees that its lines hold; how many bytes cJSON prints a line with is
-- an argument of the load, whose buffer has 4096, and what of the written lines reaches a file is an
-- answer of the disk, since the code does not look whether `fprintf` and `fclose` succeed.
--
-- Loops are recursion on the list or on fuel: `copy_live` and `drain` have the capacity of the ring,
-- which is more than the slots they visit, `adjust_loop` one round more than its start, which each
-- round but the last lowers, `await_empty` the hundred rounds of the code, `search` the minutes of 366
-- days, and `worker_pass` a round more than there are jobs, which is enough where callbacks leave the
-- list alone. The workers of the tool executor are steps of a relation, with a bound on their number.
--
-- Not modelled: the parsing of reminders, the synchronous execution of a tool with a timeout, and the
-- text of the cron service's status; the built-in tools, providers, plugins, skills, memory files,
-- configuration, console and logging, which are input and output; the inbox and the shutdown of the
-- worker; reference counts and the freeing of memory; and the vendored cJSON and mongoose. The steps of
-- the worker leave out commands of plugins and of skills, whose definitions Dispatcher has. The allocation
-- of small objects succeeds.
pub mod Agent
pub mod Base
pub mod Bus
pub mod Cron
pub mod Libc
pub mod LinkedQueue
pub mod Messages
pub mod Orchestrator
pub mod Session
pub mod Tools
pub mod Utils
pub mod Validation
