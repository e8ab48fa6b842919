-- ===== src/Tools/Executor/Pool.antt =====
-- src/tools/tool_executor.c: the submitting threads, the workers and the shutdown, step by step.
use primagen.Base.{ℕ, ◌≡◌, true, false, List, [], ◌∷◌, ◌++◌, Option, none, some, length, Text}
use primagen.Messages.{Error}
use primagen.Tools.{Tool}
use primagen.Tools.Executor.{
  ToolExecutionRequest, ToolExecutor, Callback, Worker, waiting, running,
  tool_executor_submit_with_user_data, execute, is_blocked, worker_take, arguments_of,
}

-- The executor with its threads. `submitted`, `started` and `finished` are a record of the requests
-- in the order of those events, and `early` counts those submitted before the shutdown.
pub record Pool (C : Type 0) : Type 0 where
  pub executor : ToolExecutor C
  pub workers : List (Worker C)
  pub called : List (Callback C)
  pub submitted : List (ToolExecutionRequest C)
  pub started : List (ToolExecutionRequest C)
  pub finished : List (ToolExecutionRequest C)
  pub early : ℕ

module _ {C : Type 0} where
  -- The request a worker has just taken.
  abbrev pub taken : Worker C → List (ToolExecutionRequest C)
  taken (running r) = r ∷ []
  taken _ = []

  abbrev pub request_of : Text → Option Text → Option C → C → ToolExecutionRequest C
  request_of name args user_data context = record {
    tool_name = name;
    arguments = arguments_of args;
    tool_user_data_override = user_data;
    context = context;
  }

  abbrev pub after_submit : Pool C → ℕ → Text → Option Text → Option C → C → Pool C
  after_submit s p name args user_data context = record s {
    executor =
        (tool_executor_submit_with_user_data (some p) s.executor name args user_data context).0;
    submitted = s.submitted ++ request_of name args user_data context ∷ [];
  }

  abbrev pub after_take : Pool C → List (Worker C) → List (Worker C) → Pool C
  after_take s before after =
      let (worker, executor) = worker_take s.executor in
      record s {
        executor = executor;
        workers = before ++ worker ∷ after;
        started = s.started ++ taken worker;
      }

  abbrev pub after_call :
      (Tool → Option C → Text → Text × Error)
      → Pool C
      → List (Worker C)
      → ToolExecutionRequest C
      → List (Worker C)
      → Pool C
  after_call run s before r after = record s {
    workers = before ++ waiting ∷ after;
    called = s.called ++ execute run s.executor.tool_reg r ∷ [];
    finished = s.finished ++ r ∷ [];
  }

  -- `tool_executor_destroy` up to the joins.
  abbrev pub after_shutdown : Pool C → Pool C
  after_shutdown s = record s {
    executor = record s.executor { shutdown = true };
    early = length s.submitted;
  }

-- A step of a worker: it has the lock and need not wait, or its tool has returned.
pub data WorkerStep {C : Type 0} (run : Tool → Option C → Text → Text × Error) (s : Pool C)
    : Pool C → Type 0 where
  takes :
      (before after : List (Worker C))
      → s.workers ≡ before ++ waiting ∷ after
      → is_blocked s.executor ≡ false
      → WorkerStep run s (after_take s before after)
  calls_back :
      (before : List (Worker C)) (r : ToolExecutionRequest C) (after : List (Worker C))
      → s.workers ≡ before ++ running r ∷ after
      → WorkerStep run s (after_call run s before r after)

-- A step of any thread. A node gets an address that no node has.
pub data Step {C : Type 0} (run : Tool → Option C → Text → Text × Error) (s : Pool C)
    : Pool C → Type 0 where
  submits :
      (p : ℕ) (name : Text) (args : Option Text) (user_data : Option C) (context : C)
      → s.executor.request_queue.nodes p ≡ none
      → Step run s (after_submit s p name args user_data context)
  works : {t : Pool C} → WorkerStep run s t → Step run s t
  shuts_down : s.executor.shutdown ≡ false → Step run s (after_shutdown s)

pub data Steps {C : Type 0} (run : Tool → Option C → Text → Text × Error) (s : Pool C)
    : Pool C → Type 0 where
  start : Steps run s s
  more : {t u : Pool C} → Steps run s t → Step run t u → Steps run s u
