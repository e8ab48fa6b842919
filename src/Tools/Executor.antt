-- ===== src/Tools/Executor.antt =====
-- src/tools/tool_executor.c: requests wait in a linked queue, and worker threads take them, run the
-- tool and call back. What a callback is called with is kept in order; a context and a tool's user
-- data are pointers, here any type. The steps of the threads are in Executor.Pool.
pub mod Pool
pub mod Delivery
pub mod Runs
pub mod Progress
pub mod Examples
use primagen.Base.{
  ℕ, ◌==◌, Bool, true, false, not, ◌&&◌, List, [], ◌∷◌, ◌++◌, Option, none, some, is_some,
  if◌then◌else◌, Text, codes, copy_to,
}
use primagen.Messages.{Error, ErrorCode, error_new}
use primagen.LinkedQueue.{LinkedQueue, empty, enqueue, dequeue}
use primagen.Tools.{Tool, ToolRegistry, tool_registry_get}

-- Every caller gives a callback. A tool's own data is `none` here, and what the request brings instead is `some`.
pub record ToolExecutionRequest (C : Type 0) : Type 0 where
  pub tool_name : Text
  pub arguments : Text
  pub tool_user_data_override : Option C
  pub context : C

pub record ToolExecutor (C : Type 0) : Type 0 where
  pub request_queue : LinkedQueue (ToolExecutionRequest C)
  pub num_workers : ℕ
  pub shutdown : Bool
  pub tool_reg : ToolRegistry

-- One call of a callback.
pub record Callback (C : Type 0) : Type 0 where
  pub context : C
  pub tool_name : Text
  pub result : Text
  pub err : Error

-- `num_workers` of 0 stands for two workers.
unfoldable pub tool_executor_new : (C : Type 0) → ToolRegistry → ℕ → ToolExecutor C
tool_executor_new C tool_reg num_workers = record {
  request_queue = empty;
  num_workers = if num_workers == 0 then 2 else num_workers;
  shutdown = false;
  tool_reg = tool_reg;
}

-- Where a worker stands: before the lock, at work, or at its end.
pub data Worker (C : Type 0) : Type 0 where
  waiting stopped : Worker C
  running : ToolExecutionRequest C → Worker C

abbrev pub arguments_of : Option Text → Text
arguments_of none = codes "{}"
arguments_of (some t) = t

module _ {C : Type 0} where
  -- The node of the request, if its memory could be had, at the address that `malloc` gave; and what
  -- is returned, 0 or -1, is whether it was queued.
  unfoldable pub tool_executor_submit_with_user_data :
      Option ℕ → ToolExecutor C → Text → Option Text → Option C → C → ToolExecutor C × Bool
  unfolding enqueue
  tool_executor_submit_with_user_data none executor tool_name arguments tool_user_data context =
      (executor, false)
  tool_executor_submit_with_user_data (some p) executor tool_name arguments tool_user_data context =
      let request : ToolExecutionRequest C = record {
        tool_name = tool_name;
        arguments = arguments_of arguments;
        tool_user_data_override = tool_user_data;
        context = context;
      } in
      (record executor { request_queue = enqueue executor.request_queue p request }, true)

  -- Without data of its own for the tool.
  unfoldable pub tool_executor_submit :
      Option ℕ → ToolExecutor C → Text → Option Text → C → ToolExecutor C × Bool
  unfolding tool_executor_submit_with_user_data
  tool_executor_submit p executor tool_name arguments context =
      tool_executor_submit_with_user_data p executor tool_name arguments none context

  -- `own` is what the tool's own data is; `run` is what the tool does.
  unfoldable pub tool_registry_execute_with_user_data :
      (Tool → Option C → Text → Text × Error) → ToolRegistry → Text → Text → Option C → Text × Error
  unfolding tool_registry_get error_new
  tool_registry_execute_with_user_data run reg name args override =
      elim (tool_registry_get reg name) [
        | none ↦ ([], error_new ErrorCode.tool (copy_to 256 (codes "Tool not found: " ++ name)))
        | some t ↦ run t override args
      ]

  abbrev pub callback_of : Text × Error → ToolExecutionRequest C → Callback C
  callback_of (result, err) request = record {
    context = request.context;
    tool_name = request.tool_name;
    result = result;
    err = err;
  }

  -- What a worker does with a request outside the lock.
  unfoldable pub execute :
      (Tool → Option C → Text → Text × Error) → ToolRegistry → ToolExecutionRequest C → Callback C
  unfolding tool_registry_execute_with_user_data
  execute run reg r =
      callback_of
        (tool_registry_execute_with_user_data run reg r.tool_name r.arguments
          r.tool_user_data_override)
        r

  abbrev pub is_empty : ToolExecutor C → Bool
  is_empty executor = not (is_some executor.request_queue.head)

  -- The wait on the condition variable goes on.
  abbrev pub is_blocked : ToolExecutor C → Bool
  is_blocked executor = is_empty executor && not executor.shutdown

  abbrev pub given :
      ToolExecutor C
      → Option (ToolExecutionRequest C) × LinkedQueue (ToolExecutionRequest C)
      → Worker C × ToolExecutor C
  given executor (none, queue) = (waiting, record executor { request_queue = queue })
  given executor (some r, queue) = (running r, record executor { request_queue = queue })

  -- What follows the wait under the lock: the end of the worker, or a request.
  unfoldable pub worker_take : ToolExecutor C → Worker C × ToolExecutor C
  unfolding dequeue
  worker_take executor =
      if executor.shutdown && is_empty executor
      then (stopped, executor)
      else given executor (dequeue executor.request_queue)
