-- ===== src/Tools/Executor/Examples.antt =====
-- Runs of the tool executor, and the theorems on them.
use primagen.Base.{
  ℕ, ◌≡◌, refl, ◌≤◌, ◌-◌, ◌+◌, ◌*◌, false, List, [], ◌∷◌, ◌++◌, map, Option, none, some, Text,
  codes, text_eq, length, replicate,
}
use primagen.Messages.{Error, ErrorCode}
use primagen.LinkedQueue.{enqueue, dequeue}
use primagen.Tools.{Tool, ToolRegistry, tool_registry_get, find_tool}
use primagen.Tools.Executor.{
  ToolExecutionRequest, stopped, tool_executor_new, tool_executor_submit_with_user_data, execute,
  tool_registry_execute_with_user_data, worker_take,
}
use primagen.Tools.Executor.Pool.{
  Pool, taken, request_of, after_submit, after_take, after_call, after_shutdown, WorkerStep, takes,
  calls_back, Step, submits, works, shuts_down, Steps,
}
use primagen.Tools.Executor.Pool
use primagen.Tools.Executor.Delivery.{total, IsSound}
use primagen.Tools.Executor.Runs.{initial_pool, Steps-IsSound, Steps-when_stopped}
use primagen.Tools.Executor.Progress.{
  WorkerSteps, all_steps_left, WorkerSteps-bound_reached, stop-Steps,
}
use primagen.Tools.Executor.Progress

-- A tool that answers with its arguments.
abbrev echo : Tool → Option ℕ → Text → Text × Error
echo t own args = (args, record { code = ErrorCode.none; message = [] })

abbrev echo_registry : ToolRegistry
echo_registry = record {
  tools =
      record { name = codes "echo"; description = []; parameters = []; plugin_ref = false } ∷ [];
  capacity = 8;
}

abbrev one_worker : Pool ℕ
one_worker = initial_pool ℕ echo_registry 1

abbrev first_request : ToolExecutionRequest ℕ
first_request = request_of (codes "echo") (some (codes "hi")) none 7

abbrev with_request : Pool ℕ
with_request = after_submit one_worker 1 (codes "echo") (some (codes "hi")) none 7

abbrev at_request : Pool ℕ
at_request = after_take with_request [] []

abbrev shut_down : Pool ℕ
shut_down = after_shutdown at_request

abbrev called_back : Pool ℕ
called_back = after_call echo shut_down [] first_request []

abbrev all_done : Pool ℕ
all_done = after_take called_back [] []

to_with_request : Steps echo one_worker with_request
unfolding tool_executor_new
to_with_request = Pool.more Pool.start (submits 1 (codes "echo") (some (codes "hi")) none 7 refl)

to_at_request : Steps echo one_worker at_request
unfolding tool_executor_new tool_executor_submit_with_user_data
to_at_request = Pool.more to_with_request (works (takes [] [] refl refl))

to_shut_down : Steps echo one_worker shut_down
unfolding tool_executor_new tool_executor_submit_with_user_data worker_take
to_shut_down = Pool.more to_at_request (shuts_down refl)

to_called_back : Steps echo one_worker called_back
unfolding tool_executor_new tool_executor_submit_with_user_data worker_take enqueue dequeue
to_called_back = Pool.more to_shut_down (works (calls_back [] first_request [] refl))

to_all_done : Steps echo one_worker all_done
unfolding tool_executor_new tool_executor_submit_with_user_data worker_take enqueue dequeue
to_all_done = Pool.more to_called_back (works (takes [] [] refl refl))

Steps-IsSound_example : IsSound echo all_done
Steps-IsSound_example = Steps-IsSound echo echo_registry 1 all_done to_all_done

stopped_at_end : all_done.workers ≡ stopped ∷ []
unfolding tool_executor_new tool_executor_submit_with_user_data worker_take enqueue dequeue
stopped_at_end = refl

-- The call that was made, with the result.
called_at_end :
    all_done.called
    ≡ record {
      context = 7;
      tool_name = codes "echo";
      result = codes "hi";
      err = record { code = ErrorCode.none; message = [] };
    }
      ∷ []
unfolding tool_executor_new tool_executor_submit_with_user_data worker_take enqueue dequeue execute
    tool_registry_execute_with_user_data tool_registry_get find_tool text_eq
called_at_end = refl

Steps-when_stopped_example :
    ((late : List (ToolExecutionRequest ℕ)) × (all_done.submitted ≡ all_done.started ++ late))
    × (all_done.early ≤ length all_done.started)
    × ((w : ToolExecutionRequest ℕ → ℕ) → total w all_done.started ≡ total w all_done.finished)
    × (all_done.called ≡ map (execute echo all_done.executor.tool_reg) all_done.finished)
Steps-when_stopped_example =
    Steps-when_stopped echo echo_registry 1 0 all_done to_all_done stopped_at_end

last_step : WorkerSteps echo called_back 1 all_done
unfolding tool_executor_new tool_executor_submit_with_user_data worker_take enqueue dequeue
last_step = Progress.more Progress.start (takes [] [] refl refl)

WorkerSteps-bound_reached_example :
    1
    ≤ 2 * (length called_back.submitted - length called_back.started)
      + all_steps_left called_back.workers
WorkerSteps-bound_reached_example =
    WorkerSteps-bound_reached echo echo_registry 1 1 called_back all_done to_called_back last_step

stop-Steps_example :
    (n : ℕ) × (t : Pool ℕ) × WorkerSteps echo shut_down n t
    × (t.workers ≡ replicate (length shut_down.workers) stopped)
stop-Steps_example = stop-Steps echo echo_registry 1 shut_down to_shut_down refl
