-- ===== src/Tools/Executor/Runs.antt =====
-- src/tools/tool_executor.c: what holds however the threads interleave.
use primagen.Base.{
  ℕ, ◌≤◌, ◌≡◌, refl, ap, ◌∙◌, Bool, true, false, List, [], ◌++◌, map, Option, arith, length, inl,
  inr, Text,
}
use primagen.Messages.{Error}
use primagen.LinkedQueue.Laws.{empty-Holds}
use primagen.Tools.{Tool, ToolRegistry}
use primagen.Tools.Executor.{ToolExecutionRequest, waiting, stopped, tool_executor_new, execute}
use primagen.Tools.Executor.Pool.{
  Pool, WorkerStep, takes, calls_back, Step, submits, works, shuts_down, Steps, start, more,
}
use primagen.Tools.Executor.Delivery.{
  total, at_work, any_stopped, items, IsSound, take-IsSound, submit-IsSound, shutdown-IsSound,
  call-IsSound,
}
use primagen.Base.{replicate, zero, suc}

-- The pool that `tool_executor_new` starts, every worker before its first lock.
abbrev pub initial_pool : (C : Type 0) → ToolRegistry → ℕ → Pool C
unfolding tool_executor_new
initial_pool C reg num_workers =
    let executor = tool_executor_new C reg num_workers in
    record {
      executor = executor;
      workers = replicate executor.num_workers waiting;
      called = [];
      submitted = [];
      started = [];
      finished = [];
      early = 0;
    }

module _ {C : Type 0} where
  all_waiting :
      (n : ℕ)
      → (any_stopped {C = C} (replicate n waiting) ≡ false)
        × (at_work {C = C} (replicate n waiting) ≡ [])
  all_waiting zero = (refl, refl)
  all_waiting (suc n) = all_waiting n

  all_stopped_lem :
      (n : ℕ)
      → (any_stopped {C = C} (replicate (suc n) stopped) ≡ true)
        × (at_work {C = C} (replicate (suc n) stopped) ≡ [])
  all_stopped_lem zero = (refl, refl)
  all_stopped_lem (suc n) = (refl, (all_stopped_lem n).1)

  initial-IsSound :
      (run : Tool → Option C → Text → Text × Error) (reg : ToolRegistry) (n : ℕ)
      → IsSound run (initial_pool C reg n)
  unfolding tool_executor_new
  initial-IsSound run reg n =
      let (none_stopped, none_running) = all_waiting (initial_pool C reg n).executor.num_workers in
      (
        [],
        empty-Holds (ToolExecutionRequest C),
        refl,
        λ w. omega (arith, ap (total w) none_running),
        refl,
        inl none_stopped,
        omega arith,
      )

  pub WorkerStep-IsSound :
      (run : Tool → Option C → Text → Text × Error) (s t : Pool C)
      → WorkerStep run s t
      → IsSound run s
      → IsSound run t
  WorkerStep-IsSound run s t (takes before after at _) sound =
      take-IsSound run s before after at sound
  WorkerStep-IsSound run s t (calls_back before r after at) sound =
      call-IsSound run s before r after at sound

  Step-IsSound :
      (run : Tool → Option C → Text → Text × Error) (s t : Pool C)
      → Step run s t
      → IsSound run s
      → IsSound run t
  Step-IsSound run s t (submits p name args user_data context free) sound =
      submit-IsSound run s p name args user_data context free sound
  Step-IsSound run s t (works step) sound = WorkerStep-IsSound run s t step sound
  Step-IsSound run s t (shuts_down off) sound = shutdown-IsSound run s off sound

  Steps-IsSound_from :
      (run : Tool → Option C → Text → Text × Error) (s t : Pool C)
      → Steps run s t
      → IsSound run s
      → IsSound run t
  Steps-IsSound_from run s t start sound = sound
  Steps-IsSound_from run s t (more {t = u} before step) sound =
      Step-IsSound run u t step (Steps-IsSound_from run s u before sound)

  -- However submissions, the workers' steps and the shutdown interleave from a new executor on, where every
  -- node gets an address that is free: the queue links exactly the requests that were submitted and have not
  -- started, in the order of their submission, so that requests start in that order, none is lost and none starts
  -- twice; each that started is at one worker or has finished, as often as it started; the callbacks
  -- made are those of the finished requests, each with what the tool returned for it; and a worker
  -- has stopped only after the shutdown, when all requests submitted before it had started.
  pub Steps-IsSound :
      (run : Tool → Option C → Text → Text × Error) (reg : ToolRegistry) (n : ℕ) (s : Pool C)
      → Steps run (initial_pool C reg n) s
      → IsSound run s
  Steps-IsSound run reg n s steps =
      Steps-IsSound_from run (initial_pool C reg n) s steps (initial-IsSound run reg n)

  -- Once all workers of an executor have stopped, however the threads interleaved, the requests that
  -- ran are the first of those submitted, all from before the shutdown among them; each has finished, as often as it
  -- started, and has been called back with what its tool returned. What else was submitted came
  -- after the shutdown; it has not run and has not been called back.
  pub Steps-when_stopped :
      (run : Tool → Option C → Text → Text × Error) (reg : ToolRegistry) (n k : ℕ) (s : Pool C)
      → Steps run (initial_pool C reg n) s
      → s.workers ≡ replicate (suc k) stopped
      → ((late : List (ToolExecutionRequest C)) × (s.submitted ≡ s.started ++ late))
        × (s.early ≤ length s.started)
        × ((w : ToolExecutionRequest C → ℕ) → total w s.started ≡ total w s.finished)
        × (s.called ≡ map (execute run s.executor.tool_reg) s.finished)
  Steps-when_stopped run reg n k s steps stop =
      let (cells, held, queued, counted, called, at_end, early) = Steps-IsSound run reg n s steps in
      (
        (items cells, queued),
        elim at_end [
          | inl none_stopped ↦
              absurd (clash (ap any_stopped stop ∙ (all_stopped_lem k).0) none_stopped)
          | inr (_, le) ↦ le
        ],
        λ w. omega (
          arith,
          counted w,
          ap (λ ws. total w (at_work ws)) stop,
          ap (total w) (all_stopped_lem k).1,
        ),
        called,
      )
    where
      clash : {b : Bool} → b ≡ true → b ≡ false → ⊥
      clash p q = cc
