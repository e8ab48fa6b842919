-- ===== src/Tools/Executor/Progress.antt =====
-- src/tools/tool_executor.c: how long the workers go on, and that they end after the shutdown.
use primagen.Base.{
  ℕ, ◌+◌, ◌≤◌, ◌<◌, ◌≡◌, refl, ap, ◌∙◌, Bool, true, false, not, ◌&&◌, List, [], ◌∷◌, ◌++◌, Option,
  is_some, arith, length, length-append, ◌⊎◌, inl, inr, Text,
}
use primagen.Messages.{Error}
use primagen.LinkedQueue.Laws.{Holds}
use primagen.Tools.{Tool, ToolRegistry}
use primagen.Tools.Executor.{
  ToolExecutionRequest, ToolExecutor, Worker, waiting, stopped, running, is_empty, is_blocked,
  worker_take,
}
use primagen.Tools.Executor.Pool.{
  Pool, taken, after_take, after_call, WorkerStep, takes, calls_back, Steps,
}
use primagen.Tools.Executor.Delivery.{items, IsSound, Outcome, worker_take-Outcome}
use primagen.Tools.Executor.Runs.{initial_pool, WorkerStep-IsSound, Steps-IsSound}
use primagen.Base.{replicate, zero, suc, ◌-◌, ◌*◌}

-- A number of workers' steps with no other thread's between them.
pub data WorkerSteps {C : Type 0} (run : Tool → Option C → Text → Text × Error) (s : Pool C)
    : ℕ → Pool C → Type 0 where
  start : WorkerSteps run s 0 s
  more :
      {n : ℕ} {t u : Pool C}
      → WorkerSteps run s n t
      → WorkerStep run t u
      → WorkerSteps run s (suc n) u

module _ {C : Type 0} where
  -- What a worker has yet to do.
  abbrev pub steps_left : Worker C → ℕ
  steps_left stopped = 0
  steps_left waiting = 1
  steps_left (running r) = 2

  abbrev pub all_steps_left : List (Worker C) → ℕ
  all_steps_left [] = 0
  all_steps_left (x ∷ xs) = steps_left x + all_steps_left xs

  -- Two steps for each request in the queue, two for a running one, and one to stop.
  abbrev pub bound : Pool C → ℕ
  bound s = 2 * (length s.submitted - length s.started) + all_steps_left s.workers

  all_steps_left-at :
      (xs : List (Worker C)) (x : Worker C) (ys : List (Worker C))
      → all_steps_left (xs ++ x ∷ ys) ≡ all_steps_left xs + steps_left x + all_steps_left ys
  all_steps_left-at [] x ys = omega arith
  all_steps_left-at (y ∷ xs) x ys = omega (arith, all_steps_left-at xs x ys)

  -- Each step of a worker brings the end nearer.
  WorkerStep-bound :
      (run : Tool → Option C → Text → Text × Error) (s t : Pool C)
      → WorkerStep run s t
      → IsSound run s
      → bound t < bound s
  WorkerStep-bound run s t (takes before after at free)
        (cells, held, queued, counted, called, at_end, early) =
      by_outcome cells queued (worker_take s.executor).0 (worker_take s.executor).1
        (worker_take-Outcome s.executor cells held) held
    where
      by_outcome :
          (cells : List (ℕ × ToolExecutionRequest C))
          → s.submitted ≡ s.started ++ items cells
          → (x : Worker C) (e : ToolExecutor C) → Outcome s.executor cells x e
          → Holds s.executor.request_queue cells
          → 2 * (length s.submitted - length (s.started ++ taken x))
              + all_steps_left (before ++ x ∷ after)
            < bound s
      by_outcome [] queued stopped e h held = omega (
        arith,
        ap all_steps_left at,
        all_steps_left-at before waiting after,
        all_steps_left-at before stopped after,
        length-append s.started [],
      )
      by_outcome [] queued waiting e (same, off) held = absurd (
          stuck (is_empty s.executor) s.executor.shutdown (ap (λ o. not (is_some o)) held.0) off
            free)
        where
          stuck : (a b : Bool) → a ≡ true → b ≡ false → (a && not b) ≡ false → ⊥
          stuck a b h k l = ground arith
      by_outcome [] queued (running r) e h held = absurd h
      by_outcome ((p, r) ∷ cells) queued (running x) e h held = omega (
        arith,
        ap all_steps_left at,
        all_steps_left-at before waiting after,
        all_steps_left-at before (running x) after,
        length-append s.started (x ∷ []),
        ap length queued,
        length-append s.started (r ∷ items cells),
      )
      by_outcome ((p, r) ∷ cells) queued waiting e h held = absurd h
      by_outcome ((p, r) ∷ cells) queued stopped e h held = absurd h
  WorkerStep-bound run s t (calls_back before r after at) sound = omega (
    arith,
    ap all_steps_left at,
    all_steps_left-at before (running r) after,
    all_steps_left-at before waiting after,
  )

  WorkerSteps-bound :
      (run : Tool → Option C → Text → Text × Error) (s t : Pool C) (n : ℕ)
      → WorkerSteps run s n t
      → IsSound run s
      → IsSound run t × (n + bound t ≤ bound s)
  WorkerSteps-bound run s t n start sound = (sound, omega arith)
  WorkerSteps-bound run s t n (more {n = m} {t = u} before step) sound =
      let (sound', le) = WorkerSteps-bound run s u m before sound in
      (
        WorkerStep-IsSound run u t step sound',
        omega (arith, WorkerStep-bound run u t step sound', le),
      )

  -- From any state of an executor that its threads can reach, the workers alone can make only so many steps:
  -- two for each request in the queue, and one or two for each worker.
  pub WorkerSteps-bound_reached :
      (run : Tool → Option C → Text → Text × Error) (reg : ToolRegistry) (k n : ℕ) (s t : Pool C)
      → Steps run (initial_pool C reg k) s
      → WorkerSteps run s n t
      → n ≤ 2 * (length s.submitted - length s.started) + all_steps_left s.workers
  WorkerSteps-bound_reached run reg k n s t before steps =
      omega (arith, (WorkerSteps-bound run s t n steps (Steps-IsSound run reg k s before)).1)

  first_step :
      (run : Tool → Option C → Text → Text × Error) (s t u : Pool C) (n : ℕ)
      → WorkerStep run s t
      → WorkerSteps run t n u
      → WorkerSteps run s (suc n) u
  first_step run s t u n step start = more start step
  first_step run s t u n step (more {n = m} {t = v} before last) =
      more (first_step run s t v m step before) last

  Workers-cases :
      (ws : List (Worker C))
      → (ws ≡ replicate (length ws) stopped)
        ⊎ (((before : List (Worker C)) × (after : List (Worker C)) × (ws
                ≡ before ++ waiting ∷ after))
            ⊎ ((before : List (Worker C)) × (r : ToolExecutionRequest C) × (after : List (Worker C))
                × (ws ≡ before ++ running r ∷ after)))
  Workers-cases [] = inl refl
  Workers-cases (waiting ∷ ws) = inr (inl ([], ws, refl))
  Workers-cases (running r ∷ ws) = inr (inr ([], r, ws, refl))
  Workers-cases (stopped ∷ ws) = elim (Workers-cases ws) [
    | inl all ↦ inl (ap (◌∷◌ stopped) all)
    | inr (inl (before, after, at)) ↦ inr (inl (stopped ∷ before, after, ap (◌∷◌ stopped) at))
    | inr (inr (before, r, after, at)) ↦ inr (inr (stopped ∷ before, r, after, ap (◌∷◌ stopped) at))
  ]

  Outcome-shutdown :
      (e : ToolExecutor C) (cells : List (ℕ × ToolExecutionRequest C)) (x : Worker C)
      (e' : ToolExecutor C)
      → Outcome e cells x e'
      → e'.shutdown ≡ e.shutdown
  Outcome-shutdown e [] stopped e' (same, _) = ap (λ e. e.shutdown) same
  Outcome-shutdown e [] waiting e' (same, _) = ap (λ e. e.shutdown) same
  Outcome-shutdown e [] (running r) e' h = absurd h
  Outcome-shutdown e ((p, r) ∷ cells) (running x) e' (_, _, flag, _) = flag
  Outcome-shutdown e ((p, r) ∷ cells) waiting e' h = absurd h
  Outcome-shutdown e ((p, r) ∷ cells) stopped e' h = absurd h

  -- A worker's step leaves the shutdown flag and the number of workers.
  WorkerStep-keeps :
      (run : Tool → Option C → Text → Text × Error) (s t : Pool C)
      → WorkerStep run s t
      → IsSound run s
      → (t.executor.shutdown ≡ s.executor.shutdown) × (length t.workers ≡ length s.workers)
  WorkerStep-keeps run s t (takes before after at free)
        (cells, held, queued, counted, called, at_end, early) =
      let (x, e) = worker_take s.executor in
      (
        Outcome-shutdown s.executor cells x e (worker_take-Outcome s.executor cells held),
        omega (
          arith,
          ap length at,
          length-append before (waiting ∷ after),
          length-append before (x ∷ after),
        ),
      )
  WorkerStep-keeps run s t (calls_back before r after at) sound = (
    refl,
    omega (
      arith,
      ap length at,
      length-append before (running r ∷ after),
      length-append before (waiting ∷ after),
    ),
  )

  -- After the shutdown nothing blocks a worker.
  unblocked : (e : ToolExecutor C) → e.shutdown ≡ true → is_blocked e ≡ false
  unblocked e on = lem (is_empty e) e.shutdown on
    where
      lem : (a b : Bool) → b ≡ true → (a && not b) ≡ false
      lem a b h = ground arith

  abbrev Stop : (Tool → Option C → Text → Text × Error) → Pool C → Type 0
  Stop run s =
      (n : ℕ) × (t : Pool C) × WorkerSteps run s n t
      × (t.workers ≡ replicate (length s.workers) stopped)

  -- A worker that has not stopped has a step.
  WorkerStep-next :
      (run : Tool → Option C → Text → Text × Error) (s : Pool C)
      → s.executor.shutdown ≡ true
      → (s.workers ≡ replicate (length s.workers) stopped) ⊎ ((t : Pool C) × WorkerStep run s t)
  WorkerStep-next run s on = elim (Workers-cases s.workers) [
    | inl all ↦ inl all
    | inr (inl (before, after, at)) ↦
        inr (after_take s before after, takes before after at (unblocked s.executor on))
    | inr (inr (before, r, after, at)) ↦
        inr (after_call run s before r after, calls_back before r after at)
  ]

  Stop-within :
      (run : Tool → Option C → Text → Text × Error) (fuel : ℕ) (s : Pool C)
      → bound s ≤ fuel
      → IsSound run s
      → s.executor.shutdown ≡ true
      → Stop run s
  Stop-within run zero s le sound on = elim (WorkerStep-next run s on) [
    | inl all ↦ (0, s, start, all)
    | inr (t, step) ↦ absurd (omega (arith, le, WorkerStep-bound run s t step sound))
  ]
  Stop-within run (suc fuel) s le sound on = elim (WorkerStep-next run s on) [
    | inl all ↦ (0, s, start, all)
    | inr (t, step) ↦
        let (flag, count) = WorkerStep-keeps run s t step sound in
        let (n, u, steps, all) =
          Stop-within run fuel t (omega (arith, le, WorkerStep-bound run s t step sound))
            (WorkerStep-IsSound run s t step sound) (flag ∙ on) in
        (suc n, u, first_step run s t u n step steps, all ∙ ap (λ k. replicate k stopped) count)
  ]

  -- From any state after the shutdown that the threads can reach, some steps of the workers alone lead to a state in
  -- which every worker has stopped, so that the joins of `tool_executor_destroy` return if every tool does.
  pub stop-Steps :
      (run : Tool → Option C → Text → Text × Error) (reg : ToolRegistry) (k : ℕ) (s : Pool C)
      → Steps run (initial_pool C reg k) s
      → s.executor.shutdown ≡ true
      → (n : ℕ) × (t : Pool C) × WorkerSteps run s n t
        × (t.workers ≡ replicate (length s.workers) stopped)
  stop-Steps run reg k s steps on =
      Stop-within run (bound s) s (omega arith) (Steps-IsSound run reg k s steps) on
