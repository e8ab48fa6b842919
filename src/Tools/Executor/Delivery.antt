-- ===== src/Tools/Executor/Delivery.antt =====
-- src/tools/tool_executor.c: requests start in the order of their submission, and each that started
-- is at work or has called back.
use mathlib.Core.Path.{subst}
use mathlib.Core.List.{map-append}
use primagen.Base.{
  ℕ, ◌+◌, ◌≤◌, ◌≡◌, refl, sym, ap, ◌∙◌, Bool, true, false, not, ◌&&◌, List, [], ◌∷◌, ◌++◌,
  append_assoc, append-nil, map, Option, none, some, is_some, arith, length, length-append, if_elim,
  ◌⊎◌, inl, inr, Text,
}
use primagen.Messages.{Error}
use primagen.LinkedQueue.{LinkedQueue, dequeue}
use primagen.LinkedQueue.Laws.{Holds, enqueue-Holds, dequeue-Holds, dequeue_empty}
use primagen.Tools.{Tool}
use primagen.Tools.Executor.{
  ToolExecutionRequest, ToolExecutor, Worker, waiting, stopped, running,
  tool_executor_submit_with_user_data, execute, is_empty, given, worker_take,
}
use primagen.Tools.Executor.Pool.{
  Pool, taken, request_of, after_submit, after_take, after_call, after_shutdown,
}

module _ {C : Type 0} where
  -- How often requests of some kind stand in a list, and at the workers.
  abbrev pub total : (ToolExecutionRequest C → ℕ) → List (ToolExecutionRequest C) → ℕ
  total w [] = 0
  total w (r ∷ rs) = w r + total w rs

  abbrev pub at_work : List (Worker C) → List (ToolExecutionRequest C)
  at_work [] = []
  at_work (waiting ∷ ws) = at_work ws
  at_work (stopped ∷ ws) = at_work ws
  at_work (running r ∷ ws) = r ∷ at_work ws

  abbrev pub any_stopped : List (Worker C) → Bool
  any_stopped [] = false
  any_stopped (stopped ∷ ws) = true
  any_stopped (_ ∷ ws) = any_stopped ws

  pub total-append :
      (w : ToolExecutionRequest C → ℕ) (xs ys : List (ToolExecutionRequest C))
      → total w (xs ++ ys) ≡ total w xs + total w ys
  total-append w [] ys = omega arith
  total-append w (x ∷ xs) ys = omega (arith, total-append w xs ys)

  at_work-append : (xs ys : List (Worker C)) → at_work (xs ++ ys) ≡ at_work xs ++ at_work ys
  at_work-append [] ys = refl
  at_work-append (waiting ∷ xs) ys = at_work-append xs ys
  at_work-append (stopped ∷ xs) ys = at_work-append xs ys
  at_work-append (running r ∷ xs) ys = ap (◌∷◌ r) (at_work-append xs ys)

  pub total-at_work :
      (w : ToolExecutionRequest C → ℕ) (xs : List (Worker C)) (x : Worker C) (ys : List (Worker C))
      → total w (at_work (xs ++ x ∷ ys))
        ≡ total w (at_work xs) + total w (taken x) + total w (at_work ys)
  total-at_work w xs waiting ys =
      ap (total w) (at_work-append xs (waiting ∷ ys))
      ∙ omega (arith, total-append w (at_work xs) (at_work ys))
  total-at_work w xs stopped ys =
      ap (total w) (at_work-append xs (stopped ∷ ys))
      ∙ omega (arith, total-append w (at_work xs) (at_work ys))
  total-at_work w xs (running r) ys =
      ap (total w) (at_work-append xs (running r ∷ ys))
      ∙ omega (arith, total-append w (at_work xs) (r ∷ at_work ys))

  abbrev pub is_stopped : Worker C → Bool
  is_stopped stopped = true
  is_stopped _ = false

  any_stopped-skip :
      (xs : List (Worker C)) (x : Worker C) (ys : List (Worker C))
      → is_stopped x ≡ false
      → any_stopped (xs ++ x ∷ ys) ≡ any_stopped (xs ++ ys)
  any_stopped-skip [] waiting ys h = refl
  any_stopped-skip [] stopped ys h = ground arith
  any_stopped-skip [] (running r) ys h = refl
  any_stopped-skip (waiting ∷ xs) x ys h = any_stopped-skip xs x ys h
  any_stopped-skip (stopped ∷ xs) x ys h = refl
  any_stopped-skip (running r ∷ xs) x ys h = any_stopped-skip xs x ys h

  abbrev pub items : List (ℕ × ToolExecutionRequest C) → List (ToolExecutionRequest C)
  items [] = []
  items ((p, r) ∷ cells) = r ∷ items cells

  -- The queue holds exactly the submitted requests that have not started, in their order; those that
  -- started are, as often, at work or finished; the calls that were made are those of the finished
  -- requests; and no worker has stopped unless all requests from before the shutdown had started.
  abbrev pub IsSound : (Tool → Option C → Text → Text × Error) → Pool C → Type 0
  IsSound run s =
      (cells : List (ℕ × ToolExecutionRequest C)) × Holds s.executor.request_queue cells
      × (s.submitted ≡ s.started ++ items cells)
      × ((w : ToolExecutionRequest C → ℕ)
          → total w s.started ≡ total w s.finished + total w (at_work s.workers))
      × (s.called ≡ map (execute run s.executor.tool_reg) s.finished)
      × ((any_stopped s.workers ≡ false)
          ⊎ ((s.executor.shutdown ≡ true) × (s.early ≤ length s.started)))
      × (s.early ≤ length s.submitted)

  -- What taking the lock came to, for a worker that finds these cells.
  abbrev pub Outcome :
      ToolExecutor C → List (ℕ × ToolExecutionRequest C) → Worker C → ToolExecutor C → Type 0
  Outcome e [] stopped e' = (e' ≡ e) × (e.shutdown ≡ true)
  Outcome e [] waiting e' = (e' ≡ e) × (e.shutdown ≡ false)
  Outcome e [] (running r) e' = ⊥
  Outcome e ((p, r) ∷ cells) (running x) e' =
      (x ≡ r)
      × Holds e'.request_queue cells
      × (e'.shutdown ≡ e.shutdown)
      × (e'.tool_reg ≡ e.tool_reg)
  Outcome e ((p, r) ∷ cells) _ e' = ⊥

  pub worker_take-Outcome :
      (e : ToolExecutor C) (cells : List (ℕ × ToolExecutionRequest C))
      → Holds e.request_queue cells
      → Outcome e cells (worker_take e).0 (worker_take e).1
  unfolding worker_take
  worker_take-Outcome e [] h =
      let nothing : is_empty e ≡ true = ap (λ o. not (is_some o)) h.0 in
      if_elim (λ (x : Worker C × ToolExecutor C). Outcome e [] x.0 x.1) (e.shutdown && is_empty e) _
        _ (λ both. (refl, left e.shutdown (is_empty e) both))
        (λ not_both.
          subst (λ d. Outcome e [] (given e d).0 (given e d).1)
            (sym (dequeue_empty e.request_queue h))
            (refl, off e.shutdown (is_empty e) nothing not_both))
    where
      left : (a b : Bool) → (a && b) ≡ true → a ≡ true
      left a b h = ground arith

      off : (a b : Bool) → b ≡ true → (a && b) ≡ false → a ≡ false
      off a b h k = ground arith
  worker_take-Outcome e ((p, r) ∷ cells) h =
      let something : is_empty e ≡ false = ap (λ o. not (is_some o)) h.0.0 in
      if_elim (λ (x : Worker C × ToolExecutor C). Outcome e ((p, r) ∷ cells) x.0 x.1)
        (e.shutdown && is_empty e) _ _
        (λ both. absurd (neither e.shutdown (is_empty e) something both))
        (λ _. got (dequeue e.request_queue) (dequeue-Holds e.request_queue cells p r h))
    where
      neither : (a b : Bool) → b ≡ false → (a && b) ≡ true → ⊥
      neither a b h k = ground arith

      got :
          (d : Option (ToolExecutionRequest C) × LinkedQueue (ToolExecutionRequest C))
          → (d.0 ≡ some r) × Holds d.1 cells
          → Outcome e ((p, r) ∷ cells) (given e d).0 (given e d).1
      got (none, q) (same, held) = absurd (ground arith)
      got (some x, q) (same, held) = (ground arith, held, refl, refl)

  pub submit-IsSound :
      (run : Tool → Option C → Text → Text × Error) (s : Pool C) (p : ℕ) (name : Text)
      (args : Option Text) (user_data : Option C) (context : C)
      → s.executor.request_queue.nodes p ≡ none
      → IsSound run s
      → IsSound run (after_submit s p name args user_data context)
  unfolding tool_executor_submit_with_user_data
  submit-IsSound run s p name args user_data context free
        (cells, held, queued, counted, called, at_end, early) =
      let r = request_of name args user_data context in
      (
        cells ++ (p, r) ∷ [],
        enqueue-Holds s.executor.request_queue cells p r held free,
        ap (λ l. l ++ r ∷ []) queued
            ∙ append_assoc s.started (items cells) (r ∷ [])
            ∙ ap (λ l. s.started ++ l) (sym (items-snoc cells p r)),
        counted,
        called,
        at_end,
        omega (arith, early, length-append {0} s.submitted (r ∷ [])),
      )
    where
      items-snoc :
          (cells : List (ℕ × ToolExecutionRequest C)) (p : ℕ) (r : ToolExecutionRequest C)
          → items (cells ++ (p, r) ∷ []) ≡ items cells ++ r ∷ []
      items-snoc [] p r = refl
      items-snoc ((q, x) ∷ cells) p r = ap (◌∷◌ x) (items-snoc cells p r)

  pub shutdown-IsSound :
      (run : Tool → Option C → Text → Text × Error) (s : Pool C)
      → s.executor.shutdown ≡ false
      → IsSound run s
      → IsSound run (after_shutdown s)
  shutdown-IsSound run s off (cells, held, queued, counted, called, at_end, early) = (
    cells,
    held,
    queued,
    counted,
    called,
    elim at_end [ inl none_stopped ↦ inl none_stopped | inr (on, _) ↦ absurd (clash on off) ],
    omega arith,
  )
    where
      clash : {b : Bool} → b ≡ true → b ≡ false → ⊥
      clash p q = cc

  pub call-IsSound :
      (run : Tool → Option C → Text → Text × Error) (s : Pool C) (before : List (Worker C))
      (r : ToolExecutionRequest C) (after : List (Worker C))
      → s.workers ≡ before ++ running r ∷ after
      → IsSound run s
      → IsSound run (after_call run s before r after)
  call-IsSound run s before r after at (cells, held, queued, counted, called, at_end, early) = (
    cells,
    held,
    queued,
    λ w. omega (
      arith,
      counted w,
      ap (λ ws. total w (at_work ws)) at,
      total-at_work w before (running r) after,
      total-at_work w before waiting after,
      total-append w s.finished (r ∷ []),
    ),
    ap (λ l. l ++ execute run s.executor.tool_reg r ∷ []) called
        ∙ sym (map-append (execute run s.executor.tool_reg) s.finished (r ∷ [])),
    subst (λ b. (b ≡ false) ⊎ ((s.executor.shutdown ≡ true) × (s.early ≤ length s.started)))
        (ap any_stopped at
          ∙ any_stopped-skip before (running r) after refl
          ∙ sym (any_stopped-skip before waiting after refl))
        at_end,
    early,
  )

  -- The pool with what a worker came to under the lock.
  abbrev with_worker :
      Pool C → List (Worker C) → List (Worker C) → Worker C → ToolExecutor C → Pool C
  with_worker s before after x e = record s {
    executor = e;
    workers = before ++ x ∷ after;
    started = s.started ++ taken x;
  }

  pub take-IsSound :
      (run : Tool → Option C → Text → Text × Error) (s : Pool C) (before after : List (Worker C))
      → s.workers ≡ before ++ waiting ∷ after
      → IsSound run s
      → IsSound run (after_take s before after)
  take-IsSound run s before after at (cells, held, queued, counted, called, at_end, early) =
      came_to cells held queued (worker_take s.executor).0 (worker_take s.executor).1
        (worker_take-Outcome s.executor cells held)
    where
      clash : {b : Bool} → b ≡ true → b ≡ false → ⊥
      clash p q = cc

      -- The workers but the one that took the lock, before and after.
      kept :
          (x : Worker C)
          → is_stopped x ≡ false
          → any_stopped s.workers ≡ any_stopped (before ++ x ∷ after)
      kept x h =
          ap any_stopped at
          ∙ any_stopped-skip before waiting after refl
          ∙ sym (any_stopped-skip before x after h)

      count :
          (x : Worker C) (w : ToolExecutionRequest C → ℕ)
          → total w (s.started ++ taken x)
            ≡ total w s.finished + total w (at_work (before ++ x ∷ after))
      count x w = omega (
        arith,
        counted w,
        ap (λ ws. total w (at_work ws)) at,
        total-at_work w before waiting after,
        total-at_work w before x after,
        total-append w s.started (taken x),
      )

      came_to :
          (cells : List (ℕ × ToolExecutionRequest C))
          → Holds s.executor.request_queue cells
          → s.submitted ≡ s.started ++ items cells
          → (x : Worker C) (e : ToolExecutor C) → Outcome s.executor cells x e
          → IsSound run (with_worker s before after x e)
      came_to [] held queued stopped e (same, on) = (
        [],
        subst (λ e. Holds e.request_queue []) (sym same) held,
        queued ∙ ap (λ l. l ++ []) (sym (append-nil s.started)),
        count stopped,
        subst (λ e. s.called ≡ map (execute run e.tool_reg) s.finished) (sym same) called,
        inr (
          ap (λ e. e.shutdown) same ∙ on,
          omega (
            arith,
            early,
            ap length queued,
            ap length (append-nil s.started),
            length-append s.started [],
          ),
        ),
        early,
      )
      came_to [] held queued waiting e (same, off) = (
        [],
        subst (λ e. Holds e.request_queue []) (sym same) held,
        queued ∙ ap (λ l. l ++ []) (sym (append-nil s.started)),
        count waiting,
        subst (λ e. s.called ≡ map (execute run e.tool_reg) s.finished) (sym same) called,
        elim at_end [
          | inl none_stopped ↦ inl (sym (kept waiting refl) ∙ none_stopped)
          | inr (on, _) ↦ absurd (clash on off)
        ],
        early,
      )
      came_to [] held queued (running r) e h = absurd h
      came_to ((p, r) ∷ cells) held queued (running x) e (same, held', flag, reg) = (
        cells,
        held',
        queued
            ∙ sym (
                append_assoc s.started (x ∷ []) (items cells)
                ∙ ap (λ y. s.started ++ y ∷ items cells) same),
        count (running x),
        subst (λ g. s.called ≡ map (execute run g) s.finished) (sym reg) called,
        elim at_end [
          | inl none_stopped ↦ inl (sym (kept (running x) refl) ∙ none_stopped)
          | inr (on, le) ↦ inr (flag ∙ on, omega (arith, le, length-append s.started (x ∷ [])))
        ],
        early,
      )
      came_to ((p, r) ∷ cells) held queued waiting e h = absurd h
      came_to ((p, r) ∷ cells) held queued stopped e h = absurd h
