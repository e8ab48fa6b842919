-- ===== src/Cron/Passes.antt =====
-- src/cron/cron.c: a pass of the worker whose callbacks leave the list alone, against the jobs one by one.
use mathlib.Core.Path.{subst}
use primagen.Base.{
  ℕ, zero, suc, ◌<◌, ◌≡◌, refl, sym, ap, ◌∙◌, Bool, true, false, ◌||◌, List, [], ◌∷◌, ◌++◌,
  append_assoc, append-nil, Option, none, some, if◌then◌else◌, arith, length, Bool-cases, inl, inr,
  Text,
}
use primagen.Cron.{CronJob, copy_job}
use primagen.Cron.Schedule.{
  Clock, CronSchedule, invalid, one_time, recurring, cron_schedule_next_run,
}
use primagen.Cron.Worker.{
  Nodes, Pass, Turn, broken, goes_on, Outcome, undefined, done, head_of, node_at, set_node, unlink,
  rescheduled, removed, settle_found, after_callback, is_due, node_turn, pass, worker_pass,
}
use primagen.Cron.Linked.{
  Distinct, Distinct-without, Distinct-replaced, last_node, last_node-snoc, node_at_lem,
  behind_node_lem, find_by_id_lem, set_node_lem, unlink_lem, if_true, if_false,
}

-- What becomes of a due job by its schedule: a recurring one stays with its next time.
abbrev pub kept_as : CronSchedule → CronJob → Option CronJob
kept_as (recurring t) job = some (rescheduled t job)
kept_as _ job = none

abbrev pub put_node : ℕ → Option CronJob → Nodes → Nodes
put_node p none ns = ns
put_node p (some job) ns = (p, job) ∷ ns

abbrev pub settled : Clock → ℕ → CronJob → Option CronJob
settled clock now job =
    if is_due now job then kept_as (cron_schedule_next_run clock job.schedule now) job else some job

abbrev pub settle_all : Clock → ℕ → Nodes → Nodes
settle_all clock now [] = []
settle_all clock now ((p, job) ∷ ns) = put_node p (settled clock now job) (settle_all clock now ns)

abbrev pub due_jobs : ℕ → Nodes → List CronJob
due_jobs now [] = []
due_jobs now ((p, job) ∷ ns) =
    if is_due now job then copy_job job ∷ due_jobs now ns else due_jobs now ns

abbrev pub any_due : ℕ → Nodes → Bool
any_due now [] = false
any_due now ((p, job) ∷ ns) = is_due now job || any_due now ns

-- A callback that does not touch the list.
abbrev pub quiet : CronJob → Nodes → Nodes
quiet job ns = ns

module _ (clock : Clock) (now : ℕ) where
  abbrev continue : ℕ → Turn → Outcome
  continue fuel broken = undefined
  continue fuel (goes_on prev current s) = pass clock now (some quiet) fuel prev current s

  -- A pass that stands at a node, by what it does there.
  pass-turn :
      (fuel : ℕ) (prev : Option ℕ) (p : ℕ) (s : Pass) (t : Turn)
      → node_turn clock now (some quiet) prev p s (node_at p s.jobs) ≡ t
      → pass clock now (some quiet) (suc fuel) prev (some p) s ≡ continue fuel t
  unfolding pass
  pass-turn fuel prev p s t h = ap (continue fuel) h

abbrev state : Nodes → List CronJob → Bool → Pass
state jobs called m = record { jobs = jobs; called = called; modified = m }

module _ (xs ys : Nodes) (p : ℕ) (job : CronJob) (d : Distinct (xs ++ (p, job) ∷ ys))
    (called : List CronJob) (m : Bool) where
  -- Past the node, with what became of its job.
  abbrev after_settled : Option CronJob → Turn
  after_settled none = goes_on (last_node xs) (head_of ys) (state (xs ++ ys) called true)
  after_settled (some new) = goes_on (some p) (head_of ys) (state (xs ++ (p, new) ∷ ys) called true)

  removed_lem :
      removed
        (last_node xs)
        p
        (state (xs ++ (p, job) ∷ ys) called m)
        (unlink (last_node xs) p (xs ++ (p, job) ∷ ys))
      ≡ after_settled none
  removed_lem =
      ap (removed (last_node xs) p (state (xs ++ (p, job) ∷ ys) called m))
        (unlink_lem xs ys p job d)
      ∙ ap (λ b. goes_on (last_node xs) (head_of b) (state (xs ++ ys) called true))
          (behind_node_lem ys p job xs d)

  settle_found_lem :
      (sched : CronSchedule)
      → settle_found sched (last_node xs) p job (state (xs ++ (p, job) ∷ ys) called m)
        ≡ after_settled (kept_as sched job)
  settle_found_lem (recurring t) =
      ap
        (λ b.
          goes_on (some p) (head_of b)
            (state (set_node p (rescheduled t job) (xs ++ (p, job) ∷ ys)) called true))
        (behind_node_lem ys p job xs d)
      ∙ ap (λ b. goes_on (some p) (head_of ys) (state b called true))
          (set_node_lem ys p job (rescheduled t job) xs d)
  settle_found_lem (one_time t) = removed_lem
  settle_found_lem invalid = removed_lem

  node_turn-due :
      (clock : Clock) (now : ℕ) (called' : List CronJob)
      → called ≡ called' ++ copy_job job ∷ []
      → is_due now job ≡ true
      → node_turn clock now
          (some quiet)
          (last_node xs)
          p
          (state (xs ++ (p, job) ∷ ys) called' m)
          (node_at p (xs ++ (p, job) ∷ ys))
        ≡ after_settled (kept_as (cron_schedule_next_run clock job.schedule now) job)
  node_turn-due clock now called' same due =
      ap (node_turn clock now (some quiet) (last_node xs) p (state (xs ++ (p, job) ∷ ys) called' m))
        (node_at_lem ys p job xs d)
      ∙ if_true _ _ due
      ∙ ap
          (λ o.
            after_callback clock now (last_node xs) o
              (state (xs ++ (p, job) ∷ ys) (called' ++ copy_job job ∷ []) m))
          (find_by_id_lem ys p job xs d)
      ∙ ap
          (λ c.
            settle_found (cron_schedule_next_run clock job.schedule now) (last_node xs) p job
              (state (xs ++ (p, job) ∷ ys) c m))
          (sym same)
      ∙ settle_found_lem (cron_schedule_next_run clock job.schedule now)

  node_turn-later :
      (clock : Clock) (now : ℕ)
      → is_due now job ≡ false
      → node_turn clock now
          (some quiet)
          (last_node xs)
          p
          (state (xs ++ (p, job) ∷ ys) called m)
          (node_at p (xs ++ (p, job) ∷ ys))
        ≡ goes_on (some p) (head_of ys) (state (xs ++ (p, job) ∷ ys) called m)
  node_turn-later clock now later =
      ap (node_turn clock now (some quiet) (last_node xs) p (state (xs ++ (p, job) ∷ ys) called m))
        (node_at_lem ys p job xs d)
      ∙ if_false _ _ later
      ∙ ap (λ b. goes_on (some p) (head_of b) (state (xs ++ (p, job) ∷ ys) called m))
          (behind_node_lem ys p job xs d)

module _ (clock : Clock) (now : ℕ) where
  -- What a pass over the rest of the list comes to.
  abbrev result : Nodes → Nodes → List CronJob → Bool → Outcome
  result xs rest called m = done (
      state (xs ++ settle_all clock now rest) (called ++ due_jobs now rest) (m || any_due now rest))

  or_true : (m : Bool) → (m || true) ≡ true
  or_true m = ground arith

  or_false : (m : Bool) → (m || false) ≡ m
  or_false m = ground arith

  -- From behind a node, given what the pass over the rest comes to.
  module _ (fuel : ℕ) (ys : Nodes)
      (again : (xs : Nodes) (called : List CronJob) (m : Bool)
        → Distinct (xs ++ ys)
        → pass clock now (some quiet) fuel (last_node xs) (head_of ys) (state (xs ++ ys) called m)
          ≡ result xs ys called m)
      (xs : Nodes) (p : ℕ) where
    past :
        (new : CronJob) (called : List CronJob) (m : Bool)
        → Distinct (xs ++ (p, new) ∷ ys)
        → pass clock now
            (some quiet)
            fuel
            (some p)
            (head_of ys)
            (state (xs ++ (p, new) ∷ ys) called m)
          ≡ done (
              state
                (xs ++ (p, new) ∷ settle_all clock now ys)
                (called ++ due_jobs now ys)
                (m || any_due now ys))
    past new called m d =
        let here : Nodes = xs ++ (p, new) ∷ [] in
        let at = append_assoc xs ((p, new) ∷ []) ys in
        ap
          (λ o.
            pass clock now (some quiet) fuel o (head_of ys) (state (xs ++ (p, new) ∷ ys) called m))
          (sym (last_node-snoc xs p new))
        ∙ ap
            (λ l. pass clock now (some quiet) fuel (last_node here) (head_of ys) (state l called m))
            (sym at)
        ∙ again here called m (subst Distinct (sym at) d)
        ∙ ap (λ l. done (state l (called ++ due_jobs now ys) (m || any_due now ys)))
            (append_assoc xs ((p, new) ∷ []) (settle_all clock now ys))

    went_on :
        (job : CronJob) (d : Distinct (xs ++ (p, job) ∷ ys)) (called : List CronJob) (m : Bool)
        (o : Option CronJob)
        → ((new : CronJob) → o ≡ some new → new.id ≡ job.id)
        → continue clock now fuel (after_settled xs ys p job d called m o)
          ≡ done (
              state (xs ++ put_node p o (settle_all clock now ys)) (called ++ due_jobs now ys) true)
    went_on job d called m none h = again xs called true (Distinct-without xs ys (p, job) d)
    went_on job d called m (some new) h =
        past new called true (Distinct-replaced xs ys p job new (h new refl) d)

  -- A job that is kept keeps its id.
  kept_as-id :
      (sched : CronSchedule) (job new : CronJob) → kept_as sched job ≡ some new → new.id ≡ job.id
  kept_as-id (recurring t) job new h = ap (λ o. id_of o) (sym h)
    where
      id_of : Option CronJob → Option Text
      id_of none = none
      id_of (some j) = j.id
  kept_as-id (one_time t) job new h = absurd (ground arith)
  kept_as-id invalid job new h = absurd (ground arith)

  result-due :
      (xs ys : Nodes) (p : ℕ) (job : CronJob) (called : List CronJob) (m : Bool)
      → is_due now job ≡ true
      → done (
          state
            (xs
              ++ put_node p
                  (kept_as (cron_schedule_next_run clock job.schedule now) job)
                  (settle_all clock now ys))
            ((called ++ copy_job job ∷ []) ++ due_jobs now ys)
            true)
        ≡ result xs ((p, job) ∷ ys) called m
  result-due xs ys p job called m due =
      let kept = kept_as (cron_schedule_next_run clock job.schedule now) job in
      ap (λ c. done (state (xs ++ put_node p kept (settle_all clock now ys)) c true))
        (append_assoc called (copy_job job ∷ []) (due_jobs now ys))
      ∙ ap
          (λ b. done (
            state (xs ++ put_node p kept (settle_all clock now ys))
              (called ++ copy_job job ∷ due_jobs now ys) b))
          (sym (or_true m))
      ∙ ap
          (λ b. done (
            state (xs ++ put_node p (if b then kept else some job) (settle_all clock now ys))
              (called ++ (if b then copy_job job ∷ due_jobs now ys else due_jobs now ys))
              (m || (b || any_due now ys))))
          (sym due)

  result-later :
      (xs ys : Nodes) (p : ℕ) (job : CronJob) (called : List CronJob) (m : Bool)
      → is_due now job ≡ false
      → done (
          state
            (xs ++ (p, job) ∷ settle_all clock now ys)
            (called ++ due_jobs now ys)
            (m || any_due now ys))
        ≡ result xs ((p, job) ∷ ys) called m
  result-later xs ys p job called m later =
      let kept = kept_as (cron_schedule_next_run clock job.schedule now) job in
      ap
        (λ b. done (
          state (xs ++ put_node p (if b then kept else some job) (settle_all clock now ys))
            (called ++ (if b then copy_job job ∷ due_jobs now ys else due_jobs now ys))
            (m || (b || any_due now ys))))
        (sym later)

  pass-settle :
      (fuel : ℕ) (xs rest : Nodes) (called : List CronJob) (m : Bool)
      → Distinct (xs ++ rest)
      → length rest < fuel
      → pass clock now (some quiet) fuel (last_node xs) (head_of rest) (state (xs ++ rest) called m)
        ≡ result xs rest called m
  unfolding pass
  pass-settle zero xs rest called m d enough = absurd (omega arith)
  pass-settle (suc fuel) xs [] called m d enough =
      ap (λ c. done (state (xs ++ []) c m)) (sym (append-nil called))
      ∙ ap (λ b. done (state (xs ++ []) (called ++ []) b)) (sym (or_false m))
  pass-settle (suc fuel) xs ((p, job) ∷ ys) called m d enough =
      let again = λ (xs : Nodes) (called : List CronJob) (m : Bool) (d : Distinct (xs ++ ys)).
        pass-settle fuel xs ys called m d (omega arith) in
      let s = state (xs ++ (p, job) ∷ ys) called m in
      elim (Bool-cases (is_due now job)) [
        | inl due ↦
            let kept = kept_as (cron_schedule_next_run clock job.schedule now) job in
            pass-turn clock now fuel (last_node xs) p s _ (
              node_turn-due xs ys p job d (called ++ copy_job job ∷ []) m clock now called refl due)
            ∙ went_on fuel ys again xs p job d (called ++ copy_job job ∷ []) m kept
                (kept_as-id (cron_schedule_next_run clock job.schedule now) job)
            ∙ result-due xs ys p job called m due
        | inr later ↦
            pass-turn clock now fuel (last_node xs) p s _
              (node_turn-later xs ys p job d called m clock now later)
            ∙ past fuel ys again xs p job called m d
            ∙ result-later xs ys p job called m later
      ]

  -- When every job has an id, no two share one or an address, and the callback leaves the list alone, a pass
  -- ends: the callback has been given each due job once, in the order of the list; a due job stays with its
  -- next time exactly if its schedule recurs, and the others are removed; a job that is not due stays as it is, in
  -- its place; and the file is to be written exactly if a job was due.
  pub worker_pass-settled :
      (jobs : Nodes)
      → Distinct jobs
      → worker_pass clock now (some quiet) jobs
        ≡ done (record {
          jobs = settle_all clock now jobs;
          called = due_jobs now jobs;
          modified = any_due now jobs;
        })
  unfolding worker_pass
  worker_pass-settled jobs d = pass-settle (suc (length jobs)) [] jobs [] false d (omega arith)
