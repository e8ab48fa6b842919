-- ===== src/Cron/Runs.antt =====
-- src/cron/cron.c: what a pass leaves, and what it may lose.
use primagen.Base.{
  ℕ, zero, suc, ◌≤◌, ◌<◌, ◌≡◌, refl, ap, ◌∙◌, Bool, true, false, ◌||◌, ◌&&◌, ◌-◌, ◌+◌, List, [],
  ◌∷◌, ◌++◌, none, some, ltb, leb, if◌then◌else◌, if_elim, arith, pos, negsuc, ℤ, Bool-cases, ◌⊎◌,
  inl, inr,
}
use primagen.Cron.{CronJob, copy_job}
use primagen.Cron.Schedule.{
  Clock, CronSchedule, invalid, one_time, recurring, cron_schedule_next_run, year_ahead,
}
use primagen.Cron.NextMinute.{IsRegular}
use primagen.Cron.Ahead.{IsAhead, cron_schedule_next_run-IsAhead}
use primagen.Cron.Worker.{
  Nodes, Pass, goes_on, head_of, settle_found, after_callback, is_due, node_turn, earliest, at_most,
  wait_sec, worker_pass, done,
}
use primagen.Cron.Linked.{Distinct, find_by_id_lem, behind_node_lem, if_true}
use primagen.Cron.Passes.{kept_as, put_node, settle_all, any_due, quiet, worker_pass-settled}

module _ (clock : Clock) (regular : IsRegular clock) (now : ℕ)
    (years : (u : ℕ) → u ≤ year_ahead now → (clock.localtime u).year < 200) where
  kept-later :
      (p : ℕ) (job : CronJob) (ns : Nodes) (sched : CronSchedule)
      → IsAhead now sched
      → any_due now ns ≡ false
      → any_due now (put_node p (kept_as sched job) ns) ≡ false
  kept-later p job ns (recurring (pos t)) ahead rest =
      ap (λ b. b || any_due now ns) (not_yet ahead) ∙ rest
    where
      not_yet : {t : ℕ} → now < t → leb t now ≡ false
      not_yet h = ground arith
  kept-later p job ns (recurring (negsuc t)) ahead rest = absurd ahead
  kept-later p job ns (one_time t) ahead rest = rest
  kept-later p job ns invalid ahead rest = rest

  settle_all-none_due : (jobs : Nodes) → any_due now (settle_all clock now jobs) ≡ false
  settle_all-none_due [] = refl
  settle_all-none_due ((p, job) ∷ jobs) =
      let rest = settle_all-none_due jobs in
      elim (Bool-cases (is_due now job)) [
        | inl due ↦
            ap
              (λ b. any_due now (
                put_node p
                  (if b
                    then kept_as (cron_schedule_next_run clock job.schedule now) job
                    else some job)
                  (settle_all clock now jobs)))
              due
            ∙ kept-later p job (settle_all clock now jobs)
                (cron_schedule_next_run clock job.schedule now)
                (cron_schedule_next_run-IsAhead clock regular now years job.schedule) rest
        | inr later ↦
            ap
              (λ b. any_due now (
                put_node p
                  (if b
                    then kept_as (cron_schedule_next_run clock job.schedule now) job
                    else some job)
                  (settle_all clock now jobs)))
              later
            ∙ ap (λ b. b || any_due now (settle_all clock now jobs)) later
            ∙ rest
      ]

  -- With a regular clock, with no year from 2100 on within the next 366 days, when every job has an id, no two
  -- share one or an address, and the callback leaves the list alone: a pass ends, and no job that it leaves in the
  -- list is due at the time of the pass.
  pub worker_pass-none_due :
      (jobs : Nodes)
      → Distinct jobs
      → (s : Pass) × (worker_pass clock now (some quiet) jobs ≡ done s)
        × (any_due now s.jobs ≡ false)
  worker_pass-none_due jobs d = (_, worker_pass-settled clock now jobs d, settle_all-none_due jobs)

-- While the callback of the first job of the list runs, another thread puts a job at the head. If the first
-- job is one that runs once, the worker then unlinks the new job together with it: neither is in the list.
pub added_job_lost :
    (clock : Clock) (now t : ℕ) (p q : ℕ) (job new : CronJob) (ys : Nodes) (called : List CronJob)
    (m : Bool)
    → Distinct ((q, new) ∷ (p, job) ∷ ys)
    → is_due now job ≡ true
    → cron_schedule_next_run clock job.schedule now ≡ one_time (pos t)
    → node_turn clock now
        (some (λ j ns. (q, new) ∷ ns))
        none
        p
        (record { jobs = (p, job) ∷ ys; called = called; modified = m })
        (some job)
      ≡ goes_on none
          (head_of ys)
          (record { jobs = ys; called = called ++ copy_job job ∷ []; modified = true })
added_job_lost clock now t p q job new ys called m d due once =
    let s : Pass = record {
      jobs = (q, new) ∷ (p, job) ∷ ys;
      called = called ++ copy_job job ∷ [];
      modified = m;
    } in
    if_true _ _ due
    ∙ ap (λ o. after_callback clock now none o s) (find_by_id_lem ys p job ((q, new) ∷ []) d)
    ∙ ap (λ c. settle_found c none p job s) once
    ∙ ap (λ b. goes_on none (head_of b) (record s { jobs = b; modified = true }))
        (behind_node_lem ys p job ((q, new) ∷ []) d)

-- The time of the loop after a job.
abbrev sooner : ℕ → ℤ → ℕ
sooner t (pos n) = if ltb 0 n && ltb n t then n else t
sooner t (negsuc n) = t

sooner-le : (t : ℕ) (z : ℤ) → sooner t z ≤ t
sooner-le t (pos n) =
    if_elim (λ x. x ≤ t) (ltb 0 n && ltb n t) _ _ (λ e. less (ltb 0 n) e) (λ _. omega arith)
  where
    less : (b : Bool) → (b && ltb n t) ≡ true → n ≤ t
    less b h = ground arith
sooner-le t (negsuc n) = omega arith

earliest-le : (t : ℕ) (jobs : Nodes) → earliest t jobs ≤ t
earliest-le t [] = omega arith
earliest-le t ((p, job) ∷ jobs) =
    omega (arith, earliest-le (sooner t job.next_run) jobs, sooner-le t job.next_run)

-- The worker, waiting so long from `now`, does not sleep past a time.
abbrev pub InTime : ℕ → ℕ → ℤ → Type 0
InTime now wait (pos n) = (n ≡ 0) ⊎ (n ≤ now) ⊎ (now + wait ≤ n)
InTime now wait (negsuc n) = Unit

abbrev pub AllInTime : ℕ → ℕ → Nodes → Type 0
AllInTime now wait [] = Unit
AllInTime now wait ((p, job) ∷ jobs) = InTime now wait job.next_run × AllInTime now wait jobs

-- How long the worker waits for a time.
abbrev wait_for : ℕ → ℕ → ℕ
wait_for now next_time = at_most 60 (if leb next_time now then 0 else next_time - now)

wait_for-le : (now t n : ℕ) → t ≤ n → (n ≤ now) ⊎ (now + wait_for now t ≤ n)
wait_for-le now t n h = ground arith

wait_for-InTime : (now t e : ℕ) (z : ℤ) → e ≤ sooner t z → InTime now (wait_for now e) z
wait_for-InTime now t e (negsuc n) h = tt
wait_for-InTime now t e (pos zero) h = inl refl
wait_for-InTime now t e (pos (suc n)) h =
    inr (wait_for-le now e (suc n) (under (suc n) (omega arith) h))
  where
    under : (n : ℕ) → 0 < n → e ≤ (if ltb 0 n && ltb n t then n else t) → e ≤ n
    under n positive h = ground arith

earliest-InTime :
    (now e t : ℕ) (jobs : Nodes) → e ≤ earliest t jobs → AllInTime now (wait_for now e) jobs
earliest-InTime now e t [] h = tt
earliest-InTime now e t ((p, job) ∷ jobs) h = (
  wait_for-InTime now t e job.next_run (omega (arith, h, earliest-le (sooner t job.next_run) jobs)),
  earliest-InTime now e (sooner t job.next_run) jobs h,
)

-- The worker waits at most a minute, and no job's time passes while it waits: each time that a job has, of those after
-- the epoch, is past already or not before the end of the wait.
pub wait_sec-InTime :
    (long_max now : ℕ) (jobs : Nodes)
    → (wait_sec long_max now jobs ≤ 60) × AllInTime now (wait_sec long_max now jobs) jobs
unfolding wait_sec
wait_sec-InTime long_max now jobs = (
  bounded (if leb (earliest long_max jobs) now then 0 else earliest long_max jobs - now),
  earliest-InTime now (earliest long_max jobs) long_max jobs (omega arith),
)
  where
    bounded : (n : ℕ) → at_most 60 n ≤ 60
    bounded n = ground arith
