-- ===== src/Cron/Worker.antt =====
-- src/cron/cron.c: one pass of the worker over the list, and how long it waits. While a callback runs
-- the lock is free, and what else is done to the list meanwhile is a function of it.
use primagen.Base.{
  ℕ, zero, suc, ◌-◌, Bool, true, false, ◌&&◌, List, [], ◌∷◌, ◌++◌, Option, none, some, ◌==◌, leb,
  ltb, if◌then◌else◌, length, ℤ, pos, negsuc, Text,
}
use primagen.Cron.{CronJob, copy_job}
use primagen.Cron.Field.{leb_ℤ}
use primagen.Cron.Schedule.{Clock, CronSchedule, recurring, cron_schedule_next_run}
use primagen.Cron.Jobs.{same_text}

abbrev pub Nodes : Type 0
Nodes = List (ℕ × CronJob)

-- The list, the jobs that were handed to the callback, and whether the file is to be written.
pub record Pass : Type 0 where
  pub jobs : Nodes
  pub called : List CronJob
  pub modified : Bool

-- Where a pass goes on: the nodes `prev` and `current`. `broken` is a use of a freed node, or a node linked
-- to one before it.
pub data Turn : Type 0 where
  broken : Turn
  goes_on : Option ℕ → Option ℕ → Pass → Turn

pub data Outcome : Type 0 where
  unfinished undefined : Outcome
  done : Pass → Outcome

abbrev pub head_of : Nodes → Option ℕ
head_of [] = none
head_of ((p, job) ∷ _) = some p

abbrev pub node_at : ℕ → Nodes → Option CronJob
node_at p [] = none
node_at p ((q, job) ∷ jobs) = if q == p then some job else node_at p jobs

-- What the list has before and behind a node.
abbrev pub before_node : ℕ → Nodes → Nodes
before_node p [] = []
before_node p ((q, job) ∷ jobs) = if q == p then [] else (q, job) ∷ before_node p jobs

abbrev pub behind_node : ℕ → Nodes → Nodes
behind_node p [] = []
behind_node p ((q, job) ∷ jobs) = if q == p then jobs else behind_node p jobs

-- The list up to a node and with it, if it has the node.
abbrev pub up_to : ℕ → Nodes → Option Nodes
up_to p [] = none
up_to p ((q, job) ∷ jobs) =
    if q == p
    then some ((q, job) ∷ [])
    else elim (up_to p jobs) [ none ↦ none | some r ↦ some ((q, job) ∷ r) ]

abbrev pub find_by_id : Option Text → Nodes → Option (ℕ × CronJob)
find_by_id id [] = none
find_by_id id ((q, job) ∷ jobs) = if same_text id job.id then some (q, job) else find_by_id id jobs

abbrev pub set_node : ℕ → CronJob → Nodes → Nodes
set_node p new [] = []
set_node p new ((q, job) ∷ jobs) =
    if q == p then (q, new) ∷ jobs else (q, job) ∷ set_node p new jobs

-- `found_prev->next = found->next`, where `found_prev` is the worker's own `prev`, or the head for NULL.
abbrev pub unlink : Option ℕ → ℕ → Nodes → Option Nodes
unlink none p jobs = some (behind_node p jobs)
unlink (some prev) p jobs = elim (up_to prev (before_node p jobs)) [
  | none ↦ none
  | some kept ↦ some (kept ++ behind_node p jobs)
]

abbrev pub rescheduled : ℤ → CronJob → CronJob
rescheduled t job = record job { next_run = t; retry_count = pos 0; last_status = pos 0 }

abbrev pub removed : Option ℕ → ℕ → Pass → Option Nodes → Turn
removed prev p s none = broken
removed prev p s (some jobs) =
    goes_on prev (head_of (behind_node p s.jobs)) (record s { jobs = jobs; modified = true })

-- What follows a callback for the job that was found again.
abbrev pub settle_found : CronSchedule → Option ℕ → ℕ → CronJob → Pass → Turn
settle_found (recurring t) prev p job s =
    goes_on (some p) (head_of (behind_node p s.jobs))
      (record s { jobs = set_node p (rescheduled t job) s.jobs; modified = true })
settle_found _ prev p job s = removed prev p s (unlink prev p s.jobs)

-- A job that is gone, or has no id: from the head again.
abbrev pub after_callback : Clock → ℕ → Option ℕ → Option (ℕ × CronJob) → Pass → Turn
after_callback clock now prev none s = goes_on none (head_of s.jobs) s
after_callback clock now prev (some (p, job)) s =
    settle_found (cron_schedule_next_run clock job.schedule now) prev p job s

-- The lock is given up for the callback, if there is one.
abbrev pub call_back : Option (CronJob → Nodes → Nodes) → CronJob → Pass → Pass
call_back none job s = s
call_back (some callback) job s = record s {
  jobs = callback (copy_job job) s.jobs;
  called = s.called ++ copy_job job ∷ [];
}

abbrev pub is_due : ℕ → CronJob → Bool
is_due now job = leb_ℤ job.next_run (pos now)

abbrev pub node_turn :
    Clock → ℕ → Option (CronJob → Nodes → Nodes) → Option ℕ → ℕ → Pass → Option CronJob → Turn
node_turn clock now callback prev p s none = broken
node_turn clock now callback prev p s (some job) =
    if is_due now job
    then (let s' = call_back callback job s in
        after_callback clock now prev (find_by_id job.id s'.jobs) s')
    else goes_on (some p) (head_of (behind_node p s.jobs)) s

unfoldable pub pass :
    Clock → ℕ → Option (CronJob → Nodes → Nodes) → ℕ → Option ℕ → Option ℕ → Pass → Outcome
pass clock now callback zero prev current s = unfinished
pass clock now callback (suc fuel) prev none s = done s
pass clock now callback (suc fuel) prev (some p) s =
    elim (node_turn clock now callback prev p s (node_at p s.jobs)) [
      | broken ↦ undefined
      | goes_on prev' current' s' ↦ pass clock now callback fuel prev' current' s'
    ]

-- One more round than there are jobs, so that a callback that leaves the list alone has enough.
unfoldable pub worker_pass : Clock → ℕ → Option (CronJob → Nodes → Nodes) → Nodes → Outcome
unfolding pass
worker_pass clock now callback jobs =
    pass clock now callback (suc (length jobs)) none (head_of jobs)
      (record { jobs = jobs; called = []; modified = false })

-- The earliest positive time of a job, or that of the first argument.
abbrev pub earliest : ℕ → Nodes → ℕ
earliest t [] = t
earliest t ((p, job) ∷ jobs) =
    earliest (elim job.next_run [ pos n ↦ (if ltb 0 n && ltb n t then n else t) | negsuc n ↦ t ])
      jobs

abbrev pub at_most : ℕ → ℕ → ℕ
at_most m n = if ltb m n then m else n

-- In seconds, at most a minute; `long_max` is LONG_MAX.
unfoldable pub wait_sec : ℕ → ℕ → Nodes → ℕ
wait_sec long_max now jobs =
    let next_time = earliest long_max jobs in
    at_most 60 (if leb next_time now then 0 else next_time - now)
