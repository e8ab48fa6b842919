-- ===== src/Cron/Jobs.antt =====
-- src/cron/cron.c: adding and removing jobs. The time, the address that `malloc` gives, an id for a job
-- without one, and whether the file can be opened are what the outside answers.
use primagen.Base.{
  ℕ, Bool, true, false, List, [], ◌∷◌, Option, none, some, if◌then◌else◌, Text, text_eq,
}
use primagen.Cron.{CronJob, CronService, copy_job}
use primagen.Cron.Schedule.{
  Clock, CronSchedule, invalid, one_time, recurring, cron_schedule_next_run,
}
use primagen.Cron.Store.{save_jobs}

pub record World : Type 0 where
  pub clock : Clock
  pub now : ℕ
  pub address : ℕ
  pub new_id : Text
  pub opens : Bool

-- `a && b && strcmp(a, b) == 0`
abbrev pub same_text : Option Text → Option Text → Bool
same_text (some a) (some b) = text_eq a b
same_text _ _ = false

-- The time is written unless the schedule is invalid.
abbrev pub at_next : CronSchedule → CronJob → CronJob
at_next invalid job = job
at_next (one_time t) job = record job { next_run = t }
at_next (recurring t) job = record job { next_run = t }

abbrev pub is_valid : CronSchedule → Bool
is_valid invalid = false
is_valid _ = true

abbrev pub update_job : World → CronJob → CronJob → CronJob
update_job w job old =
    at_next (cron_schedule_next_run w.clock job.schedule w.now)
      (record old { schedule = job.schedule; payload_message = job.payload_message })

-- The first job of that name updated, and its id.
unfoldable pub update_named :
    World → CronJob → List (ℕ × CronJob) → Option (List (ℕ × CronJob) × Option Text)
unfolding cron_schedule_next_run text_eq
update_named w job [] = none
update_named w job ((p, old) ∷ jobs) =
    let rest = update_named w job jobs in
    if same_text old.name job.name
    then some ((p, update_job w job old) ∷ jobs, old.id)
    else elim rest [ none ↦ none | some r ↦ some ((p, old) ∷ r.0, r.1) ]

abbrev pub id_or : Text → Option Text → Text
id_or new none = new
id_or new (some id) = id

unfoldable pub new_job : World → CronJob → CronJob
unfolding copy_job cron_schedule_next_run
new_job w job =
    at_next (cron_schedule_next_run w.clock job.schedule w.now)
      (record (copy_job job) { id = some (id_or w.new_id job.id) })

-- The service, and the id that is returned or NULL. A name that a job has is an update, also when the
-- schedule turns out to be invalid; an updated job without an id is undefined behaviour in C.
unfoldable pub cron_service_add_job : World → CronService → CronJob → CronService × Option Text
unfolding update_named new_job save_jobs cron_schedule_next_run
cron_service_add_job w service job =
    let valid = is_valid (cron_schedule_next_run w.clock job.schedule w.now) in
    elim (update_named w job service.jobs) [
      | some u ↦
          let changed = record service { jobs = u.0 } in
          if valid then (save_jobs w.opens changed, u.1) else (changed, none)
      | none ↦
          if valid
          then (
            save_jobs w.opens (record service { jobs = (w.address, new_job w job) ∷ service.jobs }),
            some (id_or w.new_id job.id),
          )
          else (service, none)
    ]

-- The list without the first job of that id.
unfoldable pub remove_by_id : Text → List (ℕ × CronJob) → Option (List (ℕ × CronJob))
unfolding text_eq
remove_by_id id [] = none
remove_by_id id ((p, job) ∷ jobs) =
    let rest = remove_by_id id jobs in
    if same_text job.id (some id)
    then some jobs
    else elim rest [ none ↦ none | some r ↦ some ((p, job) ∷ r) ]

unfoldable pub cron_service_remove_job : World → CronService → Option Text → CronService × Bool
unfolding remove_by_id save_jobs
cron_service_remove_job w service none = (service, false)
cron_service_remove_job w service (some id) = elim (remove_by_id id service.jobs) [
  | none ↦ (service, false)
  | some jobs ↦ (save_jobs w.opens (record service { jobs = jobs }), true)
]

-- Whether the thread could be made is the first argument; a running service is not started again.
unfoldable pub cron_service_start : Bool → CronService → CronService × Bool
cron_service_start created service =
    if service.running then (service, false) else (record service { running = created }, created)

unfoldable pub cron_service_stop : CronService → CronService
cron_service_stop service = record service { running = false }
