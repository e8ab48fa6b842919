-- ===== src/Cron/Store.antt =====
-- src/cron/cron.c: the file of the jobs, by the trees that cJSON prints and parses. A time goes through
-- a `double`, here as the integer that it is below 2^53.
use primagen.Base.{
  ℕ, suc, Bool, true, false, List, [], ◌∷◌, ◌++◌, Option, none, some, ◌≡◌, refl, ap, ◌∙◌,
  append-nil, map, if◌then◌else◌, pos,
}
use primagen.Cron.{CronJob, JobItem, CronService}

abbrev pub item_of : CronJob → JobItem
item_of job = record {
  id = job.id;
  name = job.name;
  payload_message = job.payload_message;
  channel = job.channel;
  to = job.to;
  deliver = some job.deliver;
  next_run = some job.next_run;
  schedule = job.schedule;
}

abbrev pub items_of : List (ℕ × CronJob) → List JobItem
items_of [] = []
items_of ((p, job) ∷ jobs) = item_of job ∷ items_of jobs

-- Whether the file can be opened is the first argument; the old one stays otherwise.
unfoldable pub save_jobs : Bool → CronService → CronService
save_jobs opens service =
    if opens then record service { store = some (items_of service.jobs) } else service

abbrev or_else : {A : Type 0} → A → Option A → A
or_else d none = d
or_else d (some x) = x

-- What is not in the object is zero.
abbrev pub job_of : JobItem → CronJob
job_of item = record {
  id = item.id;
  name = item.name;
  payload_message = item.payload_message;
  channel = item.channel;
  to = item.to;
  deliver = or_else false item.deliver;
  next_run = or_else (pos 0) item.next_run;
  schedule = item.schedule;
  retry_count = pos 0;
  max_retries = pos 0;
  last_status = pos 0;
}

-- Each node is put before the head; `malloc` gives the address of each in turn.
abbrev pub load_items : (ℕ → ℕ) → ℕ → List JobItem → List (ℕ × CronJob) → List (ℕ × CronJob)
load_items malloc i [] jobs = jobs
load_items malloc i (item ∷ items) jobs =
    load_items malloc (suc i) items ((malloc i, job_of item) ∷ jobs)

abbrev pub load_store : (ℕ → ℕ) → Option (List JobItem) → List (ℕ × CronJob) → List (ℕ × CronJob)
load_store malloc none jobs = jobs
load_store malloc (some items) jobs = load_items malloc 0 items jobs

unfoldable pub load_jobs : (ℕ → ℕ) → CronService → CronService
load_jobs malloc service = record service { jobs = load_store malloc service.store service.jobs }

-- A new service with what the file holds.
unfoldable pub cron_service_create : (ℕ → ℕ) → Option (List JobItem) → CronService
unfolding load_jobs
cron_service_create malloc store =
    load_jobs malloc (record { jobs = []; running = false; store = store })

-- The jobs of a list, from its last to its first.
abbrev pub reversed_jobs : List (ℕ × CronJob) → List CronJob
reversed_jobs [] = []
reversed_jobs ((p, job) ∷ jobs) = reversed_jobs jobs ++ job ∷ []

abbrev pub jobs_of : List (ℕ × CronJob) → List CronJob
jobs_of [] = []
jobs_of ((p, job) ∷ jobs) = job ∷ jobs_of jobs

-- What a job keeps in the file: all but the retries and the last status.
abbrev pub restarted : CronJob → CronJob
restarted job = record job { retry_count = pos 0; max_retries = pos 0; last_status = pos 0 }

load-items :
    (malloc : ℕ → ℕ) (i : ℕ) (jobs acc : List (ℕ × CronJob))
    → jobs_of (load_items malloc i (items_of jobs) acc)
      ≡ map restarted (reversed_jobs jobs) ++ jobs_of acc
load-items malloc i [] acc = refl
load-items malloc i ((p, job) ∷ jobs) acc =
    load-items malloc (suc i) jobs ((malloc i, restarted job) ∷ acc) ∙ snoc (reversed_jobs jobs)
  where
    snoc :
        (js : List CronJob)
        → map restarted js ++ restarted job ∷ jobs_of acc
          ≡ map restarted (js ++ job ∷ []) ++ jobs_of acc
    snoc [] = refl
    snoc (j ∷ js) = ap (◌∷◌ (restarted j)) (snoc js)

-- A service that is made from the file that another could write has the other's jobs with every field but
-- the retries and the last status, which are zero, in the opposite order.
pub create-save :
    (malloc : ℕ → ℕ) (service : CronService)
    → jobs_of (cron_service_create malloc (save_jobs true service).store).jobs
      ≡ map restarted (reversed_jobs service.jobs)
unfolding cron_service_create load_jobs save_jobs
create-save malloc service =
    load-items malloc 0 service.jobs [] ∙ append-nil (map restarted (reversed_jobs service.jobs))
