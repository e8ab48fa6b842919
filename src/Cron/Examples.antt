-- ===== src/Cron/Examples.antt =====
-- Schedules and passes at concrete inputs, with a clock that counts days from the epoch.
use mathlib.Core.Path.{subst}
use primagen.Base.{
  ℕ, ◌+◌, ◌-◌, ◌*◌, ◌/◌, ◌%◌, ◌≤◌, ◌<◌, ◌≡◌, ◌≢◌, text_eq_iff, refl, sym, Bool, true, false, [],
  ◌∷◌, ◌++◌, none, some, leb, if_elim, arith, pos, ℤ, codes, text_eq, Text, map, ◌⊎◌,
}
use primagen.Utils.{has_prefix, str_trim_left}
use primagen.Libc.{atoi, atol, strtol, scan_words}
use primagen.Cron.{CronJob, CronService, copy_job}
use primagen.Cron.Field.{Tm, Fields, fields_match}
use primagen.Cron.Schedule.{
  Clock, one_time, first_minute, next_minute, cron_schedule_next_run, search_from, year_ahead,
}
use primagen.Cron.NextMinute.{
  IsRegular, minute_at, first_index, minutes_until, search_from-minute_at,
}
use primagen.Cron.Ahead.{IsAhead, cron_schedule_next_run-IsAhead}
use primagen.Cron.Jobs.{
  World, is_valid, update_named, cron_service_add_job, cron_service_remove_job,
}
use primagen.Cron.JobLaws.{ids, remove-add, ids-add}
use primagen.Cron.Store.{
  save_jobs, cron_service_create, jobs_of, restarted, reversed_jobs, create-save,
}
use primagen.Cron.Worker.{Nodes, Pass, goes_on, head_of, done, node_turn, worker_pass, wait_sec}
use primagen.Cron.Linked.{Distinct}
use primagen.Cron.Passes.{quiet, settle_all, due_jobs, any_due, worker_pass-settled}
use primagen.Cron.Runs.{worker_pass-none_due, added_job_lost, wait_sec-InTime, AllInTime}

abbrev day_time : ℕ → Tm
day_time u = record {
  sec = u % 60;
  min = u / 60 % 60;
  hour = u / 3600 % 24;
  mday = u / 86400 + 1;
  mon = 0;
  year = 70;
  wday = (u / 86400 + 4) % 7;
  isdst = pos 0;
}

abbrev seconds_of : Tm → ℕ
seconds_of tm = tm.sec + 60 * tm.min + 3600 * tm.hour + 86400 * (tm.mday - 1)

abbrev day_clock : Clock
day_clock = record {
  localtime = day_time;
  mktime = λ tm. (day_time (seconds_of tm), seconds_of tm);
}

day_tick : (t : ℕ) → seconds_of (next_minute (day_time t)) ≡ t + 60
day_tick t =
    if_elim (λ tm. seconds_of tm ≡ t + 60) (leb 60 (t / 60 % 60 + 1)) _ _
      (λ over.
        if_elim (λ tm. seconds_of tm ≡ t + 60) (leb 24 (t / 3600 % 24 + 1)) _ _
          (λ over_day. at_day over over_day) (λ in_day. at_hour over in_day))
      (λ in_hour. at_minute in_hour)
  where
    at_day :
        leb 60 (t / 60 % 60 + 1) ≡ true
        → leb 24 (t / 3600 % 24 + 1) ≡ true
        → t % 60 + 60 * 0 + 3600 * 0 + 86400 * (t / 86400 + 1 + 1 - 1) ≡ t + 60
    at_day h k = ground arith

    at_hour :
        leb 60 (t / 60 % 60 + 1) ≡ true
        → leb 24 (t / 3600 % 24 + 1) ≡ false
        → t % 60 + 60 * 0 + 3600 * (t / 3600 % 24 + 1) + 86400 * (t / 86400 + 1 - 1) ≡ t + 60
    at_hour h k = ground arith

    at_minute :
        leb 60 (t / 60 % 60 + 1) ≡ false
        → t % 60 + 60 * (t / 60 % 60 + 1) + 3600 * (t / 3600 % 24) + 86400 * (t / 86400 + 1 - 1)
          ≡ t + 60
    at_minute h = ground arith

day_clock-IsRegular : IsRegular day_clock
day_clock-IsRegular = record {
  starts = λ now. (omega arith, omega arith);
  ticks = λ tm. day_tick (seconds_of tm);
  tomorrow = λ now hour minute today same.
      subst (λ (x : Tm). now < seconds_of (record x { mday = x.mday + 1 })) (sym same)
        (later now (0 + 60 * minute + 3600 * hour + 86400 * (now / 86400 + 1 - 1)) (omega arith));
  agrees = λ tm. refl;
}
  where
    later :
        (now t : ℕ)
        → now < t + 86400
        → now < seconds_of (record (day_time t) { mday = (day_time t).mday + 1 })
    later now t h = omega arith

-- Half past nine, every Monday.
abbrev mondays : Fields
mondays = record {
  min_f = codes "30";
  hour_f = codes "9";
  dom_f = codes "*";
  mon_f = codes "*";
  dow_f = codes "1";
}

search_from-minute_at_example :
    search_from day_clock mondays 1000
    ≡ minute_at (day_clock.mktime (first_minute (day_time 1000))).1 (
        first_index
          (λ k.
            fields_match mondays
              (day_time ((day_clock.mktime (first_minute (day_time 1000))).1 + 60 * k)))
          (minutes_until (day_clock.mktime (first_minute (day_time 1000))).1 (year_ahead 1000)))
search_from-minute_at_example =
    search_from-minute_at day_clock day_clock-IsRegular mondays 1000 (λ u le. omega arith)

cron_schedule_next_run-IsAhead_example :
    IsAhead 1000 (cron_schedule_next_run day_clock (some (codes "@every 30")) 1000)
cron_schedule_next_run-IsAhead_example =
    cron_schedule_next_run-IsAhead day_clock day_clock-IsRegular 1000 (λ u le. omega arith)
      (some (codes "@every 30"))

abbrev a_job : Text → ℤ → Text → CronJob
a_job id next_run schedule = record {
  id = some id;
  name = some id;
  payload_message = none;
  channel = none;
  to = none;
  deliver = false;
  next_run = next_run;
  schedule = some schedule;
  retry_count = pos 0;
  max_retries = pos 0;
  last_status = pos 0;
}

abbrev every_job : CronJob
every_job = a_job (codes "a") (pos 900) (codes "@every 30")

abbrev once_job : CronJob
once_job = a_job (codes "b") (pos 950) (codes "@at 950")

abbrev later_job : CronJob
later_job = a_job (codes "c") (pos 2000) (codes "@at 2000")

abbrev three_jobs : Nodes
three_jobs = (1, every_job) ∷ (2, once_job) ∷ (3, later_job) ∷ []

-- Texts that `strcmp` tells apart are not the same id.
differ : (a b : Text) → text_eq a b ≡ false → some a ≢ some b
differ a b h e = by_test (text_eq a b) h ((text_eq_iff a b).1 (the e))
  where
    the : {a b : Text} → some a ≡ some b → a ≡ b
    the h = ground arith

    by_test : (b : Bool) → b ≡ false → b ≡ true → ⊥
    by_test b h k = ground arith

three_jobs-Distinct : Distinct three_jobs
unfolding text_eq
three_jobs-Distinct = (
  (codes "a", refl),
  (
    ((λ e. omega arith), differ (codes "a") (codes "b") refl),
    (((λ e. omega arith), differ (codes "a") (codes "c") refl), tt),
  ),
  (
    (codes "b", refl),
    (((λ e. omega arith), differ (codes "b") (codes "c") refl), tt),
    ((codes "c", refl), tt, tt),
  ),
)

worker_pass-settled_example :
    worker_pass day_clock 1000 (some quiet) three_jobs
    ≡ done (record {
      jobs = settle_all day_clock 1000 three_jobs;
      called = due_jobs 1000 three_jobs;
      modified = any_due 1000 three_jobs;
    })
worker_pass-settled_example = worker_pass-settled day_clock 1000 three_jobs three_jobs-Distinct

-- The recurring job is put off, the one that ran once is gone, and the third waits.
settled_three :
    settle_all day_clock 1000 three_jobs
    ≡ (1, record every_job { next_run = pos 1030 }) ∷ (3, later_job) ∷ []
unfolding cron_schedule_next_run has_prefix atoi strtol str_trim_left
settled_three = refl

worker_pass-none_due_example :
    (s : Pass) × (worker_pass day_clock 1000 (some quiet) three_jobs ≡ done s)
    × (any_due 1000 s.jobs ≡ false)
worker_pass-none_due_example =
    worker_pass-none_due day_clock day_clock-IsRegular 1000 (λ u le. omega arith) three_jobs
      three_jobs-Distinct

at_950 : cron_schedule_next_run day_clock (some (codes "@at 950")) 1000 ≡ one_time (pos 950)
unfolding cron_schedule_next_run has_prefix atol strtol str_trim_left
at_950 = refl

abbrev added : Nodes
added = (1, every_job) ∷ (2, once_job) ∷ []

added-Distinct : Distinct added
unfolding text_eq
added-Distinct = (
  (codes "a", refl),
  (((λ e. omega arith), differ (codes "a") (codes "b") refl), tt),
  ((codes "b", refl), tt, tt),
)

added_job_lost_example :
    node_turn day_clock 1000
      (some (λ j ns. (1, every_job) ∷ ns))
      none
      2
      (record { jobs = (2, once_job) ∷ []; called = []; modified = false })
      (some once_job)
    ≡ goes_on none
        (head_of [])
        (record { jobs = []; called = [] ++ copy_job once_job ∷ []; modified = true })
added_job_lost_example =
    added_job_lost day_clock 1000 950 2 1 once_job every_job [] [] false added-Distinct refl at_950

wait_sec-InTime_example :
    (wait_sec 9223372036854775807 1000 three_jobs ≤ 60)
    × AllInTime 1000 (wait_sec 9223372036854775807 1000 three_jobs) three_jobs
wait_sec-InTime_example = wait_sec-InTime 9223372036854775807 1000 three_jobs

abbrev service : CronService
service = record { jobs = (1, every_job) ∷ []; running = true; store = none }

abbrev world : World
world = record {
  clock = day_clock;
  now = 1000;
  address = 9;
  new_id = codes "job_1000_1";
  opens = true;
}

not_named : update_named world later_job service.jobs ≡ none
unfolding update_named text_eq
not_named = refl

later_valid : is_valid (cron_schedule_next_run day_clock (some (codes "@at 2000")) 1000) ≡ true
unfolding cron_schedule_next_run has_prefix atol strtol str_trim_left
later_valid = refl

remove-add_example :
    let (added, id) = cron_service_add_job world service later_job in
    ((cron_service_remove_job world added id).0.jobs ≡ service.jobs)
    × ((cron_service_remove_job world added id).1 ≡ true)
remove-add_example = remove-add world world service later_job not_named later_valid

ids-add_example :
    (ids (cron_service_add_job world service later_job).0.jobs ≡ ids service.jobs)
    ⊎ (ids (cron_service_add_job world service later_job).0.jobs
        ≡ (9, (cron_service_add_job world service later_job).1) ∷ ids service.jobs)
ids-add_example = ids-add world service later_job

create-save_example :
    jobs_of (cron_service_create (λ i. i + 100) (save_jobs true service).store).jobs
    ≡ map restarted (reversed_jobs service.jobs)
create-save_example = create-save (λ i. i + 100) service

-- A list of minutes that is longer than seven bytes runs on into the field of the hours.
long_list_splits :
    scan_words 5 (codes "0,15,30,45 9 * * *")
    ≡ codes "0,15,30" ∷ codes ",45" ∷ codes "9" ∷ codes "*" ∷ codes "*" ∷ []
unfolding scan_words str_trim_left
long_list_splits = refl
