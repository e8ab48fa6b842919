-- ===== src/Cron.antt =====
-- src/cron/cron.c, src/include/cron.h: scheduled jobs, kept in a list and a file, and the worker that
-- runs them when they are due. Here are the jobs; the children have the rest.
pub mod Field
pub mod Schedule
pub mod NextMinute
pub mod Ahead
pub mod Jobs
pub mod Store
pub mod Worker
pub mod Linked
pub mod Passes
pub mod Runs
pub mod JobLaws
pub mod Examples
use primagen.Base.{ℕ, Bool, List, Option, Text, ℤ, pos, is_positive, if◌then◌else◌}

pub record CronJob : Type 0 where
  pub id : Option Text
  pub name : Option Text
  pub payload_message : Option Text
  pub channel : Option Text
  pub to : Option Text
  pub deliver : Bool
  pub next_run : ℤ
  pub schedule : Option Text
  pub retry_count : ℤ
  pub max_retries : ℤ
  pub last_status : ℤ

-- A job's object in the file: the items with the type that is read, or `none`.
pub record JobItem : Type 0 where
  pub id : Option Text
  pub name : Option Text
  pub payload_message : Option Text
  pub channel : Option Text
  pub to : Option Text
  pub deliver : Option Bool
  pub next_run : Option ℤ
  pub schedule : Option Text

-- The nodes of the list of jobs, by address, from its head; whether the worker is running; and the
-- array "jobs" of the store, if the file has one.
pub record CronService : Type 0 where
  pub jobs : List (ℕ × CronJob)
  pub running : Bool
  pub store : Option (List JobItem)

abbrev pub positive_or : ℤ → ℤ → ℤ
positive_or d z = if is_positive z then z else d

-- Three tries where no number is given.
unfoldable pub copy_job : CronJob → CronJob
copy_job src = record src { max_retries = positive_or (pos 3) src.max_retries }
