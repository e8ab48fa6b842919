-- ===== src/Cron/JobLaws.antt =====
-- src/cron/cron.c: adding, updating and removing jobs.
use mathlib.Core.Path.{subst}
use primagen.Cron.Linked.{if_true}
use primagen.Base.{
  ℕ, ◌≡◌, refl, sym, ap, ◌∙◌, Bool, true, false, List, [], ◌∷◌, Option, none, some, if◌then◌else◌,
  if_elim, Text, text_eq_refl, ◌⊎◌, inl, inr,
}
use primagen.Cron.{CronJob, CronService, copy_job}
use primagen.Cron.Schedule.{CronSchedule, invalid, one_time, recurring, cron_schedule_next_run}
use primagen.Cron.Store.{save_jobs}
use primagen.Cron.Jobs.{
  World, same_text, at_next, is_valid, update_job, update_named, id_or, new_job,
  cron_service_add_job, remove_by_id, cron_service_remove_job,
}

jobs-save : (opens : Bool) (service : CronService) → (save_jobs opens service).jobs ≡ service.jobs
unfolding save_jobs
jobs-save true service = refl
jobs-save false service = refl

-- The ids of the jobs, in their order.
abbrev pub ids : List (ℕ × CronJob) → List (ℕ × Option Text)
ids [] = []
ids ((p, job) ∷ jobs) = (p, job.id) ∷ ids jobs

id-at_next : (sched : CronSchedule) (job : CronJob) → (at_next sched job).id ≡ job.id
id-at_next invalid job = refl
id-at_next (one_time t) job = refl
id-at_next (recurring t) job = refl

added_new :
    (w : World) (service : CronService) (job : CronJob)
    → update_named w job service.jobs ≡ none
    → is_valid (cron_schedule_next_run w.clock job.schedule w.now) ≡ true
    → cron_service_add_job w service job ≡ (
      save_jobs w.opens (record service { jobs = (w.address, new_job w job) ∷ service.jobs }),
      some (id_or w.new_id job.id),
    )
unfolding cron_service_add_job
added_new w service job fresh valid =
    let new : CronService × Option Text = (
      save_jobs w.opens (record service { jobs = (w.address, new_job w job) ∷ service.jobs }),
      some (id_or w.new_id job.id),
    ) in
    ap
      (λ o. elim o as (λ _. CronService × Option Text) [
        | some u ↦
            if is_valid (cron_schedule_next_run w.clock job.schedule w.now)
            then (save_jobs w.opens (record service { jobs = u.0 }), u.1)
            else (record service { jobs = u.0 }, none)
        | none ↦
            if is_valid (cron_schedule_next_run w.clock job.schedule w.now)
            then new
            else (service, none)
      ])
      fresh
    ∙ if_true _ _ valid

removed_head :
    (w : World) (service : CronService) (p : ℕ) (job : CronJob) (id : Text)
    (jobs : List (ℕ × CronJob))
    → service.jobs ≡ (p, job) ∷ jobs
    → job.id ≡ some id
    → ((cron_service_remove_job w service (some id)).0.jobs ≡ jobs)
      × ((cron_service_remove_job w service (some id)).1 ≡ true)
unfolding cron_service_remove_job remove_by_id
removed_head w service p job id jobs at named =
    subst (λ o. ((after_remove o).0.jobs ≡ jobs) × ((after_remove o).1 ≡ true))
      (sym (
        ap (remove_by_id id) at
        ∙ if_true _ _ (ap (λ o. same_text o (some id)) named ∙ text_eq_refl id)))
      (jobs-save w.opens (record service { jobs = jobs }), refl)
  where
    after_remove : Option (List (ℕ × CronJob)) → CronService × Bool
    after_remove none = (service, false)
    after_remove (some jobs) = (save_jobs w.opens (record service { jobs = jobs }), true)

id-new_job : (w : World) (job : CronJob) → (new_job w job).id ≡ some (id_or w.new_id job.id)
unfolding new_job
id-new_job w job =
    id-at_next (cron_schedule_next_run w.clock job.schedule w.now)
      (record (copy_job job) { id = some (id_or w.new_id job.id) })

-- If no job has the name and the schedule is valid, adding a job and removing it by the id that was
-- returned leaves the jobs as they were, and both calls succeed.
pub remove-add :
    (w w' : World) (service : CronService) (job : CronJob)
    → update_named w job service.jobs ≡ none
    → is_valid (cron_schedule_next_run w.clock job.schedule w.now) ≡ true
    → let (added, id) = cron_service_add_job w service job in
      ((cron_service_remove_job w' added id).0.jobs ≡ service.jobs)
      × ((cron_service_remove_job w' added id).1 ≡ true)
unfolding cron_service_add_job cron_service_remove_job
remove-add w w' service job fresh valid =
    let service' = record service { jobs = (w.address, new_job w job) ∷ service.jobs } in
    subst
      (λ (r : CronService × Option Text).
        ((cron_service_remove_job w' r.0 r.1).0.jobs ≡ service.jobs)
        × ((cron_service_remove_job w' r.0 r.1).1 ≡ true))
      (sym (added_new w service job fresh valid))
      (removed_head w' (save_jobs w.opens service') w.address (new_job w job)
        (id_or w.new_id job.id) service.jobs (jobs-save w.opens service') (id-new_job w job))

-- An update keeps the nodes of the list with their ids.
abbrev Updated : Option (List (ℕ × CronJob) × Option Text) → List (ℕ × CronJob) → Type 0
Updated none jobs = Unit
Updated (some r) jobs = ids r.0 ≡ ids jobs

id-update_job : (w : World) (job old : CronJob) → (update_job w job old).id ≡ old.id
id-update_job w job old =
    id-at_next (cron_schedule_next_run w.clock job.schedule w.now)
      (record old { schedule = job.schedule; payload_message = job.payload_message })

update_named-Updated :
    (w : World) (job : CronJob) (jobs : List (ℕ × CronJob)) → Updated (update_named w job jobs) jobs
unfolding update_named
update_named-Updated w job [] = tt
update_named-Updated w job ((p, old) ∷ jobs) =
    if_elim (λ o. Updated o ((p, old) ∷ jobs)) (same_text old.name job.name) _ _
      (λ _. ap (λ o. (p, o) ∷ ids jobs) (id-update_job w job old))
      (λ _. under (update_named w job jobs) (update_named-Updated w job jobs))
  where
    under :
        (o : Option (List (ℕ × CronJob) × Option Text))
        → Updated o jobs
        → Updated (elim o [ none ↦ none | some r ↦ some ((p, old) ∷ r.0, r.1) ]) ((p, old) ∷ jobs)
    under none h = tt
    under (some r) h = ap (λ l. (p, old.id) ∷ l) h

abbrev Added : World → CronService → CronService × Option Text → Type 0
Added w service r =
    (ids r.0.jobs ≡ ids service.jobs) ⊎ (ids r.0.jobs ≡ (w.address, r.1) ∷ ids service.jobs)

-- Whatever job is added, and on every branch, each job that there was keeps its node and its id, in the same order;
-- at most one node is added, at the head, with the id that is returned.
pub ids-add :
    (w : World) (service : CronService) (job : CronJob)
    → (ids (cron_service_add_job w service job).0.jobs ≡ ids service.jobs)
      ⊎ (ids (cron_service_add_job w service job).0.jobs
          ≡ (w.address, (cron_service_add_job w service job).1) ∷ ids service.jobs)
unfolding cron_service_add_job
ids-add w service job =
    by_name (is_valid (cron_schedule_next_run w.clock job.schedule w.now))
      (update_named w job service.jobs) (update_named-Updated w job service.jobs)
  where
    by_name :
        (valid : Bool) (o : Option (List (ℕ × CronJob) × Option Text))
        → Updated o service.jobs
        → Added w service (elim o as (λ _. CronService × Option Text) [
          | some u ↦
              if valid
              then (save_jobs w.opens (record service { jobs = u.0 }), u.1)
              else (record service { jobs = u.0 }, none)
          | none ↦
              if valid
              then (
                save_jobs w.opens
                    (record service { jobs = (w.address, new_job w job) ∷ service.jobs }),
                some (id_or w.new_id job.id),
              )
              else (service, none)
        ])
    by_name true none h = inr (
        ap ids
          (jobs-save w.opens (record service { jobs = (w.address, new_job w job) ∷ service.jobs }))
        ∙ ap (λ o. (w.address, o) ∷ ids service.jobs) (id-new_job w job))
    by_name false none h = inl refl
    by_name true (some u) h = inl (ap ids (jobs-save w.opens (record service { jobs = u.0 })) ∙ h)
    by_name false (some u) h = inl h
