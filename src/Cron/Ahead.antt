-- ===== src/Cron/Ahead.antt =====
-- src/cron/cron.c: every recurring schedule lies ahead.
use primagen.Base.{
  ℕ, zero, suc, ◌+◌, ◌≤◌, ◌<◌, ◌≡◌, refl, sym, ap, ◌∙◌, Bool, true, false, [], ◌∷◌, Option, none,
  some, leb, if◌then◌else◌, if_elim, Text, ℤ, pos, arith,
}
use primagen.Cron.Field.{Fields}
use primagen.Cron.Schedule.{
  Clock, CronSchedule, invalid, recurring, first_minute, year_ahead, search_from, fields_of,
  time_of, seconds_or, starts_with_at, parse_standard_cron, parse_daily_schedule, next_daily_run,
  next_by_fields, cron_schedule_next_run,
}
use primagen.Base.{negsuc, codes, drop}
use primagen.Utils.{has_prefix}
use primagen.Libc.{atoi, scan_words}
use primagen.Cron.NextMinute.{search_from-minute_at, minute_at, IsRegular}

-- A schedule that recurs does so after `now`.
abbrev pub IsAhead : ℕ → CronSchedule → Type 0
IsAhead now (recurring (pos t)) = now < t
IsAhead now (recurring (negsuc t)) = ⊥
IsAhead now _ = Unit

module _ (clock : Clock) (regular : IsRegular clock) (now : ℕ) where
  next_daily_run-later : (hour minute : ℕ) → now < next_daily_run clock now hour minute
  unfolding next_daily_run
  next_daily_run-later hour minute =
      let today =
        clock.mktime (record (clock.localtime now) { hour = hour; min = minute; sec = 0 }) in
      if_elim (λ t. now < t) (leb today.1 now) _ _
        (λ _. regular.tomorrow now hour minute today.0 refl) (λ later. not_leb later)
    where
      not_leb : {a b : ℕ} → leb a b ≡ false → b < a
      not_leb h = ground arith

  daily-IsAhead :
      (o : Option (ℕ × ℕ))
      → IsAhead now
          (elim o [ some d ↦ recurring (pos (next_daily_run clock now d.0 d.1)) | none ↦ invalid ])
  daily-IsAhead none = tt
  daily-IsAhead (some (hour, minute)) = next_daily_run-later hour minute

  module _ (years : (u : ℕ) → u ≤ year_ahead now → (clock.localtime u).year < 200) where
    found_later : (f : Fields) (u : ℕ) → time_of (search_from clock f now) ≡ some u → now < u
    found_later f u h =
        by_index _ (ap time_of (sym (search_from-minute_at clock regular f now years)) ∙ h)
      where
        the_time : {a b : ℕ} → some a ≡ some b → a ≡ b
        the_time h = ground arith

        by_index :
            (o : Option ℕ)
            → time_of (minute_at (clock.mktime (first_minute (clock.localtime now))).1 o) ≡ some u
            → now < u
        by_index none h = absurd (ground arith)
        by_index (some k) h = omega (arith, (regular.starts now).0, the_time h)

    parse_standard_cron-later :
        (schedule : Text) (u : ℕ) → parse_standard_cron clock schedule now ≡ some u → now < u
    unfolding parse_standard_cron
    parse_standard_cron-later schedule u h =
        by_fields (fields_of (scan_words 5 schedule)) (starts_with_at schedule) h
      where
        by_fields :
            (o : Option Fields) (at : Bool)
            → (elim o as (λ _. Option ℕ) [
              | none ↦ none
              | some f ↦ if at then none else time_of (search_from clock f now)
            ])
              ≡ some u
            → now < u
        by_fields none at h = absurd (ground arith)
        by_fields (some f) true h = absurd (ground arith)
        by_fields (some f) false h = found_later f u h

    next_by_fields-IsAhead : (schedule : Text) → IsAhead now (next_by_fields clock schedule now)
    unfolding next_by_fields
    next_by_fields-IsAhead schedule =
        by_parse (parse_standard_cron clock schedule now) (parse_standard_cron-later schedule)
      where
        by_parse :
            (o : Option ℕ)
            → ((u : ℕ) → o ≡ some u → now < u)
            → IsAhead now (elim o [
              | some t ↦ recurring (pos t)
              | none ↦ elim (parse_daily_schedule schedule) [
                | some d ↦ recurring (pos (next_daily_run clock now d.0 d.1))
                | none ↦ invalid
              ]
            ])
        by_parse none h = daily-IsAhead (parse_daily_schedule schedule)
        by_parse (some u) h = h u refl

    -- With a regular clock, and with no year from 2100 on within the next 366 days: whatever the
    -- schedule is, if it recurs, its next run is after `now`.
    pub cron_schedule_next_run-IsAhead :
        (schedule : Option Text) → IsAhead now (cron_schedule_next_run clock schedule now)
    unfolding cron_schedule_next_run
    cron_schedule_next_run-IsAhead none = tt
    cron_schedule_next_run-IsAhead (some []) = tt
    cron_schedule_next_run-IsAhead (some (c ∷ cs)) =
        if_elim (IsAhead now) (has_prefix (codes "@every ") (c ∷ cs)) _ _
          (λ _. every (atoi (drop 7 (c ∷ cs))))
          (λ _.
            if_elim (IsAhead now) (has_prefix (codes "@in ") (c ∷ cs)) _ _ (λ _. tt)
              (λ _.
                if_elim (IsAhead now) (has_prefix (codes "@at ") (c ∷ cs)) _ _ (λ _. tt)
                  (λ _. next_by_fields-IsAhead (c ∷ cs))))
      where
        every : (z : ℤ) → now < now + seconds_or 60 z
        every (pos zero) = omega arith
        every (pos (suc n)) = omega arith
        every (negsuc n) = omega arith
