-- ===== src/Cron/Schedule.antt =====
-- src/cron/cron.c: when a schedule runs next. The conversions between a time and a local time are
-- the C library's, given by the functions of a `Clock`; times are after the epoch.
use primagen.Base.{
  ℕ, zero, suc, ◌+◌, ◌*◌, Bool, true, false, ◌&&◌, List, [], ◌∷◌, Option, none, some, ◌==◌, leb,
  ltb, if◌then◌else◌, drop, Text, codes, text_eq, ℤ, pos, negsuc,
}
use primagen.Utils.{has_prefix}
use primagen.Libc.{atoi, atol, scan_int, scan_words}
use primagen.Cron.Field.{Tm, Fields, fields_match, is_star}

-- `mktime` also brings the fields of its argument into their ranges.
pub record Clock : Type 0 where
  pub localtime : ℕ → Tm
  pub mktime : Tm → Tm × ℕ

pub data CronSchedule : Type 0 where
  invalid : CronSchedule
  one_time recurring : ℤ → CronSchedule

-- What the search came to: `unfinished` is the end of the fuel.
pub data Search : Type 0 where
  unfinished exhausted : Search
  found : ℕ → Search

abbrev pub first_minute : Tm → Tm
first_minute tm = record tm { sec = 0; min = tm.min + 1 }

abbrev pub next_minute : Tm → Tm
next_minute tm =
    if leb 60 (tm.min + 1)
    then (if leb 24 (tm.hour + 1)
        then record tm { min = 0; hour = 0; mday = tm.mday + 1 }
        else record tm { min = 0; hour = tm.hour + 1 })
    else record tm { min = tm.min + 1 }

-- The loop over the minutes, up to a time and to the year 2100.
abbrev pub search : Clock → Fields → ℕ → ℕ → Tm → Search
search clock f search_end zero tm = unfinished
search clock f search_end (suc fuel) tm = elim (ltb tm.year 200) [
  | false ↦ exhausted
  | true ↦ elim (ltb search_end (clock.mktime tm).1) [
    | true ↦ exhausted
    | false ↦ elim (fields_match f (clock.mktime tm).0) [
      | true ↦ found (clock.mktime tm).1
      | false ↦ search clock f search_end fuel (next_minute (clock.mktime tm).0)
    ]
  ]
]

-- The minutes of 366 days, and two.
abbrev pub search_fuel : ℕ
search_fuel = 366 * 24 * 60 + 2

abbrev pub fields_of : List Text → Option Fields
fields_of (a ∷ b ∷ c ∷ d ∷ e ∷ _) =
    some (record { min_f = a; hour_f = b; dom_f = c; mon_f = d; dow_f = e })
fields_of _ = none

abbrev pub starts_with_at : Text → Bool
starts_with_at [] = false
starts_with_at (c ∷ _) = c == b'@'

abbrev pub year_ahead : ℕ → ℕ
year_ahead now = now + 366 * 24 * 60 * 60

unfoldable pub search_from : Clock → Fields → ℕ → Search
search_from clock f now =
    search clock f (year_ahead now) search_fuel (first_minute (clock.localtime now))

abbrev pub time_of : Search → Option ℕ
time_of (found t) = some t
time_of _ = none

-- Five words of at most seven bytes.
unfoldable pub parse_standard_cron : Clock → Text → ℕ → Option ℕ
unfolding scan_words search_from
parse_standard_cron clock schedule now = elim (fields_of (scan_words 5 schedule)) [
  | none ↦ none
  | some f ↦ if starts_with_at schedule then none else time_of (search_from clock f now)
]

-- The hour and the minute, both in range.
abbrev pub in_range : ℤ → ℤ → Option (ℕ × ℕ)
in_range (pos hour) (pos minute) =
    if leb hour 23 && leb minute 59 then some (hour, minute) else none
in_range _ _ = none

abbrev pub daily_of : ℤ → ℤ → List Text → Option (ℕ × ℕ)
daily_of minute hour (dom ∷ mon ∷ dow ∷ []) =
    if is_star dom && is_star mon && is_star dow then in_range hour minute else none
daily_of _ _ _ = none

-- Two numbers and exactly three words.
unfoldable pub parse_daily_schedule : Text → Option (ℕ × ℕ)
unfolding scan_int scan_words text_eq
parse_daily_schedule schedule = elim (scan_int schedule) [
  | none ↦ none
  | some r ↦ elim (scan_int r.1) [ none ↦ none | some q ↦ daily_of r.0 q.0 (scan_words 4 q.1) ]
]

unfoldable pub next_daily_run : Clock → ℕ → ℕ → ℕ → ℕ
next_daily_run clock now hour minute =
    let today =
      clock.mktime (record (clock.localtime now) { hour = hour; min = minute; sec = 0 }) in
    if leb today.1 now
    then (clock.mktime (record today.0 { mday = today.0.mday + 1 })).1
    else today.1

-- A count of seconds, and what stands for one that is not positive.
abbrev pub seconds_or : ℕ → ℤ → ℕ
seconds_or d (pos zero) = d
seconds_or d (pos (suc n)) = suc n
seconds_or d (negsuc n) = d

-- A schedule without a prefix: five fields, or else a time of the day.
unfoldable pub next_by_fields : Clock → Text → ℕ → CronSchedule
unfolding parse_standard_cron parse_daily_schedule next_daily_run
next_by_fields clock schedule now = elim (parse_standard_cron clock schedule now) [
  | some t ↦ recurring (pos t)
  | none ↦ elim (parse_daily_schedule schedule) [
    | some d ↦ recurring (pos (next_daily_run clock now d.0 d.1))
    | none ↦ invalid
  ]
]

unfoldable pub cron_schedule_next_run : Clock → Option Text → ℕ → CronSchedule
unfolding has_prefix atoi atol next_by_fields
cron_schedule_next_run clock none now = one_time (pos now)
cron_schedule_next_run clock (some []) now = one_time (pos now)
cron_schedule_next_run clock (some (c ∷ cs)) now =
    let schedule = c ∷ cs in
    if has_prefix (codes "@every ") schedule
    then recurring (pos (now + seconds_or 60 (atoi (drop 7 schedule))))
    else if has_prefix (codes "@in ") schedule
    then one_time (pos (now + seconds_or 1 (atoi (drop 4 schedule))))
    else if has_prefix (codes "@at ") schedule
    then one_time (atol (drop 4 schedule))
    else next_by_fields clock schedule now
