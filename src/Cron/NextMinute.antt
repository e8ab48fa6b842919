-- ===== src/Cron/NextMinute.antt =====
-- src/cron/cron.c: the search for the next minute that a cron expression names, against the first of the
-- matching minutes.
use mathlib.Core.Path.{subst, fun_ext}
use primagen.Base.{
  ℕ, zero, suc, ◌+◌, ◌-◌, ◌*◌, ◌/◌, ◌≤◌, ◌<◌, ◌≡◌, refl, sym, ap, ◌∙◌, Bool, true, false, Option,
  none, some, leb, ltb, if◌then◌else◌, if_elim, arith, inl, inr, Bool-cases, lt→ltb,
}
use primagen.Cron.Field.{Tm, Fields, fields_match}
use primagen.Cron.Schedule.{
  Clock, Search, exhausted, found, first_minute, next_minute, search, search_fuel, year_ahead,
  search_from,
}

-- The first of so many indices at which a test holds.
abbrev pub first_index : (ℕ → Bool) → ℕ → Option ℕ
first_index p zero = none
first_index p (suc n) =
    if p 0
    then some 0
    else elim (first_index (λ k. p (suc k)) n) [ none ↦ none | some k ↦ some (suc k) ]

first_index-suc :
    (p : ℕ → Bool) (n : ℕ) {b : Bool}
    → p 0 ≡ b
    → (if b
        then some 0
        else elim (first_index (λ k. p (suc k)) n) [ none ↦ none | some k ↦ some (suc k) ])
      ≡ first_index p (suc n)
first_index-suc p n h =
    ap
      (λ b.
        if b
        then some 0
        else elim (first_index (λ k. p (suc k)) n) [ none ↦ none | some k ↦ some (suc k) ])
      (sym h)

abbrev pub minute_at : ℕ → Option ℕ → Search
minute_at t none = exhausted
minute_at t (some k) = found (t + 60 * k)

-- What the sources rely on of a time zone's clock: the minute after `now` begins within a minute, the next
-- minute is 60 seconds on, a time of the next day is later, and `localtime` gives back what `mktime` has brought into range.
pub record IsRegular (clock : Clock) : Type 0 where
  pub starts :
      (now : ℕ)
      → (now < (clock.mktime (first_minute (clock.localtime now))).1)
        × ((clock.mktime (first_minute (clock.localtime now))).1 ≤ now + 60)
  pub ticks :
      (tm : Tm) → (clock.mktime (next_minute (clock.mktime tm).0)).1 ≡ (clock.mktime tm).1 + 60
  pub tomorrow :
      (now hour minute : ℕ) (today : Tm)
      → today
        ≡ (clock.mktime (record (clock.localtime now) { hour = hour; min = minute; sec = 0 })).0
      → now < (clock.mktime (record today { mday = today.mday + 1 })).1
  pub agrees : (tm : Tm) → clock.localtime (clock.mktime tm).1 ≡ (clock.mktime tm).0

year-next_minute : (tm : Tm) → (next_minute tm).year ≡ tm.year
year-next_minute tm =
    if_elim (λ (x : Tm). x.year ≡ tm.year) (leb 60 (tm.min + 1)) _ _
      (λ _.
        if_elim (λ (x : Tm). x.year ≡ tm.year) (leb 24 (tm.hour + 1)) _ _ (λ _. refl) (λ _. refl))
      (λ _. refl)

not_ltb : {a b : ℕ} → a ≤ b → ltb b a ≡ false
not_ltb h = ground arith

-- One round of the search, by its tests.
abbrev round : Bool → Bool → Bool → ℕ → Search → Search
round in_years over hit t rest = elim in_years [
  | false ↦ exhausted
  | true ↦ elim over [ true ↦ exhausted | false ↦ elim hit [ true ↦ found t | false ↦ rest ] ]
]

round_by :
    {a b c x y z : Bool} (t : ℕ) (rest : Search)
    → a ≡ x
    → b ≡ y
    → c ≡ z
    → round a b c t rest ≡ round x y z t rest
round_by {a = a} {b = b} {c = c} {x = x} {y = y} t rest h k l =
    ap (λ d. round d b c t rest) h ∙ ap (λ d. round x d c t rest) k ∙ ap (λ d. round x y d t rest) l

module _ (clock : Clock) (f : Fields) (search_end : ℕ) where
  search-late :
      (fuel : ℕ) (tm : Tm)
      → tm.year < 200
      → search_end < (clock.mktime tm).1
      → search clock f search_end (suc fuel) tm ≡ exhausted
  search-late fuel tm year late =
      round_by (clock.mktime tm).1
        (search clock f search_end fuel (next_minute (clock.mktime tm).0)) (lt→ltb _ _ year)
        (lt→ltb _ _ late) refl

  search-found :
      (fuel : ℕ) (tm : Tm)
      → tm.year < 200
      → (clock.mktime tm).1 ≤ search_end
      → fields_match f (clock.mktime tm).0 ≡ true
      → search clock f search_end (suc fuel) tm ≡ found (clock.mktime tm).1
  search-found fuel tm year le hit =
      round_by (clock.mktime tm).1
        (search clock f search_end fuel (next_minute (clock.mktime tm).0)) (lt→ltb _ _ year)
        (not_ltb le) hit

  search-next :
      (fuel : ℕ) (tm : Tm)
      → tm.year < 200
      → (clock.mktime tm).1 ≤ search_end
      → fields_match f (clock.mktime tm).0 ≡ false
      → search clock f search_end (suc fuel) tm
        ≡ search clock f search_end fuel (next_minute (clock.mktime tm).0)
  search-next fuel tm year le miss =
      round_by (clock.mktime tm).1
        (search clock f search_end fuel (next_minute (clock.mktime tm).0)) (lt→ltb _ _ year)
        (not_ltb le) miss

module _ (clock : Clock) (regular : IsRegular clock) (f : Fields) (search_end : ℕ)
    (years : (u : ℕ) → u ≤ search_end → (clock.localtime u).year < 200) where
  -- Whether the minute that many minutes after a time matches.
  abbrev pub matches_at : ℕ → ℕ → Bool
  matches_at t k = fields_match f (clock.localtime (t + 60 * k))

  later :
      (t : ℕ) (n : ℕ)
      → first_index (λ k. matches_at t (suc k)) n ≡ first_index (matches_at (t + 60)) n
  later t n =
      ap (λ g. first_index (λ k. fields_match f (clock.localtime (g k))) n)
        (fun_ext (λ k. omega arith))

  minute_at-suc :
      (t : ℕ) (o : Option ℕ)
      → minute_at (t + 60) o ≡ minute_at t (elim o [ none ↦ none | some k ↦ some (suc k) ])
  minute_at-suc t none = refl
  minute_at-suc t (some k) = ap found (omega arith)

  search-minute_at :
      (fuel n : ℕ) (tm : Tm) (t : ℕ)
      → t ≡ (clock.mktime tm).1
      → tm.year < 200
      → search_end < t + 60 * n
      → t + 60 * n ≤ search_end + 60
      → n < fuel
      → search clock f search_end fuel tm ≡ minute_at t (first_index (matches_at t) n)
  search-minute_at zero n tm t at year above below enough = absurd (omega arith)
  search-minute_at (suc fuel) zero tm t at year above below enough =
      search-late clock f search_end fuel tm year (omega (arith, above, at))
  search-minute_at (suc fuel) (suc n) tm t at year above below enough =
      let le : (clock.mktime tm).1 ≤ search_end = omega (arith, below, at) in
      let here : matches_at t 0 ≡ fields_match f (clock.mktime tm).0 =
        ap (λ u. fields_match f (clock.localtime u)) (omega (arith, at))
        ∙ ap (fields_match f) (regular.agrees tm) in
      let now_at : (clock.mktime tm).1 ≡ t + 60 * 0 = omega (arith, at) in
      elim (Bool-cases (fields_match f (clock.mktime tm).0)) [
        | inl hit ↦
            search-found clock f search_end fuel tm year le hit
            ∙ ap found now_at
            ∙ ap (minute_at t) (first_index-suc (matches_at t) n (here ∙ hit))
        | inr miss ↦
            search-next clock f search_end fuel tm year le miss
            ∙ search-minute_at fuel n (next_minute (clock.mktime tm).0) (t + 60)
                (ap (λ u. u + 60) at ∙ sym (regular.ticks tm))
                (subst (λ y. y < 200)
                  (ap (λ (x : Tm). x.year) (regular.agrees tm)
                    ∙ sym (year-next_minute (clock.mktime tm).0))
                  (years (clock.mktime tm).1 le))
                (omega arith) (omega arith) (omega arith)
            ∙ minute_at-suc t (first_index (matches_at (t + 60)) n)
            ∙ ap (minute_at t) (
                ap (λ o. elim o [ none ↦ none | some k ↦ some (suc k) ]) (sym (later t n))
                ∙ first_index-suc (matches_at t) n (here ∙ miss))
      ]

-- The minutes from one time to another.
abbrev pub minutes_until : ℕ → ℕ → ℕ
minutes_until t e = (e - t) / 60 + 1

-- With a regular clock, and with no year from 2100 on within the next 366 days: the search for the five fields
-- finds the first of the minutes after `now` and within 366 days whose local time the fields match, and is
-- exhausted if there is none; its fuel does not run out.
pub search_from-minute_at :
    (clock : Clock) (regular : IsRegular clock) (f : Fields) (now : ℕ)
    (years : (u : ℕ) → u ≤ year_ahead now → (clock.localtime u).year < 200)
    → search_from clock f now
      ≡ minute_at (clock.mktime (first_minute (clock.localtime now))).1 (
          first_index
            (λ k.
              fields_match f
                (clock.localtime ((clock.mktime (first_minute (clock.localtime now))).1 + 60 * k)))
            (minutes_until (clock.mktime (first_minute (clock.localtime now))).1 (year_ahead now)))
unfolding search_from
search_from-minute_at clock regular f now years =
    let t = (clock.mktime (first_minute (clock.localtime now))).1 in
    let (after, soon) = regular.starts now in
    search-minute_at clock regular f (year_ahead now) years search_fuel
      (minutes_until t (year_ahead now)) (first_minute (clock.localtime now)) t refl
      (years now (omega arith)) (omega (arith, soon)) (omega (arith, soon))
      (omega (arith, soon, after))
