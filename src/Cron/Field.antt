-- ===== src/Cron/Field.antt =====
-- src/cron/cron.c: one field of a cron expression, and the five fields against a local time.
use primagen.Base.{
  ℕ, zero, suc, ◌%◌, ◌+◌, Bool, true, false, not, ◌&&◌, ◌||◌, List, [], ◌∷◌, none, some, ◌==◌, leb,
  if◌then◌else◌, drop, Text, codes, text_eq, copy_to, ℤ, pos, negsuc,
}
use primagen.Utils.{has_prefix}
use primagen.Libc.{atoi, after_first, tokens}

-- `a <= b`
abbrev pub leb_ℤ : ℤ → ℤ → Bool
leb_ℤ (pos a) (pos b) = leb a b
leb_ℤ (pos a) (negsuc b) = false
leb_ℤ (negsuc a) (pos b) = true
leb_ℤ (negsuc a) (negsuc b) = leb b a

abbrev pub equals : ℤ → ℕ → Bool
equals (pos a) n = a == n
equals (negsuc a) n = false

-- `value % step == 0` for a positive step.
abbrev pub is_step : ℕ → ℤ → Bool
is_step value (pos zero) = false
is_step value (pos (suc n)) = value % suc n == 0
is_step value (negsuc n) = false

abbrev pub any_equals : ℕ → List Text → Bool
any_equals value [] = false
any_equals value (t ∷ ts) = if equals (atoi t) value then true else any_equals value ts

abbrev pub is_star : Text → Bool
is_star field = text_eq field (codes "*")

-- A list is read from a buffer of 32 bytes.
unfoldable pub cron_field_matches : ℕ → Text → Bool
unfolding text_eq has_prefix atoi tokens
cron_field_matches value field =
    if is_star field
    then true
    else if has_prefix (codes "*/") field
    then is_step value (atoi (drop 2 field))
    else elim (after_first b'-' field) [
      | some end ↦ leb_ℤ (atoi field) (pos value) && leb_ℤ (pos value) (atoi end)
      | none ↦ elim (after_first b',' field) [
        | some _ ↦ any_equals value (tokens b',' (copy_to 32 field))
        | none ↦ equals (atoi field) value
      ]
    ]

-- The fields of `struct tm` that are set or read.
pub record Tm : Type 0 where
  pub sec : ℕ
  pub min : ℕ
  pub hour : ℕ
  pub mday : ℕ
  pub mon : ℕ
  pub year : ℕ
  pub wday : ℕ
  pub isdst : ℤ

pub record Fields : Type 0 where
  pub min_f : Text
  pub hour_f : Text
  pub dom_f : Text
  pub mon_f : Text
  pub dow_f : Text

abbrev pub dom_dow_match : Text → Text → Bool → Bool → Bool
dom_dow_match dom_f dow_f match_dom match_dow =
    is_star dom_f && is_star dow_f
    || not (is_star dom_f) && match_dom
    || not (is_star dow_f) && match_dow
    || is_star dom_f && match_dow
    || is_star dow_f && match_dom

-- The month of a `struct tm` counts from 0.
unfoldable pub fields_match : Fields → Tm → Bool
unfolding cron_field_matches text_eq
fields_match f tm =
    let match_dom = cron_field_matches tm.mday f.dom_f in
    let match_dow = cron_field_matches tm.wday f.dow_f in
    cron_field_matches tm.min f.min_f
    && cron_field_matches tm.hour f.hour_f
    && cron_field_matches (tm.mon + 1) f.mon_f
    && dom_dow_match f.dom_f f.dow_f match_dom match_dow
