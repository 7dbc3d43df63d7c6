-- ===== src/Validation.antt =====
-- packages/shared/src/validation.ts: the readers of a request and the friendly schedules. A refusal is the
-- message of the `ValidationError`.
mod Tests
use extension_jobs.Common.{
  ℕ, ◌+◌, ◌*◌, ◌-◌, ◌<>◌, String, Bool, true, false, not, ◌&&◌, ◌||◌, Option, none, some, List, [],
  ◌∷◌, map, str_eq, ltb, leb, ◌==◌, length, all, any, keep, is_digit, is_space, is_empty, is_blank,
  units, codes, trim, split, join, contains, is_some, Result, ok, err, ◌>>=◌, ◌>>◌, guard,
  if◌then◌else◌,
}
use Prim.Native.Char.{Char, code}
use extension_jobs.Domain.{
  JobCampaign, Schedule, MissedRunPolicy, skip, run_once, ExecutionMode, research_only,
  prepare_and_review, auto_submit,
}
use extension_jobs.Json.{
  Json, null, bool, number, string, array, object, Items, nil, item, Members, Number, items,
}

abbrev pub Validated : Type 0 → Type 0
Validated A = Result String A

-- What the code uses of JavaScript: `toLowerCase`, the names of time zones, and the text of a number.
pub record Locale : Type 0 where
  pub lower_case : String → String
  pub is_time_zone : String → Bool
  pub whole_text : ℕ → String
  pub number_text : Number → String

unfoldable pub as_record : Json → Validated Members
as_record (object ms) = ok ms
as_record _ = err "Expected an object"

unfoldable pub required_string : Option Json → String → ℕ → Validated String
required_string (some (string s)) field max =
    if is_blank s || ltb max (units s) then err ("Invalid " <> field) else ok (trim s)
required_string _ field max = err ("Invalid " <> field)

abbrev is_short : Json → Bool
is_short (string s) = leb (units s) 200
is_short _ = false

abbrev trimmed : Json → String
trimmed (string s) = trim s
trimmed _ = ""

unfoldable pub string_array : Option Json → String → ℕ → Validated (List String)
string_array (some (array vs)) field max =
    if ltb max (length (items vs)) || not (all is_short (items vs))
    then err ("Invalid " <> field)
    else ok (keep (λ s. not (is_empty s)) (map trimmed (items vs)))
string_array _ field max = err ("Invalid " <> field)

-- `split(/\s+/)` of a trimmed text.
abbrev spaces_equal : String → String
spaces_equal String.[] = String.[]
spaces_equal (String.◌∷◌ c s) =
    let rest = spaces_equal s in
    if is_space (code c) then String.◌∷◌ " " rest else String.◌∷◌ c rest

abbrev pub words : String → List String
words s = keep (λ w. not (is_empty w)) (split b' ' (spaces_equal s))

abbrev is_cron_char : ℕ → Bool
is_cron_char c = is_digit c || c == b'*' || c == b',' || c == b'-' || c == b'/'

unfoldable pub validate_cron : String → Validated String
validate_cron cron =
    let parts = words (trim cron) in
    guard (length parts == 5) "Cron must have five fields"
    >> guard (all (λ part. all is_cron_char (codes part)) parts) "Unsupported cron expression"
    >> ok (trim cron)

-- The groups of `/(?:at\s*)?(\d{1,2})(?::(\d{2}))?\s*(am|pm)?/`.
pub record Clock : Type 0 where
  pub hour : ℕ
  pub minute : ℕ
  pub meridiem : Option Bool

-- `true` for pm.
abbrev meridiem_of : List ℕ → Option Bool
meridiem_of [] = none
meridiem_of (c ∷ []) = none
meridiem_of (c ∷ d ∷ cs) =
    let rest = meridiem_of (d ∷ cs) in
    if is_space c
    then rest
    else if c == b'a' && d == b'm'
    then some false
    else if c == b'p' && d == b'm'
    then some true
    else none

abbrev with_minute : ℕ → List ℕ → Clock
with_minute hour (c ∷ d ∷ e ∷ cs) =
    if c == b':' && is_digit d && is_digit e
    then record { hour = hour; minute = 10 * (d - b'0') + (e - b'0'); meridiem = meridiem_of cs }
    else record { hour = hour; minute = 0; meridiem = meridiem_of (c ∷ d ∷ e ∷ cs) }
with_minute hour cs = record { hour = hour; minute = 0; meridiem = meridiem_of cs }

abbrev with_hour : ℕ → List ℕ → Clock
with_hour c [] = with_minute (c - b'0') []
with_hour c (d ∷ cs) =
    if is_digit d
    then with_minute (10 * (c - b'0') + (d - b'0')) cs
    else with_minute (c - b'0') (d ∷ cs)

-- The match begins at the first digit, or at an "at" before it.
abbrev pub clock_of : List ℕ → Option Clock
clock_of [] = none
clock_of (c ∷ cs) = let rest = clock_of cs in if is_digit c then some (with_hour c cs) else rest

abbrev pub hour_of_day : Clock → ℕ
hour_of_day c = at c.meridiem
  where
    at : Option Bool → ℕ
    at none = c.hour
    at (some true) = if ltb c.hour 12 then c.hour + 12 else c.hour
    at (some false) = if c.hour == 12 then 0 else c.hour

abbrev starts_with_codes : List ℕ → List ℕ → Bool
starts_with_codes [] cs = true
starts_with_codes (p ∷ ps) [] = false
starts_with_codes (p ∷ ps) (c ∷ cs) = p == c && starts_with_codes ps cs

-- The word later in the same line.
abbrev follows : List ℕ → List ℕ → Bool
follows word [] = starts_with_codes word []
follows word (c ∷ cs) =
    let rest = follows word cs in
    starts_with_codes word (c ∷ cs) || (not (c == 10 || c == 13 || c == 8232 || c == 8233) && rest)

-- `/monday.*friday/`: the two words do not overlap.
abbrev monday_to_friday : List ℕ → Bool
monday_to_friday [] = false
monday_to_friday (c ∷ cs) =
    let rest = monday_to_friday cs in
    (starts_with_codes (codes "monday") (c ∷ cs) && follows (codes "friday") cs) || rest

module _ (locale : Locale) where
  unfoldable pub validate_timezone : String → Validated String
  validate_timezone timezone =
      if locale.is_time_zone timezone then ok timezone else err "Invalid IANA timezone"

  abbrev schedule_of : String → Bool → Clock → Schedule
  schedule_of timezone weekdays c = record {
    cron =
        locale.whole_text c.minute
        <> " "
        <> locale.whole_text (hour_of_day c)
        <> " * * "
        <> (if weekdays then "1-5" else "*");
    timezone = timezone;
    friendly = if weekdays then "Every Monday–Friday" else "Every day";
    quiet_hours = none;
    missed_run_policy = skip;
    maximum_runtime_minutes = 30;
  }

  abbrev scheduled : String → String → Option Clock → Validated Schedule
  scheduled timezone normalized none = err "A schedule time is required"
  scheduled timezone normalized (some c) =
      let weekdays = contains normalized "weekday" || monday_to_friday (codes normalized) in
      let daily = contains normalized "every day" || contains normalized "daily" in
      if ltb 23 (hour_of_day c) || ltb 59 c.minute
      then err "Invalid schedule time"
      else if not weekdays && not daily
      then err "Supported friendly schedules are daily or weekdays"
      else ok (schedule_of timezone weekdays c)

  unfoldable pub parse_friendly_schedule : String → String → Validated Schedule
  unfolding validate_timezone
  parse_friendly_schedule text timezone =
      let normalized = trim (locale.lower_case text) in
      validate_timezone timezone >>= λ _.
      scheduled timezone normalized (clock_of (codes normalized))

  -- `padStart(2, '0')`
  abbrev padded : String → String
  padded s = if units s == 0 then "00" else if units s == 1 then "0" <> s else s

  abbrev mode_name : ExecutionMode → String
  mode_name research_only = "research_only"
  mode_name prepare_and_review = "prepare_and_review"
  mode_name auto_submit = "auto_submit"

  abbrev previewed : JobCampaign → Schedule → List String → Option String
  previewed campaign s (minute ∷ hour ∷ rest) = some (
      s.friendly
      <> " at "
      <> padded hour
      <> ":"
      <> padded minute
      <> " "
      <> s.timezone
      <> ", search "
      <> join ", " campaign.allowed_sites
      <> ". Process at most "
      <> locale.number_text campaign.max_applications_per_run
      <> " new jobs in "
      <> mode_name campaign.execution_mode
      <> " mode above a "
      <> locale.number_text campaign.minimum_match_score
      <> "% match.")
  previewed campaign s _ = none

  abbrev preview_of : JobCampaign → Option Schedule → Option String
  preview_of campaign none = some "Manual campaign"
  preview_of campaign (some s) = previewed campaign s (split b' ' s.cron)

  -- Nothing where the code throws: a cron of one field.
  unfoldable pub schedule_preview : JobCampaign → Option String
  schedule_preview campaign = preview_of campaign campaign.schedule
