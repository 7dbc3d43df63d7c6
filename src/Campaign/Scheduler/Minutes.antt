-- ===== src/Campaign/Scheduler/Minutes.antt =====
-- When the scheduler of apps/orchestrator/src/scheduler.ts runs a campaign.
use extension_jobs.Common.{
  ℕ, ◌≤◌, ◌≡◌, refl, sym, ◌∙◌, ap, subst, inl, inr, String, Bool, true, false, not, ◌&&◌, Option,
  none, some, List, [], ◌∷◌, ◌++◌, arith, any, All, codes, split, str_eq, eq_refl, is_empty,
  is_some, Result, ok, err, Bool-cases, if◌then◌else◌,
}
use extension_jobs.Campaign.Runs.{
  RunStatus, running, RunData, no_data, CampaignRun, start_campaign_run, finish_campaign_run,
  latest_campaign_run_at, later_of,
}
use extension_jobs.Campaign.Scheduler.{
  Calendar, same_number, numbers_agree, weekday_allowed, weekday_text, not_since, due_at,
  due_fields, is_schedule_due, Draws, Scheduling, finished, claimed, queued, enqueued, started_run,
  execute, due_schedule, is_due,
}
use extension_jobs.Domain.{JobCampaign, Schedule}
use extension_jobs.Json.{Number, number_of_codes}
use extension_jobs.Queue.{Queue, Row}

latest-finish :
    (id : String) (now : ℕ) (run : String) (status : RunStatus) (of_run : RunData)
    (rows : List CampaignRun)
    → latest_campaign_run_at id (finish_campaign_run now run status of_run rows)
      ≡ latest_campaign_run_at id rows
unfolding latest_campaign_run_at finish_campaign_run
latest-finish id now run status of_run [] = refl
latest-finish id now run status of_run (r ∷ rs) =
    ground (arith, latest-finish id now run status of_run rs)

latest_of :
    (own : Bool) (t now : ℕ)
    → t ≤ now
    → (if own then some (later_of t (some now)) else some now) ≡ some now
latest_of false t now h = refl
latest_of true t now h = ap (λ n. some n) (ground (arith, h))

-- The run that has just started is the latest one.
latest_started :
    (id : String) (rows : List CampaignRun) (new : CampaignRun)
    → str_eq new.campaign_id id ≡ true
    → All (λ r. r.created_at ≤ new.created_at) rows
    → latest_campaign_run_at id (rows ++ new ∷ []) ≡ some new.created_at
unfolding latest_campaign_run_at
latest_started id [] new own before = rw own refl
latest_started id (r ∷ rs) new own before =
    rw (latest_started id rs new own before.1)
      (latest_of (str_eq r.campaign_id id) r.created_at new.created_at before.0)

module _ (draws : Draws) (campaign : JobCampaign) where
  finished_latest :
      (s : Scheduling) (r : Result String (ℕ × ℕ)) (queue_id : String)
      → latest_campaign_run_at campaign.id (finished draws campaign.id s r queue_id).runs
        ≡ latest_campaign_run_at campaign.id s.runs
  unfolding finished
  finished_latest s (ok (discovered, prepared)) queue_id = latest-finish campaign.id _ _ _ _ s.runs
  finished_latest s (err name) queue_id = latest-finish campaign.id _ _ _ _ s.runs

  claimed_latest :
      (s : Scheduling) (queue_id : String) (c : Queue × Option Row)
      → latest_campaign_run_at campaign.id (claimed draws campaign s queue_id c).runs
        ≡ latest_campaign_run_at campaign.id s.runs
  unfolding claimed
  claimed_latest s queue_id (queue, none) = latest-finish campaign.id _ _ _ _ s.runs
  claimed_latest s queue_id (queue, some row) =
      finished_latest (record s { queue = queue }) (draws.outcome campaign) queue_id

  queued_latest :
      (s : Scheduling) (o : Option (Queue × Row))
      → latest_campaign_run_at campaign.id (queued draws campaign s o).0.runs
        ≡ latest_campaign_run_at campaign.id s.runs
  unfolding queued
  queued_latest s none = refl
  queued_latest s (some (queue, row)) = claimed_latest (record s { queue = queue }) row.id _

  execute_latest :
      (s : Scheduling)
      → All (λ r. r.created_at ≤ draws.started_at campaign.id) s.runs
      → (execute draws campaign s).1 ≡ false
      → latest_campaign_run_at campaign.id (execute draws campaign s).0.runs
        ≡ some (draws.started_at campaign.id)
  unfolding execute started_run start_campaign_run
  execute_latest s before fine =
      let id = draws.run_id campaign.id (draws.correlation_id campaign.id) in
      elim (Bool-cases (any (λ r. str_eq r.id id) s.runs)) [
        | inl taken ↦ absurd (cc (rw taken at fine))
        | inr free ↦ rw free (
            queued_latest (record s { runs = s.runs ++ new ∷ [] }) (enqueued draws campaign s)
            ∙ latest_started campaign.id s.runs new (eq_refl campaign.id) before)
      ]
    where
      new : CampaignRun
      new = record {
        id = draws.run_id campaign.id (draws.correlation_id campaign.id);
        campaign_id = campaign.id;
        status = running;
        correlation_id = draws.correlation_id campaign.id;
        created_at = draws.started_at campaign.id;
        completed_at = none;
        run_data = no_data;
      }

same_minute :
    (calendar : Calendar) (zone minute hour weekday : String) (now last : ℕ)
    → str_eq (calendar.formatted zone last) (calendar.formatted zone now) ≡ true
    → due_at calendar zone now (some last) minute hour weekday ≡ false
same_minute calendar zone minute hour weekday now last same = rw same (ground arith)

not_due_fields :
    (calendar : Calendar) (zone : String) (now last : ℕ) (fields : List String)
    → str_eq (calendar.formatted zone last) (calendar.formatted zone now) ≡ true
    → due_fields calendar zone now (some last) fields ≡ false
not_due_fields calendar zone now last (m ∷ h ∷ d ∷ o ∷ w ∷ rest) same =
    same_minute calendar zone m h w now last same
not_due_fields calendar zone now last (m ∷ h ∷ d ∷ o ∷ []) same = refl
not_due_fields calendar zone now last (m ∷ h ∷ d ∷ []) same = refl
not_due_fields calendar zone now last (m ∷ h ∷ []) same = refl
not_due_fields calendar zone now last (m ∷ []) same = refl
not_due_fields calendar zone now last [] same = refl

not_due_schedule :
    (calendar : Calendar) (now last : ℕ) (o : Option Schedule)
    → ((zone : String) → str_eq (calendar.formatted zone last) (calendar.formatted zone now) ≡ true)
    → due_schedule calendar now (some last) o ≡ false
unfolding due_schedule is_schedule_due
not_due_schedule calendar now last none same = refl
not_due_schedule calendar now last (some s) same =
    not_due_fields calendar s.timezone now last (split b' ' s.cron) (same s.timezone)

-- A campaign starts once a minute at most: after an execution that did not throw, where no run was
-- created later than it started, the campaign is not due at any time that `Intl.DateTimeFormat`
-- writes as the start of the execution, in every time zone.
pub execute_not_due :
    (draws : Draws) (calendar : Calendar) (campaign : JobCampaign) (s : Scheduling) (now : ℕ)
    → All (λ r. r.created_at ≤ draws.started_at campaign.id) s.runs
    → (execute draws campaign s).1 ≡ false
    → ((zone : String)
        → str_eq
            (calendar.formatted zone (draws.started_at campaign.id))
            (calendar.formatted zone now)
          ≡ true)
    → is_due calendar now (execute draws campaign s).0.runs campaign ≡ false
unfolding is_due
execute_not_due draws calendar campaign s now before fine same =
    rw
      (
        execute_latest draws campaign s before fine,
        not_due_schedule calendar now (draws.started_at campaign.id) campaign.schedule same,
      )
      (ground arith)

some_right : (m n : Option Number) → same_number m n ≡ true → is_some n ≡ true
some_right (some m) (some n) e = refl
some_right (some m) none e = e
some_right none n e = absurd (cc e)

agree_number :
    (s t : String) → numbers_agree s t ≡ true → is_some (number_of_codes (codes t)) ≡ true
unfolding numbers_agree
agree_number s t e = some_right (number_of_codes (codes s)) (number_of_codes (codes t)) e

agreeing :
    (a b c m h w n : Bool)
    → (not a && not b && not c && m && h && w && n) ≡ true
    → (m ≡ true) × (h ≡ true)
agreeing a b c m h w n e = ground (arith, e)

-- A schedule that is due has a number as the minute and one as the hour, the minute and the hour of now,
-- and it is due whatever the fields of the day of the month and of the month.
pub due_has_time :
    (calendar : Calendar) (schedule : Schedule) (now : ℕ) (last : Option ℕ)
    (minute hour day month weekday day' month' : String)
    → split b' ' schedule.cron ≡ minute ∷ hour ∷ day ∷ month ∷ weekday ∷ []
    → is_schedule_due calendar schedule now last ≡ true
    → (numbers_agree (calendar.minute schedule.timezone now) minute ≡ true)
      × (numbers_agree (calendar.hour schedule.timezone now) hour ≡ true)
      × (is_some (number_of_codes (codes minute)) ≡ true)
      × (is_some (number_of_codes (codes hour)) ≡ true)
      × ((other : Schedule)
          → other.timezone ≡ schedule.timezone
          → split b' ' other.cron ≡ minute ∷ hour ∷ day' ∷ month' ∷ weekday ∷ []
          → is_schedule_due calendar other now last ≡ true)
unfolding is_schedule_due
due_has_time calendar schedule now last minute hour day month weekday day' month' fields due =
    let zone = schedule.timezone in
    let at_now : due_at calendar zone now last minute hour weekday ≡ true =
      subst (λ fs. due_fields calendar zone now last fs ≡ true) fields due in
    let (minutes, hours) =
      agreeing (is_empty minute) (is_empty hour) (is_empty weekday)
        (numbers_agree (calendar.minute zone now) minute)
        (numbers_agree (calendar.hour zone now) hour)
        (weekday_allowed weekday (weekday_text (calendar.weekday zone now)))
        (not_since calendar zone now last) at_now in
    (
      minutes,
      hours,
      agree_number (calendar.minute zone now) minute minutes,
      agree_number (calendar.hour zone now) hour hours,
      λ other same fields'.
          subst (λ z. due_fields calendar z now last (split b' ' other.cron) ≡ true) (sym same)
            (subst (λ fs. due_fields calendar zone now last fs ≡ true) (sym fields') at_now),
    )
