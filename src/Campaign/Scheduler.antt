-- ===== src/Campaign/Scheduler.antt =====
-- The scheduler of campaigns: apps/orchestrator/src/scheduler.ts. The timer, which calls `tick`
-- twice a minute, is left out.
pub mod Minutes
use extension_jobs.Common.{
  ℕ, suc, ◌*◌, ◌^◌, ◌<>◌, String, Bool, true, false, not, ◌&&◌, ◌||◌, Option, none, some, List, [],
  ◌∷◌, ◌++◌, any, codes, split, str_eq, is_empty, is_some, includes, ltb, ◌==◌, get_or, map_option,
  update_where, Result, ok, err, if◌then◌else◌,
}
use extension_jobs.Contracts.Dashboard.{CampaignState, enabled, paused}
use extension_jobs.Domain.{JobCampaign, Schedule}
use extension_jobs.Json.{Number, number_of_codes}
use extension_jobs.Queue.{Queue, Row, campaign_execute, enqueue, claim_by_id}
use extension_jobs.Queue.Operations.{complete, fail}
use extension_jobs.Campaign.Runs.{
  RunStatus, running, completed, failed, RunData, no_data, counts, code, CampaignRun,
  start_campaign_run, finish_campaign_run, later_of, latest_campaign_run_at,
}

-- What `Intl.DateTimeFormat` makes of a time in a time zone: the parts that are read, and the text.
pub record Calendar : Type 0 where
  pub minute : String → ℕ → String
  pub hour : String → ℕ → String
  pub weekday : String → ℕ → String
  pub formatted : String → ℕ → String

-- `===` of two numbers; NaN, `none`, equals nothing.
abbrev pub same_number : Option Number → Option Number → Bool
same_number (some m) (some n) =
    m.digits * 10 ^ n.scale == n.digits * 10 ^ m.scale
    && (m.digits == 0 || (m.negative && n.negative) || (not m.negative && not n.negative))
same_number _ _ = false

unfoldable pub numbers_agree : String → String → Bool
unfolding number_of_codes
numbers_agree s t = same_number (number_of_codes (codes s)) (number_of_codes (codes t))

-- `String(weekday)` of the index of the name.
abbrev pub weekday_text : String → String
weekday_text name =
    if str_eq name "Sun"
    then "0"
    else if str_eq name "Mon"
    then "1"
    else if str_eq name "Tue"
    then "2"
    else if str_eq name "Wed"
    then "3"
    else if str_eq name "Thu"
    then "4"
    else if str_eq name "Fri"
    then "5"
    else if str_eq name "Sat"
    then "6"
    else "-1"

abbrev pub weekday_allowed : String → String → Bool
weekday_allowed text weekday =
    str_eq text "*"
    || str_eq text weekday
    || (str_eq text "1-5" && includes weekday ("1" ∷ "2" ∷ "3" ∷ "4" ∷ "5" ∷ []))

abbrev pub not_since : Calendar → String → ℕ → Option ℕ → Bool
not_since calendar zone now none = true
not_since calendar zone now (some last) =
    not (str_eq (calendar.formatted zone last) (calendar.formatted zone now))

-- The first, the second and the fifth field of the cron.
abbrev pub due_at : Calendar → String → ℕ → Option ℕ → String → String → String → Bool
due_at calendar zone now last minute hour weekday =
    not (is_empty minute)
    && not (is_empty hour)
    && not (is_empty weekday)
    && numbers_agree (calendar.minute zone now) minute
    && numbers_agree (calendar.hour zone now) hour
    && weekday_allowed weekday (weekday_text (calendar.weekday zone now))
    && not_since calendar zone now last

abbrev pub due_fields : Calendar → String → ℕ → Option ℕ → List String → Bool
due_fields calendar zone now last (minute ∷ hour ∷ day ∷ month ∷ weekday ∷ rest) =
    due_at calendar zone now last minute hour weekday
due_fields calendar zone now last _ = false

unfoldable pub is_schedule_due : Calendar → Schedule → ℕ → Option ℕ → Bool
is_schedule_due calendar schedule now last =
    due_fields calendar schedule.timezone now last (split b' ' schedule.cron)

abbrev pub campaign_enabled : CampaignState → Bool
campaign_enabled enabled = true
campaign_enabled paused = false

abbrev pub due_schedule : Calendar → ℕ → Option ℕ → Option Schedule → Bool
unfolding is_schedule_due
due_schedule calendar now last none = false
due_schedule calendar now last (some schedule) = is_schedule_due calendar schedule now last

abbrev pub is_due : Calendar → ℕ → List CampaignRun → JobCampaign → Bool
unfolding latest_campaign_run_at due_schedule
is_due calendar now runs campaign =
    campaign_enabled campaign.state
    && due_schedule calendar now (latest_campaign_run_at campaign.id runs) campaign.schedule

-- What an execution draws and takes: its times, ids and hash, the payload of its job, and how
-- `runCampaign` ends, with the numbers of jobs and applications or the name of the error.
pub record Draws : Type 0 where
  pub started_at : String → ℕ
  pub ended_at : String → ℕ
  pub correlation_id : String → String
  pub queue_id : String → String
  pub run_id : String → String → String
  pub payload : String → String
  pub worker : String
  pub outcome : JobCampaign → Result String (ℕ × ℕ)

pub record Scheduling : Type 0 where
  pub runs : List CampaignRun
  pub queue : Queue

-- The tables, and whether the execution threw.
abbrev pub Executed : Type 0
Executed = Scheduling × Bool

module _ (draws : Draws) where
  abbrev pub finished : String → Scheduling → Result String (ℕ × ℕ) → String → Scheduling
  unfolding complete fail finish_campaign_run
  finished id s (ok (discovered, prepared)) queue_id = record {
    runs =
        finish_campaign_run (draws.ended_at id) (draws.run_id id (draws.correlation_id id))
          completed (counts discovered prepared) s.runs;
    queue = (complete (draws.ended_at id) queue_id draws.worker s.queue).0;
  }
  finished id s (err name) queue_id = record {
    runs =
        finish_campaign_run (draws.ended_at id) (draws.run_id id (draws.correlation_id id)) failed
          (code name) s.runs;
    queue = (fail (draws.ended_at id) queue_id draws.worker name false s.queue).0;
  }

  abbrev pub claimed : JobCampaign → Scheduling → String → Queue × Option Row → Scheduling
  unfolding finished
  claimed campaign s queue_id (queue, none) = record {
    runs =
        finish_campaign_run (draws.ended_at campaign.id)
          (draws.run_id campaign.id (draws.correlation_id campaign.id)) failed
          (code "WORKFLOW_STATE_CONFLICT") s.runs;
    queue = queue;
  }
  claimed campaign s queue_id (queue, some row) =
      finished campaign.id (record s { queue = queue }) (draws.outcome campaign) queue_id

  abbrev pub queued : JobCampaign → Scheduling → Option (Queue × Row) → Executed
  unfolding claimed claim_by_id
  queued campaign s none = (s, true)
  queued campaign s (some (queue, row)) = (
    claimed campaign (record s { queue = queue }) row.id
        (claim_by_id (draws.started_at campaign.id) row.id draws.worker queue),
    false,
  )

  abbrev pub enqueued : JobCampaign → Scheduling → Option (Queue × Row)
  unfolding enqueue
  enqueued campaign s =
      enqueue (draws.started_at campaign.id) (draws.queue_id campaign.id)
        (draws.correlation_id campaign.id) campaign_execute (draws.payload campaign.id)
        (record {
          correlation_id = some (draws.correlation_id campaign.id);
          max_attempts = some 1;
          run_after = none;
        })
        s.queue

  abbrev pub started_run : JobCampaign → Scheduling → Option (List CampaignRun) → Executed
  unfolding queued enqueued
  started_run campaign s none = (s, true)
  started_run campaign s (some runs) =
      queued campaign (record s { runs = runs }) (enqueued campaign s)

  unfoldable pub execute : JobCampaign → Scheduling → Executed
  unfolding started_run start_campaign_run
  execute campaign s = started_run campaign s (
      start_campaign_run (draws.started_at campaign.id)
        (draws.run_id campaign.id (draws.correlation_id campaign.id)) campaign.id
        (draws.correlation_id campaign.id) s.runs)

  -- The loop of `tick` over `listCampaigns()`; an execution that throws ends it.
  unfoldable pub tick_each : Calendar → ℕ → List JobCampaign → Scheduling → Executed
  unfolding is_due execute
  tick_each calendar now [] s = (s, false)
  tick_each calendar now (campaign ∷ campaigns) s = elim (is_due calendar now s.runs campaign) [
    | false ↦ tick_each calendar now campaigns s
    | true ↦
        let (after, threw) = execute campaign s in
        elim threw [ true ↦ (after, true) | false ↦ tick_each calendar now campaigns after ]
  ]

  -- `ticking` is whether another tick runs, `stopped` the emergency stop.
  unfoldable pub tick : Calendar → ℕ → Bool → Bool → List JobCampaign → Scheduling → Executed
  unfolding tick_each
  tick calendar now ticking stopped campaigns s =
      if ticking || stopped then (s, false) else tick_each calendar now campaigns s
