-- ===== src/Campaign/Setting.antt =====
-- The types of a run of a campaign, and the constants of `runCampaign` of apps/orchestrator/src/service.ts.
use extension_jobs.Common.{
  ℕ, String, Bool, true, false, not, ◌&&◌, List, [], ◌∷◌, Result, if◌then◌else◌,
}
use extension_jobs.Application.{FieldAnswer}
use extension_jobs.Campaign.{Tables}
use extension_jobs.Domain.{ExecutionMode, research_only}
use extension_jobs.Jobs.{Job}
use extension_jobs.Jobs.Score.{TextTools}
use extension_jobs.Json.{Number, is_whole, truncated}
use extension_jobs.Store.Submissions.{TransitionError}
use extension_jobs.Workflow.{
  ApplicationState, normalized, deduplicated, scored, selected, application_started,
  questions_extracted, answers_prepared, waiting_for_approval,
}

-- What a run takes from the process and draws: the time of each step of the loop, which does not wait,
-- as one time, the day of `campaignDayKey` in a time zone, the random ids, the owner and the lease of
-- the store's locks, and the functions on texts.
pub record Setting : Type 0 where
  pub now : ℕ
  pub day_key : String → String
  pub correlation_id : String
  pub job_id : ℕ → String
  pub application_id : String → String
  pub answer_id : String → String
  pub lock_owner : String
  pub lock_lease : ℕ
  pub lower_case : String → String
  pub tools : TextTools

pub data RunError : Type 0 where
  emergency_stopped campaign_already_running profile_not_found source_failed : RunError
  application_exists invalid_limit : RunError
  transition_failed : TransitionError → RunError

-- An element of `applications`.
pub record Selected : Type 0 where
  pub id : String
  pub job : Job
  pub answers : List FieldAnswer

-- The tables and the variable of the loop.
pub record Loop : Type 0 where
  pub tables : Tables
  pub applications : List Selected

pub record RunResult : Type 0 where
  pub correlation_id : String
  pub jobs : List Job
  pub applications : List Selected

abbrev pub is_research : ExecutionMode → Bool
is_research research_only = true
is_research _ = false

-- A maximum that is no whole number, or negative, is refused as 0 is.
abbrev pub whole_maximum : Number → ℕ
whole_maximum n = if is_whole n && not n.negative then truncated n else 0

abbrev pub labels : List String
labels =
    "Email address" ∷ "Phone number" ∷ "Will you require visa sponsorship?" ∷ "Expected salary" ∷ []

abbrev pub stages : List ApplicationState
stages =
    normalized ∷ deduplicated ∷ scored ∷ selected ∷ application_started ∷ questions_extracted
    ∷ answers_prepared ∷ waiting_for_approval ∷ []

abbrev pub Stepped : Type 0
Stepped = Loop × Result RunError (Unit {0})
