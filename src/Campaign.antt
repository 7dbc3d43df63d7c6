-- ===== src/Campaign.antt =====
-- The runs of a campaign: the tables that `runCampaign` of apps/orchestrator/src/service.ts writes, with
-- the methods `saveJob`, `createApplication` and `transition` of apps/orchestrator/src/store.ts.
pub mod Setting
pub mod Run
pub mod Runs
pub mod Scheduler
mod Tests
use extension_jobs.Common.{
  ℕ, String, Bool, true, false, ◌||◌, Option, none, some, List, [], ◌∷◌, ◌++◌, str_eq, any, find,
  update_where, Result, ok, err, if◌then◌else◌,
}
use extension_jobs.Application.{FieldAnswer}
use extension_jobs.Jobs.{Job}
use extension_jobs.Store.Locks.{Lock}
use extension_jobs.Store.Submissions.{TransitionError, not_found, refused}
use extension_jobs.Store.Usage.{Usage}
use extension_jobs.Workflow.{ApplicationState, ValidationError, discovered, assert_transition}

-- A row that `createApplication` adds to the table applications; its `data` is
-- `{ campaignId, createdAt }`. The rows of prepared applications are in Store/Submissions.
pub record RunRow : Type 0 where
  pub id : String
  pub job_id : String
  pub state : ApplicationState
  pub campaign_id : String
  pub created_at : ℕ

-- The events of a run, each with its detail.
pub data RunEvent : Type 0 where
  run_started : String → Bool → RunEvent
  job_duplicate : String → RunEvent
  below_threshold : ℕ → RunEvent
  selected_research_only : String → ℕ → RunEvent
  per_run_limit daily_limit : String → RunEvent
  preview_ready : String → List FieldAnswer → Bool → RunEvent
  run_completed : ℕ → ℕ → List String → ℕ → RunEvent

-- A call of `audit`; the id of the event and its time are drawn.
pub record Audited : Type 0 where
  pub correlation_id : String
  pub application_id : Option String
  pub event : RunEvent

pub record Tables : Type 0 where
  pub jobs : List Job
  pub applications : List RunRow
  pub usage : List Usage
  pub locks : List Lock
  pub audited : List Audited

-- The columns id and fingerprint are UNIQUE.
unfoldable pub save_job : Job → List Job → List Job × Bool
save_job job jobs =
    if any (λ j. str_eq j.id job.id || str_eq j.fingerprint job.fingerprint) jobs
    then (jobs, false)
    else (jobs ++ job ∷ [], true)

-- `none` is the error of a primary key that is taken.
unfoldable pub create_application :
    ℕ → String → String → String → List RunRow → Option (List RunRow)
create_application now id job_id campaign_id rows =
    if any (λ r. str_eq r.id id) rows
    then none
    else some (
        rows
        ++ record {
          id = id;
          job_id = job_id;
          state = discovered;
          campaign_id = campaign_id;
          created_at = now;
        }
          ∷ [])

abbrev pub moved_row :
    String
    → ApplicationState
    → List RunRow
    → Result ValidationError (Unit {0})
    → Result TransitionError (List RunRow)
moved_row id to rows (err e) = err (refused e)
moved_row id to rows (ok _) =
    ok (update_where (λ r. str_eq r.id id) (λ r. record r { state = to }) rows)

abbrev pub move :
    String → ApplicationState → List RunRow → Option RunRow → Result TransitionError (List RunRow)
unfolding assert_transition
move id to rows none = err not_found
move id to rows (some r) = moved_row id to rows (assert_transition r.state to)

-- Without the row of application_events.
unfoldable pub transition_row :
    String → ApplicationState → List RunRow → Result TransitionError (List RunRow)
unfolding move
transition_row id to rows = move id to rows (find (λ r. str_eq r.id id) rows)
