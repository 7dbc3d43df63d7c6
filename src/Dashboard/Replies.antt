-- ===== src/Dashboard/Replies.antt =====
-- The requests and the answers of apps/orchestrator/src/dashboard-api.ts, and the errors that its handlers
-- throw.
use extension_jobs.Common.{ℕ, String, Bool, Option, List, Result, ok, err}
use extension_jobs.Application.{SubmissionResult}
use extension_jobs.Contracts.Dashboard.{CursorPage, Disposition, Labelled, DashboardSummary}
use extension_jobs.Domain.{JobCampaign, AuditEvent}
use extension_jobs.Policy.{SitePolicy}
use extension_jobs.Store.Boards.{
  SavedJobView, ManualActionItem, PreferenceRow, VersionConflict, version_conflict,
}
use extension_jobs.Dashboard.{Attempt, DashboardHttpError}
use extension_jobs.Dashboard.Applications.{PublicApplication, PublicApproval}
use extension_jobs.Dashboard.Campaigns.{Safeguards}
use extension_jobs.Dashboard.Content.{Content}
use extension_jobs.Dashboard.Jobs.{DashboardJobView}
use extension_jobs.Dashboard.Paging.{Query}
use extension_jobs.Dashboard.Sessions.{Headers, LoggedIn, Renewed}
use extension_jobs.Dashboard.Summary.{SourcePerformance}

-- `path` are the segments after /v1/dashboard/; `uuid` and the tokens are what the handler draws.
pub record Request : Type 0 where
  pub method : String
  pub path : List String
  pub query : Query
  pub headers : Headers
  pub body : List (List ℕ)
  pub now : ℕ
  pub now_text : String
  pub uuid : String
  pub session_token : String
  pub csrf_token : String
  pub correlation_id : String

-- A `WuzzufToolError` has its own status.
pub data Thrown : Type 0 where
  http_thrown : DashboardHttpError → Thrown
  tool_thrown : ℕ → String → Thrown
  conflict_thrown other_thrown : Thrown

pub record ConnectorState : Type 0 where
  pub enabled : Bool
  pub policy : Option SitePolicy

pub data Reply : Type 0 where
  logged_in : LoggedIn → Reply
  renewed : Renewed → Reply
  logged_out : Reply
  summary_reply : DashboardSummary → Reply
  jobs_reply : CursorPage DashboardJobView → Reply
  job_reply : DashboardJobView → ConnectorState → Reply
  disposition_reply : String → Disposition → Reply
  bulk_reply : ℕ → String → Reply
  version_reply : ℕ → Reply
  views_reply : List SavedJobView → Reply
  view_reply : SavedJobView → Reply
  removed_reply : Bool → Reply
  applications_reply : CursorPage PublicApplication → Reply
  application_reply : PublicApplication → Reply
  approvals_reply : CursorPage PublicApproval → Reply
  approval_reply : PublicApproval → Reply
  submission_reply : SubmissionResult → Reply
  campaigns_reply : List JobCampaign → Reply
  preview_reply : JobCampaign → Safeguards → Reply
  campaign_reply : JobCampaign → Reply
  created_reply : JobCampaign → String → Reply
  run_reply : String → Reply
  connectors_reply : List ConnectorState → Reply
  connector_reply : ConnectorState → Reply
  actions_reply : CursorPage ManualActionItem → Reply
  action_reply : ManualActionItem → Reply
  activity_reply : CursorPage AuditEvent → Reply
  analytics_reply : List Labelled → List SourcePerformance → Reply
  no_preferences : Reply
  preference_reply : PreferenceRow → Reply
  stopped_reply : Bool → ℕ → Reply

-- What a handler makes of the store's content, and what it answers or throws.
abbrev pub Handled : Type 0
Handled = Content × Result Thrown Reply

abbrev pub lift : {A : Type 0} → Attempt A → Result Thrown A
lift (ok a) = ok a
lift (err e) = err (http_thrown e)

abbrev pub lift_conflict : {A : Type 0} → Result VersionConflict A → Result Thrown A
lift_conflict (ok a) = ok a
lift_conflict (err version_conflict) = err conflict_thrown

-- A handler that changes nothing, and one that writes as its last step.
abbrev pub reading : Content → Result Thrown Reply → Handled
reading c r = (c, r)

abbrev pub writing : Content → Result Thrown (Content × Reply) → Handled
writing c (ok (after, r)) = (after, ok r)
writing c (err e) = (c, err e)

-- The status of the answer to an error.
unfoldable pub error_status : Thrown → ℕ
error_status (http_thrown e) = e.status
error_status (tool_thrown status _) = status
error_status conflict_thrown = 412
error_status other_thrown = 500

-- And its text: an internal error is not told.
unfoldable pub error_text : Thrown → String
error_text (http_thrown e) = e.message
error_text (tool_thrown status message) = message
error_text conflict_thrown = "VERSION_CONFLICT"
error_text other_thrown = "Internal server error"
