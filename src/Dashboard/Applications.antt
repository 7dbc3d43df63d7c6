-- ===== src/Dashboard/Applications.antt =====
-- `publicApplication`, `withoutApprovalSecrets`, `syncManualActions` of
-- apps/orchestrator/src/dashboard-api.ts.
pub mod Sync
use extension_jobs.Common.{
  ℕ, String, Bool, true, false, not, ◌&&◌, ◌||◌, Option, none, some, List, [], ◌∷◌, ◌++◌, map, any,
  includes, str_eq, keep, map_option, is_empty, map_get, if◌then◌else◌, ◌<>◌,
}
use extension_jobs.Json.{Members, end, member, string}
use extension_jobs.Application.{PreparedApplication, FieldAnswer, ErrorEntry}
use extension_jobs.Contracts.Dashboard.{CursorPage, JobSummary}
use extension_jobs.Store.Approvals.{
  ApprovalRequest, ApprovalRequestStatus, pending, approved, rejected, expired, used, invalidated,
  list_approval_requests,
}
use extension_jobs.Store.Boards.{
  ManualActionItem, open_item, save_manual_action, list_manual_actions,
}
use extension_jobs.Dashboard.{Attempt, Platform}
use extension_jobs.Dashboard.Content.{Content, state_name}
use extension_jobs.Dashboard.Jobs.{list_prepared_applications, asked}
use extension_jobs.Dashboard.Paging.{Query, page}
use extension_jobs.Dashboard.Values.{manual_title}

pub record PublicApplication : Type 0 where
  pub id : String
  pub job_id : String
  pub state : String
  pub created_at : ℕ
  pub updated_at : ℕ
  pub dry_run : Bool
  pub job : JobSummary
  pub answers : List FieldAnswer
  pub filled_fields : List String
  pub skipped_fields : List String
  pub validation_errors : List String
  pub sensitive_fields : List String
  pub submission_allowed : Bool
  pub last_successful_step : String
  pub errors : List ErrorEntry
  pub submitted_at : Option ℕ

-- `includeAnswerValues ? answer.value : answer.confirmationRequired ? '' : answer.value`
abbrev pub public_answer : Bool → FieldAnswer → FieldAnswer
public_answer include_answer_values a = record a {
  value =
      if include_answer_values then a.value else if a.confirmation_required then "" else a.value;
}

-- The defaults of the source are for records that lack a field; a `PreparedApplication` has them all.
unfoldable pub public_application : Bool → PreparedApplication → PublicApplication
unfolding state_name
public_application include_answer_values a = record {
  id = a.id;
  job_id = a.job_id;
  state = state_name a.state;
  created_at = a.created_at;
  updated_at = a.updated_at;
  dry_run = a.dry_run;
  job = record {
    title = a.job.raw.title;
    employer = a.job.raw.employer;
    location = a.job.raw.location;
  };
  answers = map (public_answer include_answer_values) a.answers;
  filled_fields = a.filled_fields;
  skipped_fields = a.skipped_fields;
  validation_errors = a.validation_errors;
  sensitive_fields = a.sensitive_fields;
  submission_allowed = a.submission_allowed;
  last_successful_step = a.last_successful_step;
  errors = a.errors;
  submitted_at = a.submitted_at;
}

unfoldable pub dashboard_applications : Content → List PublicApplication
unfolding list_prepared_applications public_application
dashboard_applications c = map (public_application false) (list_prepared_applications c.submissions)

-- GET /v1/dashboard/applications
unfoldable pub applications_page :
    Platform → Query → Content → Attempt (CursorPage PublicApplication)
unfolding dashboard_applications page
applications_page platform query c =
    page platform
      (keep (λ a. asked (map_get "state" query) (some a.state)) (dashboard_applications c)) query

-- An approval request without nonceHash and bindingHash; the record of the store has no approvalToken.
pub record PublicApproval : Type 0 where
  pub id : String
  pub application_id : String
  pub status : ApprovalRequestStatus
  pub expires_at : ℕ
  pub created_at : ℕ
  pub updated_at : ℕ
  pub decided_at : Option ℕ
  pub used_at : Option ℕ

unfoldable pub without_approval_secrets : ApprovalRequest → PublicApproval
without_approval_secrets a = record {
  id = a.id;
  application_id = a.application_id;
  status = a.status;
  expires_at = a.expires_at;
  created_at = a.created_at;
  updated_at = a.updated_at;
  decided_at = a.decided_at;
  used_at = a.used_at;
}

abbrev pub status_name : ApprovalRequestStatus → String
status_name pending = "pending"
status_name approved = "approved"
status_name rejected = "rejected"
status_name expired = "expired"
status_name used = "used"
status_name invalidated = "invalidated"

-- WHERE status=? for the parameter of the query; missing, empty and 'all' list every request.
abbrev has_status : Option String → ApprovalRequest → Bool
has_status none a = true
has_status (some s) a = is_empty s || str_eq s "all" || str_eq (status_name a.status) s

-- GET /v1/dashboard/approvals
unfoldable pub approvals_page : Platform → Query → Content → Attempt (CursorPage PublicApproval)
unfolding without_approval_secrets list_approval_requests page
approvals_page platform query c =
    page platform
      (map without_approval_secrets
        (keep (has_status (map_get "status" query)) (list_approval_requests none c.approvals)))
      query

unfoldable pub manual_states : List String
manual_states =
    "AUTH_REQUIRED" ∷ "SECURITY_CHALLENGE_REQUIRED" ∷ "SECURITY_CHECK_REQUIRED" ∷ "FORM_CHANGED"
    ∷ "POLICY_BLOCKED" ∷ "FAILED_RETRYABLE" ∷ "FAILED_PERMANENT" ∷ []

abbrev pub action_id : PreparedApplication → String
unfolding state_name
action_id a = "application:" <> a.id <> ":" <> state_name a.state

abbrev pub needs_action : PreparedApplication → Bool
unfolding state_name manual_states
needs_action a = not (is_empty a.id) && includes (state_name a.state) manual_states

module _ (platform : Platform) (now : ℕ) where
  abbrev pub action_for : PreparedApplication → ManualActionItem
  unfolding state_name manual_title
  action_for a = record {
    id = action_id a;
    application_id = some a.id;
    kind = platform.lower_case (state_name a.state);
    status = open_item;
    title = manual_title (state_name a.state);
    detail = member "state" (string (state_name a.state)) (member "jobId" (string a.job_id) end);
    created_at = now;
    updated_at = now;
  }

  -- The loop; `existing` is read before it.
  unfoldable pub sync_each :
      List String → List PreparedApplication → List ManualActionItem → List ManualActionItem
  unfolding save_manual_action action_for needs_action action_id
  sync_each existing [] rows = rows
  sync_each existing (a ∷ rest) rows = sync_each existing rest (
      if needs_action a && not (includes (action_id a) existing)
      then save_manual_action now (action_for a) rows
      else rows)

  unfoldable pub sync_manual_actions :
      List PreparedApplication → List ManualActionItem → List ManualActionItem
  unfolding sync_each list_manual_actions
  sync_manual_actions applications rows =
      sync_each (map (λ i. i.id) (list_manual_actions none rows)) applications rows
