-- ===== src/Dashboard/Content.antt =====
-- What the handlers of apps/orchestrator/src/dashboard-api.ts read and write: the tables of
-- apps/orchestrator/src/store.ts, the emergency stop of apps/orchestrator/src/service.ts, the names of the
-- states of packages/shared/src/domain.ts.
use extension_jobs.Common.{ℕ, String, Bool, Option, none, List, [], ◌∷◌, ◌++◌, find_by, str_eq}
use extension_jobs.Jobs.{Job}
use extension_jobs.Json.{Members}
use extension_jobs.Domain.{JobCampaign, AuditEvent}
use extension_jobs.Policy.{Registry}
use extension_jobs.Queue.{Queue}
use extension_jobs.Store.Submissions.{Submissions}
use extension_jobs.Store.Approvals.{Approvals, newest_first}
use extension_jobs.Store.Boards.{Boards, upsert}
use extension_jobs.Store.Settings.{ConnectorSetting}
use extension_jobs.Workflow.{
  ApplicationState, discovered, normalized, deduplicated, scored, selected, application_started,
  questions_extracted, answers_prepared, waiting_for_approval, filling, validating, ready_to_submit,
  submitting, submitted, skipped, rejected_by_user, duplicate, auth_required, captcha_required,
  policy_blocked, failed_retryable, failed_permanent, cancelled, security_check_required,
  form_changed,
}

pub record Content : Type 0 where
  pub jobs : List Job
  pub submissions : Submissions
  pub approvals : Approvals
  pub boards : Boards
  pub campaigns : List JobCampaign
  pub audit_events : List AuditEvent
  pub queue : Queue
  pub registry : Registry
  pub settings : List ConnectorSetting
  pub stopped : Bool

unfoldable pub list_jobs : Content → List Job
unfolding newest_first
list_jobs c = newest_first c.jobs

unfoldable pub get_job : String → Content → Option Job
get_job id c = find_by (λ j. j.id) id c.jobs

unfoldable pub get_campaign : String → Content → Option JobCampaign
get_campaign id c = find_by (λ k. k.id) id c.campaigns

unfoldable pub save_campaign : JobCampaign → Content → Content
save_campaign campaign c = record c {
  campaigns = upsert (λ k. str_eq k.id campaign.id) (λ k. campaign) campaign c.campaigns;
}

unfoldable pub engage : Content → Content
engage c = record c { stopped = Bool.true }

unfoldable pub reset : Content → Content
reset c = record c { stopped = Bool.false }

-- `service.audit` with a detail that holds no secret; the sanitiser is in Security.
unfoldable pub audit : ℕ → String → String → String → Members → Content → Content
audit now id correlation_id type detail c = record c {
  audit_events =
      c.audit_events
      ++ record {
        id = id;
        correlation_id = correlation_id;
        application_id = none;
        type = type;
        state = none;
        at = now;
        detail = detail;
      }
        ∷ [];
}

unfoldable pub state_name : ApplicationState → String
state_name discovered = "DISCOVERED"
state_name normalized = "NORMALIZED"
state_name deduplicated = "DEDUPLICATED"
state_name scored = "SCORED"
state_name selected = "SELECTED"
state_name application_started = "APPLICATION_STARTED"
state_name questions_extracted = "QUESTIONS_EXTRACTED"
state_name answers_prepared = "ANSWERS_PREPARED"
state_name waiting_for_approval = "WAITING_FOR_APPROVAL"
state_name filling = "FILLING"
state_name validating = "VALIDATING"
state_name ready_to_submit = "READY_TO_SUBMIT"
state_name submitting = "SUBMITTING"
state_name submitted = "SUBMITTED"
state_name skipped = "SKIPPED"
state_name rejected_by_user = "REJECTED_BY_USER"
state_name duplicate = "DUPLICATE"
state_name auth_required = "AUTH_REQUIRED"
state_name captcha_required = "CAPTCHA_REQUIRED"
state_name policy_blocked = "POLICY_BLOCKED"
state_name failed_retryable = "FAILED_RETRYABLE"
state_name failed_permanent = "FAILED_PERMANENT"
state_name cancelled = "CANCELLED"
state_name security_check_required = "SECURITY_CHECK_REQUIRED"
state_name form_changed = "FORM_CHANGED"
