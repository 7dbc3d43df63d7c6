-- ===== src/Application.antt =====
-- The record of a prepared application: packages/shared/src/wuzzuf.ts and domain.ts, `advance`,
-- `terminal` and `bindingHash` of apps/orchestrator/src/wuzzuf-tool-service.ts.
-- A time is in milliseconds, a confidence in hundredths.
use extension_jobs.Common.{
  ℕ, String, Bool, true, false, Option, List, Result, ok, err, map, map_option,
}
use extension_jobs.Jobs.{Job}
use extension_jobs.Workflow.{
  ApplicationState, ValidationError, discovered, normalized, deduplicated, scored, selected,
  application_started, questions_extracted, answers_prepared, waiting_for_approval, filling,
  validating, ready_to_submit, submitting, submitted, skipped, rejected_by_user, duplicate,
  auth_required, captcha_required, policy_blocked, failed_retryable, failed_permanent, cancelled,
  security_check_required, form_changed, advance_state,
}

pub record FieldAnswer : Type 0 where
  pub field_id : String
  pub label : String
  pub value : String
  pub confidence : ℕ
  pub supporting_fact_ids : List String
  pub confirmation_required : Bool
  pub reason : Option String
  pub generated_at : ℕ
  pub model : String

pub record FormFingerprint : Type 0 where
  pub normalized_url : String
  pub fields_hash : String
  pub submit_control_hash : String
  pub form_version : String
  pub captured_at : ℕ

pub record SelectedResume : Type 0 where
  pub id : String
  pub name : String
  pub source_name : String
  pub approved : Bool

pub record ErrorEntry : Type 0 where
  pub code : String
  pub message : String
  pub at : ℕ

pub record SubmissionResult : Type 0 where
  pub submitted : Bool
  pub confirmation : Option String
  pub at : ℕ

pub record PreparedApplication : Type 0 where
  pub id : String
  pub correlation_id : String
  pub job_id : String
  pub job : Job
  pub profile_id : String
  pub profile_snapshot_id : Option String
  pub resume_file_id : Option String
  pub resume_hash : Option String
  pub facts_hash : Option String
  pub selected_resume : Option SelectedResume
  pub answers : List FieldAnswer
  pub filled_fields : List String
  pub skipped_fields : List String
  pub validation_errors : List String
  pub sensitive_fields : List String
  pub screenshots : List String
  pub state : ApplicationState
  pub dry_run : Bool
  pub submission_allowed : Bool
  pub last_successful_step : String
  pub errors : List ErrorEntry
  pub created_at : ℕ
  pub updated_at : ℕ
  pub submitted_at : Option ℕ
  pub submission_result : Option SubmissionResult
  pub adapter_session_id : Option String
  pub review_revision : Option String
  pub form_fingerprint : Option FormFingerprint
  pub form_value_hash : Option String

-- `state.toLowerCase()`
abbrev pub step_name : ApplicationState → String
step_name discovered = "discovered"
step_name normalized = "normalized"
step_name deduplicated = "deduplicated"
step_name scored = "scored"
step_name selected = "selected"
step_name application_started = "application_started"
step_name questions_extracted = "questions_extracted"
step_name answers_prepared = "answers_prepared"
step_name waiting_for_approval = "waiting_for_approval"
step_name filling = "filling"
step_name validating = "validating"
step_name ready_to_submit = "ready_to_submit"
step_name submitting = "submitting"
step_name submitted = "submitted"
step_name skipped = "skipped"
step_name rejected_by_user = "rejected_by_user"
step_name duplicate = "duplicate"
step_name auth_required = "auth_required"
step_name captcha_required = "captcha_required"
step_name policy_blocked = "policy_blocked"
step_name failed_retryable = "failed_retryable"
step_name failed_permanent = "failed_permanent"
step_name cancelled = "cancelled"
step_name security_check_required = "security_check_required"
step_name form_changed = "form_changed"

abbrev pub moved :
    ℕ
    → PreparedApplication
    → Result ValidationError ApplicationState
    → Result ValidationError PreparedApplication
moved now application (err e) = err e
moved now application (ok s) =
    ok (record application { state = s; last_successful_step = step_name s; updated_at = now })

-- `advance` for a list of states that is not empty. Where it throws, the caller gets no record: the
-- service then moves by one state, and the record is as it was.
unfoldable pub advance :
    ℕ → List ApplicationState → PreparedApplication → Result ValidationError PreparedApplication
unfolding advance_state
advance now states application = moved now application (advance_state application.state states)

abbrev pub terminal : ApplicationState → Bool
terminal submitted = true
terminal cancelled = true
terminal rejected_by_user = true
terminal duplicate = true
terminal skipped = true
terminal failed_permanent = true
terminal _ = false

pub record BoundAnswer : Type 0 where
  pub field_id : String
  pub label : String
  pub value : String
  pub confidence : ℕ
  pub confirmation_required : Bool

-- The object that `bindingHash` hashes: what an approval is bound to.
pub record Binding : Type 0 where
  pub application_id : String
  pub job_fingerprint : String
  pub profile_snapshot_id : Option String
  pub resume_id : Option String
  pub resume_hash : Option String
  pub facts_hash : Option String
  pub form_version : Option String
  pub form_value_hash : Option String
  pub answers : List BoundAnswer
  pub filled_fields : List String
  pub skipped_fields : List String
  pub validation_errors : List String
  pub dry_run : Bool

abbrev pub bound_answer : FieldAnswer → BoundAnswer
bound_answer a = record {
  field_id = a.field_id;
  label = a.label;
  value = a.value;
  confidence = a.confidence;
  confirmation_required = a.confirmation_required;
}

unfoldable pub binding : PreparedApplication → Binding
binding a = record {
  application_id = a.id;
  job_fingerprint = a.job.fingerprint;
  profile_snapshot_id = a.profile_snapshot_id;
  resume_id = map_option (λ r. r.id) a.selected_resume;
  resume_hash = a.resume_hash;
  facts_hash = a.facts_hash;
  form_version = map_option (λ f. f.form_version) a.form_fingerprint;
  form_value_hash = a.form_value_hash;
  answers = map bound_answer a.answers;
  filled_fields = a.filled_fields;
  skipped_fields = a.skipped_fields;
  validation_errors = a.validation_errors;
  dry_run = a.dry_run;
}
