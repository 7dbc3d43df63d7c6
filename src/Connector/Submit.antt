-- ===== src/Connector/Submit.antt =====
-- `submitOnce` of apps/orchestrator/src/wuzzuf-tool-service.ts up to its first wait for the browser:
-- the guards, the lock, the approval, and the `catch` and `finally` that every part ends in. The rest
-- is in Click. Where the method waits any other operation may run; the record and the approval stay
-- variables of the call.
use extension_jobs.Common.{
  String, Bool, true, false, not, Option, none, some, [], ◌∷◌, ◌++◌, Result, ok, err, if◌then◌else◌,
  ◌<>◌,
}
use extension_jobs.Application.{PreparedApplication, SubmissionResult, ErrorEntry}
use extension_jobs.Connector.{
  Hashes, Env, Tables, Failure, tool_error, other_error, Outcome, emergency_stop, find_application,
  save, Attempting, continue, try_advance, saved_and_thrown,
}
use extension_jobs.Connector.Approval.{approval_required, assert_approval}
use extension_jobs.Store.Approvals.{ApprovalRequest, get_approval_request}
use extension_jobs.Store.Locks.{acquire_lock, release_lock}
use extension_jobs.Workflow.{ready_to_submit, failed_permanent, state_eq}

pub record SubmitInput : Type 0 where
  pub application_id : String
  pub approval_request_id : String
  pub approval_token : Option String

-- A call that waits for the browser.
pub record Flight : Type 0 where
  pub application : PreparedApplication
  pub approval : ApprovalRequest

-- A call has returned, has thrown, or goes on.
pub data Progress : Type 0 where
  returned : SubmissionResult → Progress
  thrown : Failure → Progress
  waiting : Flight → Progress

abbrev pub lock_key : PreparedApplication → String
lock_key a = "application:submit:" <> a.id

abbrev pub unlocked : Env → PreparedApplication → Tables → Tables
unlocked env a t = record t { locks = release_lock env.owner (lock_key a) t.locks }

abbrev pub outcome_unknown : Failure
outcome_unknown =
    tool_error "WUZZUF_SUBMISSION_OUTCOME_UNKNOWN"
      "Submission was attempted, but its outcome could not be confirmed." 409 false

-- The entry that the `catch` adds to the errors of the record.
abbrev pub error_of : Env → Failure → ErrorEntry
error_of env (tool_error code message status retryable) = record {
  code = code;
  message = message;
  at = env.now;
}
error_of env (other_error message) = record {
  code = "WUZZUF_SUBMISSION_FAILED";
  message = message;
  at = env.now;
}

abbrev pub with_error : Env → Failure → PreparedApplication → PreparedApplication
with_error env e a = record a { errors = a.errors ++ error_of env e ∷ [] }

-- The `catch` and the `finally`. A click that has started is never reported as a plain failure.
unfoldable pub submit_failed :
    Env → Bool → Failure → PreparedApplication → Tables → Tables × Progress
unfolding continue try_advance save
submit_failed env false e a t =
    let b = with_error env e a in (unlocked env b (save env b t), thrown e)
submit_failed env true e a t = finished (
    continue (try_advance env failed_permanent t (with_error env outcome_unknown a))
      (saved_and_thrown env outcome_unknown))
  where
    raised : Option Failure → Progress
    raised none = thrown outcome_unknown
    raised (some f) = thrown f

    finished : Attempting → Tables × Progress
    finished s = (unlocked env s.application s.tables, raised s.thrown)

abbrev pub submit_asserted :
    Env → PreparedApplication → ApprovalRequest → Outcome (Unit {0}) → Tables × Progress
submit_asserted env a request (t, err e) = submit_failed env false e a t
submit_asserted env a request (t, ok _) =
    (t, waiting (record { application = a; approval = request }))

-- The part of the `try` before the first wait: the approval.
unfoldable pub submit_approve :
    Hashes → Env → SubmitInput → PreparedApplication → Tables → Tables × Progress
unfolding assert_approval submit_failed
submit_approve h env input a t = found (get_approval_request input.approval_request_id t.approvals)
  where
    found : Option ApprovalRequest → Tables × Progress
    found none = submit_failed env false approval_required a t
    found (some request) =
        submit_asserted env a request (assert_approval h env request a input.approval_token t)

abbrev pub refusal : PreparedApplication → Option Failure
refusal a =
    if a.dry_run
    then some
        (tool_error "WUZZUF_DRY_RUN_BLOCKED" "Dry-run applications can never submit" 409 false)
    else if not (state_eq a.state ready_to_submit)
    then some (tool_error "WUZZUF_NOT_READY_TO_SUBMIT" "Application is not ready" 409 false)
    else none

abbrev pub locked_out : Failure
locked_out =
    tool_error "WUZZUF_APPLICATION_LOCKED" "Application submission is already active" 409 false

unfoldable pub submit_locked :
    Hashes → Env → SubmitInput → PreparedApplication → Tables → Tables × Progress
unfolding submit_approve
submit_locked h env input a t =
    let (locks, acquired) = acquire_lock env.now env.lease env.owner (lock_key a) t.locks in
    let u = record t { locks = locks } in
    if acquired then submit_approve h env input a u else (u, thrown locked_out)

abbrev pub submit_unrefused :
    Hashes → Env → SubmitInput → PreparedApplication → Tables → Option Failure → Tables × Progress
submit_unrefused h env input a t (some e) = (t, thrown e)
submit_unrefused h env input a t none = submit_locked h env input a t

abbrev pub submit_unsubmitted :
    Hashes
    → Env
    → SubmitInput
    → PreparedApplication
    → Tables
    → Option SubmissionResult
    → Tables × Progress
submit_unsubmitted h env input a t none = submit_unrefused h env input a t (refusal a)
submit_unsubmitted h env input a t (some r) =
    if r.submitted then (t, returned r) else submit_unrefused h env input a t (refusal a)

abbrev pub submit_found :
    Hashes → Env → SubmitInput → Tables → Result Failure PreparedApplication → Tables × Progress
submit_found h env input t (err e) = (t, thrown e)
submit_found h env input t (ok a) = submit_unsubmitted h env input a t a.submission_result

-- What comes before the form is read.
unfoldable pub submit_begin : Hashes → Env → SubmitInput → Tables → Tables × Progress
unfolding submit_locked find_application
submit_begin h env input t =
    if env.stopped
    then (t, thrown emergency_stop)
    else submit_found h env input t (find_application input.application_id t)
