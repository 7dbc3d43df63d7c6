-- ===== src/Connector/Click.antt =====
-- `submitOnce` of apps/orchestrator/src/wuzzuf-tool-service.ts once the browser has answered: from the
-- page to the click, and from the click to the end. The record and the approval are those of the
-- waiting call.
use extension_jobs.Common.{
  String, Bool, true, false, Option, none, some, [], ◌∷◌, Result, ok, err, str_eq, opt_eq, is_some,
  any, if◌then◌else◌, ◌<>◌,
}
use extension_jobs.Application.{PreparedApplication, FormFingerprint, advance}
use extension_jobs.Connector.{
  Hashes, Env, Tables, Failure, tool_error, other_error, session_not_found, binding_hash, save,
  Attempting, continue, fine, throw, try_advance, thrown_by, invalidate_changed_form,
}
use extension_jobs.Connector.Approval.{mark_approval_used}
use extension_jobs.Store.Approvals.{ApprovalRequest}
use extension_jobs.Store.Submissions.{Submissions, reserve_submission_attempt}
use extension_jobs.Workflow.{ValidationError, submitting, submitted}
use extension_jobs.Connector.Submit.{Flight, Progress, unlocked, submit_failed, returned, waiting}

-- What the page shows: `fingerprint` of its fields, `formValueHash` of its values, and its validity.
pub record Page : Type 0 where
  pub form : Result Failure FormFingerprint
  pub values : Result Failure String
  pub valid : Result Failure Bool

-- `browserSession`, and then what the adapter answers.
abbrev pub with_session : {A : Type 0} → PreparedApplication → Result Failure A → Result Failure A
with_session a r = elim a.adapter_session_id [ none ↦ err session_not_found | some _ ↦ r ]

abbrev pub form_compared :
    Env
    → Tables
    → PreparedApplication
    → FormFingerprint
    → Result Failure FormFingerprint
    → Attempting
form_compared env t a old (err e) = throw e t a
form_compared env t a old (ok current) =
    if str_eq current.form_version old.form_version
    then fine t a
    else invalidate_changed_form env "FORM_CHANGED"
        "The Wuzzuf application form changed after review." t a

abbrev pub form_checked :
    Env
    → Result Failure FormFingerprint
    → Tables
    → PreparedApplication
    → Option FormFingerprint
    → Attempting
form_checked env form t a none = fine t a
form_checked env form t a (some old) = form_compared env t a old (with_session a form)

-- `assertFormUnchanged`
unfoldable pub assert_form_unchanged :
    Env → Result Failure FormFingerprint → Tables → PreparedApplication → Attempting
unfolding invalidate_changed_form
assert_form_unchanged env form t a = form_checked env form t a a.form_fingerprint

abbrev pub values_compared : Env → Tables → PreparedApplication → Result Failure String → Attempting
values_compared env t a (err e) = throw e t a
values_compared env t a (ok current) =
    if opt_eq a.form_value_hash current
    then fine t a
    else invalidate_changed_form env "FORM_VALUES_CHANGED"
        "The Wuzzuf application values changed after review." t a

-- `assertFormValuesUnchanged`
unfoldable pub assert_form_values_unchanged :
    Env → Result Failure String → Tables → PreparedApplication → Attempting
unfolding invalidate_changed_form
assert_form_values_unchanged env values t a = values_compared env t a (with_session a values)

abbrev pub valid_checked : Tables → PreparedApplication → Result Failure Bool → Attempting
valid_checked t a (err e) = throw e t a
valid_checked t a (ok true) = fine t a
valid_checked t a (ok false) =
    throw
      (tool_error "WUZZUF_VALIDATION_FAILED" "Application became invalid before submission" 409
        false)
      t a

unfoldable pub assert_valid : Result Failure Bool → Tables → PreparedApplication → Attempting
assert_valid valid t a = valid_checked t a (with_session a valid)

-- hash(`${record.id}:${record.job.fingerprint}:${this.bindingHash(record)}`)
abbrev pub submission_key : Hashes → PreparedApplication → String
submission_key h a = h.text (a.id <> (":" <> (a.job.fingerprint <> (":" <> binding_hash h a))))

abbrev pub foreign_key_failed : Failure
foreign_key_failed = other_error "FOREIGN KEY constraint failed"

abbrev pub submission_prevented : Failure
submission_prevented =
    tool_error "DUPLICATE_SUBMISSION_PREVENTED"
      "Submission has already been reserved; review its result before retrying." 409 false

abbrev pub reserved_as : Tables → PreparedApplication → Submissions × Option Bool → Attempting
reserved_as t a (s, none) = throw foreign_key_failed (record t { submissions = s }) a
reserved_as t a (s, some false) = throw submission_prevented (record t { submissions = s }) a
reserved_as t a (s, some true) = fine (record t { submissions = s }) a

-- The reservation of the one submission that the application may have.
unfoldable pub reserve_attempt :
    Hashes → Env → ApprovalRequest → Tables → PreparedApplication → Attempting
unfolding reserve_submission_attempt
reserve_attempt h env request t a =
    reserved_as t a
      (reserve_submission_attempt env.now (h.text key) a.id request.id known key t.submissions)
  where
    key : String
    key = submission_key h a

    known : Bool
    known = any (λ r. str_eq r.id request.id) t.approvals.approvals

unfoldable pub use_approval : Env → ApprovalRequest → Tables → PreparedApplication → Attempting
unfolding mark_approval_used thrown_by
use_approval env request t a =
    let (u, marked) = mark_approval_used env request t in thrown_by marked u a

abbrev pub saved : Env → Tables → PreparedApplication → Attempting
saved env t a = fine (save env a t) (record a { updated_at = env.now })

-- From the reservation to the call of the adapter nothing is waited for.
unfoldable pub submit_reserved :
    Hashes → Env → ApprovalRequest → Tables → PreparedApplication → Attempting
unfolding reserve_attempt use_approval continue try_advance save
submit_reserved h env request t a =
    continue
      (continue (continue (reserve_attempt h env request t a) (use_approval env request))
        (try_advance env submitting))
      (saved env)

unfoldable pub checked_form : Env → Page → Tables → PreparedApplication → Attempting
unfolding assert_form_unchanged assert_form_values_unchanged assert_valid continue
checked_form env page t a =
    continue
      (continue (assert_form_unchanged env page.form t a)
        (assert_form_values_unchanged env page.values))
      (assert_valid page.valid)

abbrev pub submit_next : Env → ApprovalRequest → Attempting → Tables × Progress
submit_next env request s = next s.thrown
  where
    next : Option Failure → Tables × Progress
    next (some e) = submit_failed env false e s.application s.tables
    next none = (s.tables, waiting (record { application = s.application; approval = request }))

-- What comes before the click: `waiting` has called the adapter's `submit`.
unfoldable pub submit_reserve : Hashes → Env → Page → Flight → Tables → Tables × Progress
unfolding checked_form submit_reserved continue submit_failed
submit_reserve h env page f t =
    submit_next env f.approval
      (continue (checked_form env page t f.application) (submit_reserved h env f.approval))

-- How the adapter's `submit` ended, whether it had called `onSubmitStarted` just before its click,
-- and what the cleanup of the session throws, if anything.
pub record Click : Type 0 where
  pub started : Bool
  pub result : Result Failure (Bool × Option String)
  pub cleanup : Option Failure

abbrev pub with_result : Env → Bool → Option String → PreparedApplication → PreparedApplication
with_result env done confirmation a = record a {
  submitted_at = some env.now;
  submission_result = some (record { submitted = done; confirmation = confirmation; at = env.now });
  submission_allowed = false;
  adapter_session_id = none;
}

-- The statements after the adapter's answer; once the record is saved the click counts as known.
unfoldable pub submit_answered :
    Env → Click → Bool → Option String → PreparedApplication → Tables → Tables × Progress
unfolding advance save submit_failed
submit_answered env click done confirmation a t = moved_to (advance env.now (submitted ∷ []) a)
  where
    cleaned : PreparedApplication → Tables → Option Failure → Tables × Progress
    cleaned b u (some e) = submit_failed env false e b u
    cleaned b u none = (
      unlocked env b u,
      returned (record { submitted = done; confirmation = confirmation; at = env.now }),
    )

    saved : PreparedApplication → Tables × Progress
    saved b =
        cleaned b (save env b t) (if is_some a.adapter_session_id then click.cleanup else none)

    moved_to : Result ValidationError PreparedApplication → Tables × Progress
    moved_to (err e) = submit_failed env click.started (other_error "Invalid transition") a t
    moved_to (ok b) = saved (with_result env done confirmation b)

-- What comes after the click.
unfoldable pub submit_finish : Env → Click → Flight → Tables → Tables × Progress
unfolding submit_answered submit_failed
submit_finish env click f t = answered click.result
  where
    answered : Result Failure (Bool × Option String) → Tables × Progress
    answered (err e) = submit_failed env click.started e f.application t
    answered (ok (done, confirmation)) = submit_answered env click done confirmation f.application t
