-- ===== src/Store/Submissions.antt =====
-- The tables applications and submission_attempts of apps/orchestrator/src/store.ts:
-- `savePreparedApplication`, `getPreparedApplication`, `getPreparedApplicationByJob`, `transition`,
-- `reserveSubmission`, `reserveSubmissionAttempt`, `finishSubmissionAttempt`.
-- The rows are those that `savePreparedApplication` writes, so that `data` is a whole record.
pub mod Reservations
use extension_jobs.Common.{
  ℕ, String, Bool, true, false, not, ◌&&◌, ◌||◌, Option, none, some, List, [], ◌∷◌, ◌++◌, str_eq,
  opt_eq, is_some, any, find, keep, update_where, changes, map_option, get_or, ◌==◌, Result, ok,
  err, if◌then◌else◌,
}
use extension_jobs.Application.{PreparedApplication, SubmissionResult, ErrorEntry}
use extension_jobs.Workflow.{
  ApplicationState, ValidationError, submitted, failed_permanent, assert_transition,
}

pub record ApplicationRow : Type 0 where
  pub id : String
  pub job_id : String
  pub state : ApplicationState
  pub submission_key : Option String
  pub record_data : PreparedApplication

pub data AttemptStatus : Type 0 where
  reserved completed failed uncertain : AttemptStatus

-- What the column `result` holds as JSON: NULL, a submission's result, `{ submitted: true }`, an
-- error of the record, or `{ code: 'INTERNAL_ERROR' }`.
pub data AttemptResult : Type 0 where
  no_result submitted_true internal_error : AttemptResult
  submission : SubmissionResult → AttemptResult
  error_entry : ErrorEntry → AttemptResult

pub record Attempt : Type 0 where
  pub id : String
  pub application_id : String
  pub approval_id : String
  pub idempotency_key : String
  pub status : AttemptStatus
  pub result : AttemptResult
  pub created_at : ℕ
  pub updated_at : ℕ

pub record Submissions : Type 0 where
  pub applications : List ApplicationRow
  pub attempts : List Attempt

-- INSERT INTO applications … NULL … ON CONFLICT(id) DO UPDATE SET state, data
unfoldable pub put_application : PreparedApplication → List ApplicationRow → List ApplicationRow
put_application a rows =
    if any (λ r. str_eq r.id a.id) rows
    then update_where (λ r. str_eq r.id a.id) (λ r. record r { state = a.state; record_data = a })
        rows
    else rows
      ++ record {
        id = a.id;
        job_id = a.job_id;
        state = a.state;
        submission_key = none;
        record_data = a;
      }
        ∷ []

abbrev pub is_reserved : String → Attempt → Bool
is_reserved application_id t = str_eq t.application_id application_id && reserving t.status
  where
    reserving : AttemptStatus → Bool
    reserving reserved = true
    reserving _ = false

abbrev pub settle : ℕ → AttemptStatus → AttemptResult → Attempt → Attempt
settle now status result t = record t { status = status; result = result; updated_at = now }

abbrev pub last_error : List ErrorEntry → AttemptResult
last_error [] = internal_error
last_error (e ∷ []) = error_entry e
last_error (_ ∷ e ∷ es) = last_error (e ∷ es)

abbrev pub submission_of : Option SubmissionResult → AttemptResult
submission_of none = submitted_true
submission_of (some r) = submission r

-- Which UPDATE of the attempts the state of the saved record asks for.
abbrev pub settle_attempts :
    ℕ → ApplicationState → PreparedApplication → List Attempt → List Attempt
settle_attempts now submitted a ts =
    update_where (is_reserved a.id) (settle now completed (submission_of a.submission_result)) ts
settle_attempts now failed_permanent a ts =
    update_where (is_reserved a.id) (settle now uncertain (last_error a.errors)) ts
settle_attempts now _ a ts = ts

unfoldable pub save_prepared_application : ℕ → PreparedApplication → Submissions → Submissions
unfolding put_application
save_prepared_application now a t = record {
  applications = put_application a t.applications;
  attempts = settle_attempts now a.state a t.attempts;
}

abbrev pub application_of : ApplicationRow → PreparedApplication
application_of r = record r.record_data { state = r.state }

unfoldable pub get_prepared_application : String → Submissions → Option PreparedApplication
get_prepared_application id t =
    map_option application_of (find (λ r. str_eq r.id id) t.applications)

-- ORDER BY rowid DESC LIMIT 1: the last row that meets the test.
unfoldable pub find_last {ℓ} : {A : Type ℓ} → (A → Bool) → List A → Option A
find_last p [] = none
find_last p (x ∷ xs) =
    let rest = find_last p xs in elim rest [ some y ↦ some y | none ↦ if p x then some x else none ]

unfoldable pub get_prepared_application_by_job : String → Submissions → Option PreparedApplication
unfolding find_last
get_prepared_application_by_job job_id t =
    map_option application_of (find_last (λ r. str_eq r.job_id job_id) t.applications)

-- WHERE id=? AND submission_key IS NULL
abbrev pub is_unreserved : String → ApplicationRow → Bool
is_unreserved id r = str_eq r.id id && not (is_some r.submission_key)

abbrev pub set_key : String → ApplicationRow → ApplicationRow
set_key key r = record r { submission_key = some key }

-- The column submission_key is UNIQUE: a key that another row has makes the UPDATE throw, `false`.
unfoldable pub reserve_submission : String → String → Submissions → Submissions × Bool
reserve_submission id key t =
    if any (is_unreserved id) t.applications
      && any (λ r. opt_eq r.submission_key key) t.applications
    then (t, false)
    else (
      record t { applications = update_where (is_unreserved id) (set_key key) t.applications },
      changes (is_unreserved id) t.applications == 1,
    )

-- The transaction: the key of the application, and the attempt, whose id is the hash of the key.
-- `none` is an error that is thrown: the approval is no row of submission_approvals
-- (`approval_exists`), which is no UNIQUE error. Whatever is refused rolls all back.
unfoldable pub reserve_submission_attempt :
    ℕ → String → String → String → Bool → String → Submissions → Submissions × Option Bool
unfolding reserve_submission
reserve_submission_attempt now attempt_id application_id approval_id approval_exists key t =
    let (t', done) = reserve_submission application_id key t in
    if done && not (any (λ a. str_eq a.id attempt_id || str_eq a.idempotency_key key) t.attempts)
    then if approval_exists
      then (record t' { attempts = t.attempts ++ attempt ∷ [] }, some true)
      else (t, none)
    else (t, some false)
  where
    attempt : Attempt
    attempt = record {
      id = attempt_id;
      application_id = application_id;
      approval_id = approval_id;
      idempotency_key = key;
      status = reserved;
      result = no_result;
      created_at = now;
      updated_at = now;
    }

unfoldable pub finish_submission_attempt :
    ℕ → String → AttemptStatus → AttemptResult → Submissions → Submissions
finish_submission_attempt now key status result t = record t {
  attempts = update_where (λ a. str_eq a.idempotency_key key) (settle now status result) t.attempts;
}

pub data TransitionError : Type 0 where
  not_found : TransitionError
  refused : ValidationError → TransitionError

-- `transition`, without the row that it adds to application_events.
unfoldable pub transition :
    String → ApplicationState → Submissions → Result TransitionError Submissions
unfolding assert_transition
transition id to t = move (find (λ r. str_eq r.id id) t.applications)
  where
    moved_to : Result ValidationError (Unit {0}) → Result TransitionError Submissions
    moved_to (err e) = err (refused e)
    moved_to (ok _) = ok (record t {
      applications =
          update_where (λ r. str_eq r.id id) (λ r. record r { state = to }) t.applications;
    })

    move : Option ApplicationRow → Result TransitionError Submissions
    move none = err not_found
    move (some r) = moved_to (assert_transition r.state to)
