-- ===== src/Connector.antt =====
-- `WuzzufConnectorService` of apps/orchestrator/src/wuzzuf-tool-service.ts: its state, its errors,
-- and the private methods that its operations share. An operation takes the tables and returns them
-- with its result or with what it throws; what the browser answers is an argument.
pub mod Approval
pub mod Submit
pub mod Click
pub mod Cancel
pub mod Trace
pub mod Keys
pub mod Clicks
pub mod Once
mod Tests
pub mod Gate
pub mod Form
pub mod Expired
pub mod Blocked
pub mod Idempotent
pub mod Queued
use extension_jobs.Common.{
  ℕ, String, Bool, true, false, Option, none, some, List, [], ◌∷◌, Result, ok, err, if◌then◌else◌,
  ◌<>◌,
}
use extension_jobs.Application.{PreparedApplication, Binding, binding, advance}
use extension_jobs.Workflow.{ApplicationState, ValidationError, form_changed}
use extension_jobs.Store.Approvals.{
  Approvals, ApprovalRequest, invalidate_approval_requests, save_approval_request,
}
use extension_jobs.Store.Locks.{Lock, acquire_lock, release_lock}
use extension_jobs.Store.Submissions.{
  Submissions, save_prepared_application, get_prepared_application,
}

-- SHA-256 of a text, as `createHash` gives it, and of the JSON text of a binding.
pub record Hashes : Type 0 where
  pub text : String → String
  pub of_binding : Binding → String

-- The time of a call, the lease and the name of the store's locks, and the emergency stop.
pub record Env : Type 0 where
  pub now : ℕ
  pub lease : ℕ
  pub owner : String
  pub stopped : Bool

pub record Tables : Type 0 where
  pub submissions : Submissions
  pub approvals : Approvals
  pub locks : List Lock

-- A `WuzzufToolError` with its code, message, status and `retryable`, or any other Error. A message
-- that would print a state has its fixed words only.
pub data Failure : Type 0 where
  tool_error : String → String → ℕ → Bool → Failure
  other_error : String → Failure

abbrev pub Outcome : Type 0 → Type 0
Outcome A = Tables × Result Failure A

abbrev pub emergency_stop : Failure
emergency_stop = other_error "Emergency stop is engaged"

abbrev pub invalid_state : ValidationError → Failure
invalid_state e = other_error "Invalid transition"

abbrev pub unique_failed : Failure
unique_failed = other_error "UNIQUE constraint failed"

abbrev pub application_not_found : Failure
application_not_found =
    tool_error "WUZZUF_APPLICATION_NOT_FOUND" "Application was not found" 404 false

abbrev pub session_not_found : Failure
session_not_found =
    tool_error "WUZZUF_APPLICATION_SESSION_NOT_FOUND"
      "Application browser session is no longer active; prepare again" 409 false

-- `application`
unfoldable pub find_application : String → Tables → Result Failure PreparedApplication
find_application id t = found (get_prepared_application id t.submissions)
  where
    found : Option PreparedApplication → Result Failure PreparedApplication
    found none = err application_not_found
    found (some a) = ok a

-- `save`
unfoldable pub save : Env → PreparedApplication → Tables → Tables
save env a t = record t {
  submissions = save_prepared_application env.now (record a { updated_at = env.now }) t.submissions;
}

-- `bindingHash`
abbrev pub binding_hash : Hashes → PreparedApplication → String
binding_hash h a = h.of_binding (binding a)

-- `this.store.saveApprovalRequest`, which may throw.
unfoldable pub save_approval : ApprovalRequest → Tables → Outcome (Unit {0})
save_approval request t =
    let (approvals, saved) = save_approval_request request t.approvals in
    (record t { approvals = approvals }, if saved then ok tt else err unique_failed)

unfoldable pub invalidate : Env → String → Option String → Tables → Outcome (Unit {0})
invalidate env id except t =
    let (approvals, done) = invalidate_approval_requests env.now id except t.approvals in
    (record t { approvals = approvals }, if done then ok tt else err unique_failed)

-- An operation in a `try`: the record is a variable that the statements change, and the rest is
-- skipped once one has thrown.
pub record Attempting : Type 0 where
  pub tables : Tables
  pub application : PreparedApplication
  pub thrown : Option Failure

unfoldable pub continue : Attempting → (Tables → PreparedApplication → Attempting) → Attempting
continue s next = go s.thrown
  where
    go : Option Failure → Attempting
    go none = next s.tables s.application
    go (some e) = s

abbrev pub fine : Tables → PreparedApplication → Attempting
fine t a = record { tables = t; application = a; thrown = none }

abbrev pub throw : Failure → Tables → PreparedApplication → Attempting
throw e t a = record { tables = t; application = a; thrown = some e }

-- `advance` to one state.
unfoldable pub try_advance : Env → ApplicationState → Tables → PreparedApplication → Attempting
unfolding advance
try_advance env s t a = moved_to (advance env.now (s ∷ []) a)
  where
    moved_to : Result ValidationError PreparedApplication → Attempting
    moved_to (err e) = throw (invalid_state e) t a
    moved_to (ok b) = fine t b

unfoldable pub thrown_by : Result Failure (Unit {0}) → Tables → PreparedApplication → Attempting
thrown_by (err e) t a = throw e t a
thrown_by (ok _) t a = fine t a

abbrev pub saved_and_thrown : Env → Failure → Tables → PreparedApplication → Attempting
saved_and_thrown env e t a = throw e (save env a t) a

-- `record.submissionAllowed = false`, and the approvals of the application are invalidated.
unfoldable pub disallow : Env → Tables → PreparedApplication → Attempting
unfolding invalidate thrown_by
disallow env t a =
    let b = record a { submission_allowed = false } in
    let (u, done) = invalidate env b.id none t in thrown_by done u b

-- `invalidateChangedForm`
unfoldable pub invalidate_changed_form :
    Env → String → String → Tables → PreparedApplication → Attempting
unfolding continue try_advance disallow save
invalidate_changed_form env code message t a =
    continue (continue (try_advance env form_changed t a) (disallow env))
      (saved_and_thrown env (tool_error code message 409 false))
