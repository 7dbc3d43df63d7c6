-- ===== src/Connector/Idempotent.antt =====
-- The wrappers of apps/orchestrator/src/wuzzuf-tool-service.ts that keep an operation from running
-- twice: `idempotent`, `idempotentSync` and `idempotentSubmission`, each cut where the operation runs.
pub mod Unknown
mod Tests
use extension_jobs.Common.{
  ℕ, String, Bool, true, false, Option, none, some, List, str_eq, Result, ok, err, if◌then◌else◌,
}
use extension_jobs.Connector.{Failure, tool_error, other_error}
use extension_jobs.Store.Idempotency.{
  IdempotencyStatus, running, succeeded, failed, uncertain, Entry, Begun, started, conflict,
  existing, begin_idempotent, finish_idempotent, clear_idempotent,
}

-- What a caller is told: to run the operation, the response that is stored, or an error.
pub data Entered : Type 0 where
  runs : Entered
  replays : Option String → Entered
  refused : Failure → Entered

abbrev pub key_conflict : Failure
key_conflict =
    tool_error "WUZZUF_IDEMPOTENCY_CONFLICT"
      "Idempotency key was already used with different input." 409 false

abbrev pub in_progress : String → Bool → Failure
in_progress message retryable = tool_error "WUZZUF_OPERATION_IN_PROGRESS" message 409 retryable

abbrev pub unknown_failure : Failure
unknown_failure =
    tool_error "WUZZUF_SUBMISSION_OUTCOME_UNKNOWN"
      "Submission outcome is unknown and will not be retried." 409 false

abbrev is_still_running : IdempotencyStatus → Bool
is_still_running running = true
is_still_running _ = false

abbrev entered : Begun → Entered
entered started = runs
entered conflict = refused key_conflict
entered (existing succeeded response) = replays response
entered (existing status response) =
    refused (
      in_progress "This operation is already running or requires review." (is_still_running status))

abbrev entered_sync : Begun → Entered
entered_sync started = runs
entered_sync conflict = refused key_conflict
entered_sync (existing succeeded response) = replays response
entered_sync (existing status response) =
    refused (in_progress "This operation is already running." true)

abbrev pub entered_submission : Begun → Entered
entered_submission started = runs
entered_submission conflict = refused key_conflict
entered_submission (existing succeeded response) = replays response
entered_submission (existing uncertain response) = refused unknown_failure
entered_submission (existing status response) =
    refused (in_progress "Submission is already running." false)

-- Before the operation.
unfoldable pub enter_idempotent : ℕ → String → String → String → List Entry → List Entry × Entered
unfolding begin_idempotent
enter_idempotent now operation key request_hash rows =
    let (after, begun) = begin_idempotent now operation key request_hash rows in
    (after, entered begun)

unfoldable pub enter_sync : ℕ → String → String → String → List Entry → List Entry × Entered
unfolding begin_idempotent
enter_sync now operation key request_hash rows =
    let (after, begun) = begin_idempotent now operation key request_hash rows in
    (after, entered_sync begun)

unfoldable pub enter_submission : ℕ → String → String → List Entry → List Entry × Entered
unfolding begin_idempotent
enter_submission now key request_hash rows =
    let (after, begun) = begin_idempotent now "submit" key request_hash rows in
    (after, entered_submission begun)

-- After it: a result is the JSON text of the response.
unfoldable pub leave_idempotent :
    ℕ → String → String → Result Failure String → List Entry → List Entry
unfolding finish_idempotent clear_idempotent
leave_idempotent now operation key (ok response) rows =
    finish_idempotent now operation key succeeded response rows
leave_idempotent now operation key (err e) rows = clear_idempotent operation key rows

abbrev pub is_unknown : Failure → Bool
is_unknown (tool_error code message status retryable) =
    str_eq code "WUZZUF_SUBMISSION_OUTCOME_UNKNOWN"
is_unknown (other_error message) = false

-- `error_json` is the JSON text of the code and the message of the error.
unfoldable pub leave_submission :
    (Failure → String) → ℕ → String → Result Failure String → List Entry → List Entry
unfolding finish_idempotent clear_idempotent
leave_submission error_json now key (ok response) rows =
    finish_idempotent now "submit" key succeeded response rows
leave_submission error_json now key (err e) rows =
    if is_unknown e
    then finish_idempotent now "submit" key uncertain (error_json e) rows
    else clear_idempotent "submit" key rows
