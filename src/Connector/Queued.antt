-- ===== src/Connector/Queued.antt =====
-- `queued` and `waitForWorker` of apps/orchestrator/src/wuzzuf-tool-service.ts: an operation as a job of
-- the queue, cut where it runs, and where the loop waits between two polls.
mod Tests
use extension_jobs.Common.{
  ℕ, String, Bool, true, false, not, ◌&&◌, Option, none, some, List, [], ◌∷◌, codes, ltb, get_or,
  map_option, Result, ok, err, if◌then◌else◌,
}
use extension_jobs.Connector.{Failure, tool_error, other_error, emergency_stop}
use extension_jobs.Queue.{
  QueueJobType, wuzzuf_cleanup_browser, Status, completed, failed, cancelled, Row, ResultRow, Queue,
  enqueue, claim_by_id, get,
}
use extension_jobs.Queue.Operations.{complete_with_result, fail, result, request_cancellation}

pub data ExecutionMode : Type 0 where
  inline coordinator direct : ExecutionMode

-- How the operation goes on: it runs without a job or as the job, or a worker is waited for.
pub data Next : Type 0 where
  runs_directly : Next
  runs_inline waits_for : String → Next
  throws : Failure → Next

abbrev is_cleanup : QueueJobType → Bool
is_cleanup wuzzuf_cleanup_browser = true
is_cleanup _ = false

abbrev unclaimed : Failure
unclaimed =
    tool_error "WORKFLOW_STATE_CONFLICT" "The durable browser job could not be claimed." 409 true

abbrev claimed_by : String → Queue × Option Row → Queue × Next
claimed_by id (q, none) = (q, throws unclaimed)
claimed_by id (q, some row) = (q, runs_inline id)

abbrev by_mode : ℕ → ExecutionMode → String → Option (Queue × Row) → Queue → Queue × Next
unfolding claim_by_id
by_mode now mode worker none q = (q, throws (other_error "UNIQUE constraint failed"))
by_mode now coordinator worker (some (q, row)) _ = (q, waits_for row.id)
by_mode now mode worker (some (q, row)) _ = claimed_by row.id (claim_by_id now row.id worker q)

abbrev is_direct : ExecutionMode → Bool
is_direct direct = true
is_direct _ = false

-- `payload` is the request, sealed in the mode of a coordinator; `id` and `uuid` are drawn.
unfoldable pub begin_queued :
    ℕ
    → String
    → String
    → ExecutionMode
    → QueueJobType
    → String
    → String
    → Bool
    → Queue
    → Queue × Next
unfolding enqueue by_mode
begin_queued now id uuid mode type payload worker stopped q =
    if not (is_cleanup type) && stopped
    then (q, throws emergency_stop)
    else if is_direct mode
    then (q, runs_directly)
    else by_mode now mode worker
        (enqueue now id uuid type payload
          (record { correlation_id = none; max_attempts = none; run_after = none }) q)
        q

abbrev code_of : Failure → String
code_of (tool_error code message status retryable) = code
code_of (other_error message) = "INTERNAL_ERROR"

abbrev is_retryable : Failure → Bool
is_retryable (tool_error code message status retryable) = retryable
is_retryable (other_error message) = false

-- What follows the operation that ran inline.
unfoldable pub end_queued : ℕ → String → String → Result Failure String → Queue → Queue
unfolding complete_with_result fail
end_queued now id worker (ok output) q = (complete_with_result now id worker output q).0
end_queued now id worker (err e) q = (fail now id worker (code_of e) (is_retryable e) q).0

pub data Polled : Type 0 where
  again : Polled
  returned : Option String → Polled
  thrown : Failure → Polled

abbrev operation_cancelled : String → Failure
operation_cancelled message = tool_error "OPERATION_CANCELLED" message 409 false

abbrev unfinished : Option Status → Polled
unfinished (some cancelled) = thrown (operation_cancelled "Browser operation was cancelled")
unfinished _ = again

abbrev polled_result : Option ResultRow → Option Row → Polled
polled_result none row = unfinished (map_option (λ r. r.status) row)
polled_result (some stored) row = of_status stored.status
  where
    of_status : Status → Polled
    of_status completed = returned stored.result
    of_status failed = thrown (
        tool_error (get_or stored.error_code "INTERNAL_ERROR")
          "The standalone browser worker failed the operation" 409 false)
    of_status _ = unfinished (map_option (λ r. r.status) row)

abbrev timed_out : Failure
timed_out =
    tool_error "BROWSER_UNAVAILABLE" "Timed out waiting for the standalone browser worker" 504 true

-- One turn of the loop, or what follows it once the deadline has passed; `aborted` is the signal of
-- the emergency stop.
unfoldable pub poll : ℕ → ℕ → Bool → String → Queue → Queue × Polled
unfolding request_cancellation result get
poll now deadline aborted id q =
    if not (ltb now deadline)
    then ((request_cancellation now id (codes "orchestrator-timeout") q).0, thrown timed_out)
    else if aborted
    then (
      (request_cancellation now id (codes "emergency-stop") q).0,
      thrown (operation_cancelled "Browser operation was cancelled by emergency stop"),
    )
    else (q, polled_result (result id q) (get id q))

-- What the loop sees at a turn: the time, the signal, and what others have made of the queue.
pub record Turn : Type 0 where
  pub now : ℕ
  pub aborted : Bool
  pub queue : Queue

unfoldable pub wait_for_worker : ℕ → String → List Turn → Polled
unfolding poll
wait_for_worker deadline id [] = again
wait_for_worker deadline id (t ∷ ts) = elim (poll t.now deadline t.aborted id t.queue).1 [
  | again ↦ wait_for_worker deadline id ts
  | returned output ↦ returned output
  | thrown e ↦ thrown e
]
