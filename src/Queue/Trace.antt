-- ===== src/Queue/Trace.antt =====
-- Any history of the durable queue: the operations of packages/persistence/src/queue.ts that
-- change it, by whoever calls them, in any order.
use extension_jobs.Common.{
  ℕ, ◌+◌, String, Bool, Option, none, some, List, [], ◌∷◌, opt_eq, map_option, if◌then◌else◌,
}
use extension_jobs.Queue.{Queue, Row, QueueJobType, EnqueueOptions, enqueue, claim, claim_by_id}
use extension_jobs.Queue.Operations.{
  heartbeat, progress, complete, complete_with_result, fail, cancel, request_cancellation,
  request_cancellation_all,
}

-- Each constructor is a method of the class; the first number is the time of the call.
pub data Op : Type 0 where
  enqueues : ℕ → String → String → QueueJobType → String → EnqueueOptions → Op
  claims : ℕ → String → ℕ → Op
  claims_by_id : ℕ → String → String → Op
  heartbeats : ℕ → String → String → Op
  progresses : ℕ → String → String → ℕ → List ℕ → String → Op
  completes : ℕ → String → String → Op
  completes_with_result : ℕ → String → String → String → Op
  fails : ℕ → String → String → String → Bool → Op
  cancels : ℕ → String → Op
  requests_cancellation : ℕ → String → List ℕ → Op
  requests_cancellation_all : ℕ → List ℕ → Op

-- An `enqueue` that throws leaves the queue as it was.
abbrev pub after_enqueue : Queue → Option (Queue × Row) → Queue
after_enqueue q none = q
after_enqueue q (some (q', row)) = q'

unfoldable pub step : Queue → Op → Queue
step q (enqueues now id uuid type payload options) =
    after_enqueue q (enqueue now id uuid type payload options q)
step q (claims now worker lease) = (claim now worker lease q).0
step q (claims_by_id now id worker) = (claim_by_id now id worker q).0
step q (heartbeats now id worker) = (heartbeat now id worker q).0
step q (progresses now id worker percent message detail) =
    (progress now id worker percent message detail q).0
step q (completes now id worker) = (complete now id worker q).0
step q (completes_with_result now id worker result) =
    (complete_with_result now id worker result q).0
step q (fails now id worker code retryable) = (fail now id worker code retryable q).0
step q (cancels now id) = (cancel now id q).0
step q (requests_cancellation now id actor) = (request_cancellation now id actor q).0
step q (requests_cancellation_all now actor) = (request_cancellation_all now actor q).0

unfoldable pub run : Queue → List Op → Queue
run q [] = q
run q (op ∷ ops) = run (step q op) ops

-- The id of the job that an operation hands to a worker.
unfoldable pub claimed : Queue → Op → Option String
claimed q (claims now worker lease) = map_option (λ r. r.id) (claim now worker lease q).1
claimed q (claims_by_id now id worker) = map_option (λ r. r.id) (claim_by_id now id worker q).1
claimed q _ = none

-- How often the job is handed to a worker in the course of the operations.
unfoldable pub times_claimed : String → Queue → List Op → ℕ
times_claimed id q [] = 0
times_claimed id q (op ∷ ops) =
    (if opt_eq (claimed q op) id then 1 else 0) + times_claimed id (step q op) ops
