-- ===== src/Queue/Submission.antt =====
-- How often a job of packages/persistence/src/queue.ts is handed to a worker.
use native.Mathlib.Nat.{le_trans}
use extension_jobs.Common.{
  ℕ, ◌+◌, ◌≤◌, ◌≡◌, refl, String, Bool, true, Option, none, some, List, [], ◌∷◌, arith, find, ap,
  ◌&&◌, keep, opt_eq, find-All, if◌then◌else◌,
}
use extension_jobs.Queue.{
  Queue, Row, has_id, is_submission, get, empty, new_row, completed, cancelled, enqueue,
}
use extension_jobs.Queue.Invariant.{IsValid, RowIsValid, step-IsValid, run-IsValid, empty-IsValid}
use extension_jobs.Queue.Operations.{
  heartbeat, progress, complete, complete_with_result, fail, fail_selected, cancel, held,
  request_cancellation, request_cancellation_of, request_each, request_cancellation_all,
  note_cancellation, unlock, owned, is_active, set_failed, may_retry, backoff,
}
use extension_jobs.Queue.Trace.{
  Op, enqueues, claims, claims_by_id, heartbeats, progresses, completes, completes_with_result,
  fails, cancels, requests_cancellation, requests_cancellation_all, step, run, claimed,
  times_claimed,
}
use extension_jobs.Queue.Attempts.{
  attempts_in, attempts_of, update_attempts, enqueue_attempts, claim_attempts, claim_by_id_attempts,
}

module _ (id : String) where
  fail_attempts :
      (now : ℕ) (k worker code : String) (retryable : Bool) (q : Queue)
      → attempts_of id q ≤ attempts_of id (fail now k worker code retryable q).0
  unfolding fail
  fail_attempts now k worker code retryable q = selected (find (held k worker) q.jobs)
    where
      selected :
          (o : Option Row)
          → attempts_of id q ≤ attempts_of id (fail_selected now k worker code retryable o q).0
      selected none = omega arith
      selected (some row) =
          unfold fail_selected in
          update_attempts id q (held k worker)
            (set_failed now code (may_retry retryable row) (backoff row.attempts)) (λ r. refl)
            (λ r. omega arith)

  cancel_attempts :
      (now : ℕ) (k : String) (q : Queue) → attempts_of id q ≤ attempts_of id (cancel now k q).0
  unfolding cancel
  cancel_attempts now k q =
      update_attempts id q (λ r. has_id k r && is_active r.status) (unlock now cancelled)
        (λ r. refl) (λ r. omega arith)

  complete_attempts :
      (now : ℕ) (k worker : String) (q : Queue)
      → attempts_of id q ≤ attempts_of id (complete now k worker q).0
  unfolding complete
  complete_attempts now k worker q =
      update_attempts id q (owned k worker) (unlock now completed) (λ r. refl) (λ r. omega arith)

  complete_with_result_attempts :
      (now : ℕ) (k worker result : String) (q : Queue)
      → attempts_of id q ≤ attempts_of id (complete_with_result now k worker result q).0
  unfolding complete_with_result
  complete_with_result_attempts now k worker result q =
      ground (arith, complete_attempts now k worker q)

  heartbeat_attempts :
      (now : ℕ) (k worker : String) (q : Queue)
      → attempts_of id q ≤ attempts_of id (heartbeat now k worker q).0
  unfolding heartbeat
  heartbeat_attempts now k worker q =
      update_attempts id q (owned k worker)
        (λ r. record r { locked_at = some now; updated_at = now }) (λ r. refl) (λ r. omega arith)

  progress_attempts :
      (now : ℕ) (k worker : String) (n : ℕ) (m : List ℕ) (d : String) (q : Queue)
      → attempts_of id q ≤ attempts_of id (progress now k worker n m d q).0
  unfolding progress
  progress_attempts now k worker n m d q = ground arith

  request_cancellation_attempts :
      (now : ℕ) (k : String) (actor : List ℕ) (q : Queue)
      → attempts_of id q ≤ attempts_of id (request_cancellation now k actor q).0
  unfolding request_cancellation
  request_cancellation_attempts now k actor q = asked (get k q)
    where
      noted : attempts_of id (note_cancellation now k actor q) ≡ attempts_of id q
      noted = unfold note_cancellation in ground arith

      asked :
          (o : Option Row)
          → attempts_of id q ≤ attempts_of id (request_cancellation_of now k actor o q).0
      asked none = omega arith
      asked (some row) =
          ground (arith, noted, cancel_attempts now k (note_cancellation now k actor q))

  request_each_attempts :
      (now : ℕ) (actor : List ℕ) (rows : List Row) (q : Queue)
      → attempts_of id q ≤ attempts_of id (request_each now actor rows q).0
  unfolding request_each
  request_each_attempts now actor [] q = omega arith
  request_each_attempts now actor (row ∷ rows) q =
      le_trans (request_cancellation_attempts now row.id actor q)
        (request_each_attempts now actor rows (request_cancellation now row.id actor q).0)

  request_all_attempts :
      (now : ℕ) (actor : List ℕ) (q : Queue)
      → attempts_of id q ≤ attempts_of id (request_cancellation_all now actor q).0
  unfolding request_cancellation_all
  request_all_attempts now actor q =
      request_each_attempts now actor (keep (λ r. is_active r.status) q.jobs) q

  -- An operation that hands the job out counts an attempt, and none takes one back.
  step_attempts :
      (q : Queue) (op : Op)
      → IsValid q
      → (if opt_eq (claimed q op) id then 1 else 0) + attempts_of id q ≤ attempts_of id (step q op)
  unfolding step claimed
  step_attempts q (enqueues now k uuid type payload o) v =
      unfold enqueue in ground (arith, enqueue_attempts id q (new_row now k uuid type payload o))
  step_attempts q (claims now worker lease) v = claim_attempts id now worker lease q v
  step_attempts q (claims_by_id now k worker) v = claim_by_id_attempts id now k worker q v
  step_attempts q (heartbeats now k worker) v = omega (arith, heartbeat_attempts now k worker q)
  step_attempts q (progresses now k worker n m d) v =
      omega (arith, progress_attempts now k worker n m d q)
  step_attempts q (completes now k worker) v = omega (arith, complete_attempts now k worker q)
  step_attempts q (completes_with_result now k worker r) v =
      omega (arith, complete_with_result_attempts now k worker r q)
  step_attempts q (fails now k worker code retryable) v =
      omega (arith, fail_attempts now k worker code retryable q)
  step_attempts q (cancels now k) v = omega (arith, cancel_attempts now k q)
  step_attempts q (requests_cancellation now k actor) v =
      omega (arith, request_cancellation_attempts now k actor q)
  step_attempts q (requests_cancellation_all now actor) v =
      omega (arith, request_all_attempts now actor q)

  times_claimed_attempts :
      (q : Queue) (ops : List Op)
      → IsValid q
      → times_claimed id q ops + attempts_of id q ≤ attempts_of id (run q ops)
  unfolding times_claimed run
  times_claimed_attempts q [] v = omega arith
  times_claimed_attempts q (op ∷ ops) v =
      omega
        (arith, step_attempts q op v, times_claimed_attempts (step q op) ops (step-IsValid q op v))

-- From an empty queue, whatever is called in whatever order and by whomever: a job is handed to
-- workers at most `max_attempts` times, and a submission job at most once.
pub times_claimed_bound :
    (ops : List Op) (id : String) {r : Row}
    → get id (run empty ops) ≡ some r
    → (times_claimed id empty ops ≤ r.max_attempts)
      × (is_submission r.type ≡ true → times_claimed id empty ops ≤ 1)
unfolding get
times_claimed_bound ops id {r} e =
    let ok : RowIsValid r =
      find-All RowIsValid (has_id id) (run empty ops).jobs
        (run-IsValid empty ops empty-IsValid).rows e in
    let sum = times_claimed_attempts id empty ops empty-IsValid in
    let last : attempts_of id (run empty ops) ≡ r.attempts = ap attempts_in e in
    (
      omega (arith, sum, last, ok.within),
      λ s. omega (arith, sum, last, ok.within, ok.one_attempt s),
    )
