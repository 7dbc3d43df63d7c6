-- ===== src/Queue/Operations.antt =====
-- packages/persistence/src/queue.ts: what the owner of a claim, and a canceller, do with a job.
use extension_jobs.Common.{
  ℕ, suc, ◌+◌, ◌-◌, ◌*◌, ◌^◌, min, max, String, Bool, true, false, not, ◌&&◌, ◌||◌, Option, none,
  some, List, [], ◌∷◌, ◌++◌, ltb, ◌==◌, str_eq, opt_eq, any, find, keep, take, update_where,
  changes, if◌then◌else◌,
}
use extension_jobs.Queue.{
  Queue, Row, Status, queued, completed, failed, cancelled, ProgressEvent, ResultRow, Cancellation,
  is_submission, is_queued, is_running, has_id, get,
}

-- WHERE id=? AND status='running' AND locked_by=?
abbrev pub owned : String → String → Row → Bool
owned id worker r = has_id id r && is_running r.status && opt_eq r.locked_by worker

unfoldable pub heartbeat : ℕ → String → String → Queue → Queue × Bool
heartbeat now id worker q =
    let p = owned id worker in
    (
      record q {
        jobs = update_where p (λ r. record r { locked_at = some now; updated_at = now }) q.jobs;
      },
      changes p q.jobs == 1,
    )

-- `progress` is a percentage, rounded by the caller.
unfoldable pub progress : ℕ → String → String → ℕ → List ℕ → String → Queue → Queue × Bool
progress now id worker percent message detail q =
    if any (owned id worker) q.jobs
    then (record q { events = q.events ++ event ∷ [] }, true)
    else (q, false)
  where
    event : ProgressEvent
    event = record {
      queue_job_id = id;
      progress = max 0 (min 100 percent);
      message = take 500 message;
      detail = detail;
      created_at = now;
    }

-- SELECT … WHERE queue_job_id=?, the rows in the order in which they were written.
unfoldable pub progress_events : String → Queue → List ProgressEvent
progress_events id q = keep (λ e. str_eq e.queue_job_id id) q.events

-- SET status=?, locked_by=NULL, locked_at=NULL, updated_at=?
abbrev pub unlock : ℕ → Status → Row → Row
unlock now status r = record r {
  status = status;
  locked_by = none;
  locked_at = none;
  updated_at = now;
}

unfoldable pub complete : ℕ → String → String → Queue → Queue × Bool
complete now id worker q =
    let p = owned id worker in
    (record q { jobs = update_where p (unlock now completed) q.jobs }, changes p q.jobs == 1)

-- INSERT INTO queue_results … ON CONFLICT(queue_job_id) DO UPDATE
unfoldable pub put_result : ResultRow → List ResultRow → List ResultRow
put_result new [] = new ∷ []
put_result new (old ∷ rest) =
    if str_eq old.queue_job_id new.queue_job_id then new ∷ rest else old ∷ put_result new rest

unfoldable pub completed_row : ℕ → String → String → ResultRow
completed_row now id result = record {
  queue_job_id = id;
  status = completed;
  result = some result;
  error_code = none;
  updated_at = now;
}

-- ROLLBACK leaves the tables as they were.
unfoldable pub complete_with_result : ℕ → String → String → String → Queue → Queue × Bool
unfolding complete put_result completed_row
complete_with_result now id worker result q =
    let (q', done) = complete now id worker q in
    if done
    then (record q' { results = put_result (completed_row now id result) q'.results }, true)
    else (q, false)

unfoldable pub result : String → Queue → Option ResultRow
result id q = find (λ r. str_eq r.queue_job_id id) q.results

-- WHERE id=? AND locked_by=?
abbrev pub held : String → String → Row → Bool
held id worker r = has_id id r && opt_eq r.locked_by worker

abbrev pub may_retry : Bool → Row → Bool
may_retry retryable row =
    retryable && not (is_submission row.type) && ltb row.attempts row.max_attempts

-- Math.min(300_000, 1000 * 2 ** Math.max(0, attempts - 1)); `-` stops at 0.
unfoldable pub backoff : ℕ → ℕ
backoff attempts = min 300000 (1000 * 2 ^ (attempts - 1))

abbrev pub failed_row : ℕ → String → String → ResultRow
failed_row now id code = record {
  queue_job_id = id;
  status = failed;
  result = none;
  error_code = some code;
  updated_at = now;
}

abbrev pub set_failed : ℕ → String → Bool → ℕ → Row → Row
set_failed now code retry delay r = record r {
  status = if retry then queued else failed;
  run_after = now + delay;
  locked_by = none;
  locked_at = none;
  last_error = some code;
  updated_at = now;
}

unfoldable pub fail_selected :
    ℕ → String → String → String → Bool → Option Row → Queue → Queue × Bool
unfolding put_result
fail_selected now id worker code retryable none q = (q, false)
fail_selected now id worker code retryable (some row) q =
    let retry = may_retry retryable row in
    let p = held id worker in
    let changed = changes p q.jobs == 1 in
    (
      record q {
        jobs = update_where p (set_failed now code retry (backoff row.attempts)) q.jobs;
        results =
            if changed && not retry
            then put_result (failed_row now id code) q.results
            else q.results;
      },
      changed,
    )

unfoldable pub fail : ℕ → String → String → String → Bool → Queue → Queue × Bool
unfolding fail_selected
fail now id worker code retryable q =
    fail_selected now id worker code retryable (find (held id worker) q.jobs) q

-- status IN ('queued','running')
abbrev pub is_active : Status → Bool
is_active s = is_queued s || is_running s

unfoldable pub cancel : ℕ → String → Queue → Queue × Bool
cancel now id q =
    let p = λ (r : Row). has_id id r && is_active r.status in
    (record q { jobs = update_where p (unlock now cancelled) q.jobs }, changes p q.jobs == 1)

unfoldable pub cancellation_requested : String → Queue → Bool
cancellation_requested id q = any (λ c. str_eq c.queue_job_id id) q.cancellations

-- INSERT INTO queue_cancellations … ON CONFLICT DO NOTHING
unfoldable pub note_cancellation : ℕ → String → List ℕ → Queue → Queue
unfolding cancellation_requested
note_cancellation now id actor q =
    if cancellation_requested id q
    then q
    else record q { cancellations = q.cancellations ++ row ∷ [] }
  where
    row : Cancellation
    row = record { queue_job_id = id; requested_at = now; requested_by = take 100 actor }

unfoldable pub request_cancellation_of : ℕ → String → List ℕ → Option Row → Queue → Queue × Bool
unfolding note_cancellation cancel
request_cancellation_of now id actor none q = (q, false)
request_cancellation_of now id actor (some job) q =
    let q' = note_cancellation now id actor q in
    if is_active job.status
    then (if is_queued job.status then (cancel now id q').0 else q', true)
    else (q, false)

unfoldable pub request_cancellation : ℕ → String → List ℕ → Queue → Queue × Bool
unfolding request_cancellation_of get
request_cancellation now id actor q = request_cancellation_of now id actor (get id q) q

-- The loop of `requestCancellationAll` over the selected ids.
unfoldable pub request_each : ℕ → List ℕ → List Row → Queue → Queue × ℕ
unfolding request_cancellation
request_each now actor [] q = (q, 0)
request_each now actor (row ∷ rows) q =
    let (q', asked) = request_cancellation now row.id actor q in
    let (q'', count) = request_each now actor rows q' in (q'', if asked then suc count else count)

unfoldable pub request_cancellation_all : ℕ → List ℕ → Queue → Queue × ℕ
unfolding request_each
request_cancellation_all now actor q =
    request_each now actor (keep (λ r. is_active r.status) q.jobs) q
