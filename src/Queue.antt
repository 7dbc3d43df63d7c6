-- ===== src/Queue.antt =====
-- packages/persistence/src/queue.ts: the durable queue, its SQL tables as lists of rows.
-- A time is in milliseconds, `now` is an argument of each operation, and so are the random ids.
-- The payload and the results are the JSON texts that the columns hold.
pub mod Operations
pub mod Trace
pub mod Invariant
pub mod Claims
pub mod Attempts
pub mod Submission
pub mod Settled
pub mod Due
pub mod Leases
pub mod Results
pub mod Abandoned
pub mod Outcomes
pub mod Failures
mod Tests
use extension_jobs.Common.{
  ℕ, suc, ◌+◌, ◌-◌, ◌*◌, ◌^◌, min, max, String, Bool, true, false, not, ◌&&◌, ◌||◌, Option, none,
  some, List, [], ◌∷◌, ◌++◌, map, ltb, leb, ◌==◌, str_eq, opt_eq, opt_ltb, is_some, get_or, any,
  find, keep, length, take, update_where, changes, if◌then◌else◌,
}

pub data QueueJobType : Type 0 where
  connector_verify_auth jobs_search jobs_read_details application_inspect : QueueJobType
  application_fill application_validate application_submit application_cleanup : QueueJobType
  resume_render campaign_execute wuzzuf_verify_auth wuzzuf_search : QueueJobType
  wuzzuf_fetch_details wuzzuf_score_job wuzzuf_prepare_application : QueueJobType
  wuzzuf_fill_application wuzzuf_submit_application wuzzuf_cleanup_browser : QueueJobType

-- `type === 'wuzzuf.submit-application' || type === 'application.submit'`
abbrev pub is_submission : QueueJobType → Bool
is_submission wuzzuf_submit_application = true
is_submission application_submit = true
is_submission _ = false

pub data Status : Type 0 where
  queued running completed failed cancelled : Status

abbrev pub is_queued : Status → Bool
is_queued queued = true
is_queued _ = false

abbrev pub is_running : Status → Bool
is_running running = true
is_running _ = false

-- A row of queue_jobs.
pub record Row : Type 0 where
  pub id : String
  pub type : QueueJobType
  pub payload : String
  pub status : Status
  pub attempts : ℕ
  pub max_attempts : ℕ
  pub run_after : ℕ
  pub locked_by : Option String
  pub locked_at : Option ℕ
  pub correlation_id : String
  pub last_error : Option String
  pub created_at : ℕ
  pub updated_at : ℕ

-- Rows of queue_progress_events (the message as UTF-16 units), queue_results, queue_cancellations.
pub record ProgressEvent : Type 0 where
  pub queue_job_id : String
  pub progress : ℕ
  pub message : List ℕ
  pub detail : String
  pub created_at : ℕ

pub record ResultRow : Type 0 where
  pub queue_job_id : String
  pub status : Status
  pub result : Option String
  pub error_code : Option String
  pub updated_at : ℕ

pub record Cancellation : Type 0 where
  pub queue_job_id : String
  pub requested_at : ℕ
  pub requested_by : List ℕ

pub record Queue : Type 0 where
  pub jobs : List Row
  pub events : List ProgressEvent
  pub results : List ResultRow
  pub cancellations : List Cancellation

abbrev pub empty : Queue
empty = record { jobs = []; events = []; results = []; cancellations = [] }

pub record EnqueueOptions : Type 0 where
  pub correlation_id : Option String
  pub max_attempts : Option ℕ
  pub run_after : Option ℕ

-- `id` and `uuid` are the results of the two calls of `randomUUID`.
unfoldable pub new_row : ℕ → String → String → QueueJobType → String → EnqueueOptions → Row
new_row now id uuid type payload options = record {
  id = id;
  type = type;
  payload = payload;
  status = queued;
  attempts = 0;
  max_attempts = if is_submission type then 1 else get_or options.max_attempts 3;
  run_after = get_or options.run_after now;
  locked_by = none;
  locked_at = none;
  correlation_id = get_or options.correlation_id uuid;
  last_error = none;
  created_at = now;
  updated_at = now;
}

-- The primary key refuses an id that is taken: the INSERT throws, `none`.
unfoldable pub enqueue :
    ℕ → String → String → QueueJobType → String → EnqueueOptions → Queue → Option (Queue × Row)
unfolding new_row
enqueue now id uuid type payload options q =
    if any (λ r. str_eq r.id id) q.jobs
    then none
    else some (record q { jobs = q.jobs ++ row ∷ [] }, row)
  where
    row : Row
    row = new_row now id uuid type payload options

abbrev pub has_id : String → Row → Bool
has_id id r = str_eq r.id id

unfoldable pub get : String → Queue → Option Row
get id q = find (has_id id) q.jobs

-- The WHERE of the SELECT in `claim`.
abbrev pub is_claimable : ℕ → ℕ → Row → Bool
is_claimable now expired r =
    ((is_queued r.status && leb r.run_after now)
      || (is_running r.status && opt_ltb r.locked_at expired))
    && ltb r.attempts r.max_attempts

-- ORDER BY run_after, created_at
abbrev pub is_before : Row → Row → Bool
is_before a b =
    ltb a.run_after b.run_after || (a.run_after == b.run_after && ltb a.created_at b.created_at)

-- SELECT … WHERE p ORDER BY run_after, created_at LIMIT 1; of two equal rows the earlier one.
unfoldable pub select_first : (Row → Bool) → List Row → Option Row
select_first p [] = none
select_first p (r ∷ rs) =
    let rest = select_first p rs in
    if p r
    then (elim rest [ none ↦ some r | some s ↦ if is_before s r then some s else some r ])
    else rest

-- SET status='running', attempts=attempts+1, locked_by=?, locked_at=?, updated_at=?
abbrev pub lock : ℕ → String → Row → Row
lock now worker r = record r {
  status = running;
  attempts = r.attempts + 1;
  locked_by = some worker;
  locked_at = some now;
  updated_at = now;
}

abbrev pub claim_where : ℕ → String → Row → Bool
claim_where expired id r = has_id id r && (is_queued r.status || opt_ltb r.locked_at expired)

-- The UPDATE of `claim` for the selected row, and the row that is read back.
unfoldable pub claim_selected : ℕ → ℕ → String → Option Row → Queue → Queue × Option Row
unfolding get
claim_selected now expired worker none q = (q, none)
claim_selected now expired worker (some row) q =
    let p = claim_where expired row.id in
    let q' = record q { jobs = update_where p (lock now worker) q.jobs } in
    (q', if changes p q.jobs == 1 then get row.id q' else none)

unfoldable pub claim : ℕ → String → ℕ → Queue → Queue × Option Row
unfolding claim_selected select_first
claim now worker lease q =
    let expired = now - lease in
    claim_selected now expired worker (select_first (is_claimable now expired) q.jobs) q

abbrev pub claim_by_id_where : ℕ → String → Row → Bool
claim_by_id_where now id r =
    has_id id r && is_queued r.status && leb r.run_after now && ltb r.attempts r.max_attempts

unfoldable pub claim_by_id : ℕ → String → String → Queue → Queue × Option Row
unfolding get
claim_by_id now id worker q =
    let p = claim_by_id_where now id in
    let q' = record q { jobs = update_where p (lock now worker) q.jobs } in
    (q', if changes p q.jobs == 1 then get id q' else none)
