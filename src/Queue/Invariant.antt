-- ===== src/Queue/Invariant.antt =====
-- What holds of every row of the queue after any history.
use extension_jobs.Common.{
  ℕ, ◌-◌, ◌≤◌, ◌<◌, ◌≡◌, refl, inl, inr, String, Bool, true, Option, none, some, List, [], ◌∷◌, map,
  arith, is_some, any, All, All-append, All-update_where, All-update_keyed, map-update_where,
  Distinct, Distinct-append_one, includes-map, map-append_one, update_where, Option-cases,
  Bool-cases, find, find-find_by, str_eq, str_eq→eq, keep,
}
use extension_jobs.Queue.{
  Queue, Row, QueueJobType, EnqueueOptions, is_submission, is_queued, is_running, empty, get,
  new_row, enqueue, claim, claim_selected, claim_by_id, claim_where, claim_by_id_where, lock,
  select_first, is_claimable,
}
use extension_jobs.Queue.Claims.{select_first_holds, select_first-find}
use extension_jobs.Queue.Operations.{
  heartbeat, progress, complete, complete_with_result, fail, fail_selected, cancel, held,
  request_cancellation, request_cancellation_of, request_each, request_cancellation_all,
  note_cancellation, is_active, owned, may_retry, set_failed, backoff,
}
use extension_jobs.Queue.Trace.{
  Op, enqueues, claims, claims_by_id, heartbeats, progresses, completes, completes_with_result,
  fails, cancels, requests_cancellation, requests_cancellation_all, step, run,
}

-- A row is locked exactly while it runs, and a submission has one attempt in all.
pub record RowIsValid (r : Row) : Type 0 where
  pub locked : is_some r.locked_by ≡ is_running r.status
  pub lock_timed : is_some r.locked_at ≡ is_running r.status
  pub started : is_running r.status ≡ true → 0 < r.attempts
  pub one_attempt : is_submission r.type ≡ true → r.max_attempts ≡ 1
  pub not_requeued : is_submission r.type ≡ true → is_queued r.status ≡ true → r.attempts ≡ 0
  pub within : r.attempts ≤ r.max_attempts

pub record IsValid (q : Queue) : Type 0 where
  pub rows : All RowIsValid q.jobs
  pub keys : Distinct (map (λ r. r.id) q.jobs)

new_row-IsValid :
    (now : ℕ) (id uuid : String) (type : QueueJobType) (payload : String) (o : EnqueueOptions)
    → RowIsValid (new_row now id uuid type payload o)
unfolding new_row
new_row-IsValid now id uuid type payload o = ground arith

abbrev key : Row → String
key r = r.id

-- An UPDATE of the rows that keeps their ids, and each row valid, keeps the queue valid.
update-IsValid :
    (q : Queue) (p : Row → Bool) (f : Row → Row)
    → ((r : Row) → key (f r) ≡ key r)
    → ((r : Row) → p r ≡ true → RowIsValid r → RowIsValid (f r))
    → IsValid q
    → IsValid (record q { jobs = update_where p f q.jobs })
update-IsValid q p f same step v = record {
  rows = All-update_where RowIsValid p f q.jobs step v.rows;
  keys = rw (map-update_where key p f q.jobs same) v.keys;
}

enqueue-IsValid :
    (now : ℕ) (id uuid : String) (type : QueueJobType) (payload : String) (o : EnqueueOptions)
    (q : Queue)
    → IsValid q
    → IsValid (step q (enqueues now id uuid type payload o))
unfolding step enqueue
enqueue-IsValid now id uuid type payload o q v =
    elim (Bool-cases (any (λ r. str_eq r.id id) q.jobs)) [
      | inl taken ↦ rw taken v
      | inr free ↦ rw free (record {
        rows =
            All-append RowIsValid q.jobs _ v.rows (new_row-IsValid now id uuid type payload o, tt);
        keys =
            rw (map-append_one key q.jobs _) (
              Distinct-append_one id (map key q.jobs) (rw (includes-map key id q.jobs) free)
                v.keys);
      })
    ]

lock-IsValid :
    (now lease : ℕ) (worker : String) (r : Row)
    → is_claimable now lease r ≡ true
    → RowIsValid r
    → RowIsValid (lock now worker r)
lock-IsValid now lease worker r c v = ground arith

pub claim-IsValid :
    (now : ℕ) (worker : String) (lease : ℕ) (q : Queue)
    → IsValid q
    → IsValid (claim now worker lease q).0
unfolding claim
claim-IsValid now worker lease q v =
    elim (Option-cases (select_first (is_claimable now (now - lease)) q.jobs)) [
      | inl n ↦ rw (n, claim_selected) v
      | inr (row, e) ↦
          rw (e, claim_selected)
            (record {
              rows =
                  All-update_keyed key RowIsValid row.id (claim_where (now - lease) row.id)
                    (lock now worker) q.jobs v.keys (select_first-find _ q.jobs v.keys e)
                    (λ x h. ground (arith, str_eq→eq x.id row.id))
                    (λ h. lock-IsValid now (now - lease) worker row (select_first_holds _ q.jobs e))
                    v.rows;
              keys = rw (map-update_where key _ (lock now worker) q.jobs (λ a. refl)) v.keys;
            })
    ]

claim_by_id-IsValid :
    (now : ℕ) (id worker : String) (q : Queue) → IsValid q → IsValid (claim_by_id now id worker q).0
unfolding claim_by_id
claim_by_id-IsValid now id worker q =
    update-IsValid q (claim_by_id_where now id) (lock now worker) (λ r. refl)
      (λ r h v. lock-IsValid now 0 worker r (ground arith) v)

heartbeat-IsValid :
    (now : ℕ) (id worker : String) (q : Queue) → IsValid q → IsValid (heartbeat now id worker q).0
unfolding heartbeat
heartbeat-IsValid now id worker q =
    update-IsValid q (owned id worker) _ (λ r. refl) (λ r h v. ground arith)

progress-IsValid :
    (now : ℕ) (id worker : String) (n : ℕ) (m : List ℕ) (d : String) (q : Queue)
    → IsValid q
    → IsValid (progress now id worker n m d q).0
unfolding progress
progress-IsValid now id worker n m d q v = ground arith

complete-IsValid :
    (now : ℕ) (id worker : String) (q : Queue) → IsValid q → IsValid (complete now id worker q).0
unfolding complete
complete-IsValid now id worker q =
    update-IsValid q (owned id worker) _ (λ r. refl) (λ r h v. ground arith)

complete_with_result-IsValid :
    (now : ℕ) (id worker result : String) (q : Queue)
    → IsValid q
    → IsValid (complete_with_result now id worker result q).0
unfolding complete_with_result
complete_with_result-IsValid now id worker result q v =
    ground (arith, complete-IsValid now id worker q v)

cancel-IsValid : (now : ℕ) (id : String) (q : Queue) → IsValid q → IsValid (cancel now id q).0
unfolding cancel
cancel-IsValid now id q = update-IsValid q _ _ (λ r. refl) (λ r h v. ground arith)

held_id : (id worker : String) (r : Row) → held id worker r ≡ true → key r ≡ id
held_id id worker r h = ground (arith, str_eq→eq r.id id)

set_failed-IsValid :
    (now delay : ℕ) (code : String) (retryable : Bool) (r : Row)
    → RowIsValid r
    → RowIsValid (set_failed now code (may_retry retryable r) delay r)
set_failed-IsValid now delay code retryable r v = ground arith

fail-IsValid :
    (now : ℕ) (id worker code : String) (retryable : Bool) (q : Queue)
    → IsValid q
    → IsValid (fail now id worker code retryable q).0
unfolding fail
fail-IsValid now id worker code retryable q v = elim (Option-cases (find (held id worker) q.jobs)) [
  | inl n ↦ rw (n, fail_selected) v
  | inr (row, e) ↦
      let set = set_failed now code (may_retry retryable row) (backoff row.attempts) in
      rw (e, fail_selected)
        (record {
          rows =
              All-update_keyed key RowIsValid id (held id worker) set q.jobs v.keys
                (find-find_by key id (held id worker) q.jobs v.keys (held_id id worker) e)
                (held_id id worker)
                (λ h. set_failed-IsValid now (backoff row.attempts) code retryable row) v.rows;
          keys = rw (map-update_where key (held id worker) set q.jobs (λ a. refl)) v.keys;
        })
]

request_cancellation-IsValid :
    (now : ℕ) (id : String) (actor : List ℕ) (q : Queue)
    → IsValid q
    → IsValid (request_cancellation now id actor q).0
unfolding request_cancellation
request_cancellation-IsValid now id actor q v = request_of (get id q)
  where
    noted : IsValid (note_cancellation now id actor q)
    noted = unfold note_cancellation in ground arith

    request_of : (o : Option Row) → IsValid (request_cancellation_of now id actor o q).0
    request_of none = v
    request_of (some row) =
        ground (arith, noted, cancel-IsValid now id (note_cancellation now id actor q) noted)

request_each-IsValid :
    (now : ℕ) (actor : List ℕ) (rows : List Row) (q : Queue)
    → IsValid q
    → IsValid (request_each now actor rows q).0
unfolding request_each
request_each-IsValid now actor [] q v = v
request_each-IsValid now actor (row ∷ rows) q v =
    request_each-IsValid now actor rows (request_cancellation now row.id actor q).0
      (request_cancellation-IsValid now row.id actor q v)

request_cancellation_all-IsValid :
    (now : ℕ) (actor : List ℕ) (q : Queue)
    → IsValid q
    → IsValid (request_cancellation_all now actor q).0
unfolding request_cancellation_all
request_cancellation_all-IsValid now actor q v =
    request_each-IsValid now actor (keep (λ r. is_active r.status) q.jobs) q v

-- Every operation of the queue, also one that is refused, keeps the rows valid: locked exactly
-- while running, never over their attempts, ids distinct, and a submission never queued again.
pub step-IsValid : (q : Queue) (op : Op) → IsValid q → IsValid (step q op)
unfolding step
step-IsValid q (enqueues now id uuid type payload o) v =
    enqueue-IsValid now id uuid type payload o q v
step-IsValid q (claims now worker lease) v = claim-IsValid now worker lease q v
step-IsValid q (claims_by_id now id worker) v = claim_by_id-IsValid now id worker q v
step-IsValid q (heartbeats now id worker) v = heartbeat-IsValid now id worker q v
step-IsValid q (progresses now id worker n m d) v = progress-IsValid now id worker n m d q v
step-IsValid q (completes now id worker) v = complete-IsValid now id worker q v
step-IsValid q (completes_with_result now id worker r) v =
    complete_with_result-IsValid now id worker r q v
step-IsValid q (fails now id worker code retryable) v =
    fail-IsValid now id worker code retryable q v
step-IsValid q (cancels now id) v = cancel-IsValid now id q v
step-IsValid q (requests_cancellation now id actor) v =
    request_cancellation-IsValid now id actor q v
step-IsValid q (requests_cancellation_all now actor) v =
    request_cancellation_all-IsValid now actor q v

-- Every history keeps a valid queue valid: each row is locked exactly while it is running, has at
-- most its attempts, a submission is never queued again, and the ids are distinct.
pub run-IsValid : (q : Queue) (ops : List Op) → IsValid q → IsValid (run q ops)
unfolding run
run-IsValid q [] v = v
run-IsValid q (op ∷ ops) v = run-IsValid (step q op) ops (step-IsValid q op v)

pub empty-IsValid : IsValid empty
empty-IsValid = record { rows = tt; keys = tt }
