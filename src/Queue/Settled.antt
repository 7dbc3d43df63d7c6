-- ===== src/Queue/Settled.antt =====
-- What becomes of one row of packages/persistence/src/queue.ts: who may settle it, what is stored,
-- and that a settled row stays as it is.
use extension_jobs.Common.{
  ℕ, ◌-◌, ◌≡◌, refl, ◌∙◌, String, Bool, true, false, ◌&&◌, Option, none, some, List, [], ◌∷◌, ◌++◌,
  arith, find, find-All, find-none, find_by-update_where, find_by-append, changes, changes-find_by,
  one_if, update_where, update_where_none, str_eq→eq, opt_eq, if◌then◌else◌, ap, keep,
}
use extension_jobs.Queue.{
  Queue, Row, Status, queued, completed, cancelled, running, has_id, is_queued, get, new_row,
  enqueue, claim, claim_selected, claim_by_id, claim_where, claim_by_id_where, lock, select_first,
  is_claimable,
}
use extension_jobs.Queue.Invariant.{IsValid, RowIsValid, step-IsValid}
use extension_jobs.Queue.Operations.{
  heartbeat, progress, complete, complete_with_result, fail, fail_selected, may_retry, set_failed,
  backoff, held, owned, unlock, cancel, is_active, request_cancellation, request_cancellation_of,
  note_cancellation, request_each, request_cancellation_all,
}
use extension_jobs.Queue.Trace.{
  Op, enqueues, claims, claims_by_id, heartbeats, progresses, completes, completes_with_result,
  fails, cancels, requests_cancellation, requests_cancellation_all, step, run,
}

abbrev key : Row → String
key r = r.id

-- An UPDATE changes no row that does not meet its condition.
module _ (id : String) {r : Row} where
  pub update_kept :
      (q : Queue) (p : Row → Bool) (f : Row → Row)
      → ((x : Row) → (f x).id ≡ x.id)
      → get id q ≡ some r
      → p r ≡ false
      → get id (record q { jobs = update_where p f q.jobs }) ≡ some r
  unfolding get
  update_kept q p f same e n = rw (find_by-update_where key id p f q.jobs same, e) (rw n)

  pub enqueue_kept :
      (q : Queue) (row : Row)
      → get id q ≡ some r
      → get id (record q { jobs = q.jobs ++ row ∷ [] }) ≡ some r
  unfolding get
  enqueue_kept q row e = rw (find_by-append key id q.jobs, e)

  claim_kept :
      (now expired : ℕ) (worker : String) (q : Queue)
      → get id q ≡ some r
      → is_queued r.status ≡ false
      → r.locked_at ≡ none
      → (o : Option Row) → get id (claim_selected now expired worker o q).0 ≡ some r
  unfolding claim_selected
  claim_kept now expired worker q e n l none = e
  claim_kept now expired worker q e n l (some row) =
      update_kept q (claim_where expired row.id) (lock now worker) (λ x. refl) e (ground arith)

  request_kept :
      (now : ℕ) (k : String) (actor : List ℕ) (q : Queue)
      → get id q ≡ some r
      → is_active r.status ≡ false
      → get id (request_cancellation now k actor q).0 ≡ some r
  unfolding request_cancellation
  request_kept now k actor q e n = asked (get k q)
    where
      noted : get id (note_cancellation now k actor q) ≡ some r
      noted = unfold note_cancellation get in ground arith

      cancelled_kept : get id (cancel now k (note_cancellation now k actor q)).0 ≡ some r
      cancelled_kept =
          unfold cancel in
          update_kept (note_cancellation now k actor q) (λ x. has_id k x && is_active x.status)
            (unlock now cancelled) (λ x. refl) noted (ground arith)

      by_status :
          (s : Status)
          → (let out : Queue × Bool =
                if is_active s
                then (
                  if is_queued s
                      then (cancel now k (note_cancellation now k actor q)).0
                      else note_cancellation now k actor q,
                  true,
                )
                else (q, false) in
              get id out.0)
            ≡ some r
      by_status queued = cancelled_kept
      by_status running = noted
      by_status _ = e

      asked : (o : Option Row) → get id (request_cancellation_of now k actor o q).0 ≡ some r
      asked none = e
      asked (some row) = by_status row.status

  request_each_kept :
      (now : ℕ) (actor : List ℕ) (rows : List Row) (q : Queue)
      → get id q ≡ some r
      → is_active r.status ≡ false
      → get id (request_each now actor rows q).0 ≡ some r
  unfolding request_each
  request_each_kept now actor [] q e n = e
  request_each_kept now actor (row ∷ rows) q e n =
      request_each_kept now actor rows (request_cancellation now row.id actor q).0
        (request_kept now row.id actor q e n) n

  fail_kept :
      (now : ℕ) (k worker code : String) (retryable : Bool) (q : Queue)
      → get id q ≡ some r
      → r.locked_by ≡ none
      → get id (fail now k worker code retryable q).0 ≡ some r
  unfolding fail
  fail_kept now k worker code retryable q e l = selected (find (held k worker) q.jobs)
    where
      selected :
          (o : Option Row) → get id (fail_selected now k worker code retryable o q).0 ≡ some r
      selected none = e
      selected (some row) =
          unfold fail_selected get in
          update_kept q (held k worker)
            (set_failed now code (may_retry retryable row) (backoff row.attempts)) (λ x. refl) e
            (ground arith)

  complete_kept :
      (now : ℕ) (k worker : String) (q : Queue)
      → get id q ≡ some r
      → r.locked_by ≡ none
      → get id (complete now k worker q).0 ≡ some r
  unfolding complete
  complete_kept now k worker q e l =
      update_kept q (owned k worker) (unlock now completed) (λ x. refl) e (ground arith)

  -- No operation changes a row that is completed, failed or cancelled.
  pub settled_step :
      (q : Queue) (op : Op)
      → IsValid q
      → get id q ≡ some r
      → is_active r.status ≡ false
      → get id (step q op) ≡ some r
  unfolding step
  settled_step q op v e n = by_op op
    where
      valid : RowIsValid r
      valid = unfold get in find-All RowIsValid (has_id id) q.jobs v.rows e

      unlocked : r.locked_by ≡ none
      unlocked = ground (arith, valid.locked)

      untimed : r.locked_at ≡ none
      untimed = ground (arith, valid.lock_timed)

      by_op : (o : Op) → get id (step q o) ≡ some r
      by_op (enqueues now k uuid type payload o) =
          unfold enqueue in ground (arith, enqueue_kept q (new_row now k uuid type payload o) e)
      by_op (claims now worker lease) =
          unfold claim in
          claim_kept now (now - lease) worker q e (ground arith) untimed
            (select_first (is_claimable now (now - lease)) q.jobs)
      by_op (claims_by_id now k worker) =
          unfold claim_by_id in
          update_kept q (claim_by_id_where now k) (lock now worker) (λ x. refl) e (ground arith)
      by_op (heartbeats now k worker) =
          unfold heartbeat in
          update_kept q (owned k worker) (λ x. record x { locked_at = some now; updated_at = now })
            (λ x. refl) e (ground arith)
      by_op (progresses now k worker m t d) = unfold progress get in ground arith
      by_op (completes now k worker) = complete_kept now k worker q e unlocked
      by_op (completes_with_result now k worker res) =
          unfold complete_with_result get in ground (arith, complete_kept now k worker q e unlocked)
      by_op (fails now k worker code retryable) = fail_kept now k worker code retryable q e unlocked
      by_op (cancels now k) =
          unfold cancel in
          update_kept q (λ x. has_id k x && is_active x.status) (unlock now cancelled) (λ x. refl) e
            (ground arith)
      by_op (requests_cancellation now k actor) = request_kept now k actor q e n
      by_op (requests_cancellation_all now actor) =
          unfold request_cancellation_all in
          request_each_kept now actor (keep (λ x. is_active x.status) q.jobs) q e n

-- A job that is completed, failed or cancelled stays as it is, whatever is called afterwards: it
-- is not claimed again, completed twice, retried or cancelled.
pub settled_run :
    (id : String) {r : Row} (q : Queue) (ops : List Op)
    → IsValid q
    → get id q ≡ some r
    → is_active r.status ≡ false
    → get id (run q ops) ≡ some r
unfolding run
settled_run id q [] v e n = e
settled_run id q (op ∷ ops) v e n =
    settled_run id (step q op) ops (step-IsValid q op v) (settled_step id q op v e n) n

owned_id : (id worker : String) (r : Row) → owned id worker r ≡ true → key r ≡ id
owned_id id worker r h = ground (arith, str_eq→eq r.id id)

held_id : (id worker : String) (r : Row) → held id worker r ≡ true → key r ≡ id
held_id id worker r h = ground (arith, str_eq→eq r.id id)

-- A worker that does not hold the job, for one because another has claimed it since, is refused:
-- its heartbeat, completion and failure return false and change nothing.
pub stranger_refused :
    (now : ℕ) (id worker code output : String) (retryable : Bool) (q : Queue) {r : Row}
    → IsValid q
    → get id q ≡ some r
    → opt_eq r.locked_by worker ≡ false
    → (heartbeat now id worker q ≡ (q, false))
      × (complete now id worker q ≡ (q, false))
      × (complete_with_result now id worker output q ≡ (q, false))
      × (fail now id worker code retryable q ≡ (q, false))
unfolding get heartbeat complete complete_with_result fail
stranger_refused now id worker code output retryable q {r} v e n =
    let not_owned : changes (owned id worker) q.jobs ≡ 0 =
      changes-find_by key id (owned id worker) q.jobs (owned_id id worker) v.keys
      ∙ (ap (one_if key (owned id worker)) e ∙ ground arith) in
    let not_held : changes (held id worker) q.jobs ≡ 0 =
      changes-find_by key id (held id worker) q.jobs (held_id id worker) v.keys
      ∙ (ap (one_if key (held id worker)) e ∙ ground arith) in
    (
      rw (
        update_where_none (owned id worker)
            (λ x. record x { locked_at = some now; updated_at = now }) q.jobs not_owned,
        not_owned,
      ),
      rw (update_where_none (owned id worker) (unlock now completed) q.jobs not_owned, not_owned),
      rw not_owned,
      rw (find-none (held id worker) q.jobs not_held, fail_selected),
    )
