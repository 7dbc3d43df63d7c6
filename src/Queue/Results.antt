-- ===== src/Queue/Results.antt =====
-- The result of a settled job of packages/persistence/src/queue.ts stays as it is.
use extension_jobs.Common.{
  ℕ, ◌-◌, ◌≡◌, refl, ◌∙◌, ap, inl, inr, String, Bool, true, false, Option, none, some, List, [],
  ◌∷◌, arith, find, find-All, keep, str_eq, str_eq→eq, opt_eq, Bool-cases, if◌then◌else◌,
}
use extension_jobs.Queue.{
  Queue, Row, Status, queued, running, ResultRow, is_queued, has_id, get, enqueue, claim,
  claim_selected, claim_by_id, select_first, is_claimable,
}
use extension_jobs.Queue.Invariant.{IsValid, RowIsValid, step-IsValid}
use extension_jobs.Queue.Operations.{
  heartbeat, progress, complete, complete_with_result, fail, fail_selected, put_result, result,
  completed_row, failed_row, cancel, is_active, held, request_cancellation, request_cancellation_of,
  note_cancellation, request_each, request_cancellation_all,
}
use extension_jobs.Queue.Settled.{settled_step, stranger_refused}
use extension_jobs.Queue.Trace.{
  Op, enqueues, claims, claims_by_id, heartbeats, progresses, completes, completes_with_result,
  fails, cancels, requests_cancellation, requests_cancellation_all, step, run,
}

abbrev is_result : String → ResultRow → Bool
is_result id r = str_eq r.queue_job_id id

put_other :
    (id : String) (row : ResultRow) (rows : List ResultRow)
    → str_eq row.queue_job_id id ≡ false
    → find (is_result id) (put_result row rows) ≡ find (is_result id) rows
unfolding put_result
put_other id row [] n = rw n refl
put_other id row (old ∷ rows) n = elim (Bool-cases (str_eq old.queue_job_id row.queue_job_id)) [
  | inl same ↦
      let at : old.queue_job_id ≡ row.queue_job_id =
        str_eq→eq old.queue_job_id row.queue_job_id same in
      ground (arith, n, at)
  | inr other ↦ ground (arith, other, put_other id row rows n)
]

claim_results :
    (now expired : ℕ) (worker : String) (q : Queue) (o : Option Row)
    → (claim_selected now expired worker o q).0.results ≡ q.results
unfolding claim_selected
claim_results now expired worker q none = refl
claim_results now expired worker q (some row) = refl

noted_results :
    (now : ℕ) (k : String) (actor : List ℕ) (q : Queue)
    → (note_cancellation now k actor q).results ≡ q.results
unfolding note_cancellation
noted_results now k actor q = ground arith

request_results :
    (now : ℕ) (k : String) (actor : List ℕ) (q : Queue)
    → (request_cancellation now k actor q).0.results ≡ q.results
unfolding request_cancellation
request_results now k actor q = asked (get k q)
  where
    by_status :
        (s : Status)
        → (let out : Queue × Bool =
              if is_active s
              then (
                if is_queued s
                    then (cancel now k (note_cancellation now k actor q)).0
                    else note_cancellation now k actor q,
                true,
              )
              else (q, false) in
            out.0.results)
          ≡ q.results
    by_status queued = unfold cancel in noted_results now k actor q
    by_status running = noted_results now k actor q
    by_status _ = refl

    asked : (o : Option Row) → (request_cancellation_of now k actor o q).0.results ≡ q.results
    asked none = refl
    asked (some row) = by_status row.status

request_each_results :
    (now : ℕ) (actor : List ℕ) (rows : List Row) (q : Queue)
    → (request_each now actor rows q).0.results ≡ q.results
unfolding request_each
request_each_results now actor [] q = refl
request_each_results now actor (row ∷ rows) q =
    request_each_results now actor rows (request_cancellation now row.id actor q).0
    ∙ request_results now row.id actor q

module _ (id : String) where
  abbrev SameResult : Queue → Queue → Type 0
  SameResult q after = result id after ≡ result id q

  abbrev by_results : (q after : Queue) → after.results ≡ q.results → SameResult q after
  by_results q after e = unfold result in ap (find (is_result id)) e

  fail_result :
      (now : ℕ) (k worker code : String) (retryable : Bool) (q : Queue) (o : Option Row)
      → str_eq k id ≡ false
      → SameResult q (fail_selected now k worker code retryable o q).0
  unfolding fail_selected result
  fail_result now k worker code retryable q none n = refl
  fail_result now k worker code retryable q (some row) n =
      ground (arith, put_other id (failed_row now k code) q.results n)

  complete_result :
      (now : ℕ) (k worker output : String) (q : Queue)
      → str_eq k id ≡ false
      → SameResult q (complete_with_result now k worker output q).0
  unfolding complete_with_result complete result completed_row
  complete_result now k worker output q n =
      ground (arith, put_other id (completed_row now k output) q.results n)

  result_step :
      (q : Queue) (op : Op) {r : Row}
      → IsValid q
      → get id q ≡ some r
      → is_active r.status ≡ false
      → SameResult q (step q op)
  unfolding step
  result_step q op {r} v e n = by_op op
    where
      free : (worker : String) → opt_eq r.locked_by worker ≡ false
      free worker =
          let valid : RowIsValid r =
            unfold get in find-All RowIsValid (has_id id) q.jobs v.rows e in
          let unlocked : r.locked_by ≡ none = ground (arith, valid.locked) in rw unlocked refl

      by_op : (o : Op) → SameResult q (step q o)
      by_op (enqueues now k uuid type payload o) = unfold enqueue result in ground arith
      by_op (claims now worker lease) =
          unfold claim in
          by_results q _ (
            claim_results now (now - lease) worker q
              (select_first (is_claimable now (now - lease)) q.jobs))
      by_op (claims_by_id now k worker) = unfold claim_by_id result in refl
      by_op (heartbeats now k worker) = unfold heartbeat result in refl
      by_op (progresses now k worker m t d) = unfold progress result in ground arith
      by_op (completes now k worker) = unfold complete result in refl
      by_op (completes_with_result now k worker output) = elim (Bool-cases (str_eq k id)) [
        | inr other ↦ complete_result now k worker output q other
        | inl same ↦
            let at : k ≡ id = str_eq→eq k id same in
            let (beat, done, with_result, failed) =
              stranger_refused now id worker "" output false q v e (free worker) in
            rw at (ap (λ p. result id p.0) with_result)
      ]
      by_op (fails now k worker code retryable) = elim (Bool-cases (str_eq k id)) [
        | inr other ↦
            unfold fail in
            fail_result now k worker code retryable q (find (held k worker) q.jobs) other
        | inl same ↦
            let at : k ≡ id = str_eq→eq k id same in
            let (beat, done, with_result, failed) =
              stranger_refused now id worker code "" retryable q v e (free worker) in
            rw at (ap (λ p. result id p.0) failed)
      ]
      by_op (cancels now k) = unfold cancel result in refl
      by_op (requests_cancellation now k actor) = by_results q _ (request_results now k actor q)
      by_op (requests_cancellation_all now actor) =
          unfold request_cancellation_all in
          by_results q _ (request_each_results now actor (keep (λ x. is_active x.status) q.jobs) q)

-- Whatever is called once a job is completed, failed or cancelled: `result` returns what it returned.
pub settled_result :
    (id : String) {r : Row} (q : Queue) (ops : List Op)
    → IsValid q
    → get id q ≡ some r
    → is_active r.status ≡ false
    → result id (run q ops) ≡ result id q
unfolding run
settled_result id q [] v e n = refl
settled_result id q (op ∷ ops) v e n =
    settled_result id (step q op) ops (step-IsValid q op v) (settled_step id q op v e n) n
    ∙ result_step id q op v e n
