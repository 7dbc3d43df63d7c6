-- ===== src/Queue/Outcomes.antt =====
-- What `completeWithResult` of packages/persistence/src/queue.ts leaves behind.
use extension_jobs.Common.{
  ℕ, ◌≡◌, refl, ◌∙◌, ap, String, true, some, List, [], ◌∷◌, arith, find, find_holds, find_by,
  find_by-update_where, changes, changes-find_by, one_if, update_where, str_eq, str_eq→eq, eq_refl,
  opt_eq, none,
}
use extension_jobs.Queue.{Queue, Row, completed, ResultRow, has_id, is_running, get}
use extension_jobs.Queue.Invariant.{IsValid, step-IsValid}
use extension_jobs.Queue.Results.{settled_result}
use extension_jobs.Queue.Settled.{settled_run}
use extension_jobs.Queue.Trace.{Op, completes_with_result, step, run}
use extension_jobs.Queue.Operations.{
  complete, complete_with_result, completed_row, put_result, result, owned, unlock,
}

abbrev key : Row → String
key r = r.id

pub put_result_lem :
    (row : ResultRow) (rows : List ResultRow)
    → find (λ r. str_eq r.queue_job_id row.queue_job_id) (put_result row rows) ≡ some row
unfolding put_result
put_result_lem row [] = rw (eq_refl row.queue_job_id)
put_result_lem row (old ∷ rows) = ground (arith, eq_refl row.queue_job_id, put_result_lem row rows)

completed_lem :
    (now : ℕ) (id worker output : String) (q : Queue) {r : Row}
    → IsValid q
    → get id q ≡ some r
    → is_running r.status ≡ true
    → opt_eq r.locked_by worker ≡ true
    → ((complete_with_result now id worker output q).1 ≡ true)
      × (get id (complete_with_result now id worker output q).0 ≡ some (unlock now completed r))
      × (result id (complete_with_result now id worker output q).0
          ≡ some (completed_row now id output))
unfolding complete_with_result complete get result
completed_lem now id worker output q {r} v e w h =
    let p = owned id worker in
    let meets : p r ≡ true = ground (arith, find_holds (has_id id) q.jobs e) in
    let one : changes p q.jobs ≡ 1 =
      changes-find_by key id p q.jobs (λ x k. ground (arith, str_eq→eq x.id id)) v.keys
      ∙ (ap (one_if key p) e ∙ rw meets) in
    let after : find_by key id (update_where p (unlock now completed) q.jobs)
        ≡ some (unlock now completed r) =
      rw (find_by-update_where key id p (unlock now completed) q.jobs (λ x. refl), e) (rw meets) in
    (rw one, rw one after, rw one (put_result_lem (completed_row now id output) q.results))

-- The holder of a running job that completes it with a result: the job is completed and unlocked, its
-- result is stored, and whatever is called afterwards, both stay so.
pub complete_with_result_lem :
    (now : ℕ) (id worker output : String) (q : Queue) {r : Row} (ops : List Op)
    → IsValid q
    → get id q ≡ some r
    → is_running r.status ≡ true
    → opt_eq r.locked_by worker ≡ true
    → (let (after, done) = complete_with_result now id worker output q in
        (done ≡ true)
        × (get id (run after ops)
            ≡ some (record r {
              status = completed;
              locked_by = none;
              locked_at = none;
              updated_at = now;
            }))
        × (result id (run after ops)
            ≡ some (record {
              queue_job_id = id;
              status = completed;
              result = some output;
              error_code = none;
              updated_at = now;
            })))
unfolding completed_row
complete_with_result_lem now id worker output q {r} ops v e w h =
    let (done, row, stored) = completed_lem now id worker output q v e w h in
    let after = (complete_with_result now id worker output q).0 in
    let valid : IsValid after =
      unfold step in step-IsValid q (completes_with_result now id worker output) v in
    (
      done,
      settled_run id after ops valid row refl,
      settled_result id after ops valid row refl ∙ stored,
    )
