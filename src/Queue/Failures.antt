-- ===== src/Queue/Failures.antt =====
-- What `fail` of packages/persistence/src/queue.ts leaves behind.
use native.Mathlib.Nat.{pow-suc}
use extension_jobs.Common.{
  ℕ, zero, suc, ◌+◌, ◌-◌, ◌*◌, ◌^◌, ◌≤◌, ◌≡◌, refl, ◌∙◌, ap, String, Bool, true, false, some, List,
  arith, find, find_holds, find_by, find_by-update_where, find_keyed, changes, changes-find_by,
  one_if, update_where, str_eq→eq, opt_eq, min, ◌<◌, ◌⊎◌, ltb, Bool-cases, inl, inr, none,
}
use extension_jobs.Queue.{
  Queue, Row, queued, failed, QueueJobType, application_submit, wuzzuf_submit_application,
  is_submission, has_id, get,
}
use extension_jobs.Queue.Invariant.{IsValid, step-IsValid}
use extension_jobs.Queue.Results.{settled_result}
use extension_jobs.Queue.Settled.{settled_run}
use extension_jobs.Queue.Trace.{Op, fails, step, run}
use extension_jobs.Queue.Operations.{
  result, fail, fail_selected, failed_row, may_retry, set_failed, backoff, held,
}
use extension_jobs.Queue.Outcomes.{put_result_lem}

abbrev key : Row → String
key r = r.id

failed_lem :
    (now : ℕ) (id worker code : String) (retryable : Bool) (q : Queue) {r : Row}
    → IsValid q
    → get id q ≡ some r
    → opt_eq r.locked_by worker ≡ true
    → ((fail now id worker code retryable q).1 ≡ true)
      × (get id (fail now id worker code retryable q).0
          ≡ some (set_failed now code (may_retry retryable r) (backoff r.attempts) r))
      × (may_retry retryable r ≡ false
          → result id (fail now id worker code retryable q).0 ≡ some (failed_row now id code))
unfolding fail get result
failed_lem now id worker code retryable q {r} v e h =
    let p = held id worker in
    let set = set_failed now code (may_retry retryable r) (backoff r.attempts) in
    let meets : p r ≡ true = ground (arith, find_holds (has_id id) q.jobs e) in
    let keyed : (x : Row) → p x ≡ true → key x ≡ id = λ x k. ground (arith, str_eq→eq x.id id) in
    let selected : find p q.jobs ≡ some r = find_keyed key id p q.jobs v.keys keyed e meets in
    let one : changes p q.jobs ≡ 1 =
      changes-find_by key id p q.jobs keyed v.keys ∙ (ap (one_if key p) e ∙ rw meets) in
    let after : find_by key id (update_where p set q.jobs) ≡ some (set r) =
      rw (find_by-update_where key id p set q.jobs (λ x. refl), e) (rw meets) in
    (
      rw (selected, fail_selected) (rw one),
      rw (selected, fail_selected) after,
      λ final.
          rw (selected, fail_selected)
            (rw one (rw final (put_result_lem (failed_row now id code) q.results))),
    )

-- A job that submits an application.
abbrev pub IsSubmission : QueueJobType → Type 0
IsSubmission t = (t ≡ application_submit) ⊎ (t ≡ wuzzuf_submit_application)

is_submission_lem : (t : QueueJobType) → IsSubmission t → is_submission t ≡ true
is_submission_lem t (inl e) = rw e refl
is_submission_lem t (inr e) = rw e refl

no_submission_lem : (t : QueueJobType) → ¬ (IsSubmission t) → is_submission t ≡ false
no_submission_lem application_submit n = absurd (n (inl refl))
no_submission_lem wuzzuf_submit_application n = absurd (n (inr refl))
no_submission_lem _ n = refl

fail_retries :
    (now : ℕ) (id worker code : String) (q : Queue) {r : Row}
    → IsValid q
    → get id q ≡ some r
    → opt_eq r.locked_by worker ≡ true
    → ¬ (IsSubmission r.type)
    → r.attempts < r.max_attempts
    → ((fail now id worker code true q).1 ≡ true)
      × (get id (fail now id worker code true q).0
          ≡ some (record r {
            status = queued;
            run_after = now + min 300000 (1000 * 2 ^ (r.attempts - 1));
            locked_by = none;
            locked_at = none;
            last_error = some code;
            updated_at = now;
          }))
unfolding backoff
fail_retries now id worker code q {r} v e h n left =
    let (done, row, stored) = failed_lem now id worker code true q v e h in
    let retries : may_retry true r ≡ true = rw (no_submission_lem r.type n) (ground arith) in
    (done, row ∙ ap (λ b. some (set_failed now code b (backoff r.attempts) r)) retries)

fail_ends :
    (now : ℕ) (id worker code : String) (retryable : Bool) (q : Queue) {r : Row} (ops : List Op)
    → IsValid q
    → get id q ≡ some r
    → opt_eq r.locked_by worker ≡ true
    → (retryable ≡ false) ⊎ IsSubmission r.type ⊎ (r.max_attempts ≤ r.attempts)
    → (let (after, done) = fail now id worker code retryable q in
        (done ≡ true)
        × (get id (run after ops)
            ≡ some (record r {
              status = failed;
              run_after = now + min 300000 (1000 * 2 ^ (r.attempts - 1));
              locked_by = none;
              locked_at = none;
              last_error = some code;
              updated_at = now;
            }))
        × (result id (run after ops)
            ≡ some (record {
              queue_job_id = id;
              status = failed;
              result = none;
              error_code = some code;
              updated_at = now;
            })))
unfolding backoff
fail_ends now id worker code retryable q {r} ops v e h last =
    let (done, row, stored) = failed_lem now id worker code retryable q v e h in
    let after = (fail now id worker code retryable q).0 in
    let valid : IsValid after =
      unfold step in step-IsValid q (fails now id worker code retryable) v in
    let final = no_retry last in
    let settled : get id after ≡ some (set_failed now code false (backoff r.attempts) r) =
      row ∙ ap (λ b. some (set_failed now code b (backoff r.attempts) r)) final in
    (
      done,
      settled_run id after ops valid settled refl,
      settled_result id after ops valid settled refl ∙ stored final,
    )
  where
    no_retry :
        (retryable ≡ false) ⊎ IsSubmission r.type ⊎ (r.max_attempts ≤ r.attempts)
        → may_retry retryable r ≡ false
    no_retry (inl fatal) = rw fatal refl
    no_retry (inr (inl sub)) = let t = is_submission_lem r.type sub in ground (arith, t)
    no_retry (inr (inr over)) = ground arith

submission-cases : (t : QueueJobType) → (¬ (IsSubmission t)) ⊎ IsSubmission t
submission-cases application_submit = inr (inl refl)
submission-cases wuzzuf_submit_application = inr (inr refl)
submission-cases _ = inl (λ e. elim e [ inl a ↦ cc a | inr b ↦ cc b ])

-- The holder of a job that reports a failure: if it is retryable, the job is no submission and has
-- attempts left, the job waits again, unlocked and with the code of the error. It comes back after
-- a second, which doubles with each attempt after the first, five minutes at most. Otherwise the
-- job has failed, the code is its result, and whatever is called afterwards, both stay so.
pub fail_lem :
    (now : ℕ) (id worker code : String) (retryable : Bool) (q : Queue) {r : Row} (ops : List Op)
    → IsValid q
    → get id q ≡ some r
    → opt_eq r.locked_by worker ≡ true
    → (let (after, done) = fail now id worker code retryable q in
        let comes_back : ℕ = now + min 300000 (1000 * 2 ^ (r.attempts - 1)) in
        (done ≡ true)
        × (((retryable ≡ true)
              × ¬ (IsSubmission r.type)
              × (r.attempts < r.max_attempts)
              × (get id after
                  ≡ some (record r {
                    status = queued;
                    run_after = comes_back;
                    locked_by = none;
                    locked_at = none;
                    last_error = some code;
                    updated_at = now;
                  })))
            ⊎ (((retryable ≡ false) ⊎ IsSubmission r.type ⊎ (r.max_attempts ≤ r.attempts))
                × (get id (run after ops)
                    ≡ some (record r {
                      status = failed;
                      run_after = comes_back;
                      locked_by = none;
                      locked_at = none;
                      last_error = some code;
                      updated_at = now;
                    }))
                × (result id (run after ops)
                    ≡ some (record {
                      queue_job_id = id;
                      status = failed;
                      result = none;
                      error_code = some code;
                      updated_at = now;
                    })))))
fail_lem now id worker code false q {r} ops v e h =
    let (done, row, stored) = fail_ends now id worker code false q ops v e h (inl refl) in
    (done, inr (inl refl, row, stored))
fail_lem now id worker code true q {r} ops v e h = elim (submission-cases r.type) [
  | inr sub ↦
      let (done, row, stored) = fail_ends now id worker code true q ops v e h (inr (inl sub)) in
      (done, inr (inr (inl sub), row, stored))
  | inl other ↦ elim (Bool-cases (ltb r.attempts r.max_attempts)) [
    | inl left ↦
        let below : r.attempts < r.max_attempts = ground (arith, left) in
        let (done, waits) = fail_retries now id worker code q v e h other below in
        (done, inl (refl, other, below, waits))
    | inr over ↦
        let above : r.max_attempts ≤ r.attempts = ground (arith, over) in
        let (done, row, stored) = fail_ends now id worker code true q ops v e h (inr (inr above)) in
        (done, inr (inr (inr above), row, stored))
  ]
]

pow_pos : (m : ℕ) → 1 ≤ 2 ^ m
pow_pos zero = omega arith
pow_pos (suc m) = rw pow-suc (omega (arith, pow_pos m))

-- The backoff starts at a second, doubles from one attempt to the next, and stops at five minutes.
pub backoff_lem :
    (n : ℕ)
    → (1000 ≤ backoff n)
      × (backoff n ≤ 300000)
      × (1 ≤ n → backoff (n + 1) ≡ min 300000 (2 * backoff n))
unfolding backoff
backoff_lem zero = (omega arith, omega arith, λ h. elim h [ ])
backoff_lem (suc m) =
    let one : suc m - 1 ≡ m = omega arith in
    let two : suc m + 1 - 1 ≡ suc m = omega arith in
    rw (one, two, pow-suc) (omega (arith, pow_pos m), omega arith, λ h. omega (arith, pow_pos m))
