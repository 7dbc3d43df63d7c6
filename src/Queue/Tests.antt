-- ===== src/Queue/Tests.antt =====
-- Tests of the queue of packages/persistence/src/queue.ts, and the theorems about it at concrete
-- histories.
use extension_jobs.Common.{
  ◌+◌, ◌^◌, ◌⊎◌, ◌-◌, ◌*◌, ◌<◌, ◌≤◌, ◌≡◌, refl, min, true, false, none, some, List, [], ◌∷◌, arith,
  All, any,
}
use extension_jobs.Queue.{
  Row, Queue, EnqueueOptions, is_submission, completed, queued, failed, application_submit,
  jobs_search, running, empty, get, claim, is_claimable, enqueue,
}
use extension_jobs.Queue.Operations.{
  heartbeat, complete, complete_with_result, fail, result, backoff, unlock,
}
use extension_jobs.Queue.Trace.{
  Op, enqueues, claims, claims_by_id, completes, fails, requests_cancellation, step, run, claimed,
  times_claimed,
}
use extension_jobs.Queue.Invariant.{IsValid, step-IsValid, run-IsValid, empty-IsValid}
use extension_jobs.Queue.Due.{IsDue, IsFirst}
use extension_jobs.Queue.Leases.{claim_hands_out, claim_total, claim_exclusive}
use extension_jobs.Queue.Submission.{times_claimed_bound}
use extension_jobs.Queue.Settled.{settled_run, stranger_refused}
use extension_jobs.Queue.Abandoned.{abandoned_run}
use extension_jobs.Queue.Outcomes.{complete_with_result_lem}
use extension_jobs.Queue.Failures.{IsSubmission, fail_lem, backoff_lem}

abbrev defaults : EnqueueOptions
defaults = record { correlation_id = none; max_attempts = none; run_after = none }

-- A search and a submission are enqueued, and a worker claims the search.
abbrev start_ops : List Op
start_ops =
    enqueues 10 "a" "u1" jobs_search "{}" defaults
    ∷ enqueues 20 "b" "u2" application_submit "{}" defaults
    ∷ []

abbrev waiting : Queue
waiting = run empty start_ops

abbrev claimed_ops : List Op
claimed_ops = claims 30 "w" 1000 ∷ []

abbrev working : Queue
working = run waiting claimed_ops

waiting-IsValid : IsValid waiting
waiting-IsValid = run-IsValid empty start_ops empty-IsValid

working-IsValid : IsValid working
working-IsValid = run-IsValid waiting claimed_ops waiting-IsValid

abbrev search_row : Row
search_row = record {
  id = "a";
  type = jobs_search;
  payload = "{}";
  status = running;
  attempts = 1;
  max_attempts = 3;
  run_after = 10;
  locked_by = some "w";
  locked_at = some 30;
  correlation_id = "u1";
  last_error = none;
  created_at = 10;
  updated_at = 30;
}

working_search : get "a" working ≡ some search_row
unfolding get run step claim enqueue
working_search = refl

-- A submission never runs again, whatever its lease; a search does.
claims_after_leases :
    times_claimed "b" empty (
      enqueues 20 "b" "u2" application_submit "{}" defaults
      ∷ claims 30 "w" 10
      ∷ claims 99 "x" 10
      ∷ claims 199 "y" 10
      ∷ [])
    ≡ 1
unfolding times_claimed run step claim enqueue claimed get
claims_after_leases = refl

searches_after_leases :
    times_claimed "a" empty (
      enqueues 20 "a" "u1" jobs_search "{}" defaults
      ∷ claims 30 "w" 10
      ∷ claims 99 "x" 10
      ∷ claims 199 "y" 10
      ∷ claims 299 "z" 10
      ∷ [])
    ≡ 3
unfolding times_claimed run step claim enqueue claimed get
searches_after_leases = refl

step-IsValid_example : IsValid (step working (fails 40 "a" "w" "TIMEOUT" true))
step-IsValid_example = step-IsValid working (fails 40 "a" "w" "TIMEOUT" true) working-IsValid

run-IsValid_example : IsValid (run waiting claimed_ops)
run-IsValid_example = run-IsValid waiting claimed_ops waiting-IsValid

abbrev submit_ops : List Op
submit_ops =
    enqueues 20 "b" "u2" application_submit "{}" defaults ∷ claims 30 "w" 10 ∷ claims 99 "x" 10 ∷ []

abbrev lost_row : Row
lost_row = record {
  id = "b";
  type = application_submit;
  payload = "{}";
  status = running;
  attempts = 1;
  max_attempts = 1;
  run_after = 20;
  locked_by = some "w";
  locked_at = some 30;
  correlation_id = "u2";
  last_error = none;
  created_at = 20;
  updated_at = 30;
}

lost : get "b" (run empty submit_ops) ≡ some lost_row
unfolding get run step claim enqueue
lost = refl

times_claimed_bound_example :
    (times_claimed "b" empty submit_ops ≤ 1)
    × (is_submission application_submit ≡ true → times_claimed "b" empty submit_ops ≤ 1)
times_claimed_bound_example = times_claimed_bound submit_ops "b" {r = lost_row} lost

lost-IsValid : IsValid (run empty submit_ops)
lost-IsValid = run-IsValid empty submit_ops empty-IsValid

-- The lost submission is neither claimed nor cancelled later.
abbrev later_ops : List Op
later_ops =
    claims 900000 "x" 10 ∷ requests_cancellation 900001 "b" [] ∷ claims_by_id 900002 "b" "y" ∷ []

abandoned_run_example : get "b" (run (run empty submit_ops) later_ops) ≡ some lost_row
abandoned_run_example =
    abandoned_run "b" {r = lost_row} (run empty submit_ops) later_ops lost-IsValid refl lost refl
      (omega arith)

abbrev finished : Queue
finished = run working (completes 50 "a" "w" ∷ [])

finished_search : get "a" finished ≡ some (unlock 50 completed search_row)
unfolding get run step claim enqueue complete
finished_search = refl

settled_run_example :
    get "a" (run finished (claims 5000 "x" 1 ∷ fails 5001 "a" "w" "LATE" true ∷ []))
    ≡ some (unlock 50 completed search_row)
settled_run_example =
    settled_run "a" {r = unlock 50 completed search_row} finished
      (claims 5000 "x" 1 ∷ fails 5001 "a" "w" "LATE" true ∷ [])
      (run-IsValid working (completes 50 "a" "w" ∷ []) working-IsValid) finished_search refl

stranger_refused_example :
    (heartbeat 60 "a" "x" working ≡ (working, false))
    × (complete 60 "a" "x" working ≡ (working, false))
    × (complete_with_result 60 "a" "x" "{}" working ≡ (working, false))
    × (fail 60 "a" "x" "TIMEOUT" true working ≡ (working, false))
stranger_refused_example =
    stranger_refused 60 "a" "x" "TIMEOUT" "{}" true working {r = search_row} working-IsValid
      working_search refl

handed_out : (claim 30 "w" 1000 waiting).1 ≡ some search_row
unfolding get run step claim enqueue
handed_out = refl

claim_hands_out_example :
    (old : Row) × (get "a" waiting ≡ some old)
    × IsDue 30 1000 old
    × (search_row ≡ record old {
      status = running;
      attempts = old.attempts + 1;
      locked_by = some "w";
      locked_at = some 30;
      updated_at = 30;
    })
    × (get "a" (claim 30 "w" 1000 waiting).0 ≡ some search_row)
    × All (λ x. IsDue 30 1000 x → IsFirst old x) waiting.jobs
claim_hands_out_example =
    claim_hands_out 30 "w" 1000 waiting {r = search_row} waiting-IsValid handed_out

claim_total_at :
    (any (is_claimable 30 (30 - 1000)) waiting.jobs ≡ true
      → (r : Row) × ((claim 30 "w" 1000 waiting).1 ≡ some r))
    × (any (is_claimable 30 (30 - 1000)) waiting.jobs ≡ false
        → claim 30 "w" 1000 waiting ≡ (waiting, none))
claim_total_at = claim_total 30 "w" 1000 waiting waiting-IsValid

-- With a lease of 1000 the search that "w" claims at 30 comes back at 2000.
abbrev search_again : Row
search_again = record search_row {
  attempts = 2;
  locked_by = some "x";
  locked_at = some 2000;
  updated_at = 2000;
}

handed_out_again : (claim 2000 "x" 1000 (claim 30 "w" 1000 waiting).0).1 ≡ some search_again
unfolding get run step claim enqueue
handed_out_again = refl

claim_exclusive_example : 30 < 2000 - 1000
claim_exclusive_example =
    claim_exclusive 30 2000 "w" "x" 1000 1000 waiting {r = search_row} {s = search_again}
      waiting-IsValid handed_out handed_out_again refl

-- Afterwards the search is claimed and failed in vain.
abbrev late_ops : List Op
late_ops = claims 5000 "x" 1 ∷ fails 5001 "a" "w" "LATE" true ∷ []

complete_with_result_lem_example :
    (let (after, done) = complete_with_result 60 "a" "w" "{}" working in
      (done ≡ true)
      × (get "a" (run after late_ops)
          ≡ some (record search_row {
            status = completed;
            locked_by = none;
            locked_at = none;
            updated_at = 60;
          }))
      × (result "a" (run after late_ops)
          ≡ some (record {
            queue_job_id = "a";
            status = completed;
            result = some "{}";
            error_code = none;
            updated_at = 60;
          })))
complete_with_result_lem_example =
    complete_with_result_lem 60 "a" "w" "{}" working {r = search_row} late_ops working-IsValid
      working_search refl refl

fail_lem_example :
    (let (after, done) = fail 60 "a" "w" "TIMEOUT" false working in
      (done ≡ true)
      × (((false ≡ true)
            × ¬ (IsSubmission jobs_search)
            × (1 < 3)
            × (get "a" after
                ≡ some (record search_row {
                  status = queued;
                  run_after = 60 + min 300000 (1000 * 2 ^ (1 - 1));
                  locked_by = none;
                  locked_at = none;
                  last_error = some "TIMEOUT";
                  updated_at = 60;
                })))
          ⊎ (((false ≡ false) ⊎ IsSubmission jobs_search ⊎ (3 ≤ 1))
              × (get "a" (run after late_ops)
                  ≡ some (record search_row {
                    status = failed;
                    run_after = 60 + min 300000 (1000 * 2 ^ (1 - 1));
                    locked_by = none;
                    locked_at = none;
                    last_error = some "TIMEOUT";
                    updated_at = 60;
                  }))
              × (result "a" (run after late_ops)
                  ≡ some (record {
                    queue_job_id = "a";
                    status = failed;
                    result = none;
                    error_code = some "TIMEOUT";
                    updated_at = 60;
                  })))))
fail_lem_example =
    fail_lem 60 "a" "w" "TIMEOUT" false working {r = search_row} late_ops working-IsValid
      working_search refl

third_backoff :
    (1000 ≤ backoff 3) × (backoff 3 ≤ 300000) × (1 ≤ 3 → backoff 4 ≡ min 300000 (2 * backoff 3))
third_backoff = backoff_lem 3
