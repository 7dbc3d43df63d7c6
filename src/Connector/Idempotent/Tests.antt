-- ===== src/Connector/Idempotent/Tests.antt =====
-- A submission with an unknown outcome, at a concrete key.
use extension_jobs.Common.{◌≡◌, refl, List, [], ◌∷◌, err}
use extension_jobs.Connector.Idempotent.{
  runs, refused, key_conflict, unknown_failure, enter_submission, leave_submission,
}
use extension_jobs.Connector.Idempotent.Unknown.{Call, run, begins, finishes, unknown_never_runs}
use extension_jobs.Store.Idempotency.{Entry, succeeded, begin_idempotent}

-- Meanwhile the same key is tried again, and another one is used.
abbrev calls : List Call
calls =
    begins 3 "submit" "k" "h"
    ∷ begins 4 "submit" "k2" "h"
    ∷ finishes 5 "submit" "k2" succeeded "{}"
    ∷ []

begins_once : (enter_submission 1 "k" "h" []).1 ≡ runs
unfolding enter_submission begin_idempotent
begins_once = refl

abbrev table : List Entry
table =
    run (leave_submission (λ e. "{}") 2 "k" (err unknown_failure) (enter_submission 1 "k" "h" []).0)
      calls

unknown_never_runs_example : enter_submission 9 "k" "other" table ≡ (table, refused key_conflict)
unknown_never_runs_example =
    unknown_never_runs (λ e. "{}") 1 2 9 "k" "h" "other" unknown_failure [] calls begins_once refl
      refl
