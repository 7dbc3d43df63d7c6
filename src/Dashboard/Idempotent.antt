-- ===== src/Dashboard/Idempotent.antt =====
-- `idempotent` of apps/orchestrator/src/dashboard-api.ts, which keeps a mutation from running twice, cut
-- where the mutation runs. A response is the JSON text of the column.
use extension_jobs.Common.{
  ℕ, String, Option, some, List, Result, ok, err, ◌≡◌, false, str_eq, refl, ap,
}
use extension_jobs.Dashboard.{DashboardHttpError, Platform, http_error}
use extension_jobs.Dashboard.Replies.{Thrown}
use extension_jobs.Dashboard.Sessions.{hash}
use extension_jobs.Store.Idempotency.{
  IdempotencyStatus, running, succeeded, failed, uncertain, Entry, Begun, started, conflict,
  existing, begin_idempotent, finish_idempotent, clear_idempotent,
}
use extension_jobs.Store.Idempotency.Replay.{once_used}

-- What the caller is told: to run the mutation, the stored response, or an error.
pub data Entered : Type 0 where
  runs : Entered
  replays : Option String → Entered
  refused : DashboardHttpError → Entered

abbrev entered_mutation : Begun → Entered
entered_mutation started = runs
entered_mutation conflict =
    refused (http_error 409 "Idempotency key was already used with different input")
entered_mutation (existing succeeded response) = replays response
entered_mutation (existing status response) =
    refused (http_error 409 "Operation is already running or needs review")

-- Before the mutation; `input` is the JSON text of its input.
unfoldable pub enter_mutation :
    Platform → ℕ → String → String → String → List Entry → List Entry × Entered
unfolding hash begin_idempotent
enter_mutation platform now operation key input rows =
    let (after, begun) = begin_idempotent now operation key (hash platform input) rows in
    (after, entered_mutation begun)

-- After it.
unfoldable pub leave_mutation : ℕ → String → String → Result Thrown String → List Entry → List Entry
unfolding finish_idempotent clear_idempotent
leave_mutation now operation key (ok response) rows =
    finish_idempotent now operation key succeeded response rows
leave_mutation now operation key (err e) rows = clear_idempotent operation key rows

was_started : (b : Begun) → entered_mutation b ≡ runs → b ≡ started
was_started started h = refl
was_started conflict h = absurd (cc h)
was_started (existing status response) h = absurd (not_run status h)
  where
    not_run : (s : IdempotencyStatus) → entered_mutation (existing s response) ≡ runs → ⊥
    not_run running e = cc e
    not_run succeeded e = cc e
    not_run failed e = cc e
    not_run uncertain e = cc e

-- A mutation that was let run and has succeeded: a second call with the key and the same input gets
-- the stored response and does not run, one with an input of another hash is refused with 409, and
-- one that comes before the mutation ends is refused too.
pub leave_mutation-enter_mutation :
    (platform : Platform) (now ended later : ℕ) (operation key input other response : String)
    (rows : List Entry)
    → (enter_mutation platform now operation key input rows).1 ≡ runs
    → (let begun = (enter_mutation platform now operation key input rows).0 in
        let after = leave_mutation ended operation key (ok response) begun in
        (enter_mutation platform later operation key input after ≡ (after, replays (some response)))
        × (str_eq (hash platform input) (hash platform other) ≡ false
            → (enter_mutation platform later operation key other after).1
              ≡ refused (http_error 409 "Idempotency key was already used with different input"))
        × ((enter_mutation platform later operation key input begun).1
            ≡ refused (http_error 409 "Operation is already running or needs review")))
unfolding enter_mutation leave_mutation
leave_mutation-enter_mutation platform now ended later operation key input other response rows h =
    let (pending, again, differs, cleared) =
      once_used now ended later operation key (hash platform input) (hash platform other) response
        succeeded rows
        (was_started (begin_idempotent now operation key (hash platform input) rows).1 h) in
    (
      ap (λ b. (b.0, entered_mutation b.1)) again,
      λ d. ap (λ b. entered_mutation b.1) (differs d),
      ap (λ b. entered_mutation b.1) pending,
    )
