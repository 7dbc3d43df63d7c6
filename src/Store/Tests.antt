-- ===== src/Store/Tests.antt =====
-- Tests of the tables of apps/orchestrator/src/store.ts, and the theorems about them at concrete
-- histories.
use extension_jobs.Common.{
  ◌≤◌, ◌≡◌, refl, true, false, none, some, str_eq, List, [], ◌∷◌, arith, ok, err,
}
use extension_jobs.Json.{end}
use extension_jobs.Store.Boards.{NoteRow, SavedJobView, version_conflict, set_job_note}
use extension_jobs.Store.Boards.Versions.{second_save_conflicts}
use extension_jobs.Store.Idempotency.{
  running, succeeded, started, conflict, existing, begin_idempotent, finish_idempotent,
  clear_idempotent,
}
use extension_jobs.Store.Idempotency.Replay.{once_used}
use extension_jobs.Store.Locks.{Lock, acquire_lock, release_lock}
use extension_jobs.Store.Locks.Exclusion
use extension_jobs.Store.Locks.Exclusion.{lock_excludes, stale_lock_acquired, late_release_frees}
use extension_jobs.Store.Usage.{reserve_campaign_application}
use extension_jobs.Store.Usage.Limit
use extension_jobs.Store.Usage.Limit.{Reservation, granted, granted_bound}

first_acquires : (acquire_lock 10 100 "s1" "browser" []).1 ≡ true
unfolding acquire_lock
first_acquires = refl

abbrev tries : List Exclusion.Call
tries = Exclusion.acquires 50 100 "s2" "browser" ∷ Exclusion.releases "s2" "browser" ∷ []

lock_excludes_example :
    (acquire_lock 60 100 "s2" "browser"
      (Exclusion.run (acquire_lock 10 100 "s1" "browser" []).0 tries)).1
    ≡ false
lock_excludes_example =
    lock_excludes 10 100 "s1" "browser" [] tries 60 100 "s2" first_acquires refl (omega arith)

abbrev old_lock : List Lock
old_lock = record { key = "browser"; acquired_at = 1; owner = "s9"; expires_at = none } ∷ []

stale_lock_replaced : (acquire_lock 10 100 "s1" "browser" old_lock).1 ≡ true
stale_lock_replaced = stale_lock_acquired 10 100 "s1" "browser" old_lock refl

late_release_frees_example :
    (acquire_lock 120 100 "s1" "browser" (acquire_lock 10 100 "s1" "browser" []).0).1 ≡ true
    × ((acquire_lock 130 100 "s2" "browser" (
          release_lock "s1" "browser"
            (acquire_lock 120 100 "s1" "browser" (acquire_lock 10 100 "s1" "browser" []).0).0)).1
        ≡ true)
late_release_frees_example =
    late_release_frees 10 120 130 100 100 "s1" "s2" "browser" [] tt first_acquires (omega arith)

abbrev day_calls : List Reservation
day_calls =
    record { now = 1; campaign = "c"; day = "2026-01-02"; maximum = 2 }
    ∷ record { now = 2; campaign = "c"; day = "2026-01-02"; maximum = 2 }
    ∷ record { now = 3; campaign = "c"; day = "2026-01-02"; maximum = 2 }
    ∷ []

two_granted : granted "c" "2026-01-02" [] day_calls ≡ 2
unfolding granted Limit.step reserve_campaign_application
two_granted = refl

granted_bound_example : granted "c" "2026-01-02" [] day_calls ≤ 2
granted_bound_example = granted_bound "c" "2026-01-02" 2 day_calls refl

first_started : (begin_idempotent 1 "fill" "k" "h1" []).1 ≡ started
unfolding begin_idempotent
first_started = refl

once_used_at :
    (let begun = (begin_idempotent 1 "fill" "k" "h1" []).0 in
      let finished = finish_idempotent 2 "fill" "k" succeeded "{}" begun in
      (begin_idempotent 3 "fill" "k" "h1" begun ≡ (begun, existing running none))
      × (begin_idempotent 3 "fill" "k" "h1" finished ≡ (finished, existing succeeded (some "{}")))
      × (str_eq "h1" "h2" ≡ false
          → begin_idempotent 3 "fill" "k" "h2" finished ≡ (finished, conflict))
      × ((begin_idempotent 3 "fill" "k" "h1" (clear_idempotent "fill" "k" finished)).1 ≡ started))
once_used_at = once_used 1 2 3 "fill" "k" "h1" "h2" "{}" succeeded [] first_started

abbrev saved_once : List NoteRow
saved_once = record { job_id = "j1"; note = "call back"; version = 4; updated_at = 20 } ∷ []

abbrev a_note : List NoteRow
a_note = record { job_id = "j1"; note = ""; version = 3; updated_at = 10 } ∷ []

first_saves : set_job_note 20 "j1" "call back" (some 3) a_note ≡ ok (saved_once, 4)
unfolding set_job_note
first_saves = refl

second_save_conflicts_example :
    set_job_note 30 "j1" "no answer" (some 3) saved_once ≡ err version_conflict
second_save_conflicts_example =
    second_save_conflicts 20 30 "j1" "call back" "no answer" 3 a_note first_saves

abbrev one_view : List SavedJobView
one_view =
    record { id = "v1"; name = "all"; query = end; version = 1; created_at = 5; updated_at = 5 }
    ∷ []
