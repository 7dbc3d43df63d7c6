-- ===== src/Campaign/Run/Exclusion.antt =====
-- A campaign has one run at a time, and the next one can start once it has ended within its lease:
-- `runCampaign` of apps/orchestrator/src/service.ts.
use extension_jobs.Common.{
  ℕ, ◌+◌, ◌<◌, ◌≡◌, map, Distinct, refl, sym, ◌∙◌, ap, inl, inr, String, Bool, true, false, Option,
  none, some, List, [], ◌∷◌, all, length, Result, ok, err, ok_not_err, Bool-cases, Result-cases,
  if◌then◌else◌,
}
use extension_jobs.Campaign.Setting.{
  Loop, RunError, Setting, Stepped, campaign_already_running, emergency_stopped, is_research,
  stages,
}
use extension_jobs.Campaign.{RunRow, Tables, run_started, save_job}
use extension_jobs.Campaign.Run.{
  run_lock, transition_all, selected_as, created_as, started_for, reserved, added_job, saved_job,
  consider, completed, noted, begin_run, profile_of, end_run,
}
use extension_jobs.Domain.{JobCampaign, CandidateProfile}
use extension_jobs.Jobs.{RawJob, Job}
use extension_jobs.Json.{no_more}
use extension_jobs.Store.Locks.{Lock, acquire_lock, release_lock}
use extension_jobs.Store.Locks.Exclusion
use extension_jobs.Store.Locks.Exclusion.{Call, leaves, lock_excludes}
use extension_jobs.Store.Locks.Freed.{release_frees}
use extension_jobs.Store.Usage.{Usage, UsageError}

with_profile :
    (setting : Setting) (campaign : JobCampaign) (o : Option CandidateProfile) (t after : Tables)
    (p : CandidateProfile)
    → profile_of setting campaign o t ≡ (after, ok p)
    → after.locks ≡ t.locks
unfolding profile_of
with_profile setting campaign none t after p e = absurd (ok_not_err (sym (ap (λ x. x.1) e)))
with_profile setting campaign (some q) t after p e =
    sym (ap (λ (x : Tables × Result RunError CandidateProfile). x.0.locks) e)

acquired :
    (setting : Setting) (campaign : JobCampaign) (stopped : Bool)
    (profile : Option CandidateProfile) (t after : Tables) (p : CandidateProfile)
    → begin_run setting campaign stopped profile t ≡ (after, ok p)
    → let got =
        acquire_lock setting.now setting.lock_lease setting.lock_owner
          (run_lock setting campaign)
          t.locks in
      (got.1 ≡ true) × (after.locks ≡ got.0)
unfolding begin_run profile_of
acquired setting campaign true profile t after p e = absurd (ok_not_err (sym (ap (λ x. x.1) e)))
acquired setting campaign false profile t after p e =
    let got =
      acquire_lock setting.now setting.lock_lease setting.lock_owner (run_lock setting campaign)
        t.locks in
    elim (Bool-cases got.1) [
      | inr taken ↦ absurd (ok_not_err (sym (ap (λ x. x.1) (rw taken at e))))
      | inl held ↦ (
        held,
        with_profile setting campaign profile
            (noted setting campaign (run_started campaign.id campaign.dry_run)
              (record t { locks = got.0 }))
            after p (rw held at e),
      )
    ]

-- One run at a time: once a run of the campaign has begun, and while the lease of its lock lasts and
-- its owner does not release the lock, whatever else acquires and releases locks, no other run of
-- the campaign begins.
pub begin_run_excludes :
    (first second : Setting) (campaign : JobCampaign) (profile other : Option CandidateProfile)
    (t after : Tables) (p : CandidateProfile) (calls : List Call) (stopped : Bool)
    → begin_run first campaign false profile t ≡ (after, ok p)
    → all (leaves first.lock_owner (run_lock first campaign) (first.now + first.lock_lease)) calls
      ≡ true
    → second.now < first.now + first.lock_lease
    → (begin_run second campaign stopped other
        (record after { locks = Exclusion.run after.locks calls })).1
      ≡ (if stopped then err emergency_stopped else err campaign_already_running)
unfolding begin_run
begin_run_excludes first second campaign profile other t after p calls true e quiet soon = refl
begin_run_excludes first second campaign profile other t after p calls false e quiet soon =
    let (held, same) = acquired first campaign false profile t after p e in
    rw same (
      rw
        (lock_excludes first.now first.lock_lease first.lock_owner (run_lock first campaign) t.locks
          calls second.now second.lock_lease second.lock_owner held quiet soon)
        refl)

-- The loop leaves the locks alone.
module _ (setting : Setting) (campaign : JobCampaign) (profile : CandidateProfile) where
  abbrev KeepsLocks : Loop → Stepped → Type 0
  KeepsLocks s step = step.0.tables.locks ≡ s.tables.locks

  selected_as-KeepsLocks :
      (id : String) (job : Job) (s : Loop) (r : List RunRow × Result RunError (Unit {0}))
      → KeepsLocks s (selected_as setting campaign profile id job s r)
  unfolding selected_as
  selected_as-KeepsLocks id job s (rows, ok u) = refl
  selected_as-KeepsLocks id job s (rows, err x) = refl

  created_as-KeepsLocks :
      (id : String) (job : Job) (s : Loop) (o : Option (List RunRow))
      → KeepsLocks s (created_as setting campaign profile id job s o)
  unfolding created_as
  created_as-KeepsLocks id job s none = refl
  created_as-KeepsLocks id job s (some rows) =
      selected_as-KeepsLocks id job s (transition_all id stages rows)

  reserved-KeepsLocks :
      (job : Job) (s : Loop) (r : Result UsageError (List Usage × Bool))
      → KeepsLocks s (reserved setting campaign profile job s r)
  unfolding reserved started_for
  reserved-KeepsLocks job s (err x) = refl
  reserved-KeepsLocks job s (ok (usage, false)) = refl
  reserved-KeepsLocks job s (ok (usage, true)) =
      created_as-KeepsLocks (setting.application_id job.id) job
        (record s { tables = record s.tables { usage = usage } }) _

  added_job-KeepsLocks :
      (job : Job) (s : Loop) → KeepsLocks s (added_job setting campaign profile job s)
  unfolding added_job
  added_job-KeepsLocks job s =
      elim (Bool-cases (no_more job.match_score campaign.minimum_match_score)) [
        | inr low ↦ rw low refl
        | inl high ↦ elim (Bool-cases (is_research campaign.execution_mode)) [
          | inl research ↦ rw (high, research) refl
          | inr acting ↦
              elim (Bool-cases
                (no_more (length s.applications) campaign.max_applications_per_run)) [
                  | inl full ↦ rw (high, acting, full) refl
                  | inr room ↦ rw (high, acting, room) (reserved-KeepsLocks job s _)
                ]
        ]
      ]

  saved_job-KeepsLocks :
      (job : Job) (s : Loop) (r : List Job × Bool)
      → KeepsLocks s (saved_job setting campaign profile job s r)
  unfolding saved_job
  saved_job-KeepsLocks job s (jobs, false) = refl
  saved_job-KeepsLocks job s (jobs, true) =
      added_job-KeepsLocks job (record s { tables = record s.tables { jobs = jobs } })

  consider-KeepsLocks :
      (jobs : List Job) (s : Loop) → KeepsLocks s (consider setting campaign profile jobs s)
  unfolding consider
  consider-KeepsLocks [] s = refl
  consider-KeepsLocks (job ∷ jobs) s =
      let step = saved_job setting campaign profile job s (save_job job s.tables.jobs) in
      let kept = saved_job-KeepsLocks job s (save_job job s.tables.jobs) in
      elim (Result-cases step.1) [
        | inl (u, fine) ↦ rw (fine, consider) (consider-KeepsLocks jobs step.0 ∙ kept)
        | inr (x, failed) ↦ rw (failed, consider) kept
      ]

  completed_locks :
      (found : ℕ) (duplicates : List String) (jobs : List Job) (step : Stepped) (ls : List Lock)
      → step.0.tables.locks ≡ ls
      → (completed setting campaign profile found duplicates jobs step).0.locks
        ≡ release_lock setting.lock_owner (run_lock setting campaign) ls
  unfolding completed
  completed_locks found duplicates jobs (s, ok u) ls same = rw same refl
  completed_locks found duplicates jobs (s, err x) ls same = rw same refl

  end_run_locks :
      (found : Result RunError (List RawJob)) (t : Tables)
      → (end_run setting campaign profile found t).0.locks
        ≡ release_lock setting.lock_owner (run_lock setting campaign) t.locks
  unfolding end_run
  end_run_locks (err x) t = refl
  end_run_locks (ok raw) t =
      completed_locks (length raw) _ _ _ t.locks
        (consider-KeepsLocks _ (record { tables = t; applications = [] }))

-- A run that has found its profile ends, well, by a failure of the source or by an error in its loop.
-- If that is within the lease of its lock, which other calls may come before but no release of this
-- lock, and whatever became of the other tables meanwhile, the next run of the campaign begins, if
-- the emergency stop is off and there is a profile. No key stands twice in the table of locks.
pub end_run_frees :
    (first second : Setting) (campaign : JobCampaign) (profile : Option CandidateProfile)
    (t after before_end : Tables) (p q : CandidateProfile) (calls : List Call)
    (found : Result RunError (List RawJob))
    → Distinct (map (λ (l : Lock). l.key) t.locks)
    → begin_run first campaign false profile t ≡ (after, ok p)
    → all (leaves first.lock_owner (run_lock first campaign) (first.now + first.lock_lease)) calls
      ≡ true
    → before_end.locks ≡ Exclusion.run after.locks calls
    → (begin_run second campaign false (some q) (end_run first campaign p found before_end).0).1
      ≡ ok q
unfolding begin_run profile_of
end_run_frees first second campaign profile t after before_end p q calls found d e quiet
      same_locks =
    let (held, same) = acquired first campaign false profile t after p e in
    rw (end_run_locks first campaign p found before_end, same_locks, same)
      (rw
        (release_frees first.now first.lock_lease first.lock_owner (run_lock first campaign) t.locks
          calls second.now second.lock_lease second.lock_owner d held quiet)
        refl)
