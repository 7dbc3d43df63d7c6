-- ===== src/Campaign/Run/Total.antt =====
-- A run of a campaign whose ids are fresh ends well after its wait: `runCampaign` of
-- apps/orchestrator/src/service.ts.
use extension_jobs.Common.{
  ◌≡◌, refl, sym, ◌∙◌, ap, inl, inr, String, Bool, true, false, ◌||◌, ◌&&◌, List, [], ◌∷◌, ◌++◌,
  arith, ltb, str_eq, eq_iff, eq_refl, any, any-append, is_some, length, map, ok, err, ok_not_err,
  Bool-cases,
}
use extension_jobs.Campaign.Setting.{Loop, RunResult, Setting, Stepped, is_research, whole_maximum}
use extension_jobs.Campaign.{RunRow, Tables, save_job, create_application}
use extension_jobs.Campaign.Run.{
  run_day, started_for, created_as, selected_as, reserved, added_job, saved_job, consider,
  completed, end_run, normalized_from,
}
use extension_jobs.Campaign.Run.Rows.{row_of, created_lem}
use extension_jobs.Domain.{JobCampaign, CandidateProfile}
use extension_jobs.Jobs.{RawJob, Job, deduplicate_jobs}
use extension_jobs.Jobs.Score.{score_job}
use extension_jobs.Json.{no_more}
use extension_jobs.Store.Usage.{Usage, is_day_key, reserve_row, reserve_campaign_application}

-- Every application that has an id drawn for a job is there with the job.
abbrev pub IsFresh : (String → String) → List RunRow → List Job → Type 0
IsFresh drawn rows jobs =
    (k : String) → is_some (row_of (drawn k) rows) ≡ true → any (λ j. str_eq j.id k) jobs ≡ true

any_row :
    (id : String) (rows : List RunRow) → any (λ r. str_eq r.id id) rows ≡ is_some (row_of id rows)
any_row id [] = refl
any_row id (r ∷ rs) = ground (arith, any_row id rs)

more_jobs :
    (drawn : String → String) (rows : List RunRow) (jobs : List Job) (job : Job)
    → IsFresh drawn rows jobs
    → IsFresh drawn rows (jobs ++ job ∷ [])
more_jobs drawn rows jobs job h k e =
    any-append (λ j. str_eq j.id k) jobs (job ∷ []) ∙ rw (h k e) refl

more_rows :
    (drawn : String → String) (rows after : List RunRow) (jobs : List Job) (id : String)
    → ((j k : String) → drawn j ≡ drawn k → j ≡ k)
    → any (λ j. str_eq j.id id) jobs ≡ true
    → ((k : String) → str_eq k (drawn id) ≡ false → row_of k after ≡ row_of k rows)
    → IsFresh drawn rows jobs
    → IsFresh drawn after jobs
more_rows drawn rows after jobs id apart there others h k e =
    elim (Bool-cases (str_eq (drawn k) (drawn id))) [
      | inl same ↦
          let here : k ≡ id = apart k id (ground (arith, eq_iff (drawn k) (drawn id), same)) in
          rw here there
      | inr other ↦ h k (ap (λ o. is_some o) (sym (others (drawn k) other)) ∙ e)
    ]

new_id :
    (job : Job) (jobs : List Job)
    → any (λ j. str_eq j.id job.id || str_eq j.fingerprint job.fingerprint) jobs ≡ false
    → any (λ j. str_eq j.id job.id) jobs ≡ false
new_id job [] h = refl
new_id job (j ∷ js) h = ground (arith, new_id job js)

unused_id :
    (drawn : String → String) (rows : List RunRow) (jobs : List Job) (id : String)
    → IsFresh drawn rows jobs
    → any (λ j. str_eq j.id id) jobs ≡ false
    → any (λ r. str_eq r.id (drawn id)) rows ≡ false
unused_id drawn rows jobs id fresh absent = elim (Bool-cases (is_some (row_of (drawn id) rows))) [
  | inl used ↦ absurd (cc (sym absent ∙ fresh id used))
  | inr free ↦ any_row (drawn id) rows ∙ free
]

module _ (setting : Setting) (campaign : JobCampaign) (profile : CandidateProfile)
    (apart : (j k : String) → setting.application_id j ≡ setting.application_id k → j ≡ k)
    (valid : (is_day_key (run_day setting campaign)
        && ltb 0 (whole_maximum campaign.max_applications_per_day))
      ≡ true) where
  -- A step that does not throw, and leaves the ids of further applications fresh.
  abbrev Goes : Stepped → Type 0
  Goes (s, r) = (r ≡ ok tt) × IsFresh setting.application_id s.tables.applications s.tables.jobs

  started_for-Goes :
      (job : Job) (s : Loop)
      → any (λ r. str_eq r.id (setting.application_id job.id)) s.tables.applications ≡ false
      → any (λ j. str_eq j.id job.id) s.tables.jobs ≡ true
      → IsFresh setting.application_id s.tables.applications s.tables.jobs
      → Goes (started_for setting campaign profile job s)
  unfolding started_for created_as create_application selected_as
  started_for-Goes job s unused there fresh =
      let (moved, done, waiting, others) =
        created_lem setting.now (setting.application_id job.id) job.id campaign.id
          s.tables.applications unused in
      rw (unused, done)
        (
          refl,
          more_rows setting.application_id s.tables.applications moved s.tables.jobs job.id apart
              there others fresh,
        )

  added_job-Goes :
      (job : Job) (s : Loop)
      → any (λ r. str_eq r.id (setting.application_id job.id)) s.tables.applications ≡ false
      → any (λ j. str_eq j.id job.id) s.tables.jobs ≡ true
      → IsFresh setting.application_id s.tables.applications s.tables.jobs
      → Goes (added_job setting campaign profile job s)
  unfolding added_job reserve_campaign_application
  added_job-Goes job s unused there fresh =
      elim (Bool-cases (no_more job.match_score campaign.minimum_match_score)) [
        | inr low ↦ rw low (refl, fresh)
        | inl high ↦ elim (Bool-cases (is_research campaign.execution_mode)) [
          | inl research ↦ rw (high, research) (refl, fresh)
          | inr acting ↦
              elim (Bool-cases
                (no_more (length s.applications) campaign.max_applications_per_run)) [
                  | inl full ↦ rw (high, acting, full) (refl, fresh)
                  | inr room ↦
                      rw (high, acting, room, valid)
                        (reserved_goes (
                          reserve_row setting.now campaign.id (run_day setting campaign)
                            (whole_maximum campaign.max_applications_per_day) s.tables.usage))
                ]
        ]
      ]
    where
      reserved_goes :
          (r : List Usage × Bool) → Goes (reserved setting campaign profile job s (ok r))
      reserved_goes (usage, false) = (refl, fresh)
      reserved_goes (usage, true) =
          started_for-Goes job (record s { tables = record s.tables { usage = usage } }) unused
            there fresh

  saved_job-Goes :
      (job : Job) (s : Loop)
      → IsFresh setting.application_id s.tables.applications s.tables.jobs
      → Goes (saved_job setting campaign profile job s (save_job job s.tables.jobs))
  unfolding saved_job save_job
  saved_job-Goes job s fresh =
      elim (Bool-cases
        (any (λ j. str_eq j.id job.id || str_eq j.fingerprint job.fingerprint) s.tables.jobs)) [
          | inl known ↦ rw known (refl, fresh)
          | inr unknown ↦ rw unknown (
              added_job-Goes job
                (record s { tables = record s.tables { jobs = s.tables.jobs ++ job ∷ [] } })
                (unused_id setting.application_id s.tables.applications s.tables.jobs job.id fresh
                  (new_id job s.tables.jobs unknown))
                (any-append (λ j. str_eq j.id job.id) s.tables.jobs (job ∷ [])
                  ∙ rw (new_id job s.tables.jobs unknown, eq_refl job.id) refl)
                (more_jobs setting.application_id s.tables.applications s.tables.jobs job fresh))
        ]

  consider_ends :
      (jobs : List Job) (s : Loop)
      → IsFresh setting.application_id s.tables.applications s.tables.jobs
      → (consider setting campaign profile jobs s).1 ≡ ok tt
  unfolding consider
  consider_ends [] s fresh = refl
  consider_ends (job ∷ jobs) s fresh =
      let goes = saved_job-Goes job s fresh in
      rw (goes.0, consider)
        (consider_ends jobs
          (saved_job setting campaign profile job s (save_job job s.tables.jobs)).0 goes.1)

-- A run ends well after the wait if the source answers, the ids drawn for applications are distinct
-- and none is taken by a row of another job, the day is a date and the daily maximum a whole number
-- over 0.
pub end_run_ends :
    (setting : Setting) (campaign : JobCampaign) (profile : CandidateProfile) (raw : List RawJob)
    (t : Tables)
    → ((j k : String) → setting.application_id j ≡ setting.application_id k → j ≡ k)
    → (is_day_key (run_day setting campaign)
        && ltb 0 (whole_maximum campaign.max_applications_per_day))
      ≡ true
    → IsFresh setting.application_id t.applications t.jobs
    → (result : RunResult) × ((end_run setting campaign profile (ok raw) t).1 ≡ ok result)
unfolding end_run completed
end_run_ends setting campaign profile raw t apart valid fresh =
    let start : Loop = record { tables = t; applications = [] } in
    let kinds = deduplicate_jobs (normalized_from setting campaign profile 0 raw) in
    let jobs = map (λ j. score_job setting.tools j profile campaign) kinds.0 in
    ended (consider setting campaign profile jobs start)
      (consider_ends setting campaign profile apart valid jobs start fresh)
  where
    ended :
        (step : Stepped)
        → step.1 ≡ ok tt
        → (result : RunResult) × ((completed setting campaign profile
              (length raw)
              (deduplicate_jobs (normalized_from setting campaign profile 0 raw)).1
              (map
                (λ j. score_job setting.tools j profile campaign)
                (deduplicate_jobs (normalized_from setting campaign profile 0 raw)).0)
              step).1
            ≡ ok result)
    ended (s, ok u) e = (_, refl)
    ended (s, err x) e = absurd (ok_not_err (sym e))
