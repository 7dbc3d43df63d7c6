-- ===== src/Campaign/Run/Kept.antt =====
-- What holds of the loop of `runCampaign` of apps/orchestrator/src/service.ts before each job.
use extension_jobs.Common.{
  ℕ, suc, ◌+◌, ◌≤◌, ◌≡◌, refl, sym, ap, subst, inl, inr, String, Bool, true, false, List, [], ◌∷◌,
  arith, str_eq, any, length, length-append, All, All-append, Result, ok, err, ok_not_err,
  Bool-cases, if◌then◌else◌,
}
use extension_jobs.Campaign.Setting.{
  Loop, RunError, RunResult, Selected, Setting, Stepped, is_research, whole_maximum,
}
use extension_jobs.Campaign.{RunEvent, Tables, save_job, create_application}
use extension_jobs.Campaign.Run.{
  run_day, skipped, started_for, created_as, selected_as, answers, reserved, added_job, saved_job,
  consider, completed,
}
use extension_jobs.Campaign.Run.Chosen.{IsChosen, chosen_of, others-IsChosen, room_left}
use extension_jobs.Campaign.Run.Rows.{created_lem}
use extension_jobs.Domain.{JobCampaign, CandidateProfile}
use extension_jobs.Jobs.{Job}
use extension_jobs.Json.{no_more}
use extension_jobs.Store.Usage.{Usage, UsageError}
use extension_jobs.Store.Usage.Granted.{used, Once, reserve_lem}

module _ (setting : Setting) (campaign : JobCampaign) (profile : CandidateProfile) (base most : ℕ)
    (roomy : no_more most campaign.max_applications_per_run ≡ true) where
  -- What holds of the loop before each job.
  pub record Kept (s : Loop) : Type 0 where
    pub once : Once campaign.id (run_day setting campaign) s.tables.usage
    pub counted :
        used campaign.id (run_day setting campaign) s.tables.usage ≡ base + length s.applications
    pub daily :
        used campaign.id (run_day setting campaign) s.tables.usage
        ≤ whole_maximum campaign.max_applications_per_day
    pub per_run : length s.applications ≤ most
    pub chosen : All (IsChosen campaign s.tables.applications) s.applications

  skipped-Kept :
      (event : RunEvent) (s after : Loop)
      → Kept s
      → skipped setting campaign event s ≡ (after, ok tt)
      → Kept after
  skipped-Kept event s after h e = subst Kept (ap (λ p. p.0) e) (record {
    once = h.once;
    counted = h.counted;
    daily = h.daily;
    per_run = h.per_run;
    chosen = h.chosen;
  })

  started_for-Kept :
      (job : Job) (s after : Loop)
      → no_more job.match_score campaign.minimum_match_score ≡ true
      → is_research campaign.execution_mode ≡ false
      → Once campaign.id (run_day setting campaign) s.tables.usage
      → used campaign.id (run_day setting campaign) s.tables.usage
        ≡ base + suc (length s.applications)
      → used campaign.id (run_day setting campaign) s.tables.usage
        ≤ whole_maximum campaign.max_applications_per_day
      → suc (length s.applications) ≤ most
      → All (IsChosen campaign s.tables.applications) s.applications
      → started_for setting campaign profile job s ≡ (after, ok tt)
      → Kept after
  unfolding started_for created_as create_application selected_as
  started_for-Kept job s after scored mode once counted daily per_run chosen e =
      let id = setting.application_id job.id in
      let rows = s.tables.applications in
      elim (Bool-cases (any (λ r. str_eq r.id id) rows)) [
        | inl taken ↦ absurd (ok_not_err (sym (ap (λ p. p.1) (rw taken at e))))
        | inr fresh ↦
            let (moved, done, waiting, others) =
              created_lem setting.now id job.id campaign.id rows fresh in
            let one : Selected = record {
              id = id;
              job = job;
              answers = answers setting campaign profile;
            } in
            subst Kept (ap (λ p. p.0) (rw (fresh, done) at e)) (record {
              once = once;
              counted = omega (arith, counted, length-append s.applications (one ∷ []));
              daily = daily;
              per_run = omega (arith, per_run, length-append s.applications (one ∷ []));
              chosen =
                  All-append (IsChosen campaign moved) s.applications (one ∷ [])
                    (others-IsChosen campaign id rows moved s.applications fresh others chosen)
                    ((scored, mode, waiting), tt);
            })
      ]

  reserved-Kept :
      (job : Job) (s after : Loop) (r : Result UsageError (List Usage × Bool))
      → no_more job.match_score campaign.minimum_match_score ≡ true
      → is_research campaign.execution_mode ≡ false
      → suc (length s.applications) ≤ most
      → Kept s
      → ((usage : List Usage) (done : Bool)
          → r ≡ ok (usage, done)
          → Once campaign.id (run_day setting campaign) usage
            × (used campaign.id (run_day setting campaign) usage
                ≡ used campaign.id (run_day setting campaign) s.tables.usage
                  + (if done then 1 else 0))
            × (done ≡ true
                → used campaign.id (run_day setting campaign) usage
                  ≤ whole_maximum campaign.max_applications_per_day))
      → reserved setting campaign profile job s r ≡ (after, ok tt)
      → Kept after
  unfolding reserved
  reserved-Kept job s after (err x) scored mode per_run h facts e =
      absurd (ok_not_err (sym (ap (λ p. p.1) e)))
  reserved-Kept job s after (ok (usage, false)) scored mode per_run h facts e =
      let (once, more, below) = facts usage false refl in
      subst Kept (ap (λ p. p.0) e) (record {
        once = once;
        counted = omega (arith, h.counted, more);
        daily = omega (arith, h.daily, more);
        per_run = h.per_run;
        chosen = h.chosen;
      })
  reserved-Kept job s after (ok (usage, true)) scored mode per_run h facts e =
      let (once, more, below) = facts usage true refl in
      started_for-Kept job (record s { tables = record s.tables { usage = usage } }) after scored
        mode once (omega (arith, h.counted, more)) (below refl) per_run h.chosen e

  added_job-Kept :
      (job : Job) (s after : Loop)
      → Kept s
      → added_job setting campaign profile job s ≡ (after, ok tt)
      → Kept after
  unfolding added_job
  added_job-Kept job s after h e =
      elim (Bool-cases (no_more job.match_score campaign.minimum_match_score)) [
        | inr low ↦ skipped-Kept _ s after h (rw low at e)
        | inl high ↦ elim (Bool-cases (is_research campaign.execution_mode)) [
          | inl research ↦ skipped-Kept _ s after h (rw (high, research) at e)
          | inr acting ↦
              elim (Bool-cases
                (no_more (length s.applications) campaign.max_applications_per_run)) [
                  | inl full ↦ skipped-Kept _ s after h (rw (high, acting, full) at e)
                  | inr room ↦
                      reserved-Kept job s after _ high acting
                        (room_left (length s.applications) most campaign.max_applications_per_run
                          room roomy)
                        h
                        (λ usage done.
                          reserve_lem setting.now campaign.id (run_day setting campaign)
                            (whole_maximum campaign.max_applications_per_day) s.tables.usage usage
                            done h.once)
                        (rw (high, acting, room) at e)
                ]
        ]
      ]

  saved_job-Kept :
      (job : Job) (s after : Loop) (r : List Job × Bool)
      → Kept s
      → saved_job setting campaign profile job s r ≡ (after, ok tt)
      → Kept after
  unfolding saved_job
  saved_job-Kept job s after (jobs, false) h e = skipped-Kept _ s after h e
  saved_job-Kept job s after (jobs, true) h e =
      added_job-Kept job (record s { tables = record s.tables { jobs = jobs } }) after
        (record {
          once = h.once;
          counted = h.counted;
          daily = h.daily;
          per_run = h.per_run;
          chosen = h.chosen;
        })
        e

  pub consider-Kept :
      (jobs : List Job) (s after : Loop)
      → Kept s
      → consider setting campaign profile jobs s ≡ (after, ok tt)
      → Kept after
  unfolding consider
  consider-Kept [] s after h e = subst Kept (ap (λ p. p.0) e) h
  consider-Kept (job ∷ jobs) s after h e =
      continued (saved_job setting campaign profile job s (save_job job s.tables.jobs))
        (λ mid. saved_job-Kept job s mid (save_job job s.tables.jobs) h)
        (λ mid. consider-Kept jobs mid after) e
    where
      continued :
          (r : Stepped)
          → ((mid : Loop) → r ≡ (mid, ok tt) → Kept mid)
          → ((mid : Loop)
              → Kept mid
              → consider setting campaign profile jobs mid ≡ (after, ok tt)
              → Kept after)
          → (elim r.1 [ ok _ ↦ consider setting campaign profile jobs r.0 | err x ↦ (r.0, err x) ])
            ≡ (after, ok tt)
          → Kept after
      continued (mid, ok u) kept next x = next mid (kept mid refl) x
      continued (mid, err y) kept next x = absurd (ok_not_err (sym (ap (λ p. p.1) x)))

  pub completed-Kept :
      (found : ℕ) (duplicates : List String) (jobs : List Job) (step : Stepped) (after : Tables)
      (result : RunResult)
      → ((s : Loop) → step ≡ (s, ok tt) → Kept s)
      → completed setting campaign profile found duplicates jobs step ≡ (after, ok result)
      → Kept (record { tables = after; applications = result.applications })
  unfolding completed
  completed-Kept found duplicates jobs (s, err x) after result kept e =
      absurd (ok_not_err (sym (ap (λ p. p.1) e)))
  completed-Kept found duplicates jobs (s, ok u) after result kept e =
      let h = kept s refl in
      subst
        (λ (p : Tables × Result RunError RunResult).
          Kept (record { tables = p.0; applications = chosen_of p.1 }))
        e
        (record {
          once = h.once;
          counted = h.counted;
          daily = h.daily;
          per_run = h.per_run;
          chosen = h.chosen;
        })
