-- ===== src/Campaign/Run.antt =====
-- `runCampaign` of apps/orchestrator/src/service.ts, cut where it waits for the source of the jobs.
pub mod Rows
pub mod Chosen
pub mod Kept
pub mod Total
pub mod Exclusion
pub mod Limits
use extension_jobs.Common.{
  ℕ, suc, String, Bool, true, false, not, ◌&&◌, Option, none, some, List, [], ◌∷◌, ◌++◌, ◌<>◌, map,
  length, ltb, get_or, or_else, map_option, Result, ok, err, if◌then◌else◌,
}
use extension_jobs.Application.{FieldAnswer}
use extension_jobs.Campaign.{
  RunRow, RunEvent, run_started, job_duplicate, below_threshold, selected_research_only,
  per_run_limit, daily_limit, preview_ready, run_completed, Audited, Tables, save_job,
  create_application, transition_row,
}
use extension_jobs.Campaign.Setting.{
  Setting, RunError, emergency_stopped, campaign_already_running, profile_not_found, source_failed,
  application_exists, invalid_limit, Selected, Loop, RunResult, is_research, whole_maximum, labels,
  stages, Stepped,
}
use extension_jobs.Domain.{JobCampaign, CandidateProfile, ExecutionMode, research_only}
use extension_jobs.Jobs.{RawJob, Job, deduplicate_jobs}
use extension_jobs.Jobs.Score.{TextTools, normalize_job, score_job}
use extension_jobs.Json.{Number, no_more, is_whole, truncated}
use extension_jobs.Profile.{prepare_answer}
use extension_jobs.Store.Locks.{acquire_lock, release_lock}
use extension_jobs.Store.Submissions.{TransitionError}
use extension_jobs.Store.Usage.{Usage, UsageError, reserve_campaign_application}
use extension_jobs.Workflow.{
  ApplicationState, normalized, deduplicated, scored, selected, application_started,
  questions_extracted, answers_prepared, waiting_for_approval,
}

-- The calls of `transition`, up to the first that throws.
abbrev pub transition_all :
    String → List ApplicationState → List RunRow → List RunRow × Result RunError (Unit {0})
unfolding transition_row
transition_all id [] rows = (rows, ok tt)
transition_all id (s ∷ ss) rows = elim (transition_row id s rows) [
  | ok after ↦ transition_all id ss after
  | err e ↦ (rows, err (RunError.transition_failed e))
]

abbrev pub with_event : String → Option String → RunEvent → Tables → Tables
with_event correlation_id application_id event t = record t {
  audited =
      t.audited
      ++ record { correlation_id = correlation_id; application_id = application_id; event = event }
        ∷ [];
}

module _ (setting : Setting) (campaign : JobCampaign) where
  abbrev pub run_lock : String
  run_lock = "campaign:" <> campaign.id

  abbrev pub time_zone : String
  time_zone =
      get_or (or_else campaign.timezone (map_option (λ s. s.timezone) campaign.schedule))
        "Africa/Cairo"

  abbrev pub run_day : String
  run_day = setting.day_key time_zone

  abbrev pub noted : RunEvent → Tables → Tables
  noted event t = with_event setting.correlation_id none event t

  -- `continue` after an event.
  abbrev pub skipped : RunEvent → Loop → Stepped
  skipped event s = (record s { tables = noted event s.tables }, ok tt)

  -- The `finally` block.
  abbrev pub released : Tables → Tables
  unfolding release_lock
  released t = record t { locks = release_lock setting.lock_owner run_lock t.locks }

  module _ (profile : CandidateProfile) where
    abbrev pub answers : List FieldAnswer
    unfolding prepare_answer
    answers =
        map
          (λ l.
            prepare_answer setting.lower_case setting.now (setting.answer_id l) l profile
              "deterministic-profile-retrieval")
          labels

    abbrev pub selected_as :
        String → Job → Loop → List RunRow × Result RunError (Unit {0}) → Stepped
    unfolding answers
    selected_as id job s (rows, err e) =
        (record s { tables = record s.tables { applications = rows } }, err e)
    selected_as id job s (rows, ok _) = (
      record {
        tables =
            with_event setting.correlation_id (some id)
              (preview_ready job.id answers campaign.dry_run)
              (record s.tables { applications = rows });
        applications = s.applications ++ record { id = id; job = job; answers = answers } ∷ [];
      },
      ok tt,
    )

    abbrev pub created_as : String → Job → Loop → Option (List RunRow) → Stepped
    unfolding selected_as transition_all
    created_as id job s none = (s, err application_exists)
    created_as id job s (some rows) = selected_as id job s (transition_all id stages rows)

    abbrev pub started_for : Job → Loop → Stepped
    unfolding created_as create_application
    started_for job s =
        let id = setting.application_id job.id in
        created_as id job s
          (create_application setting.now id job.id campaign.id s.tables.applications)

    abbrev pub reserved : Job → Loop → Result UsageError (List Usage × Bool) → Stepped
    unfolding started_for
    reserved job s (err _) = (s, err invalid_limit)
    reserved job s (ok (usage, false)) =
        skipped (daily_limit job.id) (record s { tables = record s.tables { usage = usage } })
    reserved job s (ok (usage, true)) =
        started_for job (record s { tables = record s.tables { usage = usage } })

    -- A job that `saveJob` has added.
    abbrev pub added_job : Job → Loop → Stepped
    unfolding reserved reserve_campaign_application
    added_job job s =
        if not (no_more job.match_score campaign.minimum_match_score)
        then skipped (below_threshold job.match_score) s
        else if is_research campaign.execution_mode
        then skipped (selected_research_only job.id job.match_score) s
        else if no_more (length s.applications) campaign.max_applications_per_run
        then skipped (per_run_limit job.id) s
        else reserved job s (
            reserve_campaign_application setting.now campaign.id run_day
              (whole_maximum campaign.max_applications_per_day) s.tables.usage)

    abbrev pub saved_job : Job → Loop → List Job × Bool → Stepped
    unfolding added_job
    saved_job job s (jobs, false) = skipped (job_duplicate job.fingerprint) s
    saved_job job s (jobs, true) =
        added_job job (record s { tables = record s.tables { jobs = jobs } })

    -- The loop.
    unfoldable pub consider : List Job → Loop → Stepped
    unfolding saved_job save_job
    consider [] s = (s, ok tt)
    consider (job ∷ jobs) s =
        let (after, result) = saved_job job s (save_job job s.tables.jobs) in
        elim result [ ok _ ↦ consider jobs after | err e ↦ (after, err e) ]

    abbrev pub normalized_from : ℕ → List RawJob → List Job
    unfolding normalize_job
    normalized_from n [] = []
    normalized_from n (r ∷ rs) =
        normalize_job setting.tools (setting.job_id n) r ∷ normalized_from (suc n) rs

    abbrev pub completed : ℕ → List String → List Job → Stepped → Tables × Result RunError RunResult
    unfolding released
    completed discovered duplicates jobs (s, err e) = (released s.tables, err e)
    completed discovered duplicates jobs (s, ok _) = (
      released (
          noted (run_completed discovered (length jobs) duplicates (length s.applications))
            s.tables),
      ok (record {
        correlation_id = setting.correlation_id;
        jobs = jobs;
        applications = s.applications;
      }),
    )

    -- What follows `discover`, whose result is an argument.
    unfoldable pub end_run :
        Result RunError (List RawJob) → Tables → Tables × Result RunError RunResult
    unfolding released normalized_from deduplicate_jobs score_job consider completed
    end_run (err e) t = (released t, err e)
    end_run (ok raw) t =
        let found = deduplicate_jobs (normalized_from 0 raw) in
        let jobs = map (λ j. score_job setting.tools j profile campaign) found.0 in
        completed (length raw) found.1 jobs
          (consider jobs (record { tables = t; applications = [] }))

  abbrev pub profile_of :
      Option CandidateProfile → Tables → Tables × Result RunError CandidateProfile
  unfolding released
  profile_of none t = (released t, err profile_not_found)
  profile_of (some p) t = (t, ok p)

  -- What precedes `discover`; `stopped` is the emergency stop, the profile is what the store has.
  unfoldable pub begin_run :
      Bool → Option CandidateProfile → Tables → Tables × Result RunError CandidateProfile
  unfolding acquire_lock profile_of
  begin_run stopped profile t =
      let held = acquire_lock setting.now setting.lock_lease setting.lock_owner run_lock t.locks in
      if stopped
      then (t, err emergency_stopped)
      else if not held.1
      then (record t { locks = held.0 }, err campaign_already_running)
      else profile_of profile
          (noted (run_started campaign.id campaign.dry_run) (record t { locks = held.0 }))
