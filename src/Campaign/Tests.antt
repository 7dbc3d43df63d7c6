-- ===== src/Campaign/Tests.antt =====
-- A run of a campaign over three jobs, and the scheduler, at concrete values.
mod Examples
use extension_jobs.Common.{
  ℕ, zero, suc, ◌&&◌, ltb, map, ◌+◌, ◌≤◌, ◌≡◌, refl, String, true, false, none, some, List, [], ◌∷◌,
  arith, length, All, split, is_some, codes, Result, ok, err,
}
use extension_jobs.Campaign.Setting.{
  RunError, RunResult, Setting, campaign_already_running, source_failed, whole_maximum,
}
use extension_jobs.Campaign.{Tables}
use extension_jobs.Campaign.Run.{run_day, begin_run, end_run}
use extension_jobs.Campaign.Run.Exclusion.{begin_run_excludes, end_run_frees}
use extension_jobs.Campaign.Run.Chosen.{IsChosen}
use extension_jobs.Campaign.Run.Limits.{end_run_selects}
use extension_jobs.Campaign.Run.Total.{end_run_ends}
use extension_jobs.Contracts.Dashboard.{enabled}
use extension_jobs.Contracts.Resumes.{text_value}
use extension_jobs.Domain.{
  JobCampaign, CandidateProfile, prepare_and_review, Schedule, skip, verified_fact, cv_import,
}
use extension_jobs.Jobs.{RawJob}
use extension_jobs.Json.{whole}
use extension_jobs.Campaign.{save_job, create_application, transition_row}
use extension_jobs.Campaign.Run.{consider}
use extension_jobs.Campaign.Runs.{RunStatus, start_campaign_run, finish_campaign_run}
use extension_jobs.Campaign.Scheduler.{
  Calendar, numbers_agree, is_schedule_due, Draws, Scheduling, execute, is_due,
}
use extension_jobs.Campaign.Scheduler.Minutes.{execute_not_due, due_has_time}
use extension_jobs.Jobs.{deduplicate_jobs, sort_jobs}
use extension_jobs.Jobs.Score.{normalize_job, fingerprint_job, clean, score_job}
use extension_jobs.Json.{number_of_codes}
use extension_jobs.Queue.{empty, enqueue, new_row, claim_by_id, get}
use extension_jobs.Store.Locks.{acquire_lock, release_lock}
use extension_jobs.Store.Locks.Exclusion
use extension_jobs.Store.Usage.{reserve_campaign_application, is_day_key, reserve_row}
use extension_jobs.Workflow.{assert_transition, transitions}
use extension_jobs.Store.Usage.Granted.{used}
use extension_jobs.Campaign.Tests.Examples.{
  campaign, profile, posting, postings, number_name, setting, tables,
}

abbrev result_of : Result RunError RunResult → RunResult
result_of (ok r) = r
result_of (err e) = record { correlation_id = ""; jobs = []; applications = [] }

abbrev ended : Tables × Result RunError RunResult
ended = end_run setting campaign profile (ok postings) tables

ended_well : ended ≡ (ended.0, ok (result_of ended.1))
unfolding end_run consider normalize_job fingerprint_job clean deduplicate_jobs sort_jobs score_job
    save_job create_application transition_row assert_transition transitions
    reserve_campaign_application is_day_key reserve_row release_lock
ended_well = refl

one_selected : map (λ a. a.id) (result_of ended.1).applications ≡ "j0" ∷ []
unfolding end_run consider normalize_job fingerprint_job clean deduplicate_jobs sort_jobs score_job
    save_job create_application transition_row assert_transition transitions
    reserve_campaign_application is_day_key reserve_row release_lock
one_selected = refl

end_run_selects_example :
    (length (result_of ended.1).applications ≤ 1)
    × (used "c" "2026-07-22" ended.0.usage
        ≡ used "c" "2026-07-22" [] + length (result_of ended.1).applications)
    × (used "c" "2026-07-22" ended.0.usage ≤ 5)
    × All (IsChosen campaign ended.0.applications) (result_of ended.1).applications
end_run_selects_example =
    end_run_selects setting campaign profile 1 (ok postings) tables ended.0 (result_of ended.1) refl
      (omega arith) (omega arith) ended_well

valid_day :
    (is_day_key (run_day setting campaign)
      && ltb 0 (whole_maximum campaign.max_applications_per_day))
    ≡ true
unfolding is_day_key
valid_day = refl

end_run_ends_example :
    (result : RunResult) × ((end_run setting campaign profile (ok postings) tables).1 ≡ ok result)
end_run_ends_example =
    end_run_ends setting campaign profile postings tables (λ j k e. e) valid_day
      (λ k e. absurd (cc e))

abbrev begun : Tables × Result RunError CandidateProfile
begun = begin_run setting campaign false (some profile) tables

begins : begun ≡ (begun.0, ok profile)
unfolding begin_run acquire_lock
begins = refl

-- Another process, half a lease later.
abbrev other_setting : Setting
other_setting = record setting { now = 60; lock_owner = "s2" }

begin_run_excludes_example :
    (begin_run other_setting campaign false
      (some profile)
      (record begun.0 { locks = Exclusion.run begun.0.locks [] })).1
    ≡ err campaign_already_running
begin_run_excludes_example =
    begin_run_excludes setting other_setting campaign (some profile) (some profile) tables begun.0
      profile [] false begins refl (omega arith)

-- Meanwhile another process takes a lock of its own.
abbrev meanwhile : List Exclusion.Call
meanwhile = Exclusion.acquires 50 100 "s2" "other" ∷ []

abbrev before_end : Tables
before_end = record begun.0 { locks = Exclusion.run begun.0.locks meanwhile }

end_run_frees_example :
    (begin_run other_setting campaign false
      (some profile)
      (end_run setting campaign profile (err source_failed) before_end).0).1
    ≡ ok profile
end_run_frees_example =
    end_run_frees setting other_setting campaign (some profile) tables begun.0 before_end profile
      profile meanwhile (err source_failed) tt begins refl refl

abbrev cron : Schedule
cron = record {
  cron = "0 9 1 * 1-5";
  timezone = "Africa/Cairo";
  friendly = "weekdays at 9am";
  quiet_hours = none;
  missed_run_policy = skip;
  maximum_runtime_minutes = 30;
}

-- A calendar of one day, a Monday, at nine.
abbrev calendar : Calendar
calendar = record {
  minute = λ zone t. "00";
  hour = λ zone t. "09";
  weekday = λ zone t. "Mon";
  formatted = λ zone t. "Mon, 07/20/2026, 09:00";
}

monday_due : is_schedule_due calendar cron 5 none ≡ true
unfolding is_schedule_due numbers_agree number_of_codes
monday_due = refl

-- It is the twentieth, and the cron names the first of the month.
due_has_time_example :
    (numbers_agree "00" "0" ≡ true)
    × (numbers_agree "09" "9" ≡ true)
    × (is_some (number_of_codes (codes "0")) ≡ true)
    × (is_some (number_of_codes (codes "9")) ≡ true)
    × ((other : Schedule)
        → other.timezone ≡ "Africa/Cairo"
        → split b' ' other.cron ≡ "0" ∷ "9" ∷ "31" ∷ "2" ∷ "1-5" ∷ []
        → is_schedule_due calendar other 5 none ≡ true)
due_has_time_example =
    due_has_time calendar cron 5 none "0" "9" "1" "*" "1-5" "31" "2" refl monday_due

abbrev draws : Draws
draws = record {
  started_at = λ id. 5;
  ended_at = λ id. 6;
  correlation_id = λ id. "r";
  queue_id = λ id. "q";
  run_id = λ id correlation_id. "run";
  payload = λ id. "";
  worker = "w";
  outcome = λ c. ok (3, 1);
}

abbrev idle : Scheduling
idle = record { runs = []; queue = empty }

executes : (execute draws campaign idle).1 ≡ false
unfolding execute start_campaign_run enqueue
executes = refl

ends_completed : map (λ r. r.status) (execute draws campaign idle).0.runs ≡ RunStatus.completed ∷ []
unfolding execute start_campaign_run enqueue new_row claim_by_id get finish_campaign_run
ends_completed = refl

execute_not_due_example : is_due calendar 7 (execute draws campaign idle).0.runs campaign ≡ false
execute_not_due_example = execute_not_due draws calendar campaign idle 7 tt executes (λ zone. refl)
