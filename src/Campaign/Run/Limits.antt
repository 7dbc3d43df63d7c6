-- ===== src/Campaign/Run/Limits.antt =====
-- What `runCampaign` of apps/orchestrator/src/service.ts selects: its limits and its conditions.
use extension_jobs.Common.{
  ℕ, ◌+◌, ◌≤◌, ◌≡◌, sym, ap, true, List, [], arith, length, All, map, Result, ok, err, ok_not_err,
}
use extension_jobs.Campaign.Setting.{Loop, RunError, RunResult, Setting, whole_maximum}
use extension_jobs.Campaign.{Tables}
use extension_jobs.Campaign.Run.{run_day, normalized_from, consider, end_run}
use extension_jobs.Domain.{JobCampaign, CandidateProfile}
use extension_jobs.Jobs.{RawJob}
use extension_jobs.Json.{no_more}
use extension_jobs.Store.Usage.Granted.{used, Once}
use extension_jobs.Campaign.Run.Chosen.{IsChosen}
use extension_jobs.Campaign.Run.Kept.{consider-Kept, completed-Kept}
use extension_jobs.Jobs.{deduplicate_jobs}
use extension_jobs.Jobs.Score.{score_job}

-- A run that ends well after the wait, for a campaign that has one row of the day's usage at most and
-- no more used than its daily maximum: it selects at most as many jobs as the campaign allows for a
-- run, each is counted as used that day, and what is used does not exceed the daily maximum. Each
-- selected job has the minimal score, the mode is not research only, and its application waits for
-- an approval: a run fills and submits nothing.
pub end_run_selects :
    (setting : Setting) (campaign : JobCampaign) (profile : CandidateProfile) (most : ℕ)
    (found : Result RunError (List RawJob)) (t after : Tables) (result : RunResult)
    → no_more most campaign.max_applications_per_run ≡ true
    → Once campaign.id (run_day setting campaign) t.usage
    → used campaign.id (run_day setting campaign) t.usage
      ≤ whole_maximum campaign.max_applications_per_day
    → end_run setting campaign profile found t ≡ (after, ok result)
    → (length result.applications ≤ most)
      × (used campaign.id (run_day setting campaign) after.usage
          ≡ used campaign.id (run_day setting campaign) t.usage + length result.applications)
      × (used campaign.id (run_day setting campaign) after.usage
          ≤ whole_maximum campaign.max_applications_per_day)
      × All (IsChosen campaign after.applications) result.applications
unfolding end_run
end_run_selects setting campaign profile most (err x) t after result roomy once below e =
    absurd (ok_not_err (sym (ap (λ p. p.1) e)))
end_run_selects setting campaign profile most (ok raw) t after result roomy once below e =
    let base = used campaign.id (run_day setting campaign) t.usage in
    let start : Loop = record { tables = t; applications = [] } in
    let kinds = deduplicate_jobs (normalized_from setting campaign profile 0 raw) in
    let jobs = map (λ j. score_job setting.tools j profile campaign) kinds.0 in
    let h =
      completed-Kept setting campaign profile base most roomy (length raw) kinds.1 jobs
        (consider setting campaign profile jobs start) after result
        (λ s. consider-Kept setting campaign profile base most roomy jobs start s (record {
          once = once;
          counted = omega arith;
          daily = below;
          per_run = omega arith;
          chosen = tt;
        }))
        e in
    (h.per_run, h.counted, h.daily, h.chosen)
