-- ===== src/Campaign/Runs.antt =====
-- The table campaign_runs of apps/orchestrator/src/store.ts.
use extension_jobs.Common.{
  ℕ, String, Option, none, some, List, [], ◌∷◌, ◌++◌, any, str_eq, ltb, update_where, if◌then◌else◌,
}

pub data RunStatus : Type 0 where
  running completed failed : RunStatus

-- The column `data`: `{}`, the counts of a run, or the code of its error.
pub data RunData : Type 0 where
  no_data : RunData
  counts : ℕ → ℕ → RunData
  code : String → RunData

-- A row of campaign_runs; `started_at` is `created_at`.
pub record CampaignRun : Type 0 where
  pub id : String
  pub campaign_id : String
  pub status : RunStatus
  pub correlation_id : String
  pub created_at : ℕ
  pub completed_at : Option ℕ
  pub run_data : RunData

-- `id` is the hash of the campaign and the correlation id; `none` where the key is taken.
unfoldable pub start_campaign_run :
    ℕ → String → String → String → List CampaignRun → Option (List CampaignRun)
start_campaign_run now id campaign_id correlation_id rows =
    if any (λ r. str_eq r.id id) rows
    then none
    else some (
        rows
        ++ record {
          id = id;
          campaign_id = campaign_id;
          status = running;
          correlation_id = correlation_id;
          created_at = now;
          completed_at = none;
          run_data = no_data;
        }
          ∷ [])

unfoldable pub finish_campaign_run :
    ℕ → String → RunStatus → RunData → List CampaignRun → List CampaignRun
finish_campaign_run now id status data_of rows =
    update_where (λ r. str_eq r.id id)
      (λ r. record r { status = status; completed_at = some now; run_data = data_of }) rows

abbrev pub later_of : ℕ → Option ℕ → ℕ
later_of t none = t
later_of t (some u) = if ltb t u then u else t

-- ORDER BY created_at DESC LIMIT 1
unfoldable pub latest_campaign_run_at : String → List CampaignRun → Option ℕ
latest_campaign_run_at campaign_id [] = none
latest_campaign_run_at campaign_id (r ∷ rs) =
    let rest = latest_campaign_run_at campaign_id rs in
    if str_eq r.campaign_id campaign_id then some (later_of r.created_at rest) else rest
