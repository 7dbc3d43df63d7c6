-- ===== src/Dashboard/Summary.antt =====
-- GET /v1/dashboard/summary and /v1/dashboard/analytics of apps/orchestrator/src/dashboard-api.ts.
pub mod Distribution
use extension_jobs.Common.{
  ℕ, suc, ◌+◌, ◌*◌, ◌/◌, String, Bool, true, false, not, ◌&&◌, Option, none, some, List, [], ◌∷◌,
  ◌++◌, map, leb, ltb, str_eq, length, take, keep, sort, get_or, map_option, map_get, map_set,
  if◌then◌else◌, ◌<>◌,
}
use extension_jobs.Json.{Members, Json, string, field}
use extension_jobs.Jobs.{Job}
use extension_jobs.Domain.{JobCampaign}
use extension_jobs.Workflow.{submitted}
use extension_jobs.Application.{PreparedApplication}
use extension_jobs.Contracts.Dashboard.{
  Disposition, shortlisted, Health, Counts, Labelled, Pulse, Attention, approval, manual_action,
  emergency_stop, DashboardSummary,
}
use extension_jobs.Queue.{Queue}
use extension_jobs.Store.Approvals.{ApprovalRequest, pending, list_approval_requests}
use extension_jobs.Store.Boards.{DispositionRow, ManualActionItem, open_item, list_manual_actions}
use extension_jobs.Dashboard.{Platform}
use extension_jobs.Dashboard.Applications.{sync_manual_actions}
use extension_jobs.Dashboard.Content.{Content, list_jobs, state_name}
use extension_jobs.Dashboard.Jobs.{list_prepared_applications}

abbrev is_shortlisted : DispositionRow → Bool
is_shortlisted r = elim r.disposition [ shortlisted ↦ true | _ ↦ false ]

unfoldable pub shortlisted_count : Content → ℕ
shortlisted_count c = length (keep is_shortlisted c.boards.dispositions)

-- The scores between two bounds, the upper one left out.
abbrev pub in_band : ℕ → Option ℕ → ℕ → Bool
in_band low none score = leb low score
in_band low (some high) score = leb low score && ltb score high

abbrev pub band : String → ℕ → Option ℕ → List ℕ → Labelled
band name low high scores = record { label = name; count = length (keep (in_band low high) scores) }

unfoldable pub match_distribution : List ℕ → List Labelled
match_distribution scores =
    band "80–100" 80 none scores
    ∷ band "60–79" 60 (some 80) scores
    ∷ band "40–59" 40 (some 60) scores
    ∷ band "0–39" 0 (some 40) scores
    ∷ []

-- `ORDER BY updated_at DESC`, on the texts of times; `later` compares two of them.
unfoldable pub list_campaigns : (String → String → Bool) → Content → List JobCampaign
list_campaigns later c = sort (λ j k. later j.updated_at k.updated_at) c.campaigns

abbrev pub campaign_pulse : (String → ℕ) → JobCampaign → Pulse
campaign_pulse time campaign = record {
  id = campaign.id;
  name = campaign.name;
  state = campaign.state;
  updated_at = time campaign.updated_at;
}

abbrev approval_attention : ApprovalRequest → Attention
approval_attention a = record {
  id = a.id;
  kind = approval;
  title = "Submission review required";
  detail = "Application " <> a.application_id;
}

-- `String(item.detail.state ?? item.kind)`; the state is a text where the server wrote the detail.
abbrev detail_text : Option Json → String → String
detail_text (some (string s)) kind = s
detail_text _ kind = kind

abbrev action_attention : ManualActionItem → Attention
action_attention i = record {
  id = i.id;
  kind = manual_action;
  title = i.title;
  detail = detail_text (field "state" i.detail) i.kind;
}

abbrev stop_attention : Bool → List Attention
stop_attention false = []
stop_attention true =
    record {
      id = "emergency-stop";
      kind = emergency_stop;
      title = "Emergency stop is active";
      detail = "All automated work is paused.";
    }
    ∷ []

-- The handler first writes the manual actions. `browser` is the status of the browser, `queue` the counts
-- of the queue by status, `later` and `time` read the times of campaigns.
unfoldable pub summary :
    Platform
    → ℕ
    → String
    → List Labelled
    → (String → String → Bool)
    → (String → ℕ)
    → Content
    → Content × DashboardSummary
unfolding list_jobs list_prepared_applications sync_manual_actions shortlisted_count
    list_approval_requests list_manual_actions list_campaigns match_distribution
summary platform now browser queue later time c =
    let jobs = list_jobs c in
    let applications = list_prepared_applications c.submissions in
    let actions = sync_manual_actions platform now applications c.boards.actions in
    let approvals = list_approval_requests (some pending) c.approvals in
    let open_actions = list_manual_actions (some open_item) actions in
    let campaigns = list_campaigns later c in
    (
      record c { boards = record c.boards { actions = actions } },
      record {
        generated_at = now;
        health = record { browser = browser; emergency_stop = c.stopped };
        counts = record {
          jobs = length jobs;
          shortlisted = shortlisted_count c;
          applications = length applications;
          approvals = length approvals;
          manual_actions = length open_actions;
          campaigns = length campaigns;
        };
        queue = queue;
        match_distribution = match_distribution (map (λ j. j.match_score) jobs);
        campaign_pulse = map (campaign_pulse time) (take 5 campaigns);
        attention =
            stop_attention c.stopped
            ++ map approval_attention (take 5 approvals)
            ++ map action_attention (take 5 open_actions);
      },
    )

-- `groupBy(jobs, (job) => job.source)`, whose keys are not whole numbers.
abbrev append_at : String → Job → List (String × List Job) → List (String × List Job)
append_at key job groups = map_set key (get_or (map_get key groups) [] ++ job ∷ []) groups

unfoldable pub group_by :
    (Job → String) → List (String × List Job) → List Job → List (String × List Job)
group_by key groups [] = groups
group_by key groups (job ∷ jobs) = group_by key (append_at (key job) job groups) jobs

abbrev sum_scores : List Job → ℕ
sum_scores [] = 0
sum_scores (job ∷ jobs) = job.match_score + sum_scores jobs

pub record SourcePerformance : Type 0 where
  pub source : String
  pub jobs : ℕ
  pub average_score : ℕ

-- `Math.round(a / b)` is the floor of (2a + b) / 2b.
abbrev performance : String × List Job → SourcePerformance
performance g = record {
  source = g.0;
  jobs = length g.1;
  average_score = (2 * sum_scores g.1 + length g.1) / (2 * length g.1);
}

abbrev is_submitted : PreparedApplication → Bool
unfolding state_name
is_submitted a = str_eq (state_name a.state) "SUBMITTED"

unfoldable pub analytics : Content → List Labelled × List SourcePerformance
unfolding list_jobs list_prepared_applications shortlisted_count group_by is_submitted
analytics c =
    let jobs = list_jobs c in
    let applications = list_prepared_applications c.submissions in
    (
      record { label = "Discovered"; count = length jobs }
          ∷ record { label = "Shortlisted"; count = shortlisted_count c }
          ∷ record { label = "Applications"; count = length applications }
          ∷ record { label = "Submitted"; count = length (keep is_submitted applications) }
          ∷ [],
      map performance (group_by (λ j. j.raw.source) [] jobs),
    )
