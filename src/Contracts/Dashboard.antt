-- ===== src/Contracts/Dashboard.antt =====
-- packages/shared-contracts/src/dashboard.ts: what the dashboard reads.
use extension_jobs.Common.{ℕ, String, Bool, ◌&&◌, Option, List, leb, all}
use extension_jobs.Jobs.{ScoreItem}
use extension_jobs.Policy.{ConnectorCapabilities}
use extension_jobs.Contracts.{sized, optional}

pub record DashboardSession : Type 0 where
  pub csrf_token : String
  pub expires_at : ℕ

pub data Disposition : Type 0 where
  shortlisted rejected : Disposition

pub record DashboardJob : Type 0 where
  pub id : String
  pub title : String
  pub employer : String
  pub location : String
  pub url : String
  pub source : String
  pub description : String
  pub match_score : ℕ
  pub score_explanation : List ScoreItem
  pub remote : Bool
  pub discovered_at : Option ℕ
  pub disposition : Option Disposition
  pub tags : List String
  pub note : Option String
  pub application_state : Option String
  pub application_id : Option String

pub record JobSummary : Type 0 where
  pub title : String
  pub employer : String
  pub location : String

-- An error is the text of its JSON.
pub record DashboardApplication : Type 0 where
  pub id : String
  pub job_id : String
  pub state : String
  pub created_at : Option ℕ
  pub updated_at : Option ℕ
  pub dry_run : Option Bool
  pub job : Option JobSummary
  pub errors : List String

pub record Health : Type 0 where
  pub browser : String
  pub emergency_stop : Bool

pub record Counts : Type 0 where
  pub jobs : ℕ
  pub shortlisted : ℕ
  pub applications : ℕ
  pub approvals : ℕ
  pub manual_actions : ℕ
  pub campaigns : ℕ

pub record Labelled : Type 0 where
  pub label : String
  pub count : ℕ

pub data CampaignState : Type 0 where
  enabled paused : CampaignState

pub record Pulse : Type 0 where
  pub id : String
  pub name : String
  pub state : CampaignState
  pub updated_at : ℕ

pub data AttentionKind : Type 0 where
  approval manual_action resume emergency_stop : AttentionKind

pub record Attention : Type 0 where
  pub id : String
  pub kind : AttentionKind
  pub title : String
  pub detail : String

pub record DashboardSummary : Type 0 where
  pub generated_at : ℕ
  pub health : Health
  pub counts : Counts
  pub queue : List Labelled
  pub match_distribution : List Labelled
  pub campaign_pulse : List Pulse
  pub attention : List Attention

pub record ConnectorPolicy : Type 0 where
  pub connector_id : String
  pub version : String
  pub enabled_by_default : Bool
  pub capabilities : ConnectorCapabilities
  pub allowed_hosts : List String
  pub notes : String

pub record DashboardConnector : Type 0 where
  pub enabled : Bool
  pub policy : ConnectorPolicy

-- `CursorPageSchema`
pub record CursorPage (A : Type 0) : Type 0 where
  pub items : List A
  pub next_cursor : Option String
  pub total : ℕ

unfoldable pub dashboard_session_schema : DashboardSession → Bool
dashboard_session_schema s = sized 32 128 s.csrf_token

module _ (is_url : String → Bool) where
  unfoldable pub dashboard_job_schema : DashboardJob → Bool
  dashboard_job_schema j =
      is_url j.url && leb j.match_score 100 && optional (sized 1 80) j.application_state

unfoldable pub dashboard_application_schema : DashboardApplication → Bool
dashboard_application_schema a = sized 1 80 a.state

unfoldable pub dashboard_connector_schema : DashboardConnector → Bool
dashboard_connector_schema c = sized 1 80 c.policy.connector_id

unfoldable pub cursor_page_schema : {A : Type 0} → (A → Bool) → CursorPage A → Bool
cursor_page_schema item p = all item p.items
