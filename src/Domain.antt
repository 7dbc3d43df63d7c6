-- ===== src/Domain.antt =====
-- The other types of packages/shared/src/domain.ts: profiles, campaigns, audit events, settings.
-- A time is in milliseconds; a number that a form sends is a `Number`.
use extension_jobs.Common.{ℕ, String, Bool, Option, List}
use extension_jobs.Json.{Number, Members}
use extension_jobs.Contracts.Dashboard.{CampaignState}
use extension_jobs.Contracts.Resumes.{FactValue}
use extension_jobs.Workflow.{ApplicationState}

pub data ExecutionMode : Type 0 where
  research_only prepare_and_review auto_submit : ExecutionMode

pub data FactKind : Type 0 where
  verified_fact preference approved_answer generated_prose unknown : FactKind

pub data FactSource : Type 0 where
  cv_import user_edit answer_approval : FactSource

pub record ProfileFact : Type 0 where
  pub id : String
  pub path : String
  pub value : FactValue
  pub kind : FactKind
  pub source : FactSource
  pub verified_at : Option ℕ

pub record CvVariant : Type 0 where
  pub id : String
  pub name : String
  pub approved : Bool
  pub source_name : String

pub record CandidateProfile : Type 0 where
  pub id : String
  pub name : String
  pub facts : List ProfileFact
  pub cv_variants : List CvVariant
  pub updated_at : ℕ

pub record QuietHours : Type 0 where
  pub start : String
  pub end_time : String

pub data MissedRunPolicy : Type 0 where
  skip run_once : MissedRunPolicy

pub record Schedule : Type 0 where
  pub cron : String
  pub timezone : String
  pub friendly : String
  pub quiet_hours : Option QuietHours
  pub missed_run_policy : MissedRunPolicy
  pub maximum_runtime_minutes : ℕ

pub data Workplace : Type 0 where
  remote hybrid onsite : Workplace

pub record JobCampaign : Type 0 where
  pub id : String
  pub name : String
  pub state : CampaignState
  pub search_queries : List String
  pub locations : List String
  pub workplace : List Workplace
  pub included_keywords : List String
  pub excluded_keywords : List String
  pub seniority : List String
  pub minimum_match_score : Number
  pub allowed_sites : List String
  pub max_applications_per_run : Number
  pub max_applications_per_day : Number
  pub timezone : Option String
  pub schedule : Option Schedule
  pub execution_mode : ExecutionMode
  pub profile_id : String
  pub cv_strategy : String
  pub provider_id : String
  pub model : String
  pub dry_run : Bool
  pub created_at : String
  pub updated_at : String

pub record AuditEvent : Type 0 where
  pub id : String
  pub correlation_id : String
  pub application_id : Option String
  pub type : String
  pub state : Option ApplicationState
  pub at : ℕ
  pub detail : Members

pub record AgentSettings : Type 0 where
  pub active_profile_id : Option String
  pub chat_model : String
  pub answer_model : String
  pub matching_model : String
  pub temperature : Number
  pub maximum_answer_length : Number
  pub confidence_threshold : Number
  pub maximum_concurrent_runs : Number
  pub default_dry_run : Bool
  pub browser_headless : Bool
  pub updated_at : String
