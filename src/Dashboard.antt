-- ===== src/Dashboard.antt =====
-- apps/orchestrator/src/dashboard-api.ts: what its functions share. A function that throws returns the
-- error, which the handler answers with its status.
pub mod Values
pub mod Paging
pub mod Cookies
pub mod Sessions
pub mod Content
pub mod Jobs
pub mod Applications
pub mod Summary
pub mod Routes
pub mod Replies
pub mod Handlers
pub mod Services
pub mod CampaignRoutes
pub mod Decisions
pub mod Dispatch
pub mod Idempotent
mod Tests
pub mod Campaigns
use extension_jobs.Common.{ℕ, String, Bool, Option, List, Result}
use extension_jobs.Json.{Json, Number}

-- `DashboardHttpError`
pub record DashboardHttpError : Type 0 where
  pub status : ℕ
  pub message : String

abbrev pub Attempt : Type 0 → Type 0
Attempt A = Result DashboardHttpError A

abbrev pub http_error : ℕ → String → DashboardHttpError
http_error status message = record { status = status; message = message }

-- What the functions take from the platform: decodeURIComponent, which may throw, toLocaleLowerCase,
-- the time zones of Intl, JSON.parse on the bytes of a body, SHA-256 as hexadecimal, base64url, and the
-- text of a number.
pub record Platform : Type 0 where
  pub decode_uri_component : String → Option String
  pub lower_case : String → String
  pub is_time_zone : String → Bool
  pub parse_json : List ℕ → Option Json
  pub sha256 : String → String
  pub to_base64url : List ℕ → String
  pub from_base64url : String → List ℕ
  pub whole_text : ℕ → String
  pub number_text : Number → String
