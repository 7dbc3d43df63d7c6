-- ===== src/Server.antt =====
-- apps/orchestrator/src/server.ts: the guards of the local bridge, before any of its routes.
pub mod Scopes
pub mod Sessions
pub mod Authorization
pub mod Entry
pub mod Submit
mod Tests
use extension_jobs.Common.{ℕ, String, Result}

pub record HttpError : Type 0 where
  pub status : ℕ
  pub message : String

abbrev pub refuse : ℕ → String → HttpError
refuse status message = record { status = status; message = message }

abbrev pub Checked : Type 0 → Type 0
Checked A = Result HttpError A
