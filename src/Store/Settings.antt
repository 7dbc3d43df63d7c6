-- ===== src/Store/Settings.antt =====
-- The table connector_settings of migrations/002_public_v1.sql, and its methods in
-- apps/orchestrator/src/store.ts. The column `data` repeats two others.
use extension_jobs.Common.{ℕ, String, Bool, List, sort}
use Prim.Native.String.{compare}
use text.Mathlib.Text.{is_lt}
use extension_jobs.Policy.{
  ConnectorId, wuzzuf, indeed, linkedin, bayt, glassdoor, ziprecruiter, greenhouse, lever, ashby,
  workable, smartrecruiters, workday, employer_site, email, unsupported_site, development, id_eq,
}
use extension_jobs.Store.Boards.{upsert}

pub record ConnectorSetting : Type 0 where
  pub connector_id : ConnectorId
  pub enabled : Bool
  pub policy_version : String
  pub updated_at : ℕ

-- The text of the column.
abbrev connector_name : ConnectorId → String
connector_name wuzzuf = "wuzzuf"
connector_name indeed = "indeed"
connector_name linkedin = "linkedin"
connector_name bayt = "bayt"
connector_name glassdoor = "glassdoor"
connector_name ziprecruiter = "ziprecruiter"
connector_name greenhouse = "greenhouse"
connector_name lever = "lever"
connector_name ashby = "ashby"
connector_name workable = "workable"
connector_name smartrecruiters = "smartrecruiters"
connector_name workday = "workday"
connector_name employer_site = "employer-site"
connector_name email = "email"
connector_name unsupported_site = "unsupported"
connector_name development = "development"

unfoldable pub set_connector_enabled :
    ℕ → ConnectorId → Bool → String → List ConnectorSetting → List ConnectorSetting
set_connector_enabled now id enabled version rows =
    upsert (λ s. id_eq s.connector_id id)
      (λ s. record s { enabled = enabled; policy_version = version; updated_at = now })
      (record { connector_id = id; enabled = enabled; policy_version = version; updated_at = now })
      rows

abbrev pub by_name : ConnectorSetting → ConnectorSetting → Bool
by_name s t = is_lt (compare (connector_name s.connector_id) (connector_name t.connector_id))

-- ORDER BY connector_id
unfoldable pub connector_settings : List ConnectorSetting → List ConnectorSetting
connector_settings rows = sort by_name rows
