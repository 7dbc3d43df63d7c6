-- ===== src/Contracts.antt =====
-- packages/shared-contracts/src/index.ts: the types that the programs exchange. A schema is the type that
-- it infers, a record whose fields have the schema's keys, and a test of the limits that the type cannot
-- say. A time is in milliseconds, where the source has the text of `toISOString`; a confidence is in
-- hundredths. `is_url` stands for the test of the library that checks the schemas.
pub mod Names
pub mod Resumes
pub mod Dashboard
pub mod Forms
use extension_jobs.Common.{
  ℕ, String, Bool, ◌&&◌, Option, none, some, List, leb, all, length, units, get_or,
}
use extension_jobs.Policy.{Capability, ConnectorId, ConnectorCapabilities, SitePolicy}

-- `z.string().min(low).max(high)`
abbrev pub sized : ℕ → ℕ → String → Bool
sized low high s = leb low (units s) && leb (units s) high

-- `z.string().max(high)`
abbrev pub at_most : ℕ → String → Bool
at_most high s = leb (units s) high

-- `.optional()`
abbrev pub optional {ℓ} : {A : Type ℓ} → (A → Bool) → Option A → Bool
optional p none = Bool.true
optional p (some a) = p a

-- `z.array(item).max(high)`
abbrev pub array_of {ℓ} : {A : Type ℓ} → ℕ → (A → Bool) → List A → Bool
array_of high p xs = leb (length xs) high && all p xs

pub record JobSource : Type 0 where
  pub connector_id : ConnectorId
  pub external_id : String
  pub discovered_at : ℕ
  pub discovery_mode : Capability

pub record ApplicationDestination : Type 0 where
  pub adapter_id : ConnectorId
  pub url : String
  pub detected_at : ℕ
  pub confidence : ℕ
  pub supported : Bool

pub record NormalizedJob : Type 0 where
  pub id : String
  pub fingerprint : String
  pub title : String
  pub employer : String
  pub location : String
  pub description : String
  pub url : String
  pub source : JobSource
  pub application_destination : Option ApplicationDestination
  pub required_skills : List String
  pub preferred_skills : List String
  pub remote : Bool
  pub match_score : Option ℕ

pub record WuzzufSearchInput : Type 0 where
  pub queries : List String
  pub locations : List String
  pub remote : Option Bool
  pub experience_level : Option String
  pub employment_types : Option (List String)
  pub limit : Option ℕ

-- `toolErrorSchema`; `details` and `diagnostics` are the texts of their JSON.
pub record ToolError : Type 0 where
  pub code : String
  pub message : String
  pub retryable : Bool
  pub user_action_required : Option Bool
  pub recommended_next_tool : Option String
  pub correlation_id : String
  pub details : Option String
  pub action_required : Option String
  pub diagnostics : Option String

-- `ToolResult`
pub data ToolResult (A : Type 0) : Type 0 where
  tool_success : A → String → ToolResult A
  tool_failure : ToolError → ToolResult A

unfoldable pub site_policy_schema : SitePolicy → Bool
site_policy_schema p =
    sized 1 50 p.version && array_of 20 (sized 1 253) p.allowed_hosts && at_most 1000 p.notes

unfoldable pub job_source_schema : JobSource → Bool
job_source_schema s = sized 1 500 s.external_id

module _ (is_url : String → Bool) where
  unfoldable pub application_destination_schema : ApplicationDestination → Bool
  application_destination_schema d = is_url d.url && at_most 4000 d.url && leb d.confidence 100

  unfoldable pub normalized_job_schema : NormalizedJob → Bool
  unfolding job_source_schema application_destination_schema
  normalized_job_schema j =
      sized 1 100 j.id
      && sized 16 128 j.fingerprint
      && sized 1 500 j.title
      && sized 1 500 j.employer
      && at_most 500 j.location
      && at_most 100000 j.description
      && is_url j.url
      && at_most 4000 j.url
      && job_source_schema j.source
      && optional application_destination_schema j.application_destination
      && array_of 200 (at_most 200) j.required_skills
      && array_of 200 (at_most 200) j.preferred_skills
      && optional (λ s. leb s 100) j.match_score

-- `z.array(z.string().min(1).max(200)).min(1).max(10)`
abbrev terms : List String → Bool
terms xs = leb 1 (length xs) && array_of 10 (sized 1 200) xs

unfoldable pub wuzzuf_search_input_schema : WuzzufSearchInput → Bool
wuzzuf_search_input_schema i =
    terms i.queries
    && terms i.locations
    && optional (at_most 100) i.experience_level
    && optional (array_of 10 (at_most 100)) i.employment_types
    && optional (λ n. leb 1 n && leb n 100) i.limit
