-- ===== src/Campaign/Tests/Examples.antt =====
-- A campaign, a profile and four postings for the tests of apps/orchestrator/src/service.ts.
use extension_jobs.Common.{ℕ, zero, suc, String, true, none, some, List, [], ◌∷◌}
use extension_jobs.Campaign.Setting.{Setting}
use extension_jobs.Campaign.{Tables}
use extension_jobs.Contracts.Dashboard.{enabled}
use extension_jobs.Contracts.Resumes.{text_value}
use extension_jobs.Domain.{
  JobCampaign, CandidateProfile, prepare_and_review, skip, verified_fact, cv_import,
}
use extension_jobs.Jobs.{RawJob}
use extension_jobs.Json.{whole}

abbrev pub campaign : JobCampaign
campaign = record {
  id = "c";
  name = "Backend";
  state = enabled;
  search_queries = "go" ∷ [];
  locations = "Cairo" ∷ [];
  workplace = [];
  included_keywords = [];
  excluded_keywords = [];
  seniority = [];
  minimum_match_score = whole 40;
  allowed_sites = [];
  max_applications_per_run = whole 1;
  max_applications_per_day = whole 5;
  timezone = none;
  schedule = some (record {
    cron = "0 9 1 * 1-5";
    timezone = "Africa/Cairo";
    friendly = "weekdays at 9am";
    quiet_hours = none;
    missed_run_policy = skip;
    maximum_runtime_minutes = 30;
  });
  execution_mode = prepare_and_review;
  profile_id = "p";
  cv_strategy = "selected";
  provider_id = "local";
  model = "default";
  dry_run = true;
  created_at = "now";
  updated_at = "now";
}

abbrev pub profile : CandidateProfile
profile = record {
  id = "p";
  name = "P";
  facts =
      record {
        id = "f";
        path = "identity.email";
        value = text_value "a@b.c";
        kind = verified_fact;
        source = cv_import;
        verified_at = none;
      }
      ∷ [];
  cv_variants = [];
  updated_at = 1;
}

abbrev pub posting : String → String → RawJob
posting source_id location = record {
  source = "wuzzuf";
  source_id = source_id;
  url = "";
  title = "Go";
  employer = "E";
  location = location;
  description = "";
  required_skills = none;
  preferred_skills = none;
  remote = none;
  seniority = none;
  salary = none;
  requirements = none;
  responsibilities = none;
  experience_level = none;
  employment_type = none;
  application_available = none;
  discovered_at = none;
}

-- The second is a duplicate, the third is far away, and the fourth comes after the limit of a run.
abbrev pub postings : List RawJob
postings = posting "1" "Cairo" ∷ posting "1" "Cairo" ∷ posting "2" "Oslo" ∷ posting "3" "Cairo" ∷ []

abbrev pub number_name : ℕ → String
number_name zero = "j0"
number_name (suc zero) = "j1"
number_name (suc (suc zero)) = "j2"
number_name (suc (suc (suc n))) = "j3"

abbrev pub setting : Setting
setting = record {
  now = 10;
  day_key = λ zone. "2026-07-22";
  correlation_id = "r";
  job_id = number_name;
  application_id = λ s. s;
  answer_id = λ s. s;
  lock_owner = "s1";
  lock_lease = 100;
  lower_case = λ s. s;
  tools = record { folded = λ s. s; number_text = λ n. ""; sha256 = λ s. s };
}

abbrev pub tables : Tables
tables = record { jobs = []; applications = []; usage = []; locks = []; audited = [] }
