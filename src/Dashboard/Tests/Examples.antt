-- ===== src/Dashboard/Tests/Examples.antt =====
-- A platform, a posting, applications and a campaign for the tests of apps/orchestrator/src/dashboard-api.ts.
use Prim.Native.Char.{code}
use extension_jobs.Common.{
  ℕ, zero, suc, ◌+◌, ◌≡◌, ◌∙◌, refl, ap, arith, String, true, false, none, some, List, [], ◌∷◌,
  ◌==◌, if◌then◌else◌,
}
use extension_jobs.Application.{PreparedApplication}
use extension_jobs.Contracts.Dashboard.{enabled}
use extension_jobs.Domain.{JobCampaign, prepare_and_review, auto_submit}
use extension_jobs.Domain
use extension_jobs.Jobs.{Job}
use extension_jobs.Json.{Members, member, end, string, array, item, nil, whole}
use extension_jobs.Store.Boards.{ManualActionItem, continued}
use extension_jobs.Store.Submissions.{ApplicationRow, Submissions}
use extension_jobs.Workflow.{ApplicationState, cancelled, waiting_for_approval}
use extension_jobs.Dashboard.{Platform}

abbrev pub unary : ℕ → String → String
unary zero rest = String.◌∷◌ "b" rest
unary (suc n) rest = String.◌∷◌ "a" (unary n rest)

abbrev pub write : List ℕ → String
write [] = String.[]
write (n ∷ ns) = unary n (write ns)

abbrev pub read : ℕ → String → List ℕ
read k String.[] = []
read k (String.◌∷◌ c s) =
    let again = read (suc k) s in let next = read 0 s in if code c == b'b' then k ∷ next else again

pub read-unary : (n k : ℕ) (rest : String) → read k (unary n rest) ≡ (k + n) ∷ read 0 rest
read-unary zero k rest = let e : k ≡ k + 0 = omega arith in ap (λ m. m ∷ read 0 rest) e
read-unary (suc n) k rest =
    let e : suc k + n ≡ k + suc n = omega arith in
    read-unary n (suc k) rest ∙ ap (λ m. m ∷ read 0 rest) e

pub read-write : (ns : List ℕ) → read 0 (write ns) ≡ ns
read-write [] = refl
read-write (n ∷ ns) =
    let e : 0 + n ≡ n = omega arith in
    read-unary n 0 (write ns) ∙ ap (λ m. m ∷ read 0 (write ns)) e ∙ ap (λ t. n ∷ t) (read-write ns)

-- Text is its own hash, and base64url is replaced by a unary code.
abbrev pub platform : Platform
platform = record {
  decode_uri_component = λ s. some s;
  lower_case = λ s. s;
  is_time_zone = λ s. true;
  parse_json = λ bytes. none;
  sha256 = λ s. s;
  to_base64url = write;
  from_base64url = read 0;
  whole_text = λ n. "";
  number_text = λ n. "";
}

abbrev pub posting : Job
posting = record {
  raw = record {
    source = "wuzzuf";
    source_id = "1";
    url = "u";
    title = "t";
    employer = "e";
    location = "l";
    description = "d";
    required_skills = none;
    preferred_skills = none;
    remote = none;
    seniority = none;
    salary = none;
    requirements = none;
    responsibilities = none;
    experience_level = none;
    employment_type = none;
    application_available = none;
    discovered_at = none;
  };
  id = "j1";
  fingerprint = "f1";
  match_score = 80;
  score_explanation = [];
}

abbrev pub application : String → ApplicationState → PreparedApplication
application id state = record {
  id = id;
  correlation_id = "c";
  job_id = "j1";
  job = posting;
  profile_id = "p";
  profile_snapshot_id = none;
  resume_file_id = none;
  resume_hash = none;
  facts_hash = none;
  selected_resume = none;
  answers = [];
  filled_fields = [];
  skipped_fields = [];
  validation_errors = [];
  sensitive_fields = [];
  screenshots = [];
  state = state;
  dry_run = true;
  submission_allowed = false;
  last_successful_step = "selected";
  errors = [];
  created_at = 1;
  updated_at = 1;
  submitted_at = none;
  submission_result = none;
  adapter_session_id = none;
  review_revision = none;
  form_fingerprint = none;
  form_value_hash = none;
}

abbrev pub row : String → ApplicationState → ApplicationRow
row id state = record {
  id = id;
  job_id = "j1";
  state = state;
  submission_key = none;
  record_data = application id state;
}

-- The first application was cancelled and the job prepared again.
abbrev pub twice_prepared : Submissions
twice_prepared = record {
  applications = row "old" cancelled ∷ row "new" waiting_for_approval ∷ [];
  attempts = [];
}

abbrev pub done : ManualActionItem
done = record {
  id = "application:new:FORM_CHANGED";
  application_id = some "new";
  kind = "form_changed";
  status = continued;
  title = "Application form changed";
  detail = end;
  created_at = 1;
  updated_at = 2;
}

abbrev pub body : Members
body = member "name" (string "Backend") (
    member "searchQueries" (array (item (string "node") nil)) (
      member "locations" (array (item (string "Cairo") nil)) (
        member "profileId" (string "p") (
          member "executionMode" (string "auto_submit")
            (member "maxApplicationsPerDay" (string "5") end)))))

abbrev pub accepted : JobCampaign
accepted = record {
  id = "id";
  name = "Backend";
  state = enabled;
  search_queries = "node" ∷ [];
  locations = "Cairo" ∷ [];
  workplace = Domain.remote ∷ [];
  included_keywords = [];
  excluded_keywords = [];
  seniority = [];
  minimum_match_score = whole 70;
  allowed_sites = "development" ∷ [];
  max_applications_per_run = whole 10;
  max_applications_per_day = whole 5;
  timezone = some "Africa/Cairo";
  schedule = none;
  execution_mode = prepare_and_review;
  profile_id = "p";
  cv_strategy = "selected";
  provider_id = "openclaw";
  model = "default";
  dry_run = true;
  created_at = "now";
  updated_at = "now";
}
