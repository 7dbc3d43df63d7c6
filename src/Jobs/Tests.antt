-- ===== src/Jobs/Tests.antt =====
-- The removal of duplicates at a list of three jobs.
use extension_jobs.Common.{
  find, str_eq, ◌+◌, ◌≤◌, ◌≡◌, refl, String, true, none, List, [], ◌∷◌, map, Distinct,
}
use extension_jobs.Jobs.{Job, sort_jobs, deduplicate_jobs}
use extension_jobs.Contracts.Dashboard.{enabled}
use extension_jobs.Domain.{CandidateProfile, JobCampaign, prepare_and_review, remote}
use extension_jobs.Json.{whole}
use extension_jobs.Jobs.Score.{
  TextTools, score_job, normalize_job, fingerprint_job, clean, described,
}
use extension_jobs.Jobs.Score.Bounds.{score_job_excluded}
use extension_jobs.Jobs.Duplicates.{occurrences, deduplicate_jobs_lem}

abbrev posting : String → String → Job
posting id fingerprint = record {
  raw = record {
    source = "wuzzuf";
    source_id = id;
    url = "u";
    title = "t";
    employer = "e";
    location = "l";
    description = "d";
    required_skills = none;
    preferred_skills = none;
    remote = none;
    seniority = none;
    salary = none;
    requirements = none;
    responsibilities = none;
    experience_level = none;
    employment_type = none;
    application_available = none;
    discovered_at = none;
  };
  id = id;
  fingerprint = fingerprint;
  match_score = 0;
  score_explanation = [];
}

abbrev three : List Job
three = posting "1" "a" ∷ posting "2" "b" ∷ posting "3" "a" ∷ []

two_kept : deduplicate_jobs three ≡ (posting "1" "a" ∷ posting "2" "b" ∷ [], "3" ∷ [])
unfolding deduplicate_jobs sort_jobs
two_kept = refl

deduplicate_jobs_lem_example :
    Distinct (map (λ j. j.fingerprint) (deduplicate_jobs three).0)
    × ((p : String)
        → find (λ j. str_eq j.fingerprint p) (deduplicate_jobs three).0
          ≡ find (λ j. str_eq j.fingerprint p) three)
    × ((k : String)
        → occurrences k (map (λ j. j.id) (deduplicate_jobs three).0)
            + occurrences k (deduplicate_jobs three).1
          ≡ occurrences k (map (λ j. j.id) three))
deduplicate_jobs_lem_example = deduplicate_jobs_lem three

abbrev tools : TextTools
tools = record { folded = λ s. s; number_text = λ n. "1"; sha256 = λ s. s }

abbrev profile : CandidateProfile
profile = record { id = "p"; name = "n"; facts = []; cv_variants = []; updated_at = 1 }

abbrev campaign : JobCampaign
campaign = record {
  id = "c";
  name = "n";
  state = enabled;
  search_queries = [];
  locations = "l" ∷ [];
  workplace = remote ∷ [];
  included_keywords = [];
  excluded_keywords = "x" ∷ "t" ∷ [];
  seniority = [];
  minimum_match_score = whole 70;
  allowed_sites = [];
  max_applications_per_run = whole 1;
  max_applications_per_day = whole 1;
  timezone = none;
  schedule = none;
  execution_mode = prepare_and_review;
  profile_id = "p";
  cv_strategy = "s";
  provider_id = "o";
  model = "m";
  dry_run = true;
  created_at = "1";
  updated_at = "1";
}

ten_points : (score_job tools (posting "1" "a") profile campaign).match_score ≡ 10
unfolding score_job clean
ten_points = refl

normalized : (normalize_job tools "u" (posting "7" "a").raw).fingerprint ≡ "wuzzuf|7"
unfolding normalize_job fingerprint_job clean
normalized = refl

cleaned : clean tools " c++ / .net" ≡ "c net"
unfolding clean
cleaned = refl

title_hit : described tools (posting "1" "a").raw "t" ≡ true
unfolding clean
title_hit = refl

score_job_excluded_at : (score_job tools (posting "1" "a") profile campaign).match_score ≤ 50
score_job_excluded_at =
    score_job_excluded tools (posting "1" "a") profile campaign "t" refl title_hit
