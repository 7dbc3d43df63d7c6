-- ===== src/Jobs.antt =====
-- The jobs of packages/shared/src/domain.ts, and packages/shared/src/jobs.ts, which finds duplicates.
-- A time is in milliseconds.
pub mod Duplicates
pub mod Score
mod Tests
use extension_jobs.Common.{[], ◌∷◌, ◌++◌, includes, if◌then◌else◌, ℕ, String, Bool, Option, List, ℤ}

pub record RawJob : Type 0 where
  pub source : String
  pub source_id : String
  pub url : String
  pub title : String
  pub employer : String
  pub location : String
  pub description : String
  pub required_skills : Option (List String)
  pub preferred_skills : Option (List String)
  pub remote : Option Bool
  pub seniority : Option String
  pub salary : Option String
  pub requirements : Option (List String)
  pub responsibilities : Option (List String)
  pub experience_level : Option String
  pub employment_type : Option String
  pub application_available : Option Bool
  pub discovered_at : Option ℕ

pub record ScoreItem : Type 0 where
  pub factor : String
  pub points : ℤ
  pub reason : String

-- `Job extends RawJob`
pub record Job : Type 0 where
  pub raw : RawJob
  pub id : String
  pub fingerprint : String
  pub match_score : ℕ
  pub score_explanation : List ScoreItem

-- The three variables of the loop of `deduplicateJobs`.
pub record Sorted : Type 0 where
  pub seen : List String
  pub unique : List Job
  pub duplicate_ids : List String

abbrev pub sort_job : Sorted → Job → Sorted
sort_job s job =
    if includes job.fingerprint s.seen
    then record s { duplicate_ids = s.duplicate_ids ++ job.id ∷ [] }
    else record s { seen = s.seen ++ job.fingerprint ∷ []; unique = s.unique ++ job ∷ [] }

unfoldable pub sort_jobs : Sorted → List Job → Sorted
sort_jobs s [] = s
sort_jobs s (job ∷ jobs) = sort_jobs (sort_job s job) jobs

-- `deduplicateJobs`
unfoldable pub deduplicate_jobs : List Job → List Job × List String
unfolding sort_jobs
deduplicate_jobs jobs =
    let s = sort_jobs (record { seen = []; unique = []; duplicate_ids = [] }) jobs in
    (s.unique, s.duplicate_ids)
