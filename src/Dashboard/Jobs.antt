-- ===== src/Dashboard/Jobs.antt =====
-- `dashboardJobs` and GET /v1/dashboard/jobs of apps/orchestrator/src/dashboard-api.ts.
pub mod Oldest
use extension_jobs.Common.{
  ℕ, String, Bool, true, false, not, ◌&&◌, ◌||◌, Option, none, some, List, [], ◌∷◌, ◌++◌, map, ltb,
  str_eq, opt_eq, contains, is_empty, trim, get_or, map_option, keep, sort, find_by, map_get,
  map_set, Result, ok, err, ◌>>=◌, or_throw, if◌then◌else◌, ◌<>◌,
}
use extension_jobs.Json.{Number, no_more}
use extension_jobs.Jobs.{Job}
use extension_jobs.Application.{PreparedApplication}
use extension_jobs.Contracts.Dashboard.{CursorPage, Disposition, shortlisted, rejected}
use extension_jobs.Store.Approvals.{newest_first}
use extension_jobs.Store.Submissions.{Submissions, ApplicationRow, application_of}
use extension_jobs.Store.Boards.{get_job_disposition, job_tags, get_job_note}
use extension_jobs.Dashboard.{Attempt, Platform, http_error}
use extension_jobs.Dashboard.Content.{Content, list_jobs, state_name}
use extension_jobs.Dashboard.Paging.{Query, param, page}
use extension_jobs.Dashboard.Values.{bounded}
use extension_jobs.Dashboard.Cookies.{present}

pub record DashboardJobView : Type 0 where
  pub job : Job
  pub remote : Bool
  pub disposition : Option Disposition
  pub tags : List String
  pub note : Option String
  pub note_version : Option ℕ
  pub application_state : Option String
  pub application_id : Option String

unfoldable pub list_prepared_applications : Submissions → List PreparedApplication
unfolding newest_first
list_prepared_applications t = map application_of (newest_first t.applications)

-- `new Map(applications.map((application) => [application.jobId, application]))`
abbrev pub by_job_from :
    List (String × PreparedApplication)
    → List PreparedApplication
    → List (String × PreparedApplication)
by_job_from m [] = m
by_job_from m (a ∷ rest) = by_job_from (map_set a.job_id a m) rest

unfoldable pub by_job : List PreparedApplication → List (String × PreparedApplication)
by_job applications = by_job_from [] applications

abbrev view_of : Content → Job → Option (String × ℕ) → Option PreparedApplication → DashboardJobView
unfolding get_job_disposition job_tags state_name
view_of c job note application = record {
  job = job;
  remote = get_or job.raw.remote false;
  disposition = get_job_disposition job.id c.boards.dispositions;
  tags = job_tags job.id c.boards.tags;
  note = map_option (λ n. n.0) note;
  note_version = map_option (λ n. n.1) note;
  application_state = map_option (λ a. state_name a.state) application;
  application_id = map_option (λ a. a.id) application;
}

unfoldable pub dashboard_jobs : Content → List DashboardJobView
unfolding list_prepared_applications by_job list_jobs get_job_note view_of
dashboard_jobs c =
    let applications = by_job (list_prepared_applications c.submissions) in
    map (λ job. view_of c job (get_job_note job.id c.boards.notes) (map_get job.id applications))
      (list_jobs c)

-- `!wanted || actual === wanted`, of which the empty text is falsy.
abbrev pub asked : Option String → Option String → Bool
asked none actual = true
asked (some wanted) actual = is_empty wanted || opt_eq actual wanted

abbrev pub disposition_name : Disposition → String
disposition_name shortlisted = "shortlisted"
disposition_name rejected = "rejected"

-- `String(right ?? '').localeCompare(String(left ?? '')) < 0` on the texts of times.
abbrev is_later : Option ℕ → Option ℕ → Bool
is_later none _ = false
is_later (some t) none = true
is_later (some t) (some u) = ltb u t

module _ (platform : Platform) where
  -- `(searchParams.get('q') ?? '').trim().toLocaleLowerCase()`
  abbrev pub wanted_words : Query → String
  wanted_words query = platform.lower_case (trim (get_or (map_get "q" query) ""))

  abbrev pub searched : DashboardJobView → String
  searched v = platform.lower_case (
      v.job.raw.title <> " " <> v.job.raw.employer <> " " <> v.job.raw.location <> " "
      <> v.job.raw.description)

  unfoldable pub job_matches : Query → Number → DashboardJobView → Bool
  job_matches query min_score v =
      (is_empty (wanted_words query) || contains (searched v) (wanted_words query))
      && asked (map_get "source" query) (some v.job.raw.source)
      && asked (map_get "disposition" query) (map_option disposition_name v.disposition)
      && asked (map_get "state" query) v.application_state
      && no_more v.job.match_score min_score

  abbrev pub is_before : Bool → DashboardJobView → DashboardJobView → Bool
  is_before by_score v w =
      if by_score
      then ltb w.job.match_score v.job.match_score
      else is_later v.job.raw.discovered_at w.job.raw.discovered_at

  unfoldable pub jobs_page : Query → Content → Attempt (CursorPage DashboardJobView)
  unfolding dashboard_jobs bounded job_matches page
  jobs_page query c = bounded (param "minScore" query) 0 100 0 >>= λ min_score.
      page platform
        (sort (is_before (opt_eq (map_get "sort" query) "score"))
          (keep (job_matches query min_score) (dashboard_jobs c)))
        query
