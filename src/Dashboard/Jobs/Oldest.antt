-- ===== src/Dashboard/Jobs/Oldest.antt =====
-- Which application the dashboard shows for a job that has several:
-- `dashboardJobs` of apps/orchestrator/src/dashboard-api.ts.
use extension_jobs.Common.{
  String, some, List, [], ◌∷◌, ◌++◌, map, ◌≡◌, refl, ap, subst, ◌∙◌, str_eq, str_eq→eq, map_get,
  map_set, map_get-map_set, map_get-map_set_other, find, Bool-cases, inl, inr,
}
use extension_jobs.Application.{PreparedApplication}
use extension_jobs.Store.Approvals.{newest_first}
use extension_jobs.Store.Submissions.{Submissions, ApplicationRow, application_of}
use extension_jobs.Dashboard.Jobs.{by_job_from, by_job, list_prepared_applications}

by_job_from-append_one :
    (m : List (String × PreparedApplication)) (xs : List PreparedApplication)
    (a : PreparedApplication)
    → by_job_from m (xs ++ a ∷ []) ≡ map_set a.job_id a (by_job_from m xs)
by_job_from-append_one m [] a = refl
by_job_from-append_one m (x ∷ xs) a = by_job_from-append_one (map_set x.job_id x m) xs a

map-append_one :
    (xs : List ApplicationRow) (r : ApplicationRow)
    → map application_of (xs ++ r ∷ []) ≡ map application_of xs ++ application_of r ∷ []
map-append_one [] r = refl
map-append_one (x ∷ xs) r = ap (λ t. application_of x ∷ t) (map-append_one xs r)

oldest :
    (k : String) (rows : List ApplicationRow)
    → map_get k (by_job (map application_of (newest_first rows)))
      ≡ find (λ a. str_eq a.job_id k) (map application_of rows)
unfolding newest_first by_job
oldest k [] = refl
oldest k (r ∷ rows) =
    let a : PreparedApplication = application_of r in
    let older : List (String × PreparedApplication) =
      by_job_from [] (map application_of (newest_first rows)) in
    let last_set : by_job_from [] (map application_of (newest_first rows ++ r ∷ []))
        ≡ map_set a.job_id a older =
      ap (λ t. by_job_from [] t) (map-append_one (newest_first rows) r)
      ∙ by_job_from-append_one [] (map application_of (newest_first rows)) a in
    ap (λ m. map_get k m) last_set ∙ elim (Bool-cases (str_eq a.job_id k)) [
      | inl same ↦ rw same (
          subst (λ j. map_get j (map_set a.job_id a older) ≡ some a) (str_eq→eq a.job_id k same)
            (map_get-map_set a.job_id a older))
      | inr other ↦ rw other (map_get-map_set_other k a.job_id a older other ∙ oldest k rows)
    ]

-- For a job that has several applications, the map that `dashboardJobs` builds holds the oldest one, the
-- first row of the table.
pub by_job-oldest :
    (t : Submissions) (job_id : String)
    → map_get job_id (by_job (list_prepared_applications t))
      ≡ find (λ a. str_eq a.job_id job_id) (map application_of t.applications)
unfolding list_prepared_applications
by_job-oldest t job_id = oldest job_id t.applications
