-- ===== src/Dashboard/Dispatch/HiddenViews.antt =====
-- The list of the saved views cannot be read: the routes of apps/orchestrator/src/dashboard-api.ts.
use extension_jobs.Common.{
  false, none, some, List, [], ◌∷◌, ◌≡◌, refl, sym, str_eq, find, ok, err, ok_not_err,
}
use extension_jobs.Dashboard.{Attempt, Platform}
use extension_jobs.Dashboard.Content.{Content}
use extension_jobs.Dashboard.Decisions.{Surroundings, World, job_at, get_one_job}
use extension_jobs.Dashboard.Dispatch.{authenticated, dispatch, on_route, handle}
use extension_jobs.Dashboard.Handlers.{not_found, decoded}
use extension_jobs.Dashboard.Jobs.{DashboardJobView, dashboard_jobs}
use extension_jobs.Dashboard.Replies.{Request}
use extension_jobs.Dashboard.Routes.{get_job, route}
use extension_jobs.Dashboard.Services.{JobsApi}
use extension_jobs.Dashboard.Sessions.{DashboardSessions, Session, authenticate}
use extension_jobs.Dashboard.Values.{decode}

views_are_a_job : route "GET" ("jobs" ∷ "views" ∷ []) ≡ some (get_job "views")
unfolding route
views_are_a_job = refl

abbrev pub views_request : Request → Request
views_request request = record request { method = "GET"; path = "jobs" ∷ "views" ∷ [] }

module _ (platform : Platform) (api : JobsApi) (around : Surroundings) (request : Request) where
  absent_at :
      (js : List DashboardJobView)
      → platform.decode_uri_component "views" ≡ some "views"
      → find (λ v. str_eq v.job.id "views") js ≡ none
      → job_at platform api around (views_request request) "views" js
        ≡ err (not_found "Job not found")
  unfolding decoded decode
  absent_at [] plain absent = refl
  absent_at (j ∷ js) plain absent = rw plain (rw absent refl)

  no_such_job :
      (c : Content)
      → platform.decode_uri_component "views" ≡ some "views"
      → find (λ v. str_eq v.job.id "views") (dashboard_jobs c) ≡ none
      → (get_one_job platform api around (views_request request) "views" c).1
        ≡ err (not_found "Job not found")
  unfolding get_one_job
  no_such_job c plain absent = rw (absent_at (dashboard_jobs c) plain absent) refl

  dispatched :
      (w : World) (r : DashboardSessions × Attempt Session) {found : Session}
      → platform.decode_uri_component "views" ≡ some "views"
      → find (λ v. str_eq v.job.id "views") (dashboard_jobs w.content) ≡ none
      → r.1 ≡ ok found
      → (authenticated platform api around (views_request request) w r).1
        ≡ err (not_found "Job not found")
  unfolding authenticated dispatch on_route
  dispatched w (s, err x) {found} plain absent h = absurd (ok_not_err (sym h))
  dispatched w (s, ok x) {found} plain absent h = no_such_job w.content plain absent

  -- GET /v1/dashboard/jobs/views with a session is answered with 404 "Job not found" if no job has the id
  -- "views", whatever views are saved: the route of one job comes first. A text without a percent sign
  -- is decoded to itself.
  pub handle-views_request :
      (w : World) {found : Session}
      → platform.decode_uri_component "views" ≡ some "views"
      → find (λ v. str_eq v.job.id "views") (dashboard_jobs w.content) ≡ none
      → (authenticate platform request.now request.headers false w.sessions).1 ≡ ok found
      → (handle platform api around (views_request request) w).1 ≡ err (not_found "Job not found")
  unfolding handle
  handle-views_request w {found} plain absent h =
      dispatched w (authenticate platform request.now request.headers false w.sessions) plain absent
        h
