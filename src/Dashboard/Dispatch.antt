-- ===== src/Dashboard/Dispatch.antt =====
-- `handleDashboardRequest` of apps/orchestrator/src/dashboard-api.ts: sessions, authentication, the choice
-- of the handler, and the answer to an error.
pub mod Denied
pub mod HiddenViews
use extension_jobs.Common.{
  ℕ, String, Bool, true, false, not, ◌&&◌, ◌||◌, Option, none, some, List, [], ◌∷◌, str_eq,
  is_empty, find, includes, map_get, Result, ok, err, ◌>>=◌, or_throw, if◌then◌else◌,
}
use extension_jobs.Json.{Json, Members, bool, field, string}
use extension_jobs.Application.{SubmissionResult}
use extension_jobs.Contracts.Dashboard.{Labelled}
use extension_jobs.Domain.{JobCampaign, AuditEvent}
use extension_jobs.Policy.{ConnectorId}
use extension_jobs.Store.Approvals.{ApprovalRequest}
use extension_jobs.Dashboard.{Attempt, Platform, DashboardHttpError, http_error}
use extension_jobs.Dashboard.Applications.{
  applications_page, approvals_page, without_approval_secrets,
}
use extension_jobs.Dashboard.Content.{Content}
use extension_jobs.Dashboard.Handlers.{
  body_of, decoded, not_found, decide_job, bulk_jobs, put_note, list_views, save_view, remove_view,
  get_application, preview_campaign, get_manual_actions, get_activity, get_preferences,
  put_preferences, engage_stop, reset_stop,
}
use extension_jobs.Dashboard.Jobs.{DashboardJobView, dashboard_jobs, jobs_page}
use extension_jobs.Dashboard.Replies.{
  Request, Thrown, http_thrown, Reply, logged_in, renewed, logged_out, summary_reply, jobs_reply,
  job_reply, applications_reply, approvals_reply, approval_reply, submission_reply, campaigns_reply,
  analytics_reply, Handled, lift, reading,
}
use extension_jobs.Dashboard.Routes.{
  Route, get_summary, get_jobs, get_approvals, get_applications, get_campaigns, get_analytics,
  get_job, decide_approval, submit_approval, route,
}
use extension_jobs.Dashboard.Services.{
  Decision, JobsApi, Service, connector_state, get_connectors, get_connector, connector_action,
  prepare_job, request_approval, fill_application, key_of,
}
use extension_jobs.Dashboard.CampaignRoutes.{
  create_campaign, update_campaign, campaign_action, manual_action,
}
use extension_jobs.Dashboard.Sessions.{
  DashboardSessions, LoggedIn, Renewed, Session, login, session, logout, authenticate,
}
use extension_jobs.Dashboard.Sessions.Tokens.{
  approval_token, remember_approval_token, forget_approval_token,
}
use extension_jobs.Dashboard.Summary.{summary, analytics, list_campaigns}
use extension_jobs.Dashboard.Values.{text}
use extension_jobs.Store.Approvals.{get_approval_request}
use extension_jobs.Dashboard.Decisions.{
  Surroundings, World, Outcome, on_content, on_sessions, get_one_job, decide_approval_at,
  submit_approval_at,
}

abbrev pub is_session : List String → Bool
is_session (s ∷ []) = str_eq s "session"
is_session _ = false

-- `!['GET', 'HEAD'].includes(method)`
abbrev pub is_mutation : String → Bool
is_mutation method = not (includes method ("GET" ∷ "HEAD" ∷ []))

module _ (platform : Platform) (api : JobsApi) (around : Surroundings) (request : Request) where
  abbrev replied : {A : Type 0} → (A → Reply) → Result Thrown A → Result Thrown Reply
  replied reply r = r >>= λ a. ok (reply a)

  -- GET summary
  abbrev pub summarised : World → Outcome
  unfolding summary
  summarised w =
      let done =
        summary platform request.now around.browser_status (around.queue_health w.content)
          around.later around.time w.content in
      (record w { content = done.0 }, ok (summary_reply done.1))

  abbrev pub analysed : Content → Reply
  unfolding analytics
  analysed c = let a = analytics c in analytics_reply a.0 a.1

  abbrev pub on_route : Option Route → World → Outcome
  unfolding get_one_job decide_approval_at submit_approval_at jobs_page applications_page
      approvals_page list_campaigns decide_job bulk_jobs put_note list_views save_view remove_view
      get_application preview_campaign get_manual_actions get_activity get_preferences
      put_preferences engage_stop reset_stop get_connectors get_connector connector_action
      prepare_job request_approval fill_application create_campaign update_campaign campaign_action
      manual_action
  on_route none w = (w, err (not_found "Dashboard endpoint not found"))
  on_route (some get_summary) w = summarised w
  on_route (some get_jobs) w =
      on_content w
        (reading w.content (replied jobs_reply (lift (jobs_page platform request.query w.content))))
  on_route (some (get_job id)) w =
      on_content w (get_one_job platform api around request id w.content)
  on_route (some (Route.decide_job id action)) w =
      on_content w (decide_job platform request id action w.content)
  on_route (some Route.bulk_jobs) w = on_content w (bulk_jobs platform request w.content)
  on_route (some (Route.put_note id)) w = on_content w (put_note platform request id w.content)
  on_route (some Route.list_views) w = on_content w (list_views platform request w.content)
  on_route (some Route.save_view) w = on_content w (save_view platform request w.content)
  on_route (some (Route.remove_view id)) w =
      on_content w (remove_view platform request id w.content)
  on_route (some get_applications) w = on_content w (
      reading w.content
        (replied applications_reply (lift (applications_page platform request.query w.content))))
  on_route (some (Route.get_application id)) w =
      on_content w (get_application platform request id w.content)
  on_route (some (Route.prepare_job id)) w =
      on_content w (prepare_job platform api request id w.content)
  on_route (some (Route.fill_application id)) w =
      on_content w (fill_application platform api request id w.content)
  on_route (some (Route.request_approval id)) w =
      on_content w (request_approval platform api request id w.content)
  on_route (some get_approvals) w = on_content w (
      reading w.content
        (replied approvals_reply (lift (approvals_page platform request.query w.content))))
  on_route (some (decide_approval id)) w = decide_approval_at platform api around request id w
  on_route (some (submit_approval id)) w = submit_approval_at platform api around request id w
  on_route (some get_campaigns) w =
      on_content w
        (reading w.content (ok (campaigns_reply (list_campaigns around.later w.content))))
  on_route (some Route.preview_campaign) w =
      on_content w (preview_campaign platform request w.content)
  on_route (some Route.create_campaign) w =
      on_content w (create_campaign platform api request w.content)
  on_route (some (Route.update_campaign id)) w =
      on_content w (update_campaign platform api request around.merged id w.content)
  on_route (some (Route.campaign_action id action)) w =
      on_content w (campaign_action platform api request id action w.content)
  on_route (some Route.get_connectors) w =
      on_content w (get_connectors platform api request w.content)
  on_route (some (Route.get_connector id)) w =
      on_content w (get_connector platform api request id w.content)
  on_route (some (Route.connector_action id action)) w =
      on_content w (connector_action platform api request id action w.content)
  on_route (some Route.get_manual_actions) w =
      on_content w (get_manual_actions platform request w.content)
  on_route (some (Route.manual_action id action)) w =
      on_content w (manual_action platform api request id action w.content)
  on_route (some Route.get_activity) w = on_content w (
      get_activity platform request (around.recent_events w.content) (map_get "type" request.query)
        w.content)
  on_route (some get_analytics) w = on_content w (reading w.content (ok (analysed w.content)))
  on_route (some Route.get_preferences) w =
      on_content w (get_preferences platform request w.content)
  on_route (some Route.put_preferences) w =
      on_content w (put_preferences platform request w.content)
  on_route (some Route.engage_stop) w = on_content w (engage_stop platform request w.content)
  on_route (some Route.reset_stop) w = on_content w (reset_stop platform request w.content)

  -- The handler of a request whose session holds.
  unfoldable pub dispatch : World → Outcome
  unfolding route on_route
  dispatch w = on_route (route request.method request.path) w

  abbrev code_of : Result Thrown Members → Result Thrown String
  unfolding text
  code_of body = body >>= λ b. lift (text (field "code" b) "code" 256 false)

  abbrev logged_in_with : Result Thrown String → World → Outcome
  unfolding login
  logged_in_with (err e) w = (w, err e)
  logged_in_with (ok code) w =
      on_sessions w logged_in
        (login platform request.now code request.session_token request.csrf_token w.sessions)

  -- POST, GET and DELETE session come before the authentication.
  unfoldable pub open_session : World → Outcome
  unfolding body_of code_of logged_in_with
  open_session w = logged_in_with (code_of (body_of platform request)) w

  abbrev pub authenticated : World → DashboardSessions × Attempt Session → Outcome
  unfolding dispatch
  authenticated w (s, err e) = (record w { sessions = s }, err (http_thrown e))
  authenticated w (s, ok _) = dispatch (record w { sessions = s })

  unfoldable pub handle : World → Outcome
  unfolding open_session session logout authenticate authenticated
  handle w =
      if is_session request.path && str_eq request.method "POST"
      then open_session w
      else if is_session request.path && str_eq request.method "GET"
      then on_sessions w renewed
          (session platform request.now request.headers request.csrf_token w.sessions)
      else if is_session request.path && str_eq request.method "DELETE"
      then on_sessions w (λ _. logged_out) (logout platform request.now request.headers w.sessions)
      else authenticated w (
          authenticate platform request.now request.headers (is_mutation request.method) w.sessions)
