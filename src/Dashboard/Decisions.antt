-- ===== src/Dashboard/Decisions.antt =====
-- The handlers of approvals of apps/orchestrator/src/dashboard-api.ts, which use the tokens of the sessions,
-- and GET jobs/:id.
use extension_jobs.Common.{
  ℕ, String, Bool, false, Option, none, some, List, [], ◌∷◌, str_eq, find, Result, ok, err, ◌>>=◌,
  or_throw,
}
use extension_jobs.Json.{Json, Members, bool, field}
use extension_jobs.Application.{SubmissionResult}
use extension_jobs.Contracts.Dashboard.{Labelled}
use extension_jobs.Domain.{JobCampaign, AuditEvent}
use extension_jobs.Policy.{connector_for_host}
use extension_jobs.Store.Approvals.{ApprovalRequest}
use extension_jobs.Dashboard.{Attempt, Platform, http_error}
use extension_jobs.Dashboard.Applications.{without_approval_secrets}
use extension_jobs.Dashboard.Content.{Content}
use extension_jobs.Dashboard.Handlers.{body_of, decoded, not_found}
use extension_jobs.Dashboard.Jobs.{DashboardJobView, dashboard_jobs}
use extension_jobs.Dashboard.Replies.{
  Request, Thrown, http_thrown, other_thrown, Reply, job_reply, approval_reply, submission_reply,
  Handled, lift, reading,
}
use extension_jobs.Dashboard.Services.{Decision, JobsApi, connector_state, key_of}
use extension_jobs.Dashboard.Sessions.{DashboardSessions}
use extension_jobs.Dashboard.Sessions.Tokens.{
  approval_token, remember_approval_token, forget_approval_token,
}
use extension_jobs.Dashboard.Values.{text}
use extension_jobs.Store.Approvals.{get_approval_request}

-- What the handlers take from the rest of the process: the status of the browser, the counts of the
-- queue, the order and the values of the times of campaigns, the merge of a campaign with a body, the
-- host of a URL, if it is one, and the 200 newest audit events.
pub record Surroundings : Type 0 where
  pub browser_status : String
  pub queue_health : Content → List Labelled
  pub later : String → String → Bool
  pub time : String → ℕ
  pub merged : JobCampaign → Members → Members
  pub hostname : String → Option String
  pub recent_events : Content → List AuditEvent

pub record World : Type 0 where
  pub content : Content
  pub sessions : DashboardSessions

abbrev pub Outcome : Type 0
Outcome = World × Result Thrown Reply

-- A handler that leaves the sessions alone.
abbrev pub on_content : World → Handled → Outcome
on_content w h = (record w { content = h.0 }, h.1)

-- A method of the sessions, and its answer.
abbrev pub on_sessions :
    {A : Type 0} → World → (A → Reply) → DashboardSessions × Attempt A → Outcome
on_sessions w reply (s, ok a) = (record w { sessions = s }, ok (reply a))
on_sessions w reply (s, err e) = (record w { sessions = s }, err (http_thrown e))

module _ (platform : Platform) (api : JobsApi) (around : Surroundings) (request : Request) where
  -- `find`, whose test decodes the segment: nothing is decoded where there are no jobs.
  abbrev pub job_at : String → List DashboardJobView → Result Thrown DashboardJobView
  unfolding decoded
  job_at segment [] = err (not_found "Job not found")
  job_at segment (j ∷ js) = decoded platform request segment >>= λ id.
      or_throw (find (λ v. str_eq v.job.id id) (j ∷ js)) (not_found "Job not found")

  -- GET jobs/:id
  unfoldable pub get_one_job : String → Content → Handled
  unfolding job_at dashboard_jobs connector_state connector_for_host
  get_one_job segment c = reading c (
      job_at segment (dashboard_jobs c) >>= λ v.
      or_throw (around.hostname v.job.raw.url) other_thrown >>= λ host. ok (
        job_reply v (
          connector_state platform api request (connector_for_host platform.lower_case host)
            c.registry)))

  abbrev remembered : String → World → Content × Result Thrown Decision → Outcome
  unfolding remember_approval_token without_approval_secrets
  remembered id w (c, err e) = (record w { content = c }, err e)
  remembered id w (c, ok d) = (
    record { content = c; sessions = keep_token d.token },
    ok (approval_reply (without_approval_secrets d.decided)),
  )
    where
      keep_token : Option String → DashboardSessions
      keep_token none = w.sessions
      keep_token (some t) = remember_approval_token id t d.decided.expires_at w.sessions

  abbrev wanted : Option Json → Result Thrown Bool
  wanted (some (bool b)) = ok b
  wanted _ = err (http_thrown (http_error 400 "approved must be a boolean"))

  abbrev decide_with : String → World → Result Thrown (String × Bool) → Outcome
  unfolding remembered
  decide_with segment w (err e) = (w, err e)
  decide_with segment w (ok a) =
      remembered a.0 w (api.decide_application_approval a.0 a.1 w.content)

  -- POST approvals/:id/decision
  unfoldable pub decide_approval_at : String → World → Outcome
  unfolding body_of decoded decide_with
  decide_approval_at segment w = decide_with segment w (
      body_of platform request >>= λ body.
      wanted (field "approved" body) >>= λ b. decoded platform request segment >>= λ id. ok (id, b))

  abbrev submitted_at : String → World → Content × Result Thrown SubmissionResult → Outcome
  unfolding forget_approval_token
  submitted_at id w (c, err e) = (record w { content = c }, err e)
  submitted_at id w (c, ok r) = (
    record { content = c; sessions = forget_approval_token id w.sessions },
    ok (submission_reply r),
  )

  abbrev submit_with :
      ApprovalRequest
      → String
      → Result Thrown String
      → World
      → DashboardSessions × Attempt String
      → Outcome
  unfolding submitted_at
  submit_with approval id key w (s, err e) = (record w { sessions = s }, err (http_thrown e))
  submit_with approval id (err e) w (s, ok token) = (record w { sessions = s }, err e)
  submit_with approval id (ok key) w (s, ok token) =
      submitted_at id (record w { sessions = s })
        (api.submit_application approval.application_id id token key w.content)

  abbrev submit_found : World → Result Thrown (Members × String × ApprovalRequest) → Outcome
  unfolding text approval_token submit_with
  submit_found w (err e) = (w, err e)
  submit_found w (ok a) =
      submit_with a.2 a.1
        (lift (text (key_of (field "idempotencyKey" a.0) request.uuid) "idempotencyKey" 128 false))
        w (approval_token request.now a.1 w.sessions)

  -- POST approvals/:id/submit
  unfoldable pub submit_approval_at : String → World → Outcome
  unfolding body_of decoded get_approval_request submit_found
  submit_approval_at segment w = submit_found w (
      body_of platform request >>= λ body. decoded platform request segment >>= λ id.
      or_throw (get_approval_request id w.content.approvals) (not_found "Approval not found")
      >>= λ approval. ok (body, id, approval))
