-- ===== src/Dashboard/Services.antt =====
-- The handlers of apps/orchestrator/src/dashboard-api.ts that call the other services: campaigns,
-- connectors (`capabilities` and `configureConnector` of apps/orchestrator/src/job-application-service.ts),
-- approvals, submissions, manual actions.
-- `JobsApi` is what they use of JobApplicationService and OrchestratorService beyond that.
use extension_jobs.Common.{
  ℕ, String, Bool, true, false, Option, none, some, List, [], ◌∷◌, map, str_eq, Result, ok, err,
  ◌>>=◌, or_throw, ◌<>◌, find,
}
use extension_jobs.Json.{Json, bool, string, array, Items, nil, item, end, member, Number, field}
use extension_jobs.Application.{PreparedApplication, SubmissionResult}
use extension_jobs.Domain.{JobCampaign}
use extension_jobs.Policy.{
  ConnectorId, wuzzuf, indeed, linkedin, bayt, glassdoor, ziprecruiter, greenhouse, lever, ashby,
  workable, smartrecruiters, workday, employer_site, email, unsupported_site, development, Registry,
  policies, get, is_enabled, PolicyError,
}
use extension_jobs.Policy.Configured.{Configured, configure_connector}
use extension_jobs.Store.Approvals.{ApprovalRequest}
use extension_jobs.Dashboard.{Platform}
use extension_jobs.Dashboard.Applications.{public_application, without_approval_secrets}
use extension_jobs.Dashboard.Content.{Content}
use extension_jobs.Dashboard.Handlers.{not_found, body_of, decoded, logged}
use extension_jobs.Dashboard.Replies.{
  Request, Thrown, other_thrown, Reply, ConnectorState, application_reply, approval_reply,
  connectors_reply, connector_reply, Handled, lift, reading, writing,
}
use extension_jobs.Dashboard.Values.{text, bounded, record_of}

-- What `decideApproval` returns: the request, and a token where it was approved.
pub record Decision : Type 0 where
  pub decided : ApprovalRequest
  pub token : Option String

abbrev pub Service : Type 0 → Type 0
Service A = Content → Content × Result Thrown A

-- An answer that the user approved by hand.
pub record Override : Type 0 where
  pub field_id : Option String
  pub label : Option String
  pub value : String

pub record JobsApi : Type 0 where
  pub prepare_application : String → Option String → Bool → String → Service PreparedApplication
  pub fill_application :
      String → Option (List Override) → Bool → String → Service PreparedApplication
  pub request_submission_approval : String → Number → String → Service ApprovalRequest
  pub decide_application_approval : String → Bool → Service Decision
  pub submit_application : String → String → String → String → Service SubmissionResult
  pub cancel_application : String → Service (Unit {0})
  pub run_campaign : JobCampaign → Service String
  pub has_profile : Content → String → Bool

abbrev pub connector_names : List (String × ConnectorId)
connector_names =
    ("wuzzuf", wuzzuf)
    ∷ ("indeed", indeed)
    ∷ ("linkedin", linkedin)
    ∷ ("bayt", bayt)
    ∷ ("glassdoor", glassdoor)
    ∷ ("ziprecruiter", ziprecruiter)
    ∷ ("greenhouse", greenhouse)
    ∷ ("lever", lever)
    ∷ ("ashby", ashby)
    ∷ ("workable", workable)
    ∷ ("smartrecruiters", smartrecruiters)
    ∷ ("workday", workday)
    ∷ ("employer-site", employer_site)
    ∷ ("email", email)
    ∷ ("unsupported", unsupported_site)
    ∷ ("development", development)
    ∷ []

abbrev id_of : Option (String × ConnectorId) → Option ConnectorId
id_of none = none
id_of (some e) = some e.1

-- `text(body.idempotencyKey ?? randomUUID(), …)`
abbrev pub key_of : Option Json → String → Option Json
key_of none uuid = some (string uuid)
key_of (some Json.null) uuid = some (string uuid)
key_of (some v) uuid = some v

abbrev pub not_false : Option Json → Bool
not_false (some (bool false)) = false
not_false _ = true

-- The answer of a service, from what it returned.
abbrev pub answered : {A : Type 0} → (A → Reply) → Content × Result Thrown A → Handled
answered reply (c, ok a) = (c, ok (reply a))
answered reply (c, err e) = (c, err e)

-- A handler whose arguments are read first, which changes nothing.
abbrev pub calling : {A : Type 0} → Content → Result Thrown A → (A → Handled) → Handled
calling c (err e) call = (c, err e)
calling c (ok a) call = call a

module _ (platform : Platform) (api : JobsApi) (request : Request) where
  -- `connectorId(value)`
  unfoldable pub connector_id : String → Result Thrown ConnectorId
  unfolding decoded
  connector_id segment = decoded platform request segment >>= λ name.
      or_throw (id_of (find (λ e. str_eq e.0 name) connector_names)) (not_found "Unknown connector")

  unfoldable pub connector_state : ConnectorId → Registry → ConnectorState
  unfolding is_enabled get
  connector_state id r = record { enabled = is_enabled id r; policy = get id }

  -- GET connectors and connectors/:id
  unfoldable pub get_connectors : Content → Handled
  unfolding connector_state policies
  get_connectors c =
      reading c
        (ok (connectors_reply (map (λ p. connector_state p.connector_id c.registry) policies)))

  unfoldable pub get_connector : String → Content → Handled
  unfolding connector_id connector_state
  get_connector segment c =
      reading c
        (connector_id segment >>= λ id. ok (connector_reply (connector_state id c.registry)))

  -- `service.jobs.configureConnector`: a plain error, which the handler answers with 500.
  abbrev configured : Content → Result PolicyError Configured → Result Thrown Content
  configured c (err _) = err other_thrown
  configured c (ok after) = ok (record c { registry = after.registry; settings = after.settings })

  -- POST connectors/:id/(enable|disable)
  unfoldable pub connector_action : String → String → Content → Handled
  unfolding connector_id configure_connector connector_state logged
  connector_action segment action c = writing c (
      connector_id segment >>= λ id.
      configured c (
        configure_connector request.now id (str_eq action "enable")
          (record { registry = c.registry; settings = c.settings }))
      >>= λ after. ok (
        logged platform request ("connector." <> action <> "d")
            (member "connectorId" (string segment) end) after,
        connector_reply (connector_state id after.registry),
      ))

  -- POST jobs/:id/prepare
  unfoldable pub prepare_job : String → Content → Handled
  unfolding body_of decoded text public_application
  prepare_job segment c =
      calling {A = String × Option String × Bool × String} c
        (body_of platform request >>= λ body. decoded platform request segment >>= λ id.
          profile_of (field "profileId" body) >>= λ profile_id.
          lift (text (key_of (field "idempotencyKey" body) request.uuid) "idempotencyKey" 128 false)
          >>= λ key. ok (id, profile_id, not_false (field "dryRun" body), key))
        λ a.
          answered (λ p. application_reply (public_application false p))
            (api.prepare_application a.0 a.1 a.2 a.3 c)
    where
      profile_of : Option Json → Result Thrown (Option String)
      profile_of (some (string s)) =
          lift (text (some (string s)) "profileId" 100 false) >>= λ id. ok (some id)
      profile_of _ = ok none

  abbrev text_if : Option Json → String → ℕ → Result Thrown (Option String)
  unfolding text
  text_if (some (string s)) name most =
      lift (text (some (string s)) name most false) >>= λ t. ok (some t)
  text_if _ name most = ok none

  abbrev override_of : Json → Result Thrown Override
  unfolding record_of text_if text
  override_of v = lift (record_of (some v)) >>= λ given.
      text_if (field "fieldId" given) "fieldId" 200 >>= λ field_id.
      text_if (field "label" given) "label" 500 >>= λ label.
      lift (text (field "value" given) "value" 5000 true) >>= λ value.
      ok (record { field_id = field_id; label = label; value = value })

  abbrev overrides_of : Items → Result Thrown (List Override)
  unfolding override_of
  overrides_of nil = ok []
  overrides_of (item v vs) = override_of v >>= λ o. overrides_of vs >>= λ os. ok (o ∷ os)

  abbrev overrides_if : Option Json → Result Thrown (Option (List Override))
  unfolding overrides_of
  overrides_if (some (array vs)) = overrides_of vs >>= λ os. ok (some os)
  overrides_if _ = ok none

  -- POST applications/:id/fill
  unfoldable pub fill_application : String → Content → Handled
  unfolding body_of decoded overrides_if text public_application
  fill_application segment c =
      calling {A = String × Option (List Override) × Bool × String} c
        (body_of platform request >>= λ body.
          overrides_if (field "approvedAnswerOverrides" body) >>= λ overrides.
          decoded platform request segment >>= λ id.
          lift (text (key_of (field "idempotencyKey" body) request.uuid) "idempotencyKey" 128 false)
          >>= λ key. ok (id, overrides, not_false (field "dryRun" body), key))
        λ a.
          answered (λ p. application_reply (public_application true p))
            (api.fill_application a.0 a.1 a.2 a.3 c)

  -- POST applications/:id/request-approval
  unfoldable pub request_approval : String → Content → Handled
  unfolding body_of decoded text bounded without_approval_secrets
  request_approval segment c =
      calling {A = String × Number × String} c
        (body_of platform request >>= λ body. decoded platform request segment >>= λ id.
          lift (bounded (field "ttlSeconds" body) 30 300 120) >>= λ ttl.
          lift (text (key_of (field "idempotencyKey" body) request.uuid) "idempotencyKey" 128 false)
          >>= λ key. ok (id, ttl, key))
        λ a.
          answered (λ r. approval_reply (without_approval_secrets r))
            (api.request_submission_approval a.0 a.1 a.2 c)
