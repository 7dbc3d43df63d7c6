-- ===== src/Dashboard/Routes.antt =====
-- The routes of `handleDashboardRequest` of apps/orchestrator/src/dashboard-api.ts, in the order of its
-- tests. A path is the list of its segments after /v1/dashboard/. The routes of resumes, artifacts,
-- timelines, the chat and the event stream are left out.
use extension_jobs.Common.{
  String, Option, none, some, List, [], ◌∷◌, ◌++◌, str_eq, includes, is_empty, or_else,
  if◌then◌else◌,
}

pub data Route : Type 0 where
  get_summary get_jobs bulk_jobs list_views save_view get_applications get_approvals : Route
  get_campaigns preview_campaign create_campaign get_connectors get_manual_actions : Route
  get_activity get_analytics get_preferences put_preferences engage_stop reset_stop : Route
  get_job put_note remove_view get_application prepare_job request_approval : String → Route
  fill_application decide_approval submit_approval update_campaign get_connector : String → Route
  decide_job campaign_action connector_action manual_action : String → String → Route

-- A step of a pattern: a literal, one of several literals, or ([^/]+).
pub data Step : Type 0 where
  lit : String → Step
  one_of : List String → Step
  any_segment : Step

abbrev step_match : Step → String → Option (List String)
step_match (lit s) segment = if str_eq s segment then some [] else none
step_match (one_of ss) segment = if includes segment ss then some (segment ∷ []) else none
step_match any_segment segment = if is_empty segment then none else some (segment ∷ [])

abbrev both : Option (List String) → Option (List String) → Option (List String)
both none _ = none
both (some xs) none = none
both (some xs) (some ys) = some (xs ++ ys)

-- `pathname.match(pattern)`: the captured texts.
abbrev pub path_match : List Step → List String → Option (List String)
path_match [] [] = some []
path_match (p ∷ ps) (s ∷ ss) = both (step_match p s) (path_match ps ss)
path_match _ _ = none

abbrev plain : Route → List String → Option Route
plain r _ = some r

abbrev captured : (String → Route) → List String → Option Route
captured r (x ∷ []) = some (r x)
captured r _ = none

abbrev twice : (String → String → Route) → List String → Option Route
twice r (x ∷ y ∷ []) = some (r x y)
twice r _ = none

abbrev then_route : Option (List String) → (List String → Option Route) → Option Route
then_route none make = none
then_route (some xs) make = make xs

pub record Endpoint : Type 0 where
  pub method : String
  pub pattern : List Step
  pub make : List String → Option Route

abbrev on : String → List Step → (List String → Option Route) → Endpoint
on method pattern make = record { method = method; pattern = pattern; make = make }

abbrev job : List Step → List Step
job rest = lit "jobs" ∷ any_segment ∷ rest

unfoldable pub endpoints : List Endpoint
endpoints =
    on "GET" (lit "summary" ∷ []) (plain get_summary)
    ∷ on "GET" (lit "jobs" ∷ []) (plain get_jobs)
    ∷ on "GET" (job []) (captured get_job)
    ∷ on "POST" (job (one_of ("shortlist" ∷ "reject" ∷ []) ∷ [])) (twice decide_job)
    ∷ on "POST" (lit "jobs" ∷ lit "bulk" ∷ []) (plain bulk_jobs)
    ∷ on "PUT" (job (lit "note" ∷ [])) (captured put_note)
    ∷ on "GET" (lit "jobs" ∷ lit "views" ∷ []) (plain list_views)
    ∷ on "POST" (lit "jobs" ∷ lit "views" ∷ []) (plain save_view)
    ∷ on "DELETE" (lit "jobs" ∷ lit "views" ∷ any_segment ∷ []) (captured remove_view)
    ∷ on "GET" (lit "applications" ∷ []) (plain get_applications)
    ∷ on "GET" (lit "applications" ∷ any_segment ∷ []) (captured get_application)
    ∷ on "POST" (job (lit "prepare" ∷ [])) (captured prepare_job)
    ∷ on "POST" (lit "applications" ∷ any_segment ∷ lit "request-approval" ∷ [])
        (captured request_approval)
    ∷ on "POST" (lit "applications" ∷ any_segment ∷ lit "fill" ∷ []) (captured fill_application)
    ∷ on "GET" (lit "approvals" ∷ []) (plain get_approvals)
    ∷ on "POST" (lit "approvals" ∷ any_segment ∷ lit "decision" ∷ []) (captured decide_approval)
    ∷ on "POST" (lit "approvals" ∷ any_segment ∷ lit "submit" ∷ []) (captured submit_approval)
    ∷ on "GET" (lit "campaigns" ∷ []) (plain get_campaigns)
    ∷ on "POST" (lit "campaigns" ∷ lit "preview" ∷ []) (plain preview_campaign)
    ∷ on "POST" (lit "campaigns" ∷ []) (plain create_campaign)
    ∷ on "PATCH" (lit "campaigns" ∷ any_segment ∷ []) (captured update_campaign)
    ∷ on "POST" (lit "campaigns" ∷ any_segment ∷ one_of ("run" ∷ "pause" ∷ "resume" ∷ []) ∷ [])
        (twice campaign_action)
    ∷ on "GET" (lit "connectors" ∷ []) (plain get_connectors)
    ∷ on "GET" (lit "connectors" ∷ any_segment ∷ []) (captured get_connector)
    ∷ on "POST" (lit "connectors" ∷ any_segment ∷ one_of ("enable" ∷ "disable" ∷ []) ∷ [])
        (twice connector_action)
    ∷ on "GET" (lit "manual-actions" ∷ []) (plain get_manual_actions)
    ∷ on "POST" (lit "manual-actions" ∷ any_segment ∷ one_of ("continue" ∷ "cancel" ∷ []) ∷ [])
        (twice manual_action)
    ∷ on "GET" (lit "activity" ∷ []) (plain get_activity)
    ∷ on "GET" (lit "analytics" ∷ []) (plain get_analytics)
    ∷ on "GET" (lit "preferences" ∷ []) (plain get_preferences)
    ∷ on "PUT" (lit "preferences" ∷ []) (plain put_preferences)
    ∷ on "POST" (lit "emergency-stop" ∷ []) (plain engage_stop)
    ∷ on "POST" (lit "emergency-stop" ∷ lit "reset" ∷ []) (plain reset_stop)
    ∷ []

abbrev pub endpoint_match : String → List String → Endpoint → Option Route
endpoint_match method path e =
    if str_eq e.method method then then_route (path_match e.pattern path) e.make else none

abbrev pub first_route : String → List String → List Endpoint → Option Route
first_route method path [] = none
first_route method path (e ∷ es) =
    or_else (endpoint_match method path e) (first_route method path es)

unfoldable pub route : String → List String → Option Route
unfolding endpoints
route method path = first_route method path endpoints
