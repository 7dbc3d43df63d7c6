-- ===== src/Server/Scopes.antt =====
-- The scopes of apps/orchestrator/src/server.ts: `requiredScope` and `defaultAgentScopes`.
use extension_jobs.Common.{
  String, Bool, true, false, ◌&&◌, ◌||◌, Option, none, some, List, [], ◌∷◌, str_eq, leb, ◌==◌, all,
  includes, codes, contains, is_empty, after_prefix, starts_with, if◌then◌else◌,
}

unfoldable pub default_agent_scopes : List String
default_agent_scopes =
    "profile:read" ∷ "jobs:search" ∷ "artifacts:read" ∷ "applications:prepare" ∷ "applications:fill"
    ∷ "applications:review" ∷ "campaigns:read" ∷ "campaigns:manage" ∷ "audit:read"
    ∷ "admin:emergency-stop" ∷ []

-- `[A-Z_]+`
abbrev is_action : String → Bool
is_action s = not_empty s && all (λ c. (leb b'A' c && leb c b'Z') || c == b'_') (codes s)
  where
    not_empty : String → Bool
    not_empty s = if is_empty s then false else true

-- The action of /v1/wuzzuf/tools/:action
abbrev pub action_of : String → Option String
action_of pathname = named (after_prefix "/v1/wuzzuf/tools/" pathname)
  where
    named : Option String → Option String
    named none = none
    named (some s) = if is_action s then some s else none

abbrev search_actions : List String
search_actions =
    "WUZZUF_SEARCH_JOBS" ∷ "WUZZUF_GET_JOB_DETAILS" ∷ "WUZZUF_SCORE_JOB" ∷ "WUZZUF_GET_AUTH_STATUS"
    ∷ "WUZZUF_OPEN_LOGIN" ∷ "WUZZUF_CREATE_CONNECTION" ∷ "WUZZUF_VERIFY_CONNECTION"
    ∷ "WUZZUF_DISCONNECT" ∷ []

abbrev review_actions : List String
review_actions =
    "WUZZUF_GET_APPLICATION_REVIEW" ∷ "WUZZUF_GET_APPLICATION_STATUS"
    ∷ "WUZZUF_REQUEST_SUBMISSION_APPROVAL" ∷ []

-- The scope of an action; an action that has none falls through to the tests of the path.
unfoldable pub action_scope : String → Option String
action_scope action =
    if includes action search_actions
    then some "jobs:search"
    else if str_eq action "WUZZUF_PREPARE_APPLICATION"
    then some "applications:prepare"
    else if includes action ("WUZZUF_FILL_APPLICATION" ∷ "WUZZUF_CANCEL_APPLICATION" ∷ [])
    then some "applications:fill"
    else if includes action review_actions
    then some "applications:review"
    else if str_eq action "WUZZUF_SUBMIT_APPLICATION"
    then some "applications:submit"
    else none

abbrev one : String → Option (List String)
one scope = some (scope ∷ [])

-- The tests of the path, in their order.
unfoldable pub path_scope : String → String → Option (List String)
path_scope pathname method =
    if contains pathname "/tailor-resume"
    then one "applications:prepare"
    else if str_eq pathname "/v1/applications/prepare"
    then one "applications:prepare"
    else if str_eq pathname "/v1/applications/fill" || str_eq pathname "/v1/applications/cancel"
    then one "applications:fill"
    else if str_eq pathname "/v1/applications/submit"
    then one "applications:submit"
    else if starts_with pathname "/v1/applications/"
    then one "applications:review"
    else if starts_with pathname "/v1/artifacts/"
    then one "artifacts:read"
    else if starts_with pathname "/v1/tailored-resumes/"
    then (if str_eq method "POST" then one "profile:write" else one "applications:review")
    else if starts_with pathname "/v1/connectors/" && str_eq method "POST"
    then one "profile:write"
    else if str_eq pathname "/v1/connectors"
        || starts_with pathname "/v1/connectors/"
        || starts_with pathname "/v1/jobs/"
    then one "jobs:search"
    else if starts_with pathname "/v1/profiles/"
        || str_eq pathname "/v1/profiles/import"
        || starts_with pathname "/v1/resumes"
        || str_eq pathname "/v1/agent-settings"
    then one "profile:write"
    else if starts_with pathname "/v1/campaigns"
    then one "campaigns:manage"
    else if str_eq pathname "/v1/emergency-stop" || str_eq pathname "/v1/emergency-stop/reset"
    then one "admin:emergency-stop"
    else if str_eq pathname "/v1/dashboard"
    then some ("profile:read" ∷ "campaigns:read" ∷ "audit:read" ∷ [])
    else if str_eq pathname "/v1/chat"
        || str_eq pathname "/v1/models"
        || str_eq pathname "/v1/answers/prepare"
    then one "profile:read"
    else none

unfoldable pub scope_or_path : Option String → String → String → Option (List String)
unfolding path_scope
scope_or_path (some scope) pathname method = one scope
scope_or_path none pathname method = path_scope pathname method

unfoldable pub required_scope : String → String → Option (List String)
unfolding action_scope scope_or_path
required_scope pathname method = scope_or_path (scoped (action_of pathname)) pathname method
  where
    scoped : Option String → Option String
    scoped none = none
    scoped (some action) = action_scope action
