-- ===== src/Server/Entry.antt =====
-- The order of the guards in `createBridge` of apps/orchestrator/src/server.ts, and `serveDashboard`. The
-- routes behind the guards are not modelled here.
pub mod Guarded
use extension_jobs.Common.{
  ℕ, String, Bool, true, false, not, ◌&&◌, ◌||◌, Option, none, some, [], ◌∷◌, str_eq, includes,
  split, contains, is_empty, after_prefix, starts_with, is_some, get_or, ok, err, if◌then◌else◌,
}
use extension_jobs.Dashboard.Routes.{path_match, lit, any_segment}
use extension_jobs.Server.{refuse, Checked}
use extension_jobs.Server.Authorization.{
  Credentials, BridgeOptions, authorize, authorize_session, checked_origin,
}
use extension_jobs.Server.Scopes.{required_scope}
use extension_jobs.Server.Sessions.{Sessions, RateLimiter, allow}
use extension_jobs.Store.Clients.{Clients}

-- The files under apps/dashboard/dist, by their paths from there.
pub record Files : Type 0 where
  pub has_root : Bool
  pub exists : String → Bool
  pub is_file : String → Bool

pub data Served : Type 0 where
  redirected : Served
  served_file : String → Served

abbrev pub served_path : Files → String → String
served_path files relative =
    let candidate =
      if not (is_empty relative) && not (contains relative "..") then relative else "index.html" in
    if files.exists candidate && files.is_file candidate then candidate else "index.html"

abbrev pub under_dashboard : Files → Option String → Option Served
under_dashboard files none = none
under_dashboard files (some relative) =
    let path = served_path files relative in
    if files.has_root && files.exists path then some (served_file path) else none

-- Nothing where the request is not for a page of the dashboard.
unfoldable pub serve_dashboard : String → String → Files → Option Served
serve_dashboard method pathname files =
    if not (str_eq method "GET") && not (str_eq method "HEAD")
    then none
    else if str_eq pathname "/" || str_eq pathname "/dashboard"
    then some redirected
    else under_dashboard files (after_prefix "/dashboard/" pathname)

pub data Guard : Type 0 where
  no_guard session_guard client_guard : Guard

abbrev is_health : String → Bool
is_health pathname = includes pathname (
    "/health" ∷ "/health/live" ∷ "/health/ready" ∷ "/health/storage" ∷ "/health/queue"
    ∷ "/health/browser" ∷ "/health/wuzzuf-auth" ∷ "/health/composio" ∷ [])

-- `/^\/v1\/wuzzuf\/approval-requests\/([^/]+)\/decision$/`
abbrev is_decision : String → Bool
is_decision pathname = is_some (
    path_match
      (lit ""
        ∷ lit "v1"
        ∷ lit "wuzzuf"
        ∷ lit "approval-requests"
        ∷ any_segment
        ∷ lit "decision"
        ∷ [])
      (split b'/' pathname))

-- `/^\/v1\/artifacts\/([^/]+)\/content$/`
abbrev is_content : String → Bool
is_content pathname = is_some (
    path_match (lit "" ∷ lit "v1" ∷ lit "artifacts" ∷ any_segment ∷ lit "content" ∷ [])
      (split b'/' pathname))

-- The guard before the route of a request that is not for the dashboard.
unfoldable pub guard_of : String → String → Guard
guard_of method pathname =
    if str_eq method "GET" && is_health pathname
    then no_guard
    else if str_eq method "POST" && str_eq pathname "/v1/pair"
    then no_guard
    else if str_eq method "GET" && str_eq pathname "/v1/wuzzuf/approval-requests"
    then session_guard
    else if str_eq method "POST" && is_decision pathname
    then session_guard
    else if str_eq method "GET" && is_content pathname
    then session_guard
    else if str_eq method "POST" && str_eq pathname "/v1/data/delete"
    then session_guard
    else client_guard

pub record Arrival : Type 0 where
  pub now : ℕ
  pub method : String
  pub pathname : String
  pub remote_address : Option String
  pub origin : Option String
  pub host : String
  pub credentials : Credentials

-- Where a request goes that is not refused.
pub data Entered : Type 0 where
  preflight dashboard_request route_request : Entered
  dashboard_page : Served → Entered

pub record Bridge : Type 0 where
  pub limiter : RateLimiter
  pub sessions : Sessions
  pub clients : Clients

module _ (sha256 : String → String) (options : BridgeOptions) (files : Files)
    (request : Arrival) where
  abbrev pub guarded : Guard → Bridge → Sessions × Checked (Unit {0})
  guarded no_guard b = (b.sessions, ok tt)
  guarded session_guard b = authorize_session sha256 request.now request.credentials b.sessions
  guarded client_guard b =
      authorize sha256 request.now request.credentials
        (required_scope request.pathname request.method) options b.clients b.sessions

  abbrev pub routed : Bridge → Sessions × Checked (Unit {0}) → Bridge × Checked Entered
  routed b (s, ok _) = (record b { sessions = s }, ok route_request)
  routed b (s, err e) = (record b { sessions = s }, err e)

  abbrev pub not_a_page : Option Served → Bridge → Bridge × Checked Entered
  not_a_page (some page) b = (b, ok (dashboard_page page))
  not_a_page none b =
      if starts_with request.pathname "/v1/dashboard/"
      then (b, ok dashboard_request)
      else routed b (guarded (guard_of request.method request.pathname) b)

  abbrev pub after_origin : Checked (Option String) → Bridge → Bridge × Checked Entered
  after_origin (err e) b = (b, err e)
  after_origin (ok _) b =
      if str_eq request.method "OPTIONS"
      then (b, ok preflight)
      else not_a_page (serve_dashboard request.method request.pathname files) b

  abbrev pub after_limit : RateLimiter × Bool → Bridge → Bridge × Checked Entered
  after_limit (l, false) b = (record b { limiter = l }, err (refuse 429 "Rate limit exceeded"))
  after_limit (l, true) b =
      after_origin (checked_origin options.allowed_origins request.host request.origin)
        (record b { limiter = l })

  unfoldable pub enter : Bridge → Bridge × Checked Entered
  enter b = after_limit (allow request.now (get_or request.remote_address "loopback") b.limiter) b
