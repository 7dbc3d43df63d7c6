-- ===== src/Server/Tests.antt =====
-- Tests of apps/orchestrator/src/server.ts, and the theorems about it at a concrete bridge.
use extension_jobs.Common.{◌≡◌, refl, true, none, some, [], ◌∷◌, ◌⊎◌, ok, err}
use extension_jobs.Server.{refuse}
use extension_jobs.Server.Authorization.{Credentials, BridgeOptions, authorize, checked_origin}
use extension_jobs.Server.Entry.{
  Files, serve_dashboard, served_file, Arrival, Bridge, enter, route_request, guard_of,
}
use extension_jobs.Server.Entry.Guarded.{submission_arrival, submit_entered}
use extension_jobs.Server.Scopes.{
  required_scope, default_agent_scopes, action_scope, scope_or_path, path_scope,
}
use extension_jobs.Server.Sessions.{Sessions, pair, valid, allow}
use extension_jobs.Server.Submit.{ByClient, BySession, authorize_lem, default_agent_refused}
use extension_jobs.Store.Clients.{Clients, enroll_client}

abbrev no_clients : Clients
no_clients = record { clients = []; auth_tokens = [] }

abbrev no_sessions : Sessions
no_sessions = record { tokens = []; pairing_code = "code"; ttl_ms = 900000 }

abbrev options : BridgeOptions
options = record {
  allowed_origins = "chrome-extension://abc" ∷ [];
  tool_token = some "agent";
  composio_tool_token = none;
}

abbrev agent : Credentials
agent = record { openclaw_token = some "agent"; composio_token = none; authorization = none }

agent_enrolled :
    (enroll_client
      (λ s. s)
      5
      "openclaw"
      "OpenClaw plugin"
      "agent"
      default_agent_scopes
      none
      no_clients).1
    ≡ ok tt
unfolding enroll_client
agent_enrolled = refl

default_agent_refused_example :
    ((authorize
        (λ s. s)
        9
        agent
        (required_scope "/v1/applications/submit" "POST")
        options
        (enroll_client
          (λ s. s)
          5
          "openclaw"
          "OpenClaw plugin"
          "agent"
          default_agent_scopes
          none
          no_clients).0
        no_sessions).1
      ≡ err (refuse 403 "Client lacks required scope"))
    × ((authorize
          (λ s. s)
          9
          agent
          (required_scope "/v1/wuzzuf/tools/WUZZUF_SUBMIT_APPLICATION" "POST")
          options
          (enroll_client
            (λ s. s)
            5
            "openclaw"
            "OpenClaw plugin"
            "agent"
            default_agent_scopes
            none
            no_clients).0
          no_sessions).1
        ≡ err (refuse 403 "Client lacks required scope"))
default_agent_refused_example =
    default_agent_refused (λ s. s) 5 9 "agent" options agent no_clients no_sessions tt
      agent_enrolled refl refl refl

abbrev paired_sessions : Sessions
unfolding pair enroll_client
paired_sessions = (pair (λ s. s) 10 "code" "secret" (no_sessions, no_clients)).0.0

abbrev extension : Credentials
extension = record {
  openclaw_token = none;
  composio_token = none;
  authorization = some "Bearer secret";
}

extension_let_in :
    (authorize
      (λ s. s)
      20
      extension
      (some ("applications:submit" ∷ []))
      options
      no_clients
      paired_sessions).1
    ≡ ok tt
unfolding authorize valid paired_sessions pair enroll_client
extension_let_in = refl

authorize_lem_example :
    ByClient (λ s. s) 20 extension (some ("applications:submit" ∷ [])) no_clients options
    ⊎ BySession (λ s. s) 20 extension (some ("applications:submit" ∷ [])) no_clients paired_sessions
authorize_lem_example =
    authorize_lem (λ s. s) 20 extension (some ("applications:submit" ∷ [])) no_clients options
      paired_sessions extension_let_in

abbrev files : Files
files = record { has_root = true; exists = λ s. true; is_file = λ s. true }

no_traversal : serve_dashboard "GET" "/dashboard/../.env" files ≡ some (served_file "index.html")
unfolding serve_dashboard
no_traversal = refl

stranger_denied :
    checked_origin ("chrome-extension://abc" ∷ []) "evil.example:80" (some "http://evil.example:80")
    ≡ err (refuse 403 "Origin denied")
unfolding checked_origin
stranger_denied = refl

abbrev arrival : Arrival
arrival = record {
  now = 20;
  method = "GET";
  pathname = "/";
  remote_address = none;
  origin = none;
  host = "127.0.0.1:4000";
  credentials = extension;
}

abbrev bridge : Bridge
unfolding paired_sessions pair enroll_client
bridge = record {
  limiter = record { buckets = []; limit = 120; window_ms = 60000 };
  sessions = paired_sessions;
  clients = no_clients;
}

arrived : (enter (λ s. s) options files (submission_arrival arrival) bridge).1 ≡ ok route_request
unfolding enter allow checked_origin serve_dashboard guard_of required_scope action_scope
    scope_or_path path_scope authorize valid bridge paired_sessions pair enroll_client
arrived = refl

submit_entered_example :
    ByClient (λ s. s) 20 extension (some ("applications:submit" ∷ [])) bridge.clients options
    ⊎ BySession
        (λ s. s)
        20
        extension
        (some ("applications:submit" ∷ []))
        bridge.clients
        bridge.sessions
submit_entered_example = submit_entered (λ s. s) options files arrival bridge arrived
