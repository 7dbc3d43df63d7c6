-- ===== src/Server/Authorization.antt =====
-- `authorize`, `authorizeSession` and the check of the origin of apps/orchestrator/src/server.ts.
use extension_jobs.Common.{
  ℕ, ◌<>◌, String, Bool, true, false, not, ◌&&◌, ◌||◌, Option, none, some, List, str_eq, all,
  includes, is_digit, codes, is_empty, after_prefix, starts_with, length, ◌==◌, leb, ok, err,
  if◌then◌else◌,
}
use extension_jobs.Server.{refuse, Checked}
use extension_jobs.Server.Sessions.{Sessions, valid}
use extension_jobs.Store.Clients.{Clients, authorize_client}

-- The headers that the guards read.
pub record Credentials : Type 0 where
  pub openclaw_token : Option String
  pub composio_token : Option String
  pub authorization : Option String

pub record BridgeOptions : Type 0 where
  pub allowed_origins : List String
  pub tool_token : Option String
  pub composio_tool_token : Option String

module _ (sha256 : String → String) where
  abbrev pub secret_matches : String → String → Bool
  secret_matches actual expected = str_eq (sha256 expected) (sha256 actual)

  -- The token that the header supplies, if it is the configured one.
  abbrev pub supplied : Option String → Option String → Option String
  supplied none header = none
  supplied (some token) none = none
  supplied (some token) (some header) =
      if not (is_empty token) && secret_matches header token then some header else none

  -- A session of the extension, refused with the message.
  abbrev pub by_bearer : String → ℕ → Option String → Sessions → Sessions × Checked (Unit {0})
  by_bearer message now none s = (s, err (refuse 401 message))
  by_bearer message now (some token) s = answered (valid sha256 now token s)
    where
      answered : Sessions × Bool → Sessions × Checked (Unit {0})
      answered (s, true) = (s, ok tt)
      answered (s, false) = (s, err (refuse 401 message))

  abbrev pub bearer : Option String → Option String
  bearer none = none
  bearer (some header) = after_prefix "Bearer " header

  unfoldable pub authorize_session : ℕ → Credentials → Sessions → Sessions × Checked (Unit {0})
  unfolding valid
  authorize_session now c s =
      by_bearer "Paired extension session required" now (bearer c.authorization) s

  -- A client that showed the token of its program.
  abbrev pub as_client :
      ℕ
      → String
      → String
      → Option (List String)
      → Clients
      → Sessions
      → Sessions × Checked (Unit {0})
  as_client now id token scope clients s =
      if authorize_client sha256 now id token scope clients
      then (s, ok tt)
      else (s, err (refuse 403 "Client lacks required scope"))

  abbrev pub or_composio :
      ℕ
      → Credentials
      → Option (List String)
      → Clients
      → Option String
      → Sessions
      → Sessions × Checked (Unit {0})
  or_composio now c scope clients (some token) s =
      as_client now "composio-host" token scope clients s
  or_composio now c scope clients none s =
      by_bearer "Client authentication required" now (bearer c.authorization) s

  abbrev pub or_openclaw :
      ℕ
      → Credentials
      → Option (List String)
      → BridgeOptions
      → Clients
      → Option String
      → Sessions
      → Sessions × Checked (Unit {0})
  or_openclaw now c scope options clients (some token) s =
      as_client now "openclaw" token scope clients s
  or_openclaw now c scope options clients none s =
      or_composio now c scope clients (supplied options.composio_tool_token c.composio_token) s

  unfoldable pub authorize :
      ℕ
      → Credentials
      → Option (List String)
      → BridgeOptions
      → Clients
      → Sessions
      → Sessions × Checked (Unit {0})
  unfolding valid authorize_client
  authorize now c scope options clients s =
      or_openclaw now c scope options clients (supplied options.tool_token c.openclaw_token) s

-- `/^(?:127\.0\.0\.1|localhost):\d+$/`
abbrev port_follows : Option String → Bool
port_follows none = false
port_follows (some port) = not (is_empty port) && all is_digit (codes port)

abbrev is_loopback_host : String → Bool
is_loopback_host host =
    port_follows (after_prefix "127.0.0.1:" host) || port_follows (after_prefix "localhost:" host)

-- The origin that is echoed to the browser: none without the header.
unfoldable pub checked_origin : List String → String → Option String → Checked (Option String)
checked_origin allowed host none = ok none
checked_origin allowed host (some origin) =
    if is_empty origin
    then ok none
    else if includes origin allowed || (is_loopback_host host && str_eq origin ("http://" <> host))
    then ok (some origin)
    else err (refuse 403 "Origin denied")

-- `/^chrome-extension:\/\/[a-p]{32}$/`
abbrev is_extension : Option String → Bool
is_extension none = false
is_extension (some id) = length (codes id) == 32 && all (λ c. leb b'a' c && leb c b'p') (codes id)

-- The origins that `createBridge` accepts.
unfoldable pub origin_allowed : String → Bool
origin_allowed origin =
    is_extension (after_prefix "chrome-extension://" origin)
    || starts_with origin "http://127.0.0.1:"
    || starts_with origin "http://localhost:"
