-- ===== src/Security/Urls.antt =====
-- The tests of urls of packages/security/src/index.ts. `new URL(value)` is a parameter: what it parses, or
-- nothing where it throws.
use extension_jobs.Common.{
  ℕ, String, Bool, true, not, ◌&&◌, ◌||◌, Option, List, [], ◌∷◌, str_eq, includes, any, ◌==◌,
  is_empty, Result, ok, ◌>>=◌, ◌>>◌, guard, or_throw,
}

-- `port` is the number of the text of the port, 0 for none; `hostname` is in lower case.
pub record Url : Type 0 where
  pub protocol : String
  pub hostname : String
  pub username : String
  pub password : String
  pub port : ℕ

abbrev loopback_names : List String
loopback_names = "127.0.0.1" ∷ "localhost" ∷ "[::1]" ∷ []

abbrev has_credentials : Url → Bool
has_credentials url = not (is_empty url.username) || not (is_empty url.password)

module _ (parse_url : String → Option Url) where
  abbrev parsed : String → Result String Url
  parsed value = or_throw (parse_url value) "Invalid URL"

  abbrev port_allowed : List ℕ → ℕ → Bool
  port_allowed [] port = true
  port_allowed (p ∷ ps) port = any (λ q. q == port) (p ∷ ps)

  -- No list of ports allows as the empty list does: any port.
  unfoldable pub assert_loopback_url : List ℕ → String → Result String Url
  assert_loopback_url allowed_ports value = parsed value >>= λ url.
      guard (str_eq url.protocol "http:" && includes url.hostname loopback_names)
        "Only loopback HTTP URLs are allowed"
      >> guard (not (has_credentials url)) "Credentials are not allowed in local URLs"
      >> guard (port_allowed allowed_ports url.port) "Loopback port is not allowed"
      >> ok url

  unfoldable pub assert_loopback_cdp_url : String → Result String Url
  assert_loopback_cdp_url value = parsed value >>= λ url.
      guard
        (includes url.protocol ("http:" ∷ "https:" ∷ "ws:" ∷ "wss:" ∷ [])
          && includes url.hostname loopback_names)
        "Only loopback CDP URLs are allowed"
      >> guard (not (has_credentials url)) "Credentials are not allowed in CDP URLs"
      >> ok url

  unfoldable pub assert_wuzzuf_url : String → Result String Url
  assert_wuzzuf_url value = parsed value >>= λ url.
      guard
        (str_eq url.protocol "https:"
          && includes url.hostname ("wuzzuf.net" ∷ "www.wuzzuf.net" ∷ [])
          && not (has_credentials url))
        "Unsupported Wuzzuf URL"
      >> ok url
