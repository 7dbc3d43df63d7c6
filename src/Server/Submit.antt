-- ===== src/Server/Submit.antt =====
-- Who gets past `authorize` of apps/orchestrator/src/server.ts, and that the agents do not to submit.
use extension_jobs.Common.{
  ℕ, String, true, false, Option, none, some, List, [], ◌∷◌, ◌≡◌, refl, sym, eq_refl, is_empty,
  map_get, All, ◌⊎◌, inl, inr, Bool-cases, ap, not, ◌&&◌, str_eq, str_eq→eq, arith, ◌∙◌, ok, err,
  ok_not_err,
}
use extension_jobs.Server.{refuse}
use extension_jobs.Server.Authorization.{
  Credentials, BridgeOptions, authorize, as_client, or_composio, or_openclaw, by_bearer, supplied,
  bearer,
}
use extension_jobs.Server.Scopes.{required_scope, default_agent_scopes}
use extension_jobs.Server.Sessions.{Sessions, valid, lives}
use extension_jobs.Store.Clients.{Clients, enroll_client, authorize_client}
use extension_jobs.Store.Clients.Held.{Holds, authorize_client-Holds}
use extension_jobs.Store.Clients.Scopes.{HasTokenId, enrolled_refused}

module _ (sha256 : String → String) (now : ℕ) (c : Credentials) (scope : Option (List String))
    (clients : Clients) where
  -- The header has the configured token, which is not empty, up to the hash, and the client holds it.
  abbrev pub Shows : String → Option String → Option String → Type 0
  Shows id configured header =
      (token : String) × (expected : String) × (header ≡ some token)
      × (configured ≡ some expected)
      × (is_empty expected ≡ false)
      × (sha256 token ≡ sha256 expected)
      × Holds sha256 now id token scope clients

  abbrev pub ByClient : BridgeOptions → Type 0
  ByClient options =
      Shows "openclaw" options.tool_token c.openclaw_token
      ⊎ Shows "composio-host" options.composio_tool_token c.composio_token

  abbrev pub BySession : Sessions → Type 0
  BySession s =
      (token : String) × (bearer sha256 c.authorization ≡ some token)
      × (lives sha256 now (map_get (sha256 token) s.tokens) ≡ true)

  client_lem :
      (id token : String) (s : Sessions)
      → (as_client sha256 now id token scope clients s).1 ≡ ok tt
      → authorize_client sha256 now id token scope clients ≡ true
  client_lem id token s e = elim (Bool-cases (authorize_client sha256 now id token scope clients)) [
    | inl held ↦ held
    | inr lacks ↦ absurd (ok_not_err (sym (rw lacks at e)))
  ]

  bearer_lem :
      (message : String) (o : Option String) (s : Sessions)
      → (by_bearer sha256 message now o s).1 ≡ ok tt
      → (token : String) × (o ≡ some token)
        × (lives sha256 now (map_get (sha256 token) s.tokens) ≡ true)
  unfolding valid
  bearer_lem message none s e = absurd (ok_not_err (sym e))
  bearer_lem message (some token) s e =
      elim (Bool-cases (lives sha256 now (map_get (sha256 token) s.tokens))) [
        | inl alive ↦ (token, refl, alive)
        | inr dead ↦ absurd (ok_not_err (sym (rw dead at e)))
      ]

  supplied_lem :
      (configured header : Option String) (token : String)
      → supplied sha256 configured header ≡ some token
      → (expected : String) × (header ≡ some token)
        × (configured ≡ some expected)
        × (is_empty expected ≡ false)
        × (sha256 token ≡ sha256 expected)
  supplied_lem none header token e = absurd (cc e)
  supplied_lem (some t) none token e = absurd (cc e)
  supplied_lem (some t) (some u) token e =
      elim (Bool-cases (not (is_empty t) && str_eq (sha256 t) (sha256 u))) [
        | inr other ↦ absurd (cc (rw other at e))
        | inl matches ↦
            let same : u ≡ token = cc (rw matches at e) in
            let full : is_empty t ≡ false = ground (arith, matches) in
            let hashes : str_eq (sha256 t) (sha256 u) ≡ true = ground (arith, matches) in
            (
              t,
              ap (λ x. some x) same,
              refl,
              full,
              sym (ap sha256 same) ∙ sym (str_eq→eq (sha256 t) (sha256 u) hashes),
            )
      ]

  Shows_lem :
      (id : String) (configured header : Option String) (token : String) (s : Sessions)
      → supplied sha256 configured header ≡ some token
      → (as_client sha256 now id token scope clients s).1 ≡ ok tt
      → Shows id configured header
  Shows_lem id configured header token s shown e =
      let (expected, sent, set, full, same) = supplied_lem configured header token shown in
      (
        token,
        expected,
        sent,
        set,
        full,
        same,
        authorize_client-Holds sha256 now id token scope clients (client_lem id token s e),
      )

  composio_lem :
      (options : BridgeOptions) (o : Option String) (s : Sessions)
      → supplied sha256 options.composio_tool_token c.composio_token ≡ o
      → (or_composio sha256 now c scope clients o s).1 ≡ ok tt
      → ByClient options ⊎ BySession s
  composio_lem options (some token) s shown e =
      inl (
        inr
          (Shows_lem "composio-host" options.composio_tool_token c.composio_token token s shown e))
  composio_lem options none s shown e =
      inr (bearer_lem "Client authentication required" (bearer sha256 c.authorization) s e)

  openclaw_lem :
      (options : BridgeOptions) (o : Option String) (s : Sessions)
      → supplied sha256 options.tool_token c.openclaw_token ≡ o
      → (or_openclaw sha256 now c scope options clients o s).1 ≡ ok tt
      → ByClient options ⊎ BySession s
  openclaw_lem options (some token) s shown e =
      inl (inl (Shows_lem "openclaw" options.tool_token c.openclaw_token token s shown e))
  openclaw_lem options none s shown e =
      composio_lem options (supplied sha256 options.composio_tool_token c.composio_token) s refl e

  -- `authorize` lets a request through only if its header x-openclaw-tool-token or
  -- x-composio-tool-token has the token that is configured for this client, which is not empty, up to
  -- SHA-256, and the newest token that the table has for this client has the hash of what was shown and
  -- every scope that the path requires, and is neither revoked nor expired; or if the bearer token is that of a session of the extension that has not
  -- expired.
  pub authorize_lem :
      (options : BridgeOptions) (s : Sessions)
      → (authorize sha256 now c scope options clients s).1 ≡ ok tt
      → ByClient options ⊎ BySession s
  unfolding authorize
  authorize_lem options s e =
      openclaw_lem options (supplied sha256 options.tool_token c.openclaw_token) s refl e

module _ (sha256 : String → String) (now later : ℕ) (token : String) (options : BridgeOptions)
    (c : Credentials) where
  shown :
      (o h : Option String)
      → o ≡ some token
      → is_empty token ≡ false
      → h ≡ some token
      → supplied sha256 o h ≡ some token
  shown none h e full same = absurd (cc)
  shown (some t) none e full same = absurd (cc)
  shown (some t) (some u) e full same =
      let (a, b) : (t ≡ token) × (u ≡ token) = (cc, cc) in
      rw (a, b, full, eq_refl (sha256 token)) refl

  -- OpenClaw, enrolled with the default scopes, is refused with 403 at both paths that submit an
  -- application, if it shows its token. Every row of a token has the id that is made from its client.
  pub default_agent_refused :
      (t : Clients) (s : Sessions)
      → All (HasTokenId sha256) t.auth_tokens
      → (enroll_client sha256 now "openclaw" "OpenClaw plugin" token default_agent_scopes none t).1
        ≡ ok tt
      → options.tool_token ≡ some token
      → is_empty token ≡ false
      → c.openclaw_token ≡ some token
      → ((authorize sha256 later c
            (required_scope "/v1/applications/submit" "POST")
            options
            (enroll_client sha256 now "openclaw" "OpenClaw plugin" token default_agent_scopes none
              t).0
            s).1
          ≡ err (refuse 403 "Client lacks required scope"))
        × ((authorize sha256 later c
              (required_scope "/v1/wuzzuf/tools/WUZZUF_SUBMIT_APPLICATION" "POST")
              options
              (enroll_client sha256 now "openclaw" "OpenClaw plugin" token default_agent_scopes none
                t).0
              s).1
            ≡ err (refuse 403 "Client lacks required scope"))
  unfolding authorize required_scope default_agent_scopes
  default_agent_refused t s named e configured full header =
      let refused : authorize_client sha256 later "openclaw" token
            (some ("applications:submit" ∷ []))
            (enroll_client sha256 now "openclaw" "OpenClaw plugin" token default_agent_scopes none
              t).0
          ≡ false =
        enrolled_refused sha256 now "openclaw" "OpenClaw plugin" token default_agent_scopes none t
          later token "applications:submit" ("applications:submit" ∷ []) named e refl refl in
      let seen = shown options.tool_token c.openclaw_token configured full header in
      (rw (seen, refused) refl, rw (seen, refused) refl)
