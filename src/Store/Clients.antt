-- ===== src/Store/Clients.antt =====
-- The clients and their tokens: `enrollClient` and `authorizeClient` of apps/orchestrator/src/store.ts,
-- with the constraint of packages/persistence/migrations/001_core.sql on the hashes of tokens.
pub mod Scopes
pub mod Held
use extension_jobs.Common.{
  ℕ, ◌<>◌, String, Bool, true, false, not, ◌&&◌, Option, none, some, List, [], ◌∷◌, str_eq, ltb,
  leb, any, all, includes, is_some, Result, ok, err, if◌then◌else◌,
}
use extension_jobs.Store.Boards.{upsert}

pub record Client : Type 0 where
  pub id : String
  pub name : String
  pub created_at : ℕ

pub record AuthToken : Type 0 where
  pub id : String
  pub client_id : String
  pub token_hash : String
  pub scopes : List String
  pub expires_at : Option ℕ
  pub revoked_at : Option ℕ
  pub created_at : ℕ

pub record Clients : Type 0 where
  pub clients : List Client
  pub auth_tokens : List AuthToken

-- UNIQUE constraint failed: auth_tokens.token_hash
pub data TokenTaken : Type 0 where
  token_taken : TokenTaken

-- `!row.expires_at || Date.parse(row.expires_at) > Date.now()`
abbrev pub unexpired : ℕ → Option ℕ → Bool
unexpired now none = true
unexpired now (some t) = not (leb t now)

-- ORDER BY created_at DESC LIMIT 1
abbrev pub newer : AuthToken → Option AuthToken → Option AuthToken
newer r none = some r
newer r (some s) = if ltb r.created_at s.created_at then some s else some r

abbrev pub latest_of : String → List AuthToken → Option AuthToken
latest_of id [] = none
latest_of id (r ∷ rs) =
    let rest = latest_of id rs in if str_eq r.client_id id then newer r rest else rest

module _ (sha256 : String → String) where
  abbrev pub token_id : String → String
  token_id id = sha256 ("client:" <> id)

  -- The row of a client is written even if that of its token is refused.
  unfoldable pub enroll_client :
      ℕ
      → String
      → String
      → String
      → List String
      → Option ℕ
      → Clients
      → Clients × Result TokenTaken (Unit {0})
  enroll_client now id name token scopes expires_at t =
      let hash = sha256 token in
      let key = token_id id in
      let known =
        upsert (λ c. str_eq c.id id) (λ c. record c { name = name })
          (record { id = id; name = name; created_at = now }) t.clients in
      let fresh : AuthToken = record {
        id = key;
        client_id = id;
        token_hash = hash;
        scopes = scopes;
        expires_at = expires_at;
        revoked_at = none;
        created_at = now;
      } in
      if any (λ r. str_eq r.token_hash hash && not (str_eq r.id key)) t.auth_tokens
      then (record t { clients = known }, err token_taken)
      else (
        record t {
          clients = known;
          auth_tokens =
              upsert (λ r. str_eq r.id key)
                (λ r. record r {
                  token_hash = hash;
                  scopes = scopes;
                  expires_at = expires_at;
                  revoked_at = none;
                })
                fresh t.auth_tokens;
        },
        ok tt,
      )

  -- Both hashes are hexadecimal.
  abbrev pub holds_token : ℕ → String → Option (List String) → Option AuthToken → Bool
  holds_token now token required none = false
  holds_token now token required (some row) =
      not (is_some row.revoked_at)
      && unexpired now row.expires_at
      && str_eq (sha256 token) row.token_hash
      && granted required row.scopes
    where
      granted : Option (List String) → List String → Bool
      granted none scopes = true
      granted (some scopes) held = all (λ scope. includes scope held) scopes

  unfoldable pub authorize_client : ℕ → String → String → Option (List String) → Clients → Bool
  authorize_client now id token required t =
      holds_token now token required (latest_of id t.auth_tokens)
