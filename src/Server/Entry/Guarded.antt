-- ===== src/Server/Entry/Guarded.antt =====
-- That no request of apps/orchestrator/src/server.ts reaches a route without its guard.
use extension_jobs.Common.{
  String, Bool, true, false, Option, none, some, [], ◌∷◌, ◌≡◌, refl, sym, str_eq, starts_with,
  get_or, ◌⊎◌, Bool-cases, inl, inr, ok, err, ok_not_err, ok_injective,
}
use extension_jobs.Server.{Checked}
use extension_jobs.Server.Authorization.{BridgeOptions, checked_origin}
use extension_jobs.Server.Entry.{
  Files, Served, Arrival, Bridge, route_request, guarded, guard_of, routed, not_a_page,
  after_origin, after_limit, enter, serve_dashboard,
}
use extension_jobs.Server.Scopes.{required_scope}
use extension_jobs.Server.Sessions.{RateLimiter, Sessions, allow}
use extension_jobs.Server.Submit.{ByClient, BySession, authorize_lem}

module _ (sha256 : String → String) (options : BridgeOptions) (files : Files)
    (request : Arrival) where
  routed_lem :
      (b : Bridge) (r : Sessions × Checked (Unit {0}))
      → (routed sha256 options files request b r).1 ≡ ok route_request
      → r.1 ≡ ok tt
  routed_lem b (s, ok tt) e = refl
  routed_lem b (s, err x) e = absurd (ok_not_err (sym e))

  page_lem :
      (page : Option Served) (b : Bridge)
      → (not_a_page sha256 options files request page b).1 ≡ ok route_request
      → (guarded sha256 options files request (guard_of request.method request.pathname) b).1
        ≡ ok tt
  page_lem (some page) b e = absurd (cc (ok_injective e))
  page_lem none b e = elim (Bool-cases (starts_with request.pathname "/v1/dashboard/")) [
    | inl dashboard ↦ absurd (cc (ok_injective (rw dashboard at e)))
    | inr other ↦
        routed_lem b
          (guarded sha256 options files request (guard_of request.method request.pathname) b)
          (rw other at e)
  ]

  origin_lem :
      (origin : Checked (Option String)) (b : Bridge)
      → (after_origin sha256 options files request origin b).1 ≡ ok route_request
      → (guarded sha256 options files request (guard_of request.method request.pathname) b).1
        ≡ ok tt
  origin_lem (err x) b e = absurd (ok_not_err (sym e))
  origin_lem (ok o) b e = elim (Bool-cases (str_eq request.method "OPTIONS")) [
    | inl options ↦ absurd (cc (ok_injective (rw options at e)))
    | inr other ↦ page_lem (serve_dashboard request.method request.pathname files) b (rw other at e)
  ]

  limit_lem :
      (r : RateLimiter × Bool) (b : Bridge)
      → (after_limit sha256 options files request r b).1 ≡ ok route_request
      → (guarded sha256 options files request
          (guard_of request.method request.pathname)
          (record b { limiter = r.0 })).1
        ≡ ok tt
  limit_lem (l, false) b e = absurd (ok_not_err (sym e))
  limit_lem (l, true) b e =
      origin_lem (checked_origin options.allowed_origins request.host request.origin)
        (record b { limiter = l }) e

  pub enter-guarded :
      (b : Bridge)
      → (enter sha256 options files request b).1 ≡ ok route_request
      → (guarded sha256 options files request (guard_of request.method request.pathname) (record b {
        limiter = (allow request.now (get_or request.remote_address "loopback") b.limiter).0;
      })).1
        ≡ ok tt
  unfolding enter
  enter-guarded b e =
      limit_lem (allow request.now (get_or request.remote_address "loopback") b.limiter) b e

abbrev pub submission_arrival : Arrival → Arrival
submission_arrival request = record request {
  method = "POST";
  pathname = "/v1/applications/submit";
}

-- POST /v1/applications/submit reaches its route only with the token that is configured for OpenClaw or
-- for the Composio host, which is not empty, in the header of this client, up to SHA-256, where the
-- newest token that the table has for this client has the hash of what was shown and the scope
-- applications:submit, and is neither revoked nor expired; or with the bearer token of a session of
-- the extension that has not expired.
pub submit_entered :
    (sha256 : String → String) (options : BridgeOptions) (files : Files) (request : Arrival)
    (b : Bridge)
    → (enter sha256 options files (submission_arrival request) b).1 ≡ ok route_request
    → ByClient sha256 request.now request.credentials
        (some ("applications:submit" ∷ []))
        b.clients
        options
      ⊎ BySession sha256 request.now request.credentials
          (some ("applications:submit" ∷ []))
          b.clients
          b.sessions
unfolding guard_of required_scope
submit_entered sha256 options files request b e =
    authorize_lem sha256 request.now request.credentials (some ("applications:submit" ∷ []))
      b.clients options b.sessions
      (enter-guarded sha256 options files (submission_arrival request) b e)
