-- ===== src/Dashboard/Dispatch/Denied.antt =====
-- Requests without a session: `handleDashboardRequest` of apps/orchestrator/src/dashboard-api.ts.
use extension_jobs.Common.{
  ℕ, String, Bool, true, false, ◌<◌, ◌⊎◌, inl, inr, Option, none, some, [], ◌∷◌, ◌≡◌, refl, ap,
  subst, includes, leb, map_get, str_eq→eq, ok, err, Bool-cases, Result-cases, arith, if◌then◌else◌,
}
use extension_jobs.Dashboard.{Attempt, Platform, DashboardHttpError}
use extension_jobs.Dashboard.Cookies.{cookie, cookie_name}
use extension_jobs.Dashboard.Decisions.{Surroundings, World}
use extension_jobs.Dashboard.Dispatch.{is_session, is_mutation, authenticated, handle}
use extension_jobs.Dashboard.Replies.{Request, http_thrown}
use extension_jobs.Dashboard.Services.{JobsApi}
use extension_jobs.Dashboard.Sessions.{
  DashboardSessions, Headers, Session, authenticate, with_token, with_session, checked,
  limit_session, csrf_holds, hash, secure_hash_equals,
}
use extension_jobs.Dashboard.Sessions.Guards.{carried, authenticate_lem}

-- The statuses of a request that is not let through.
abbrev pub IsDenial : DashboardHttpError → Type 0
IsDenial e = (e.status ≡ 401) ⊎ (e.status ≡ 403) ⊎ (e.status ≡ 429)

abbrev DeniesOnly : Attempt Session → Type 0
DeniesOnly (ok x) = Unit {0}
DeniesOnly (err e) = IsDenial e

module _ (platform : Platform) where
  -- The x-csrf-token of the session.
  abbrev pub ShowsCsrf : Headers → Session → Type 0
  ShowsCsrf headers found =
      (shown : String) × (headers.csrf_token ≡ some shown)
      × (platform.sha256 shown ≡ found.csrf_hash)

  csrf_lem :
      (headers : Headers) (found : Session) (o : Option String)
      → csrf_holds platform o found ≡ true
      → (shown : String) × (o ≡ some shown) × (platform.sha256 shown ≡ found.csrf_hash)
  unfolding csrf_holds secure_hash_equals
  csrf_lem headers found none h = absurd (cc h)
  csrf_lem headers found (some shown) h =
      (shown, refl, str_eq→eq (platform.sha256 shown) found.csrf_hash h)

  limit_denies :
      (now : ℕ) (token_hash : String) (limit : ℕ) (s : DashboardSessions) (headers : Headers)
      (mutation : Bool) (x : Session)
      → DeniesOnly (checked platform headers mutation x (limit_session now token_hash limit s)).1
  unfolding limit_session
  limit_denies now token_hash limit s headers mutation x = ground arith

  token_denies :
      (now : ℕ) (headers : Headers) (mutation : Bool) (s : DashboardSessions) (o : Option String)
      → DeniesOnly (with_token platform now headers mutation s o).1
  unfolding with_token with_session
  token_denies now headers mutation s none = inl refl
  token_denies now headers mutation s (some token) =
      found (map_get (hash platform token) s.sessions)
    where
      found :
          (o : Option Session)
          → DeniesOnly (with_session platform now headers mutation (hash platform token) s o).1
      found none = inl refl
      found (some x) = elim (Bool-cases (leb x.expires_at now)) [
        | inl over ↦ rw over (inl refl)
        | inr alive ↦ rw alive (
            limit_denies now (hash platform token) (if mutation then 240 else 900) s headers
              mutation x)
      ]

module _ (platform : Platform) (api : JobsApi) (around : Surroundings) (request : Request) where
  -- The request has the cookie of a session that has not expired, and unless its method is GET or
  -- HEAD also the x-csrf-token of this session.
  abbrev pub IsLetIn : DashboardSessions → Type 0
  IsLetIn s =
      (token : String) × (found : Session) × (carried platform request.headers ≡ some token)
      × (map_get (platform.sha256 token) s.sessions ≡ some found)
      × (request.now < found.expires_at)
      × ((includes request.method ("GET" ∷ "HEAD" ∷ []) ≡ true)
          ⊎ ShowsCsrf platform request.headers found)

  -- It is answered with a status of 401, 403 or 429, and the content of the store stays as it was.
  abbrev pub IsDenied : World → Type 0
  IsDenied w =
      (e : DashboardHttpError) × ((handle platform api around request w).1 ≡ err (http_thrown e))
      × IsDenial e
      × ((handle platform api around request w).0.content ≡ w.content)

  denied :
      (w : World) (r : DashboardSessions × Attempt Session) {e : DashboardHttpError}
      → r.1 ≡ err e
      → ((authenticated platform api around request w r).1 ≡ err (http_thrown e))
        × ((authenticated platform api around request w r).0.content ≡ w.content)
  unfolding authenticated
  denied w (s, ok x) {e} h = absurd (cc h)
  denied w (s, err x) {e} h = (ap (λ d. err (http_thrown d)) (cc h), refl)

  -- A request that is not for a session is let in or denied, whatever its route: without the cookie of a
  -- session that has not expired, or, unless its method is GET or HEAD, without the x-csrf-token of
  -- this session, it is answered with 401, 403 or 429 and leaves the content of the store as it was.
  pub handle-guarded :
      (w : World) → is_session request.path ≡ false → IsLetIn w.sessions ⊎ IsDenied w
  unfolding handle authenticate cookie cookie_name hash
  handle-guarded w other =
      let r =
        authenticate platform request.now request.headers (is_mutation request.method) w.sessions in
      elim (Result-cases r.1) [
        | inl (found, e) ↦
            let (token, sent, stored, alive, csrf) =
              authenticate_lem platform request.now request.headers (is_mutation request.method)
                w.sessions e in
            inl (token, found, sent, stored, alive, by_method found csrf)
        | inr (e, x) ↦
            let (told, kept) = denied w r x in
            let status = subst DeniesOnly x (
              token_denies platform request.now request.headers (is_mutation request.method)
                w.sessions (carried platform request.headers)) in
            inr (e, rw other told, status, rw other kept)
      ]
    where
      by_method :
          (found : Session)
          → (is_mutation request.method ≡ true
              → csrf_holds platform request.headers.csrf_token found ≡ true)
          → (includes request.method ("GET" ∷ "HEAD" ∷ []) ≡ true)
            ⊎ ShowsCsrf platform request.headers found
      by_method found csrf = elim (Bool-cases (includes request.method ("GET" ∷ "HEAD" ∷ []))) [
        | inl reads ↦ inl reads
        | inr changes ↦ inr (
            csrf_lem platform request.headers found request.headers.csrf_token
              (csrf (rw changes refl)))
      ]
