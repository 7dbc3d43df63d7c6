-- ===== src/Dashboard/Sessions/Guards.antt =====
-- What `DashboardSessions` of apps/orchestrator/src/dashboard-api.ts lets through.
use extension_jobs.Common.{
  ℕ, suc, ◌+◌, ◌-◌, ◌≤◌, ◌<◌, String, Bool, true, false, not, ◌&&◌, Option, none, some, List, [],
  ◌∷◌, ◌≡◌, refl, sym, ap, ◌∙◌, All, subst, arith, map_delete, ok_not_err, ok_injective, leb, ltb,
  map_get, map_get-map_delete, ok, err, is_ok, if◌then◌else◌,
}
use extension_jobs.Dashboard.{Attempt, Platform, http_error}
use extension_jobs.Dashboard.Cookies.{cookie, cookie_name, present}
use extension_jobs.Dashboard.Sessions.{
  Session, Headers, DashboardSessions, Window, hash, csrf_holds, checked, with_session, with_token,
  authenticate, logout, logged_out, limit_session, limit_login, counted,
}

module _ (platform : Platform) where
  -- The token that a request carries.
  abbrev pub carried : Headers → Option String
  unfolding cookie cookie_name
  carried headers = present (cookie headers.cookie cookie_name)

  -- The last test of `authenticate`: what it lets through it returns.
  checked_lem :
      (headers : Headers) (mutation : Bool) (x : Session)
      (r : DashboardSessions × Attempt (Unit {0})) {found : Session}
      → (checked platform headers mutation x r).1 ≡ ok found
      → (x ≡ found) × (mutation ≡ true → csrf_holds platform headers.csrf_token x ≡ true)
  checked_lem headers mutation x (s, err _) {found} e = absurd (ok_not_err (sym e))
  checked_lem headers mutation x (s, ok _) {found} e =
      tested (csrf_holds platform headers.csrf_token x) mutation e
    where
      tested :
          (held mutation : Bool)
          → (if◌then◌else◌ {A = DashboardSessions × Attempt Session}
              (mutation && not held)
              (s, err (http_error 403 "CSRF validation failed"))
              (s, ok x)).1
            ≡ ok found
          → (x ≡ found) × (mutation ≡ true → held ≡ true)
      tested true true e = (ok_injective e, λ _. refl)
      tested true false e = (ok_injective e, λ _. refl)
      tested false true e = absurd (ok_not_err (sym e))
      tested false false e = (ok_injective e, λ m. m)

  with_session_lem :
      (now : ℕ) (headers : Headers) (mutation : Bool) (token_hash : String) (s : DashboardSessions)
      (o : Option Session) {found : Session}
      → (with_session platform now headers mutation token_hash s o).1 ≡ ok found
      → (o ≡ some found)
        × (now < found.expires_at)
        × (mutation ≡ true → csrf_holds platform headers.csrf_token found ≡ true)
  unfolding limit_session with_session
  with_session_lem now headers mutation token_hash s none {found} e = absurd (ok_not_err (sym e))
  with_session_lem now headers mutation token_hash s (some x) {found} e =
      alive (leb x.expires_at now) refl e
    where
      r : DashboardSessions × Attempt (Unit {0})
      r = limit_session now token_hash (if mutation then 240 else 900) s

      alive :
          (b : Bool)
          → leb x.expires_at now ≡ b
          → (if◌then◌else◌ {A = DashboardSessions × Attempt Session} b
              (
                record s { sessions = map_delete token_hash s.sessions },
                err (http_error 401 "Dashboard authentication required"),
              )
              (checked platform headers mutation x r)).1
            ≡ ok found
          → (some x ≡ some found)
            × (now < found.expires_at)
            × (mutation ≡ true → csrf_holds platform headers.csrf_token found ≡ true)
      alive true expired e = absurd (ok_not_err (sym e))
      alive false fresh e =
          let (same, csrf) = checked_lem headers mutation x r e in
          subst
            (λ f.
              (some x ≡ some f)
              × (now < f.expires_at)
              × (mutation ≡ true → csrf_holds platform headers.csrf_token f ≡ true))
            same (refl, ground arith, csrf)

  with_token_lem :
      (now : ℕ) (headers : Headers) (mutation : Bool) (s : DashboardSessions) (o : Option String)
      {found : Session}
      → (with_token platform now headers mutation s o).1 ≡ ok found
      → (token : String) × (o ≡ some token)
        × (map_get (hash platform token) s.sessions ≡ some found)
        × (now < found.expires_at)
        × (mutation ≡ true → csrf_holds platform headers.csrf_token found ≡ true)
  unfolding hash with_token
  with_token_lem now headers mutation s none {found} e = absurd (ok_not_err (sym e))
  with_token_lem now headers mutation s (some token) {found} e =
      let (at, live, csrf) =
        with_session_lem now headers mutation (hash platform token) s
          (map_get (hash platform token) s.sessions) e in
      (token, refl, at, live, csrf)

  -- `authenticate` lets a request through only with a cookie whose token's hash is in the map, with a
  -- session that has not expired, and a request that changes something only with an x-csrf-token whose
  -- hash is the session's.
  pub authenticate_lem :
      (now : ℕ) (headers : Headers) (mutation : Bool) (s : DashboardSessions) {found : Session}
      → (authenticate platform now headers mutation s).1 ≡ ok found
      → (token : String) × (carried headers ≡ some token)
        × (map_get (hash platform token) s.sessions ≡ some found)
        × (now < found.expires_at)
        × (mutation ≡ true → csrf_holds platform headers.csrf_token found ≡ true)
  unfolding authenticate cookie cookie_name
  authenticate_lem now headers mutation s {found} e =
      with_token_lem now headers mutation s (carried headers) e

  absent :
      (now : ℕ) (headers : Headers) (mutation : Bool) (s : DashboardSessions) (o : Option String)
      → ((token : String) → o ≡ some token → map_get (hash platform token) s.sessions ≡ none)
      → (with_token platform now headers mutation s o).1
        ≡ err (http_error 401 "Dashboard authentication required")
  unfolding hash with_session with_token
  absent now headers mutation s none h = refl
  absent now headers mutation s (some token) h = rw (h token refl) refl

  logged_out_lem :
      (o : Option String) (r : DashboardSessions × Attempt Session)
      → (logged_out platform o r).1 ≡ ok tt
      → (token : String) → o ≡ some token
      → map_get (hash platform token) (logged_out platform o r).0.sessions ≡ none
  unfolding hash
  logged_out_lem none (s, ok x) e token h = absurd (cc)
  logged_out_lem (some t) (s, ok x) e token h =
      let same : t ≡ token = ground arith in
      rw same (map_get-map_delete (hash platform token) s.sessions)
  logged_out_lem o (s, err x) e token h = absurd (ok_not_err (sym e))

  -- After `logout` has answered, the same cookie is refused with 401, at whatever time, for whatever
  -- request.
  pub authenticate-logout :
      (now later : ℕ) (headers : Headers) (mutation : Bool) (s : DashboardSessions)
      → (logout platform now headers s).1 ≡ ok tt
      → (authenticate platform later headers mutation (logout platform now headers s).0).1
        ≡ err (http_error 401 "Dashboard authentication required")
  unfolding authenticate logout cookie cookie_name
  authenticate-logout now later headers mutation s e =
      absent later headers mutation (logout platform now headers s).0 (carried headers)
        (logged_out_lem (carried headers) (authenticate platform now headers true s) e)

-- The attempts at the given times that `limitLogin` lets through.
abbrev pub passed : DashboardSessions → List ℕ → ℕ
unfolding limit_login
passed s [] = 0
passed s (now ∷ times) =
    let rest = passed (limit_login now s).0 times in
    if is_ok (limit_login now s).1 then suc rest else rest

abbrev window_with : ℕ → ℕ → Window
window_with started count = record { started_at = started; count = count }

counted_open :
    (now started count : ℕ)
    → now < started + 60000
    → counted now (window_with started count) ≡ window_with started (suc count)
counted_open now started count h =
    let early : leb (started + 60000) now ≡ false = ground arith in rw early refl

-- While the window of the last attempt is open, `limitLogin` lets through what is left of thirty.
pub passed_bound :
    (s : DashboardSessions) (started count : ℕ) (times : List ℕ)
    → s.login_window ≡ window_with started count
    → All (λ now. now < started + 60000) times
    → passed s times ≤ 30 - count
unfolding limit_login
passed_bound s started count [] h open_at = omega arith
passed_bound s started count (now ∷ times) h open_at =
    let e : counted now s.login_window ≡ window_with started (suc count) =
      ap (counted now) h ∙ counted_open now started count open_at.0 in
    step (counted now s.login_window).count (passed (limit_login now s).0 times)
      (ap (λ w. w.count) e)
      (passed_bound (limit_login now s).0 started (suc count) times e open_at.1)
  where
    step :
        (n rest : ℕ)
        → n ≡ suc count
        → rest ≤ 30 - suc count
        → (if is_ok (
              if◌then◌else◌ {A = Attempt (Unit {0})}
                (ltb 30 n)
                (err (http_error 429 "Too many pairing attempts; wait one minute"))
                (ok tt))
            then suc rest
            else rest)
          ≤ 30 - count
    step n rest same below = ground arith
