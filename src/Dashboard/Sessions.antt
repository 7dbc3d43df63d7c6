-- ===== src/Dashboard/Sessions.antt =====
-- `DashboardSessions` of apps/orchestrator/src/dashboard-api.ts without the approval tokens, with
-- `secureHashEquals` and `hash`. A method returns the object after the call, also where it throws; the time and the random
-- tokens are arguments.
pub mod Guards
pub mod Tokens
use extension_jobs.Common.{
  ℕ, suc, ◌+◌, ◌*◌, ◌/◌, min, max, String, Bool, true, false, not, ◌&&◌, ◌||◌, Option, none, some,
  List, [], ◌∷◌, map, leb, ltb, str_eq, length, find, get_or, map_option, is_empty, trim, split,
  join, keep, map_get, map_set, map_delete, Result, ok, err, if◌then◌else◌,
}
use extension_jobs.Dashboard.Cookies.{cookie, cookie_name, present}
use extension_jobs.Dashboard.{Attempt, DashboardHttpError, Platform, http_error}

pub record Session : Type 0 where
  pub csrf_hash : String
  pub expires_at : ℕ

pub record ApprovalToken : Type 0 where
  pub token : String
  pub expires_at : ℕ

pub record Window : Type 0 where
  pub started_at : ℕ
  pub count : ℕ

pub record DashboardSessions : Type 0 where
  pub pairing_hash : String
  pub ttl_ms : ℕ
  pub sessions : List (String × Session)
  pub approval_tokens : List (String × ApprovalToken)
  pub login_window : Window
  pub request_windows : List (String × Window)

-- The two headers of a request that the sessions read.
pub record Headers : Type 0 where
  pub cookie : Option String
  pub csrf_token : Option String

-- What the browser gets: the token of the new session in a cookie, and the body.
pub record LoggedIn : Type 0 where
  pub cookie : String
  pub max_age : ℕ
  pub csrf_token : String
  pub expires_at : ℕ

pub record Renewed : Type 0 where
  pub csrf_token : String
  pub expires_at : ℕ

module _ (platform : Platform) where
  unfoldable pub hash : String → String
  hash value = platform.sha256 value

  -- Both hashes are hexadecimal.
  unfoldable pub secure_hash_equals : String → String → Bool
  secure_hash_equals value expected_hash = str_eq (platform.sha256 value) expected_hash

  unfoldable pub new_sessions : ℕ → String → ℕ → DashboardSessions
  new_sessions now pairing_code ttl_ms = record {
    pairing_hash = platform.sha256 pairing_code;
    ttl_ms = min (max ttl_ms 60000) (60 * 60000);
    sessions = [];
    approval_tokens = [];
    login_window = record { started_at = now; count = 0 };
    request_windows = [];
  }

  unfoldable pub verify_pairing : String → DashboardSessions → Attempt (Unit {0})
  verify_pairing code s =
      if str_eq s.pairing_hash (platform.sha256 code)
      then ok tt
      else err (http_error 401 "Pairing code verification failed")

-- The window after one more request: `now - startedAt >= 60_000` starts a new one.
abbrev pub counted : ℕ → Window → Window
counted now w =
    if leb (w.started_at + 60000) now
    then record { started_at = now; count = 1 }
    else record { started_at = w.started_at; count = suc w.count }

unfoldable pub limit_login : ℕ → DashboardSessions → DashboardSessions × Attempt (Unit {0})
limit_login now s =
    let w = counted now s.login_window in
    (
      record s { login_window = w },
      if ltb 30 w.count
          then err (http_error 429 "Too many pairing attempts; wait one minute")
          else ok tt,
    )

abbrev window_of : ℕ → Option Window → Window
window_of now none = record { started_at = now; count = 1 }
window_of now (some w) = counted now w

abbrev is_recent : ℕ → String × Window → Bool
is_recent now entry = not (ltb (entry.1.started_at + 60000) now)

unfoldable pub limit_session :
    ℕ → String → ℕ → DashboardSessions → DashboardSessions × Attempt (Unit {0})
limit_session now token_hash limit s =
    let w = window_of now (map_get token_hash s.request_windows) in
    let windows = map_set token_hash w s.request_windows in
    if ltb limit w.count
    then (
      record s { request_windows = windows },
      err (http_error 429 "Dashboard request rate exceeded; retry shortly"),
    )
    else (
      record s {
        request_windows =
            if ltb 1000 (length windows) then keep (is_recent now) windows else windows;
      },
      ok tt,
    )

module _ (platform : Platform) where
  unfoldable pub csrf_holds : Option String → Session → Bool
  unfolding secure_hash_equals
  csrf_holds none session = false
  csrf_holds (some supplied) session = secure_hash_equals platform supplied session.csrf_hash

  abbrev denied : DashboardHttpError
  denied = http_error 401 "Dashboard authentication required"

  -- `if (mutation) { … } return session`
  abbrev pub checked :
      Headers
      → Bool
      → Session
      → DashboardSessions × Attempt (Unit {0})
      → DashboardSessions × Attempt Session
  checked headers mutation session (s, err e) = (s, err e)
  checked headers mutation session (s, ok _) =
      if mutation && not (csrf_holds headers.csrf_token session)
      then (s, err (http_error 403 "CSRF validation failed"))
      else (s, ok session)

  unfoldable pub with_session :
      ℕ
      → Headers
      → Bool
      → String
      → DashboardSessions
      → Option Session
      → DashboardSessions × Attempt Session
  unfolding limit_session
  with_session now headers mutation token_hash s none =
      (record s { sessions = map_delete token_hash s.sessions }, err denied)
  with_session now headers mutation token_hash s (some session) =
      if leb session.expires_at now
      then (record s { sessions = map_delete token_hash s.sessions }, err denied)
      else checked headers mutation session
          (limit_session now token_hash (if mutation then 240 else 900) s)

  unfoldable pub with_token :
      ℕ → Headers → Bool → DashboardSessions → Option String → DashboardSessions × Attempt Session
  unfolding hash
  with_token now headers mutation s none = (s, err denied)
  with_token now headers mutation s (some token) =
      with_session now headers mutation (hash platform token) s
        (map_get (hash platform token) s.sessions)

  unfoldable pub authenticate :
      ℕ → Headers → Bool → DashboardSessions → DashboardSessions × Attempt Session
  unfolding cookie cookie_name
  authenticate now headers mutation s =
      with_token now headers mutation s (present (cookie headers.cookie cookie_name))

  unfoldable pub paired :
      ℕ
      → String
      → String
      → String
      → DashboardSessions × Attempt (Unit {0})
      → DashboardSessions × Attempt LoggedIn
  unfolding verify_pairing hash
  paired now code session_token csrf_token (s, err e) = (s, err e)
  paired now code session_token csrf_token (s, ok _) = elim (verify_pairing platform code s) [
    | err e ↦ (s, err e)
    | ok _ ↦ (
      record s {
        sessions =
            map_set (hash platform session_token)
              (record { csrf_hash = hash platform csrf_token; expires_at = now + s.ttl_ms })
              s.sessions;
      },
      ok (record {
        cookie = session_token;
        max_age = s.ttl_ms / 1000;
        csrf_token = csrf_token;
        expires_at = now + s.ttl_ms;
      }),
    )
  ]

  unfoldable pub login :
      ℕ → String → String → String → DashboardSessions → DashboardSessions × Attempt LoggedIn
  unfolding limit_login
  login now code session_token csrf_token s =
      paired now code session_token csrf_token (limit_login now s)

  -- `session.csrfHash = …` on the session that the map holds.
  abbrev pub rotated :
      String → String → DashboardSessions × Attempt Session → DashboardSessions × Attempt Renewed
  unfolding hash
  rotated token csrf_token (s, err e) = (s, err e)
  rotated token csrf_token (s, ok session) = (
    record s {
      sessions =
          map_set (hash platform token) (record session { csrf_hash = hash platform csrf_token })
            s.sessions;
    },
    ok (record { csrf_token = csrf_token; expires_at = session.expires_at }),
  )

  unfoldable pub session :
      ℕ → Headers → String → DashboardSessions → DashboardSessions × Attempt Renewed
  unfolding authenticate cookie cookie_name
  session now headers csrf_token s =
      rotated (get_or (cookie headers.cookie cookie_name) "") csrf_token
        (authenticate now headers false s)

  abbrev pub forgotten : Option String → DashboardSessions → DashboardSessions
  unfolding hash
  forgotten none s = s
  forgotten (some token) s = record s {
    sessions = map_delete (hash platform token) s.sessions;
    request_windows = map_delete (hash platform token) s.request_windows;
  }

  abbrev pub logged_out :
      Option String → DashboardSessions × Attempt Session → DashboardSessions × Attempt (Unit {0})
  logged_out token (s, err e) = (s, err e)
  logged_out token (s, ok _) = (forgotten token s, ok tt)

  unfoldable pub logout : ℕ → Headers → DashboardSessions → DashboardSessions × Attempt (Unit {0})
  unfolding authenticate cookie cookie_name
  logout now headers s =
      logged_out (present (cookie headers.cookie cookie_name)) (authenticate now headers true s)
