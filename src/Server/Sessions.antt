-- ===== src/Server/Sessions.antt =====
-- `Sessions` and `RateLimiter` of apps/orchestrator/src/server.ts.
use extension_jobs.Common.{
  ℕ, suc, ◌+◌, String, Bool, true, false, ◌||◌, Option, none, some, List, str_eq, ltb, leb, ◌==◌,
  map_get, map_set, map_delete, Result, ok, err, if◌then◌else◌,
}
use extension_jobs.Contracts.Names.{client_scopes}
use extension_jobs.Server.{HttpError, refuse}
use extension_jobs.Store.Clients.{Clients, TokenTaken, enroll_client}

-- The tokens are kept as their hashes, with the times at which they expire.
pub record Sessions : Type 0 where
  pub tokens : List (String × ℕ)
  pub pairing_code : String
  pub ttl_ms : ℕ

pub record Paired : Type 0 where
  pub token : String
  pub expires_at : ℕ

-- What a request throws: an `HttpError`, or the error of the database.
pub data Failed : Type 0 where
  http_failed : HttpError → Failed
  database_failed : TokenTaken → Failed

abbrev pub State : Type 0
State = Sessions × Clients

-- `!expires || expires < Date.now()`
abbrev pub is_over : ℕ → ℕ → Bool
is_over now expires = expires == 0 || ltb expires now

module _ (sha256 : String → String) where
  abbrev enrolled :
      Sessions → Paired → Clients × Result TokenTaken (Unit {0}) → State × Result Failed Paired
  enrolled s p (clients, ok _) = ((s, clients), ok p)
  enrolled s p (clients, err e) = ((s, clients), err (database_failed e))

  -- `token` is the random token of the new session.
  unfoldable pub pair : ℕ → String → String → State → State × Result Failed Paired
  unfolding enroll_client client_scopes
  pair now code token (s, clients) =
      let expires = now + s.ttl_ms in
      if str_eq (sha256 s.pairing_code) (sha256 code)
      then enrolled (record s { tokens = map_set (sha256 token) expires s.tokens })
          (record { token = token; expires_at = expires })
          (enroll_client sha256 now "extension" "Paired Chrome extension" token client_scopes
            (some expires) clients)
      else ((s, clients), err (http_failed (refuse 401 "Invalid pairing code")))

  abbrev pub lives : ℕ → Option ℕ → Bool
  lives now none = false
  lives now (some expires) = if is_over now expires then false else true

  unfoldable pub valid : ℕ → String → Sessions → Sessions × Bool
  valid now token s =
      if lives now (map_get (sha256 token) s.tokens)
      then (s, true)
      else (record s { tokens = map_delete (sha256 token) s.tokens }, false)

pub record Bucket : Type 0 where
  pub count : ℕ
  pub reset_at : ℕ

pub record RateLimiter : Type 0 where
  pub buckets : List (String × Bucket)
  pub limit : ℕ
  pub window_ms : ℕ

-- The bucket after one more call.
abbrev pub next_bucket : ℕ → ℕ → Option Bucket → Bucket
next_bucket now window_ms none = record { count = 1; reset_at = now + window_ms }
next_bucket now window_ms (some b) =
    if leb b.reset_at now
    then record { count = 1; reset_at = now + window_ms }
    else record b { count = suc b.count }

-- The first call of a window is let through whatever the limit.
abbrev pub is_first : ℕ → Option Bucket → Bool
is_first now none = true
is_first now (some b) = leb b.reset_at now

unfoldable pub allow : ℕ → String → RateLimiter → RateLimiter × Bool
allow now key l =
    let bucket = next_bucket now l.window_ms (map_get key l.buckets) in
    (
      record l { buckets = map_set key bucket l.buckets },
      is_first now (map_get key l.buckets) || leb bucket.count l.limit,
    )
