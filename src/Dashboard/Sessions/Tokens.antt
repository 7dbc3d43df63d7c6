-- ===== src/Dashboard/Sessions/Tokens.antt =====
-- The approval tokens that `DashboardSessions` of apps/orchestrator/src/dashboard-api.ts keeps: the page
-- never sees them.
use extension_jobs.Common.{
  ℕ, String, Option, none, some, leb, map_get, map_set, map_delete, ok, err, if◌then◌else◌,
}
use extension_jobs.Dashboard.{Attempt, DashboardHttpError, http_error}
use extension_jobs.Dashboard.Sessions.{DashboardSessions, ApprovalToken}

unfoldable pub remember_approval_token : String → String → ℕ → DashboardSessions → DashboardSessions
remember_approval_token approval_id token expires_at s = record s {
  approval_tokens =
      map_set approval_id (record { token = token; expires_at = expires_at }) s.approval_tokens;
}

unfoldable pub forget_approval_token : String → DashboardSessions → DashboardSessions
forget_approval_token approval_id s = record s {
  approval_tokens = map_delete approval_id s.approval_tokens;
}

abbrev unavailable : DashboardHttpError
unavailable = http_error 409 "Approval expired or is unavailable; request a new review"

abbrev pub token_at :
    ℕ → String → DashboardSessions → Option ApprovalToken → DashboardSessions × Attempt String
unfolding forget_approval_token
token_at now approval_id s none = (forget_approval_token approval_id s, err unavailable)
token_at now approval_id s (some value) =
    if leb value.expires_at now
    then (forget_approval_token approval_id s, err unavailable)
    else (s, ok value.token)

unfoldable pub approval_token : ℕ → String → DashboardSessions → DashboardSessions × Attempt String
approval_token now approval_id s =
    token_at now approval_id s (map_get approval_id s.approval_tokens)
