-- ===== src/Security/Tests.antt =====
-- Tests of packages/security/src/index.ts, and the theorem about it at a concrete detail of an event.
use extension_jobs.Common.{◌≡◌, refl, true}
use extension_jobs.Json.{Json, string, object, member, end}
use extension_jobs.Security.{
  sanitize_audit_detail, sanitize_diagnostics, is_secret, is_audit_pii, is_private, secret_keys,
  audit_pii_keys,
}
use extension_jobs.Security.Redaction.{is_redacted, is_redacted-sanitize_audit_detail}

abbrev detail : Json
detail =
    object
      (member "Email" (string "a@b.c") (member "at" (object (member "token" (string "t") end)) end))

hidden :
    sanitize_audit_detail (λ s. s) detail
    ≡ object (
        member "Email"
          (string "[REDACTED]")
          (member "at" (object (member "token" (string "[REDACTED]") end)) end))
unfolding sanitize_audit_detail is_private is_secret is_audit_pii secret_keys audit_pii_keys
hidden = refl

kept :
    sanitize_diagnostics (λ s. s) detail
    ≡ object (
        member "Email"
          (string "a@b.c")
          (member "at" (object (member "token" (string "[REDACTED]") end)) end))
unfolding sanitize_diagnostics is_secret secret_keys
kept = refl

is_redacted-sanitize_audit_detail_example :
    is_redacted (sanitize_audit_detail (λ s. s) detail) ≡ true
is_redacted-sanitize_audit_detail_example = is_redacted-sanitize_audit_detail (λ s. s) detail
