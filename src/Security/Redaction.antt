-- ===== src/Security/Redaction.antt =====
-- What the audit log never holds, after `sanitizeAuditDetail` of packages/security/src/index.ts.
use extension_jobs.Common.{
  String, Bool, true, false, ◌&&◌, ◌||◌, ◌≡◌, refl, arith, str_eq, if◌then◌else◌,
}
use extension_jobs.Json.{
  Json, null, bool, number, string, array, object, Items, nil, item, Members, end, member,
}
use extension_jobs.Security.{
  is_secret, is_audit_pii, is_private, is_answer, marker, sanitize_audit_detail,
  sanitize_audit_items, sanitize_audit_members,
}

abbrev is_marker : Json → Bool
is_marker (string s) = str_eq s "[REDACTED]"
is_marker _ = false

-- At any depth, a member whose name is secret or personal has the value "[REDACTED]".
unfoldable mutual
  pub is_redacted : Json → Bool
  is_redacted (array vs) = all_redacted vs
  is_redacted (object ms) = members_redacted ms
  is_redacted (string s) = true
  is_redacted null = true
  is_redacted (bool b) = true
  is_redacted (number n) = true

  pub all_redacted : Items → Bool
  all_redacted nil = true
  all_redacted (item v vs) = is_redacted v && all_redacted vs

  pub members_redacted : Members → Bool
  members_redacted end = true
  members_redacted (member key v ms) =
      (if is_secret key || is_audit_pii key then is_marker v else is_redacted v)
      && members_redacted ms

and_both : (a b : Bool) → a ≡ true → b ≡ true → (a && b) ≡ true
and_both a b ha hb = ground arith

redacted_member :
    (secret pii value : Bool) (v : Json)
    → is_redacted v ≡ true
    → (if secret || pii
        then is_marker (if secret || pii || value then marker else v)
        else is_redacted (if secret || pii || value then marker else v))
      ≡ true
unfolding is_redacted
redacted_member true pii value v h = refl
redacted_member false true value v h = refl
redacted_member false false true v h = refl
redacted_member false false false v h = h

module _ (masked : String → String) where
  mutual
    unfolding is_redacted sanitize_audit_detail is_private

    value_redacted : (v : Json) → is_redacted (sanitize_audit_detail masked v) ≡ true
    value_redacted (array vs) = items_redacted vs
    value_redacted (object ms) = each_redacted (is_answer ms) ms
    value_redacted (string s) = refl
    value_redacted null = refl
    value_redacted (bool b) = refl
    value_redacted (number n) = refl

    items_redacted : (vs : Items) → all_redacted (sanitize_audit_items masked vs) ≡ true
    items_redacted nil = refl
    items_redacted (item v vs) =
        and_both (is_redacted (sanitize_audit_detail masked v))
          (all_redacted (sanitize_audit_items masked vs)) (value_redacted v) (items_redacted vs)

    each_redacted :
        (answer : Bool) (ms : Members)
        → members_redacted (sanitize_audit_members masked answer ms) ≡ true
    each_redacted answer end = refl
    each_redacted answer (member key v ms) =
        and_both _ (members_redacted (sanitize_audit_members masked answer ms))
          (redacted_member (is_secret key) (is_audit_pii key) (answer && str_eq key "value")
            (sanitize_audit_detail masked v) (value_redacted v))
          (each_redacted answer ms)

  -- Whatever the detail of an event, in what `sanitizeAuditDetail` makes of it every member whose name is
  -- secret or personal has the value "[REDACTED]", at any depth.
  pub is_redacted-sanitize_audit_detail :
      (v : Json) → is_redacted (sanitize_audit_detail masked v) ≡ true
  is_redacted-sanitize_audit_detail v = value_redacted v
