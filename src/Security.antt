-- ===== src/Security.antt =====
-- `sanitizeDiagnostics` and `sanitizeAuditDetail` of packages/security/src/index.ts, on JSON values.
-- `masked` stands for the two replacements by regular expressions in a text.
pub mod Redaction
pub mod Urls
mod Tests
use extension_jobs.Common.{
  String, Bool, true, false, ◌&&◌, ◌||◌, List, [], ◌∷◌, str_eq, any, codes, lower_codes, codes_eq,
  is_some, if◌then◌else◌, Option, some,
}
use extension_jobs.Json.{
  Json, null, bool, number, string, array, object, Items, nil, item, Members, end, member, field,
}

-- The names of the two regular expressions, which ignore case: here in lower case.
unfoldable pub secret_keys : List String
secret_keys =
    "authorization" ∷ "cookie" ∷ "cookies" ∷ "set-cookie" ∷ "apikey" ∷ "api_key" ∷ "api-key"
    ∷ "token" ∷ "approvaltoken" ∷ "pairingcode" ∷ "password" ∷ "rawhtml" ∷ "resumetext"
    ∷ "cdpendpoint" ∷ "browserprofilereference" ∷ "chromeprofilepath" ∷ "filepath" ∷ "stack"
    ∷ "trace" ∷ []

unfoldable pub audit_pii_keys : List String
audit_pii_keys = "email" ∷ "emailaddress" ∷ "phone" ∷ "phonenumber" ∷ "mobile" ∷ []

abbrev pub matches : List String → String → Bool
matches names key = any (λ name. codes_eq (lower_codes key) (codes name)) names

unfoldable pub is_secret : String → Bool
unfolding secret_keys
is_secret key = matches secret_keys key

unfoldable pub is_audit_pii : String → Bool
unfolding audit_pii_keys
is_audit_pii key = matches audit_pii_keys key

abbrev pub marker : Json
marker = string "[REDACTED]"

module _ (masked : String → String) where
  unfoldable mutual
    pub sanitize_diagnostics : Json → Json
    sanitize_diagnostics (string s) = string (masked s)
    sanitize_diagnostics (array vs) = array (sanitize_items vs)
    sanitize_diagnostics (object ms) = object (sanitize_members ms)
    sanitize_diagnostics null = null
    sanitize_diagnostics (bool b) = bool b
    sanitize_diagnostics (number n) = number n

    pub sanitize_items : Items → Items
    sanitize_items nil = nil
    sanitize_items (item v vs) = item (sanitize_diagnostics v) (sanitize_items vs)

    pub sanitize_members : Members → Members
    sanitize_members end = end
    sanitize_members (member key v ms) =
        let clean = sanitize_diagnostics v in
        member key (if is_secret key then marker else clean) (sanitize_members ms)

-- `typeof source.label === 'string' && Object.hasOwn(source, 'value')`
abbrev is_text : Option Json → Bool
is_text (some (string s)) = true
is_text _ = false

abbrev pub is_answer : Members → Bool
is_answer ms = is_text (field "label" ms) && is_some (field "value" ms)

-- The test of a member of an audit detail; `answer` says that its object is like an answer.
abbrev pub is_private : Bool → String → Bool
unfolding is_secret is_audit_pii
is_private answer key = is_secret key || is_audit_pii key || (answer && str_eq key "value")

module _ (masked : String → String) where
  unfoldable mutual
    pub sanitize_audit_detail : Json → Json
    sanitize_audit_detail (array vs) = array (sanitize_audit_items vs)
    sanitize_audit_detail (object ms) = object (sanitize_audit_members (is_answer ms) ms)
    sanitize_audit_detail (string s) = string (masked s)
    sanitize_audit_detail null = null
    sanitize_audit_detail (bool b) = bool b
    sanitize_audit_detail (number n) = number n

    pub sanitize_audit_items : Items → Items
    sanitize_audit_items nil = nil
    sanitize_audit_items (item v vs) = item (sanitize_audit_detail v) (sanitize_audit_items vs)

    pub sanitize_audit_members : Bool → Members → Members
    sanitize_audit_members answer end = end
    sanitize_audit_members answer (member key v ms) =
        let clean = sanitize_audit_detail v in
        member key (if is_private answer key then marker else clean)
          (sanitize_audit_members answer ms)
