-- ===== src/Policy.antt =====
-- packages/site-policy-registry/src/index.ts: what may be automated on which site, with the types of
-- packages/shared-contracts/src/index.ts.
pub mod Permissions
pub mod Configured
mod Tests
use extension_jobs.Common.{
  ◌||◌, ◌<>◌, str_eq, after_prefix, ends_with, map_option, ℕ, String, Bool, true, false, not, ◌&&◌,
  Option, none, some, List, [], ◌∷◌, ◌++◌, map, any, find, keep, get_or, ◌==◌, Result, ok, err,
  if◌then◌else◌,
}

pub data ConnectorId : Type 0 where
  wuzzuf indeed linkedin bayt glassdoor ziprecruiter greenhouse lever ashby : ConnectorId
  workable smartrecruiters workday employer_site email unsupported_site development : ConnectorId

abbrev pub position : ConnectorId → ℕ
position wuzzuf = 0
position indeed = 1
position linkedin = 2
position bayt = 3
position glassdoor = 4
position ziprecruiter = 5
position greenhouse = 6
position lever = 7
position ashby = 8
position workable = 9
position smartrecruiters = 10
position workday = 11
position employer_site = 12
position email = 13
position unsupported_site = 14
position development = 15

abbrev pub id_eq : ConnectorId → ConnectorId → Bool
id_eq a b = position a == position b

-- The values of the four capabilities together.
pub data Capability : Type 0 where
  official_api browser_automated user_triggered automated assisted manual : Capability
  authorized_api browser_approved unsupported : Capability

pub record ConnectorCapabilities : Type 0 where
  pub discovery : Capability
  pub details : Capability
  pub fill : Capability
  pub submit : Capability
  pub requires_user_presence : Bool
  pub requires_submission_approval : Bool

pub record SitePolicy : Type 0 where
  pub connector_id : ConnectorId
  pub version : String
  pub enabled_by_default : Bool
  pub allowed_hosts : List String
  pub capabilities : ConnectorCapabilities
  pub notes : String

-- `assisted`
abbrev pub assisted_with : Capability → ConnectorCapabilities
assisted_with submit = record {
  discovery = user_triggered;
  details = user_triggered;
  fill = assisted;
  submit = submit;
  requires_user_presence = true;
  requires_submission_approval = true;
}

abbrev pub capabilities_of :
    Capability → Capability → Capability → Capability → Bool → ConnectorCapabilities
capabilities_of discovery details fill submit presence = record {
  discovery = discovery;
  details = details;
  fill = fill;
  submit = submit;
  requires_user_presence = presence;
  requires_submission_approval = true;
}

abbrev pub policy_of :
    ConnectorId → Bool → List String → ConnectorCapabilities → String → SitePolicy
policy_of id by_default hosts capabilities notes = record {
  connector_id = id;
  version = "2026-07-22.1";
  enabled_by_default = by_default;
  allowed_hosts = hosts;
  capabilities = capabilities;
  notes = notes;
}

abbrev pub public_metadata : ConnectorId → List String → SitePolicy
public_metadata id hosts =
    policy_of id true hosts
      (capabilities_of official_api official_api assisted browser_approved true)
      "Public metadata plus reviewed browser-assisted forms."

abbrev pub reviewed_destination : ConnectorId → List String → SitePolicy
reviewed_destination id hosts =
    policy_of id true hosts (assisted_with browser_approved)
      "Reviewed browser-assisted destination; unknown layouts fail closed."

unfoldable pub policies : List SitePolicy
policies =
    policy_of wuzzuf true ("wuzzuf.net" ∷ [])
      (capabilities_of browser_automated browser_automated automated browser_approved true)
      "Controlled CDP implementation; challenges stop automation."
    ∷ policy_of indeed true ("indeed.com" ∷ []) (assisted_with manual)
        "Current-page analysis and destination routing only."
    ∷ policy_of linkedin true ("linkedin.com" ∷ []) (assisted_with manual)
        "Configured native discovery or current-page assistance; no placeholder submission."
    ∷ policy_of bayt true ("bayt.com" ∷ []) (assisted_with manual)
        "Current-page assistance and destination routing."
    ∷ policy_of glassdoor true ("glassdoor.com" ∷ []) (assisted_with manual)
        "Current-page assistance and destination routing."
    ∷ policy_of ziprecruiter false ("ziprecruiter.com" ∷ [])
        (capabilities_of official_api user_triggered assisted manual true)
        "Official discovery only when explicitly configured."
    ∷ public_metadata greenhouse ("greenhouse.io" ∷ "boards.greenhouse.io" ∷ [])
    ∷ public_metadata lever ("lever.co" ∷ "jobs.lever.co" ∷ [])
    ∷ public_metadata ashby ("ashbyhq.com" ∷ "jobs.ashbyhq.com" ∷ [])
    ∷ reviewed_destination workable ("workable.com" ∷ "apply.workable.com" ∷ [])
    ∷ reviewed_destination smartrecruiters ("smartrecruiters.com" ∷ "jobs.smartrecruiters.com" ∷ [])
    ∷ reviewed_destination workday ("myworkdayjobs.com" ∷ [])
    ∷ policy_of employer_site false []
        (capabilities_of unsupported user_triggered manual manual true)
        "Manual completion unless a reviewed adapter is added."
    ∷ policy_of email false [] (capabilities_of unsupported unsupported manual manual true)
        "Manual email application."
    ∷ policy_of unsupported_site false []
        (capabilities_of unsupported unsupported unsupported unsupported true)
        "Fail-closed fallback."
    ∷ policy_of development false ("127.0.0.1" ∷ "localhost" ∷ [])
        (capabilities_of browser_automated browser_automated automated browser_approved false)
        "Fixture mode only."
    ∷ []

-- The Set `enabled`, with an element once at most.
pub record Registry : Type 0 where
  pub enabled : List ConnectorId

abbrev pub has : ConnectorId → List ConnectorId → Bool
has id ids = any (λ k. id_eq k id) ids

abbrev pub add : ConnectorId → List ConnectorId → List ConnectorId
add id ids = if has id ids then ids else ids ++ id ∷ []

unfoldable pub new_registry : Option (List ConnectorId) → Registry
unfolding policies
new_registry none = record {
  enabled = map (λ p. p.connector_id) (keep (λ p. p.enabled_by_default) policies);
}
new_registry (some ids) = record { enabled = set_of ids }
  where
    set_of : List ConnectorId → List ConnectorId
    set_of [] = []
    set_of (k ∷ ks) = add k (set_of ks)

-- `byId.get(id) ?? byId.get('unsupported')!`; every id has a policy.
unfoldable pub get : ConnectorId → Option SitePolicy
unfolding policies
get id = find (λ p. id_eq p.connector_id id) policies

unfoldable pub is_enabled : ConnectorId → Registry → Bool
is_enabled id r = has id r.enabled && not (id_eq id unsupported_site)

pub data PolicyError : Type 0 where
  connector_disabled automation_not_permitted : PolicyError

unfoldable pub enable : ConnectorId → Registry → Result PolicyError Registry
enable id r =
    if id_eq id unsupported_site
    then err connector_disabled
    else ok (record { enabled = add id r.enabled })

unfoldable pub disable : ConnectorId → Registry → Registry
disable id r = record { enabled = keep (λ k. not (id_eq k id)) r.enabled }

pub data Operation : Type 0 where
  discovers reads_details fills submits : Operation

abbrev pub capability_for : Operation → ConnectorCapabilities → Capability
capability_for discovers c = c.discovery
capability_for reads_details c = c.details
capability_for fills c = c.fill
capability_for submits c = c.submit

abbrev pub is_unsupported : Capability → Bool
is_unsupported unsupported = true
is_unsupported _ = false

abbrev pub is_manual : Capability → Bool
is_manual manual = true
is_manual _ = false

abbrev pub is_submit : Operation → Bool
is_submit submits = true
is_submit _ = false

abbrev pub permitted : Operation → SitePolicy → Result PolicyError SitePolicy
permitted op p =
    if is_unsupported (capability_for op p.capabilities)
    then err automation_not_permitted
    else if is_submit op && is_manual (capability_for op p.capabilities)
    then err automation_not_permitted
    else ok p

abbrev pub permitted_of : Operation → Option SitePolicy → Result PolicyError SitePolicy
permitted_of op none = err automation_not_permitted
permitted_of op (some p) = permitted op p

unfoldable pub assert_capability :
    ConnectorId → Operation → Registry → Result PolicyError SitePolicy
unfolding is_enabled get
assert_capability id op r =
    if is_enabled id r then permitted_of op (get id) else err connector_disabled

-- `replace(/^www\./, '')` of the name in lower case.
abbrev bare_host : String → String
bare_host host = get_or (after_prefix "www." host) host

abbrev pub hosted_by : String → SitePolicy → Bool
hosted_by host p =
    any (λ allowed. str_eq host allowed || ends_with host ("." <> allowed)) p.allowed_hosts

-- `lower_case` is `toLowerCase`.
unfoldable pub connector_for_host : (String → String) → String → ConnectorId
unfolding policies
connector_for_host lower_case hostname =
    get_or
      (map_option (λ p. p.connector_id)
        (find (hosted_by (bare_host (lower_case hostname))) policies))
      unsupported_site
