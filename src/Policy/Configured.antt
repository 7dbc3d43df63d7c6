-- ===== src/Policy/Configured.antt =====
-- What the operator configures: `configureConnector` of apps/orchestrator/src/job-application-service.ts,
-- and the registry that the constructor of apps/orchestrator/src/service.ts builds from the settings.
pub mod Rows
pub mod Restart
use extension_jobs.Common.{
  ℕ, String, Bool, none, some, List, [], ◌∷◌, Option, map_option, get_or, Result, ok, err, ◌>>=◌,
  if◌then◌else◌,
}
use extension_jobs.Policy.{
  ConnectorId, unsupported_site, id_eq, SitePolicy, Registry, get, new_registry, enable, disable,
  PolicyError, connector_disabled,
}
use extension_jobs.Store.Settings.{ConnectorSetting, set_connector_enabled, connector_settings}

-- The registry of the process and the table of the store.
pub record Configured : Type 0 where
  pub registry : Registry
  pub settings : List ConnectorSetting

-- `policies.enable` or `policies.disable`
abbrev pub switched : ConnectorId → Bool → Registry → Result PolicyError Registry
unfolding enable disable
switched id enabled r = if enabled then enable id r else ok (disable id r)

-- Every id has a policy.
abbrev pub version_of : ConnectorId → String
unfolding get
version_of id = get_or (map_option (λ p. p.version) (get id)) ""

unfoldable pub configure_connector :
    ℕ → ConnectorId → Bool → Configured → Result PolicyError Configured
unfolding switched version_of set_connector_enabled
configure_connector now id enabled c =
    if id_eq id unsupported_site
    then err connector_disabled
    else (switched id enabled c.registry >>= λ r. ok (record {
      registry = r;
      settings = set_connector_enabled now id enabled (version_of id) c.settings;
    }))

-- The loop over the settings.
abbrev pub restored : List ConnectorSetting → Registry → Result PolicyError Registry
unfolding switched
restored [] r = ok r
restored (s ∷ ss) r = switched s.connector_id s.enabled r >>= λ t. restored ss t

unfoldable pub started_registry : List ConnectorSetting → Result PolicyError Registry
unfolding restored connector_settings new_registry
started_registry settings = restored (connector_settings settings) (new_registry none)
