-- ===== src/Policy/Tests.antt =====
-- The site policies at concrete registries.
use extension_jobs.Common.{◌≡◌, refl, List, true, false, not, ◌&&◌, ◌||◌, none, [], ◌∷◌, ok}
use extension_jobs.Policy.{
  connector_for_host, policies, unsupported_site, wuzzuf, linkedin, ziprecruiter, ConnectorId,
  SitePolicy, browser_approved, Registry, has, id_eq, new_registry, is_enabled, enable, disable,
  submits, assert_capability, policy_of, capabilities_of, browser_automated, automated,
}
use extension_jobs.Policy.Configured.{configure_connector, started_registry}
use extension_jobs.Store.Settings.{set_connector_enabled}
use extension_jobs.Policy.Configured.Restart.{Call, run, first, restart_keeps}
use extension_jobs.Policy.Permissions.{clickable, submit_permitted, enabled_after}

abbrev wuzzuf_policy : SitePolicy
wuzzuf_policy =
    policy_of wuzzuf true ("wuzzuf.net" ∷ [])
      (capabilities_of browser_automated browser_automated automated browser_approved true)
      "Controlled CDP implementation; challenges stop automation."

wuzzuf_submits : assert_capability wuzzuf submits (new_registry none) ≡ ok wuzzuf_policy
unfolding assert_capability new_registry
wuzzuf_submits = refl

submit_permitted_example :
    (is_enabled wuzzuf (new_registry none) ≡ true)
    × (clickable wuzzuf ≡ true)
    × (wuzzuf_policy.capabilities.submit ≡ browser_approved)
    × (wuzzuf_policy.capabilities.requires_submission_approval ≡ true)
submit_permitted_example = submit_permitted wuzzuf (new_registry none) wuzzuf_policy wuzzuf_submits

abbrev only_wuzzuf : Registry
only_wuzzuf = record { enabled = wuzzuf ∷ [] }

abbrev with_linkedin : Registry
with_linkedin = record { enabled = wuzzuf ∷ linkedin ∷ [] }

enables : enable linkedin only_wuzzuf ≡ ok with_linkedin
unfolding enable
enables = refl

enabled_after_at :
    (has wuzzuf with_linkedin.enabled ≡ (has wuzzuf only_wuzzuf.enabled || id_eq wuzzuf linkedin))
    × (has wuzzuf (disable linkedin with_linkedin).enabled
        ≡ (has wuzzuf with_linkedin.enabled && not (id_eq wuzzuf linkedin)))
enabled_after_at = enabled_after wuzzuf linkedin only_wuzzuf with_linkedin enables

jobs_subdomain : connector_for_host (λ s. s) "www.jobs.wuzzuf.net" ≡ wuzzuf
unfolding connector_for_host policies
jobs_subdomain = refl

look_alike : connector_for_host (λ s. s) "notwuzzuf.net" ≡ unsupported_site
unfolding connector_for_host policies
look_alike = refl

abbrev calls : List Call
calls =
    record { now = 1; id = linkedin; enabled = false }
    ∷ record { now = 2; id = ziprecruiter; enabled = true }
    ∷ record { now = 3; id = unsupported_site; enabled = true }
    ∷ record { now = 4; id = linkedin; enabled = false }
    ∷ []

calls_configure :
    (has linkedin (run first calls).registry.enabled ≡ false)
    × (has ziprecruiter (run first calls).registry.enabled ≡ true)
unfolding run configure_connector set_connector_enabled enable disable new_registry
calls_configure = (refl, refl)

restart_keeps_example :
    (r : Registry) × (started_registry (run first calls).settings ≡ ok r)
    × ((k : ConnectorId) → is_enabled k r ≡ is_enabled k (run first calls).registry)
restart_keeps_example = restart_keeps calls
