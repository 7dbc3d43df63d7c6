-- ===== src/Policy/Permissions.antt =====
-- What `assertCapability` of packages/site-policy-registry/src/index.ts lets through.
use extension_jobs.Common.{
  ℕ, ◌≡◌, refl, ap, subst, inl, inr, Bool, true, false, not, ◌&&◌, ◌||◌, List, [], ◌∷◌, ◌++◌, arith,
  any, any-append, keep, Result, ok, err, Bool-cases, if◌then◌else◌, ◌==◌,
}
use extension_jobs.Policy.{
  ConnectorId, wuzzuf, greenhouse, lever, ashby, workable, smartrecruiters, workday, development,
  unsupported_site, id_eq, SitePolicy, browser_approved, Registry, has, add, get, is_enabled,
  enable, disable, submits, permitted_of, policies, assert_capability, PolicyError,
  connector_disabled, position,
}

-- The sites where a click may submit.
abbrev pub clickable : ConnectorId → Bool
clickable wuzzuf = true
clickable greenhouse = true
clickable lever = true
clickable ashby = true
clickable workable = true
clickable smartrecruiters = true
clickable workday = true
clickable development = true
clickable _ = false

abbrev registry_of : Registry → Result PolicyError Registry → Registry
registry_of s (ok t) = t
registry_of s (err e) = s

policy_submits :
    (id : ConnectorId) (p : SitePolicy)
    → permitted_of submits (get id) ≡ ok p
    → (clickable id ≡ true)
      × (p.capabilities.submit ≡ browser_approved)
      × (p.capabilities.requires_submission_approval ≡ true)
unfolding get policies
policy_submits id p e = ground (arith, e)

-- Whatever connectors have been enabled, a submission is let through on eight sites only, by a click
-- in the browser, and asks for an approval; the connector is enabled then.
pub submit_permitted :
    (id : ConnectorId) (r : Registry) (p : SitePolicy)
    → assert_capability id submits r ≡ ok p
    → (is_enabled id r ≡ true)
      × (clickable id ≡ true)
      × (p.capabilities.submit ≡ browser_approved)
      × (p.capabilities.requires_submission_approval ≡ true)
unfolding assert_capability
submit_permitted id r p = elim (Bool-cases (is_enabled id r)) [
  | inl on ↦ rw on (λ e.
      let (click, browser, approval) = policy_submits id p e in (refl, click, browser, approval))
  | inr off ↦ rw off (λ e. ground (arith, e))
]

-- Facts on a list whose elements are told apart by a number.
module _ {A : Type 0} (pos : A → ℕ) where
  pub kept_of :
      (k id : A) (ks : List A)
      → any (λ j. pos j == pos k) (keep (λ j. not (pos j == pos id)) ks)
        ≡ (any (λ j. pos j == pos k) ks && not (pos k == pos id))
  kept_of k id [] = refl
  kept_of k id (j ∷ js) = ground (arith, kept_of k id js)

  same_any :
      (k id : A) (ks : List A)
      → (pos k == pos id) ≡ true
      → any (λ j. pos j == pos k) ks ≡ any (λ j. pos j == pos id) ks
  same_any k id [] e = refl
  same_any k id (j ∷ js) e = ground (arith, same_any k id js e)

  pub added_of :
      (k id : A) (ks : List A)
      → any (λ j. pos j == pos k) (if any (λ j. pos j == pos id) ks then ks else ks ++ id ∷ [])
        ≡ (any (λ j. pos j == pos k) ks || (pos k == pos id))
  added_of k id ks = ground (arith, same_any k id ks, any-append (λ j. pos j == pos k) ks (id ∷ []))

-- The enabled connectors are a set: `enable` adds that one, `disable` takes that one away, and
-- neither touches another.
pub enabled_after :
    (k id : ConnectorId) (r s : Registry)
    → enable id r ≡ ok s
    → (has k s.enabled ≡ (has k r.enabled || id_eq k id))
      × (has k (disable id s).enabled ≡ (has k s.enabled && not (id_eq k id)))
unfolding enable disable
enabled_after k id r s e = (added_in (id_eq id unsupported_site) e, kept_of position k id s.enabled)
  where
    added_in :
        (b : Bool)
        → (if b then err connector_disabled else ok (record { enabled = add id r.enabled })) ≡ ok s
        → has k s.enabled ≡ (has k r.enabled || id_eq k id)
    added_in true x = ground (arith, x)
    added_in false x =
        subst (λ t. has k t.enabled ≡ (has k r.enabled || id_eq k id)) (ap (registry_of s) x)
          (added_of position k id r.enabled)
