-- ===== src/Policy/Configured/Restart.antt =====
-- A restart of the process keeps what the operator configured: `configureConnector` of
-- apps/orchestrator/src/job-application-service.ts, the constructor of apps/orchestrator/src/service.ts.
use extension_jobs.Common.{
  ℕ, ◌≤◌, ◌≡◌, refl, sym, ◌∙◌, ap, subst, inl, inr, Bool, true, false, not, ◌&&◌, ◌||◌, List, [],
  ◌∷◌, arith, sort, any-sort, changes-sort, Result, ok, err, Bool-cases, if◌then◌else◌, none,
}
use extension_jobs.Policy.{
  ConnectorId, position, unsupported_site, id_eq, Registry, has, new_registry, is_enabled,
  PolicyError, connector_disabled,
}
use extension_jobs.Policy.Configured.{Configured, version_of, configure_connector, started_registry}
use extension_jobs.Policy.Configured.Rows.{
  turned, has-turned, is_row, on, off, refused, IsOnce, all_turned, restored-all_turned,
  has-all_turned, swapped, set_flag, set_once,
}
use extension_jobs.Store.Settings.{set_connector_enabled, connector_settings, by_name}

-- The state after calls of `configureConnector`; one that is refused changes nothing.
pub record Call : Type 0 where
  pub now : ℕ
  pub id : ConnectorId
  pub enabled : Bool

abbrev after_call : Configured → Result PolicyError Configured → Configured
after_call c (ok d) = d
after_call c (err e) = c

unfoldable pub run : Configured → List Call → Configured
unfolding configure_connector
run c [] = c
run c (k ∷ ks) = run (after_call c (configure_connector k.now k.id k.enabled c)) ks

-- The registry enables what the rows say, and by default what they do not name.
record Agrees (c : Configured) : Type 0 where
  once : IsOnce c.settings
  allowed : refused c.settings ≡ false
  same :
      (k : ConnectorId)
      → has k c.registry.enabled
        ≡ (on k c.settings || (has k (new_registry none).enabled && not (off k c.settings)))

abbrev configuration : ℕ → ConnectorId → Bool → Configured → Configured
configuration now id b c = record {
  registry = turned id b c.registry;
  settings = set_connector_enabled now id b (version_of id) c.settings;
}

configure_allowed :
    (now : ℕ) (id : ConnectorId) (b : Bool) (c : Configured)
    → id_eq id unsupported_site ≡ false
    → configure_connector now id b c ≡ ok (configuration now id b c)
unfolding configure_connector
configure_allowed now id true c fine = rw fine refl
configure_allowed now id false c fine = rw fine refl

configure_refused :
    (now : ℕ) (id : ConnectorId) (b : Bool) (c : Configured)
    → id_eq id unsupported_site ≡ true
    → configure_connector now id b c ≡ err connector_disabled
unfolding configure_connector
configure_refused now id b c fallback = rw fallback refl

agree_step :
    (same b enabled on_row by_default off_row : Bool)
    → enabled ≡ (on_row || (by_default && not off_row))
    → (if same then b else enabled)
      ≡ ((if same then b else on_row) || (by_default && not (if same then not b else off_row)))
agree_step true true enabled on_row true off_row h = refl
agree_step true true enabled on_row false off_row h = refl
agree_step true false enabled on_row true off_row h = refl
agree_step true false enabled on_row false off_row h = refl
agree_step false b enabled on_row by_default off_row h = h

configuration-Agrees :
    (now : ℕ) (id : ConnectorId) (b : Bool) (c : Configured)
    → id_eq id unsupported_site ≡ false
    → Agrees c
    → Agrees (configuration now id b c)
configuration-Agrees now id b c fine h = record {
  once = λ k. set_once k id now b (version_of id) c.settings (h.once k);
  allowed =
      let other : id_eq unsupported_site id ≡ false = swapped 14 (position id) ∙ fine in
      rw (set_flag (λ e. e) unsupported_site id now b (version_of id) c.settings, other) h.allowed;
  same = λ k.
      rw
        (
          has-turned k id b c.registry,
          set_flag (λ e. e) k id now b (version_of id) c.settings,
          set_flag not k id now b (version_of id) c.settings,
        )
        (agree_step (id_eq k id) b (has k c.registry.enabled) (on k c.settings)
          (has k (new_registry none).enabled) (off k c.settings) (h.same k));
}

run-Agrees : (c : Configured) (ks : List Call) → Agrees c → Agrees (run c ks)
unfolding run
run-Agrees c [] h = h
run-Agrees c (k ∷ ks) h = elim (Bool-cases (id_eq k.id unsupported_site)) [
  | inl fallback ↦ rw (configure_refused k.now k.id k.enabled c fallback) (run-Agrees c ks h)
  | inr fine ↦ rw (configure_allowed k.now k.id k.enabled c fine) (
      run-Agrees (configuration k.now k.id k.enabled c) ks
        (configuration-Agrees k.now k.id k.enabled c fine h))
]

-- The process as it starts on an empty table.
abbrev pub first : Configured
first = record { registry = new_registry none; settings = [] }

first-Agrees : Agrees first
unfolding new_registry
first-Agrees = record { once = λ k. omega arith; allowed = refl; same = λ k. ground arith }

restored_same :
    (c : Configured) (k : ConnectorId)
    → Agrees c
    → has k (all_turned (sort by_name c.settings) (new_registry none)).enabled
      ≡ has k c.registry.enabled
restored_same c k h =
    has-all_turned k (sort by_name c.settings) (new_registry none)
      (subst (λ n. n ≤ 1) (sym (changes-sort (is_row k) by_name c.settings)) (h.once k))
    ∙ rw
        (
          any-sort (λ s. id_eq s.connector_id k && s.enabled) by_name c.settings,
          any-sort (λ s. id_eq s.connector_id k && not s.enabled) by_name c.settings,
        )
        (sym (h.same k))

-- A restart of the process keeps what the operator configured: after any calls of
-- `configureConnector`, in a process that started on an empty table, the constructor of another one
-- succeeds on the table, and its registry enables the same connectors.
pub restart_keeps :
    (calls : List Call)
    → (r : Registry) × (started_registry (run first calls).settings ≡ ok r)
      × ((k : ConnectorId) → is_enabled k r ≡ is_enabled k (run first calls).registry)
unfolding started_registry connector_settings is_enabled
restart_keeps calls =
    let c = run first calls in
    let agrees = run-Agrees first calls first-Agrees in
    (
      all_turned (sort by_name c.settings) (new_registry none),
      restored-all_turned (sort by_name c.settings) (new_registry none) (
          any-sort (λ s. id_eq s.connector_id unsupported_site && s.enabled) by_name c.settings
          ∙ agrees.allowed),
      λ k. ap (λ b. b && not (id_eq k unsupported_site)) (restored_same c k agrees),
    )
