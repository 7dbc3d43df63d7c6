-- ===== src/Policy/Configured/Rows.antt =====
-- The rows of connector_settings after a connector has been set, and the registry that rows make:
-- `setConnectorEnabled` of apps/orchestrator/src/store.ts, the constructor of
-- apps/orchestrator/src/service.ts.
use extension_jobs.Common.{
  ℕ, String, suc, ◌+◌, ◌≤◌, ◌≡◌, refl, sym, ◌∙◌, subst, inl, inr, Bool, true, false, not, ◌&&◌,
  ◌||◌, List, [], ◌∷◌, ◌++◌, arith, any, any-append, changes, update_where, changes-update_where,
  ok, Bool-cases, if◌then◌else◌, ◌==◌, keep,
}
use extension_jobs.Policy.{
  ConnectorId, position, unsupported_site, id_eq, Registry, has, add, enable, disable,
}
use extension_jobs.Policy.Configured.{switched, restored}
use extension_jobs.Policy.Permissions.{kept_of, added_of}
use extension_jobs.Store.Settings.{ConnectorSetting, set_connector_enabled}

-- What `switched` makes where it is not refused.
abbrev pub turned : ConnectorId → Bool → Registry → Registry
turned id b r = record {
  enabled = if b then add id r.enabled else keep (λ k. not (id_eq k id)) r.enabled;
}

pub switched-turned :
    (id : ConnectorId) (b : Bool) (r : Registry)
    → (b && id_eq id unsupported_site) ≡ false
    → switched id b r ≡ ok (turned id b r)
unfolding enable disable
switched-turned id true r h = rw h refl
switched-turned id false r h = refl

pub has-turned :
    (k id : ConnectorId) (b : Bool) (r : Registry)
    → has k (turned id b r).enabled ≡ (if id_eq k id then b else has k r.enabled)
has-turned k id true r = ground (arith, added_of position k id r.enabled)
has-turned k id false r = ground (arith, kept_of position k id r.enabled)

abbrev pub is_row : ConnectorId → ConnectorSetting → Bool
is_row k s = id_eq s.connector_id k

-- A row that enables the connector, one that disables it, and one that enables what cannot be.
abbrev pub flagged : (Bool → Bool) → ConnectorId → List ConnectorSetting → Bool
flagged g k rows = any (λ s. id_eq s.connector_id k && g s.enabled) rows

abbrev pub on : ConnectorId → List ConnectorSetting → Bool
on k rows = flagged (λ b. b) k rows

abbrev pub off : ConnectorId → List ConnectorSetting → Bool
off k rows = flagged not k rows

abbrev pub refused : List ConnectorSetting → Bool
refused rows = on unsupported_site rows

abbrev pub IsOnce : List ConnectorSetting → Type 0
IsOnce rows = (k : ConnectorId) → changes (is_row k) rows ≤ 1

abbrev pub all_turned : List ConnectorSetting → Registry → Registry
all_turned [] r = r
all_turned (s ∷ ss) r = all_turned ss (turned s.connector_id s.enabled r)

pub restored-all_turned :
    (rows : List ConnectorSetting) (r : Registry)
    → refused rows ≡ false
    → restored rows r ≡ ok (all_turned rows r)
unfolding restored
restored-all_turned [] r h = refl
restored-all_turned (s ∷ ss) r h =
    rw (switched-turned s.connector_id s.enabled r (ground arith))
      (restored-all_turned ss (turned s.connector_id s.enabled r) (ground arith))

no_row :
    (g : Bool → Bool) (k : ConnectorId) (rows : List ConnectorSetting)
    → changes (is_row k) rows ≡ 0
    → flagged g k rows ≡ false
no_row g k [] h = refl
no_row g k (s ∷ ss) h = elim (Bool-cases (is_row k s)) [
  | inl hit ↦
      let counted : suc (changes (is_row k) ss) ≡ 0 = rw hit at h in absurd (omega (arith, counted))
  | inr miss ↦ rw miss (no_row g k ss (rw miss at h))
]

pub has-all_turned :
    (k : ConnectorId) (rows : List ConnectorSetting) (r : Registry)
    → changes (is_row k) rows ≤ 1
    → has k (all_turned rows r).enabled ≡ (on k rows || (has k r.enabled && not (off k rows)))
has-all_turned k [] r h = ground arith
has-all_turned k (s ∷ ss) r h = ground (
  arith,
  has-all_turned k ss (turned s.connector_id s.enabled r),
  has-turned k s.connector_id s.enabled r,
  no_row (λ b. b) k ss,
  no_row not k ss,
)

-- The rows after a connector has been set.
abbrev pub changed : ℕ → Bool → String → ConnectorSetting → ConnectorSetting
changed now b version s = record s { enabled = b; policy_version = version; updated_at = now }

same_row : (a b c : ℕ) → (a == b) ≡ true → (a == c) ≡ (c == b)
same_row a b c h = ground arith

other_row : (a b c : ℕ) → (a == b) ≡ false → (c == b) ≡ true → (a == c) ≡ false
other_row a b c h e = ground arith

hit_step :
    (same g any_row e flag : Bool)
    → ((same && g) || (if same then g && any_row else flag))
      ≡ (if same then g && true else (same && e) || flag)
hit_step true true any_row e flag = refl
hit_step true false any_row e flag = refl
hit_step false g any_row e flag = refl

miss_step :
    (here same e x flag : Bool)
    → (same ≡ true → here ≡ false)
    → ((here && e) || (if same then x else flag)) ≡ (if same then x else (here && e) || flag)
miss_step here true e x flag h = rw (h refl) refl
miss_step here false e x flag h = refl

module _ (g : Bool → Bool) (now : ℕ) (b : Bool) (version : String) (k id : ConnectorId) where
  updated_flag :
      (rows : List ConnectorSetting)
      → flagged g k (update_where (is_row id) (changed now b version) rows)
        ≡ (if id_eq k id then g b && any (is_row id) rows else flagged g k rows)
  updated_flag [] = elim (Bool-cases (id_eq k id)) [
    | inl same ↦ rw same (ground arith)
    | inr other ↦ rw other refl
  ]
  updated_flag (s ∷ ss) = elim (Bool-cases (is_row id s)) [
    | inl hit ↦
        rw (hit, same_row (position s.connector_id) (position id) (position k) hit, updated_flag ss)
          (hit_step (id_eq k id) (g b) (any (is_row id) ss) (g s.enabled) (flagged g k ss))
    | inr miss ↦
        rw (miss, updated_flag ss)
          (miss_step (is_row k s) (id_eq k id) (g s.enabled) (g b && any (is_row id) ss)
            (flagged g k ss) (other_row (position s.connector_id) (position id) (position k) miss))
  ]

abbrev pub fresh : ℕ → ConnectorId → Bool → String → ConnectorSetting
fresh now id b version = record {
  connector_id = id;
  enabled = b;
  policy_version = version;
  updated_at = now;
}

absent_rows :
    (k id : ConnectorId) (rows : List ConnectorSetting)
    → any (is_row id) rows ≡ false
    → id_eq k id ≡ true
    → changes (is_row k) rows ≡ 0
absent_rows k id [] h e = refl
absent_rows k id (s ∷ ss) h e = ground (arith, absent_rows k id ss)

changes-append_one :
    (k : ConnectorId) (rows : List ConnectorSetting) (s : ConnectorSetting)
    → changes (is_row k) (rows ++ s ∷ []) ≡ changes (is_row k) rows + (if is_row k s then 1 else 0)
changes-append_one k [] s = ground arith
changes-append_one k (t ∷ ts) s = ground (arith, changes-append_one k ts s)

pub swapped : (a b : ℕ) → (a == b) ≡ (b == a)
swapped a b = ground arith

found_step : (same g flag : Bool) → (if same then g && true else flag) ≡ (if same then g else flag)
found_step true true flag = refl
found_step true false flag = refl
found_step false g flag = refl

added_step :
    (same here g flag : Bool)
    → here ≡ same
    → (same ≡ true → flag ≡ false)
    → (flag || ((here && g) || false)) ≡ (if same then g else flag)
added_step same here g flag e h = ground (arith, e, h)

fits : (n : ℕ) (here : Bool) → n ≤ 1 → (here ≡ true → n ≡ 0) → n + (if here then 1 else 0) ≤ 1
fits n here h absent = ground (arith, absent)

pub set_flag :
    (g : Bool → Bool) (k id : ConnectorId) (now : ℕ) (b : Bool) (version : String)
    (rows : List ConnectorSetting)
    → flagged g k (set_connector_enabled now id b version rows)
      ≡ (if id_eq k id then g b else flagged g k rows)
unfolding set_connector_enabled
set_flag g k id now b version rows = elim (Bool-cases (any (is_row id) rows)) [
  | inl there ↦ rw there (
      updated_flag g now b version k id rows
      ∙ rw there (found_step (id_eq k id) (g b) (flagged g k rows)))
  | inr missing ↦ rw missing (
      any-append (λ s. id_eq s.connector_id k && g s.enabled) rows (fresh now id b version ∷ [])
      ∙ added_step (id_eq k id) (id_eq id k) (g b) (flagged g k rows)
          (swapped (position id) (position k))
          (λ same. no_row g k rows (absent_rows k id rows missing same)))
]

pub set_once :
    (k id : ConnectorId) (now : ℕ) (b : Bool) (version : String) (rows : List ConnectorSetting)
    → changes (is_row k) rows ≤ 1
    → changes (is_row k) (set_connector_enabled now id b version rows) ≤ 1
unfolding set_connector_enabled
set_once k id now b version rows h = elim (Bool-cases (any (is_row id) rows)) [
  | inl there ↦ rw there (
      subst (λ n. n ≤ 1)
        (sym (changes-update_where (is_row k) (is_row id) (changed now b version) rows (λ s. refl)))
        h)
  | inr missing ↦ rw missing (
      rw (changes-append_one k rows (fresh now id b version)) (
        fits (changes (is_row k) rows) (id_eq id k) h
          (λ same. absent_rows k id rows missing (swapped (position k) (position id) ∙ same))))
]
