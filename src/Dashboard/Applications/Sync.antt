-- ===== src/Dashboard/Applications/Sync.antt =====
-- `syncManualActions` of apps/orchestrator/src/dashboard-api.ts opens no action a second time.
use extension_jobs.Common.{
  ℕ, String, Bool, true, false, not, ◌&&◌, none, List, [], ◌∷◌, map, ◌≡◌, refl, ◌∙◌, arith, any,
  any-sort, includes, includes-map, str_eq, str_eq→eq, find_by, keep, Bool-cases, inl, inr,
}
use extension_jobs.Application.{PreparedApplication}
use extension_jobs.Store.Boards.{ManualActionItem, save_manual_action, list_manual_actions}
use extension_jobs.Store.Boards.Upserts.{find_by-upsert_other}
use extension_jobs.Dashboard.{Platform}
use extension_jobs.Dashboard.Applications.{
  action_id, needs_action, action_for, sync_each, sync_manual_actions,
}

any-keep_all :
    (p : ManualActionItem → Bool) (rows : List ManualActionItem)
    → any p (keep (λ r. true) rows) ≡ any p rows
any-keep_all p [] = refl
any-keep_all p (r ∷ rows) = ground (arith, any-keep_all p rows)

-- The listed ids are those of the rows.
listed :
    (k : String) (rows : List ManualActionItem)
    → includes k (map (λ i. i.id) (list_manual_actions none rows)) ≡ any (λ i. str_eq i.id k) rows
unfolding list_manual_actions
listed k rows =
    includes-map (λ i. i.id) k (list_manual_actions none rows)
    ∙ any-sort (λ i. str_eq i.id k) _ (keep (λ r. true) rows)
    ∙ any-keep_all (λ i. str_eq i.id k) rows

module _ (platform : Platform) (now : ℕ) where
  find_by-save :
      (k : String) (item : ManualActionItem) (rows : List ManualActionItem)
      → str_eq item.id k ≡ false
      → find_by (λ i. i.id) k (save_manual_action now item rows) ≡ find_by (λ i. i.id) k rows
  unfolding save_manual_action
  find_by-save k item rows other =
      find_by-upsert_other (λ i. i.id) item.id _ _ k rows (λ a. refl) refl other

  sync_each-Kept :
      (existing : List String) (k : String) (applications : List PreparedApplication)
      (rows : List ManualActionItem)
      → includes k existing ≡ true
      → find_by (λ i. i.id) k (sync_each platform now existing applications rows)
        ≡ find_by (λ i. i.id) k rows
  unfolding sync_each
  sync_each-Kept existing k [] rows h = refl
  sync_each-Kept existing k (a ∷ rest) rows h =
      elim (Bool-cases (needs_action a && not (includes (action_id a) existing))) [
        | inr skipped ↦ rw skipped (sync_each-Kept existing k rest rows h)
        | inl added ↦ rw added (
            sync_each-Kept existing k rest (save_manual_action now (action_for platform now a) rows)
              h
            ∙ find_by-save k (action_for platform now a) rows
                (apart (action_id a) (needs_action a) added))
      ]
    where
      apart :
          (id : String) (needed : Bool)
          → (needed && not (includes id existing)) ≡ true
          → str_eq id k ≡ false
      apart id needed added = elim (Bool-cases (str_eq id k)) [
        | inr other ↦ other
        | inl same ↦
            let absent : includes id existing ≡ false = ground arith in
            absurd (cc (rw (str_eq→eq id k same, h) at absent))
      ]

  -- An action that exists, open or decided, is left as it is: none is opened again.
  pub sync_manual_actions-Kept :
      (k : String) (applications : List PreparedApplication) (rows : List ManualActionItem)
      → any (λ i. str_eq i.id k) rows ≡ true
      → find_by (λ i. i.id) k (sync_manual_actions platform now applications rows)
        ≡ find_by (λ i. i.id) k rows
  unfolding sync_manual_actions
  sync_manual_actions-Kept k applications rows h =
      sync_each-Kept (map (λ i. i.id) (list_manual_actions none rows)) k applications rows
        (listed k rows ∙ h)
