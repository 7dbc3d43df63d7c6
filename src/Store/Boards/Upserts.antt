-- ===== src/Store/Boards/Upserts.antt =====
-- What the upsert of apps/orchestrator/src/store.ts, INSERT … ON CONFLICT DO UPDATE, leaves at each key.
use extension_jobs.Common.{
  String, Bool, true, false, Option, none, some, List, [], ◌∷◌, ◌≡◌, refl, ◌∙◌, arith, str_eq,
  eq_refl, eq_iff, str_eq→eq, any, find, find_holds, find-any, find_by, find_by-append,
  find_by-update_where, map_option, get_or, or_else, Bool-cases, Option-cases, inl, inr,
  if◌then◌else◌,
}
use extension_jobs.Store.Boards.{upsert}

none-any : {A : Type 0} (p : A → Bool) (xs : List A) → find p xs ≡ none → any p xs ≡ false
none-any p [] h = refl
none-any p (x ∷ xs) h = ground (arith, none-any p xs)

module _ {A : Type 0} (key : A → String) (k : String) (changed : A → A) (fresh : A) where
  -- What an upsert leaves at its key.
  pub find_by-upsert :
      (rows : List A)
      → ((a : A) → key (changed a) ≡ key a)
      → key fresh ≡ k
      → find_by key k (upsert (λ a. str_eq (key a) k) changed fresh rows)
        ≡ some (get_or (map_option changed (find_by key k rows)) fresh)
  find_by-upsert rows kept new = elim (Option-cases (find_by key k rows)) [
    | inr (a, found) ↦
        let there : any (λ x. str_eq (key x) k) rows ≡ true =
          find-any (λ x. str_eq (key x) k) rows found in
        let hit : str_eq (key a) k ≡ true = find_holds (λ x. str_eq (key x) k) rows found in
        rw there (
          find_by-update_where key k (λ x. str_eq (key x) k) changed rows kept
          ∙ rw (found, hit) refl)
    | inl missing ↦
        let absent : any (λ x. str_eq (key x) k) rows ≡ false =
          none-any (λ x. str_eq (key x) k) rows missing in
        rw absent (find_by-append key k rows (fresh ∷ []) ∙ rw (missing, new, eq_refl k) refl)
  ]

  -- And it leaves the other keys alone.
  pub find_by-upsert_other :
      (j : String) (rows : List A)
      → ((a : A) → key (changed a) ≡ key a)
      → key fresh ≡ k
      → str_eq k j ≡ false
      → find_by key j (upsert (λ a. str_eq (key a) k) changed fresh rows) ≡ find_by key j rows
  find_by-upsert_other j rows kept new other =
      elim (Bool-cases (any (λ x. str_eq (key x) k) rows)) [
        | inl there ↦ rw there (
            find_by-update_where key j (λ x. str_eq (key x) k) changed rows kept
            ∙ unchanged (find_by key j rows) (λ a found. at_j rows a found))
        | inr absent ↦ rw absent (
            find_by-append key j rows (fresh ∷ [])
            ∙ rw (new, other) (kept_option (find_by key j rows)))
      ]
    where
      at_j : (rows : List A) (a : A) → find_by key j rows ≡ some a → key a ≡ j
      at_j rows a found = str_eq→eq (key a) j (find_holds (λ x. str_eq (key x) j) rows found)

      kept_option : (o : Option A) → or_else o none ≡ o
      kept_option none = refl
      kept_option (some a) = refl

      unchanged :
          (o : Option A)
          → ((a : A) → o ≡ some a → key a ≡ j)
          → map_option (λ a. if str_eq (key a) k then changed a else a) o ≡ o
      unchanged none h = refl
      unchanged (some a) h =
          let apart : str_eq (key a) k ≡ false =
            ground (arith, h a refl, eq_iff (key a) k, eq_iff k j) in
          rw apart refl
