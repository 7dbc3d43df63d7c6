-- ===== src/Store/Usage/Granted.antt =====
-- What one reservation of apps/orchestrator/src/store.ts does to the count of a campaign and a day.
use native.Mathlib.Nat.{add-zero}
use extension_jobs.Common.{
  ℕ, ◌+◌, ◌≤◌, ◌≡◌, refl, sym, subst, ok_injective, ok_not_err, ◌∙◌, inl, inr, String, Bool, true,
  false, ◌&&◌, List, [], ◌∷◌, ◌++◌, arith, any, ltb, str_eq, eq_iff, eq_refl, update_where, changes,
  changes-update_where, ok, Bool-cases, if◌then◌else◌,
}
use extension_jobs.Store.Usage.{
  Usage, is_day_key, is_usage, is_below, bump, with_row, reserve_row, reserve_campaign_application,
}

module _ (c d : String) where
  -- How many applications the table has for the campaign on the day.
  abbrev pub used : List Usage → ℕ
  used [] = 0
  used (u ∷ us) = let rest = used us in if is_usage c d u then u.count + rest else rest

  -- The key names one row at most.
  abbrev pub Once : List Usage → Type 0
  Once us = changes (is_usage c d) us ≤ 1

  absent :
      (us : List Usage)
      → any (is_usage c d) us ≡ false
      → (changes (is_usage c d) us ≡ 0) × (used us ≡ 0)
  absent [] h = (refl, refl)
  absent (u ∷ us) h = ground (arith, absent us)

  present : (us : List Usage) → any (is_usage c d) us ≡ true → 1 ≤ changes (is_usage c d) us
  present [] h = ground arith
  present (u ∷ us) h = ground (arith, present us)

  used-append :
      (us : List Usage) (u : Usage)
      → used (us ++ u ∷ []) ≡ used us + (if is_usage c d u then u.count else 0)
  used-append [] u = ground arith
  used-append (v ∷ us) u = ground (arith, used-append us u)

  changes-append :
      (us : List Usage) (u : Usage)
      → changes (is_usage c d) (us ++ u ∷ [])
        ≡ changes (is_usage c d) us + (if is_usage c d u then 1 else 0)
  changes-append [] u = ground arith
  changes-append (v ∷ us) u = ground (arith, changes-append us u)

  -- The row is there afterwards, once, with the count that it had.
  with_row_lem :
      (now : ℕ) (us : List Usage)
      → Once us
      → (changes (is_usage c d) (with_row now c d us) ≡ 1) × (used (with_row now c d us) ≡ used us)
  with_row_lem now us o = elim (Bool-cases (any (is_usage c d) us)) [
    | inl there ↦ rw there (omega (arith, present us there), refl)
    | inr missing ↦
        let row : Usage = record { campaign_id = c; day_key = d; count = 0; updated_at = now } in
        rw missing (
          ground (
            arith,
            eq_refl c,
            eq_refl d,
            absent us missing,
            used-append us row,
            changes-append us row,
          ))
  ]

  module _ (now maximum : ℕ) where
    bump_absent :
        (us : List Usage)
        → changes (is_usage c d) us ≡ 0
        → (changes (is_below c d maximum) us ≡ 0)
          × (used (update_where (is_below c d maximum) (bump now) us) ≡ 0)
          × (used us ≡ 0)
    bump_absent [] h = (refl, refl, refl)
    bump_absent (u ∷ us) h = ground (arith, bump_absent us)

    bump_once :
        (us : List Usage)
        → changes (is_usage c d) us ≡ 1
        → (changes (is_below c d maximum) us ≡ (if ltb (used us) maximum then 1 else 0))
          × (used (update_where (is_below c d maximum) (bump now) us)
              ≡ used us + (if ltb (used us) maximum then 1 else 0))
    bump_once [] h = ground arith
    bump_once (u ∷ us) h = elim (Bool-cases (is_usage c d u)) [
      | inl hit ↦
          let (none_below, none_after, none_used) = bump_absent us (ground arith) in
          rw (hit, none_below, none_after, none_used, add-zero) (ground arith)
      | inr miss ↦ rw miss (rw miss (bump_once us (rw miss at h)))
    ]

-- A reservation, where the table has the key once at most: it is granted exactly if fewer than the
-- maximum were used, and then one more is used.
pub reserve_row_lem :
    (now : ℕ) (c d : String) (maximum : ℕ) (us : List Usage)
    → Once c d us
    → ((reserve_row now c d maximum us).1 ≡ ltb (used c d us) maximum)
      × (used c d (reserve_row now c d maximum us).0
          ≡ used c d us + (if ltb (used c d us) maximum then 1 else 0))
      × Once c d (reserve_row now c d maximum us).0
unfolding reserve_row
reserve_row_lem now c d maximum us o =
    let (once, same) = with_row_lem c d now us o in
    let (changed, more) = bump_once c d now maximum (with_row now c d us) once in
    let kept =
      changes-update_where (is_usage c d) (is_below c d maximum) (bump now) (with_row now c d us)
        (λ u. refl) in
    (rw changed (rw same (ground arith)), more ∙ rw same, omega (arith, kept, once))

-- A reservation that is not refused as invalid.
pub reserve_lem :
    (now : ℕ) (c d : String) (maximum : ℕ) (us after : List Usage) (done : Bool)
    → Once c d us
    → reserve_campaign_application now c d maximum us ≡ ok (after, done)
    → Once c d after
      × (used c d after ≡ used c d us + (if done then 1 else 0))
      × (done ≡ true → used c d after ≤ maximum)
unfolding reserve_campaign_application
reserve_lem now c d maximum us after done o e = elim (Bool-cases (is_day_key d && ltb 0 maximum)) [
  | inr invalid ↦ absurd (ok_not_err (sym (rw invalid at e)))
  | inl valid ↦
      let same = ok_injective (rw valid at e) in
      let (granted, more, once) = reserve_row_lem now c d maximum us o in
      subst
        (λ p.
          Once c d p.0
          × (used c d p.0 ≡ used c d us + (if p.1 then 1 else 0))
          × (p.1 ≡ true → used c d p.0 ≤ maximum))
        same (once, rw granted more, λ yes. ground (arith, granted, more, yes))
]

module _ (c d c' d' : String) (n : (str_eq c c' && str_eq d d') ≡ false) where
  apart : (u : Usage) → is_usage c d u ≡ true → is_usage c' d' u ≡ false
  apart u h = ground (
    arith,
    eq_iff u.campaign_id c,
    eq_iff u.day_key d,
    eq_iff u.campaign_id c',
    eq_iff u.day_key d',
    eq_iff c c',
    eq_iff d d',
  )

  bump_other :
      (now maximum : ℕ) (us : List Usage)
      → used c' d' (update_where (is_below c d maximum) (bump now) us) ≡ used c' d' us
  bump_other now maximum [] = refl
  bump_other now maximum (u ∷ us) = ground (arith, apart u, bump_other now maximum us)

  with_row_other :
      (now : ℕ) (us : List Usage)
      → (used c' d' (with_row now c d us) ≡ used c' d' us)
        × (changes (is_usage c' d') (with_row now c d us) ≡ changes (is_usage c' d') us)
  with_row_other now us =
      let row : Usage = record { campaign_id = c; day_key = d; count = 0; updated_at = now } in
      ground (arith, n, used-append c' d' us row, changes-append c' d' us row)

  -- A reservation for another campaign or another day.
  pub reserve_row_other :
      (now maximum : ℕ) (us : List Usage)
      → (used c' d' (reserve_row now c d maximum us).0 ≡ used c' d' us)
        × (changes (is_usage c' d') (reserve_row now c d maximum us).0
            ≡ changes (is_usage c' d') us)
  unfolding reserve_row
  reserve_row_other now maximum us =
      let (same_use, same_rows) = with_row_other now us in
      (
        bump_other now maximum (with_row now c d us) ∙ same_use,
        changes-update_where (is_usage c' d') (is_below c d maximum) (bump now)
              (with_row now c d us) (λ u. refl)
            ∙ same_rows,
      )
