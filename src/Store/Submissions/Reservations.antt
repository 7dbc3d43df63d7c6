-- ===== src/Store/Submissions/Reservations.antt =====
-- The key of a submission in apps/orchestrator/src/store.ts: no method takes it away again, and an
-- application gets one at most.
use extension_jobs.Common.{
  ℕ, ◌+◌, ◌≤◌, ◌≡◌, refl, inl, inr, String, Bool, true, false, ◌&&◌, none, some, List, [], ◌∷◌,
  ◌++◌, arith, str_eq, str_eq→eq, eq_refl, is_some, any, update_where, changes, Bool-cases,
  if◌then◌else◌,
}
use extension_jobs.Application.{PreparedApplication}
use extension_jobs.Store.Submissions.{
  ApplicationRow, Submissions, put_application, save_prepared_application, is_unreserved, set_key,
  reserve_submission, reserve_submission_attempt,
}

abbrev pub is_taken : String → ApplicationRow → Bool
is_taken id r = str_eq r.id id && is_some r.submission_key

-- How many rows of the application have a key, and how many have none.
abbrev pub taken : String → Submissions → ℕ
taken id t = changes (is_taken id) t.applications

abbrev pub free : String → Submissions → ℕ
free id t = changes (is_unreserved id) t.applications

module _ (id : String) where
  kept :
      (k : String) (a : PreparedApplication) (rows : List ApplicationRow)
      → (let after =
            update_where
              (λ r. str_eq r.id k)
              (λ r. record r { state = a.state; record_data = a })
              rows in
          (changes (is_taken id) after ≡ changes (is_taken id) rows)
          × (changes (is_unreserved id) after ≡ changes (is_unreserved id) rows))
  kept k a [] = (refl, refl)
  kept k a (r ∷ rows) = ground (arith, kept k a rows)

  added :
      (new : ApplicationRow) (rows : List ApplicationRow)
      → new.submission_key ≡ none
      → (changes (is_taken id) (rows ++ new ∷ []) ≡ changes (is_taken id) rows)
        × (changes (is_unreserved id) (rows ++ new ∷ [])
            ≡ changes (is_unreserved id) rows + (if str_eq new.id id then 1 else 0))
  added new [] n = ground arith
  added new (r ∷ rows) n = ground (arith, added new rows n)

  absent :
      (k : String) (rows : List ApplicationRow)
      → any (λ r. str_eq r.id k) rows ≡ false
      → str_eq k id ≡ true
      → changes (is_taken id) rows + changes (is_unreserved id) rows ≡ 0
  absent k [] e s = refl
  absent k (r ∷ rows) e s = ground (arith, absent k rows, str_eq→eq k id s)

  keyed :
      (k key : String) (rows : List ApplicationRow)
      → (let after = update_where (is_unreserved k) (set_key key) rows in
          let moved = if str_eq k id then changes (is_unreserved id) rows else 0 in
          (changes (is_taken id) after ≡ changes (is_taken id) rows + moved)
          × (changes (is_unreserved id) after + moved ≡ changes (is_unreserved id) rows))
  keyed k key [] = ground arith
  keyed k key (r ∷ rows) = ground (
    arith,
    keyed k key rows,
    str_eq→eq k id,
    str_eq→eq r.id id,
    str_eq→eq r.id k,
    eq_refl k,
    eq_refl id,
  )

  -- A save keeps the keys, and adds a row only where the application has none.
  pub save-taken :
      (now : ℕ) (a : PreparedApplication) (t : Submissions)
      → (taken id (save_prepared_application now a t) ≡ taken id t)
        × (taken id t + free id t ≤ 1
            → taken id (save_prepared_application now a t)
                + free id (save_prepared_application now a t)
              ≤ 1)
  unfolding save_prepared_application put_application
  save-taken now a t = elim (Bool-cases (any (λ r. str_eq r.id a.id) t.applications)) [
    | inl e ↦
        let (same, rest) = kept a.id a t.applications in
        rw e (same, λ h. omega (arith, same, rest, h))
    | inr e ↦
        let new : ApplicationRow = record {
          id = a.id;
          job_id = a.job_id;
          state = a.state;
          submission_key = none;
          record_data = a;
        } in
        let (same, more) = added new t.applications refl in
        rw e (same, λ h. ground (arith, absent a.id t.applications e, same, more))
  ]

  -- A reservation that succeeds gives its application, and no other, its key.
  pub reserve-taken :
      (now : ℕ) (attempt_id k approval_id : String) (known : Bool) (key : String) (t : Submissions)
      → (let (t', done) = reserve_submission_attempt now attempt_id k approval_id known key t in
          (taken id t ≤ taken id t')
          × (taken id t + free id t ≤ 1 → taken id t' + free id t' ≤ 1)
          × (done ≡ some true → str_eq k id ≡ true → taken id t' ≡ taken id t + 1))
  unfolding reserve_submission_attempt reserve_submission
  reserve-taken now attempt_id k approval_id known key t =
      let (more, less) = keyed k key t.applications in ground (arith, str_eq→eq k id)
