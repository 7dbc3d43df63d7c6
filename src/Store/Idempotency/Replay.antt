-- ===== src/Store/Idempotency/Replay.antt =====
-- A key of apps/orchestrator/src/store.ts, once it has been used.
use extension_jobs.Common.{
  ℕ, ◌≡◌, refl, ap, ◌∙◌, inl, inr, String, true, false, none, some, List, [], ◌∷◌, ◌++◌, arith,
  str_eq, eq_refl, find, update_where, delete_where, map_option, Option-cases,
}
use extension_jobs.Store.Idempotency.{
  IdempotencyStatus, running, Entry, is_entry, started, conflict, existing, begin_idempotent,
  finish_idempotent, clear_idempotent,
}

abbrev pub done : ℕ → IdempotencyStatus → String → Entry → Entry
done now status response e = record e {
  status = status;
  response = some response;
  updated_at = now;
}

module _ (operation key : String) where
  abbrev pub new_entry : ℕ → String → Entry
  new_entry now request_hash = record {
    operation = operation;
    key = key;
    request_hash = request_hash;
    status = running;
    response = none;
    updated_at = now;
  }

  find_added :
      (rows : List Entry) (now : ℕ) (request_hash : String)
      → find (is_entry operation key) rows ≡ none
      → find (is_entry operation key) (rows ++ new_entry now request_hash ∷ [])
        ≡ some (new_entry now request_hash)
  find_added [] now request_hash n = rw (eq_refl operation, eq_refl key) refl
  find_added (e ∷ rows) now request_hash n = ground (arith, find_added rows now request_hash)

  pub find_finished :
      (rows : List Entry) (now : ℕ) (status : IdempotencyStatus) (response : String)
      → find
          (is_entry operation key)
          (update_where (is_entry operation key) (done now status response) rows)
        ≡ map_option {A = Entry} (done now status response) (find (is_entry operation key) rows)
  find_finished [] now status response = refl
  find_finished (e ∷ rows) now status response =
      ground (arith, find_finished rows now status response)

  find_cleared :
      (rows : List Entry)
      → find (is_entry operation key) (delete_where (is_entry operation key) rows) ≡ none
  find_cleared [] = refl
  find_cleared (e ∷ rows) = ground (arith, find_cleared rows)

  -- The entry of an operation that was started.
  pub started_entry :
      (now : ℕ) (request_hash : String) (rows : List Entry)
      → (begin_idempotent now operation key request_hash rows).1 ≡ started
      → find (is_entry operation key) (begin_idempotent now operation key request_hash rows).0
        ≡ some (new_entry now request_hash)
  unfolding begin_idempotent
  started_entry now request_hash rows = elim (Option-cases (find (is_entry operation key) rows)) [
    | inl n ↦ rw n (λ s. find_added rows now request_hash n)
    | inr (e, x) ↦ rw x (λ s. ground (arith, s))
  ]

  found_again :
      (later : ℕ) (request_hash : String) (table : List Entry) {e : Entry}
      → find (is_entry operation key) table ≡ some e
      → str_eq e.request_hash request_hash ≡ true
      → begin_idempotent later operation key request_hash table
        ≡ (table, existing e.status e.response)
  unfolding begin_idempotent
  found_again later request_hash table {e} x same = rw (x, same) refl

  found_other :
      (later : ℕ) (other : String) (table : List Entry) {e : Entry}
      → find (is_entry operation key) table ≡ some e
      → str_eq e.request_hash other ≡ false
      → begin_idempotent later operation key other table ≡ (table, conflict)
  unfolding begin_idempotent
  found_other later other table {e} x differs = rw (x, differs) refl

  not_found :
      (later : ℕ) (request_hash : String) (table : List Entry)
      → find (is_entry operation key) table ≡ none
      → (begin_idempotent later operation key request_hash table).1 ≡ started
  unfolding begin_idempotent
  not_found later request_hash table n = rw n refl

-- A key that has started an operation: until it ends a second call is told that it is running,
-- afterwards the call gets the stored status and response and nothing runs again, another input is
-- a conflict, and only after the key is cleared does an operation start again.
pub once_used :
    (now ended later : ℕ) (operation key request_hash other response : String)
    (status : IdempotencyStatus) (rows : List Entry)
    → (begin_idempotent now operation key request_hash rows).1 ≡ started
    → (let begun = (begin_idempotent now operation key request_hash rows).0 in
        let finished = finish_idempotent ended operation key status response begun in
        (begin_idempotent later operation key request_hash begun ≡ (begun, existing running none))
        × (begin_idempotent later operation key request_hash finished
            ≡ (finished, existing status (some response)))
        × (str_eq request_hash other ≡ false
            → begin_idempotent later operation key other finished ≡ (finished, conflict))
        × ((begin_idempotent later operation key request_hash
              (clear_idempotent operation key finished)).1
            ≡ started))
unfolding finish_idempotent clear_idempotent
once_used now ended later operation key request_hash other response status rows s =
    let begun = (begin_idempotent now operation key request_hash rows).0 in
    let finished = finish_idempotent ended operation key status response begun in
    let entry = started_entry operation key now request_hash rows s in
    let stored = find_finished operation key begun ended status response in
    let stored' = stored ∙ ap (map_option (done ended status response)) entry in
    (
      found_again operation key later request_hash begun entry (eq_refl request_hash),
      found_again operation key later request_hash finished stored' (eq_refl request_hash),
      λ differs. found_other operation key later other finished stored' differs,
      not_found operation key later request_hash (clear_idempotent operation key finished)
          (find_cleared operation key finished),
    )
