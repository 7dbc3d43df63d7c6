-- ===== src/Connector/Idempotent/Unknown.antt =====
-- A submission whose outcome is unknown is not run again under its key:
-- apps/orchestrator/src/wuzzuf-tool-service.ts.
use extension_jobs.Common.{
  ℕ, ◌≡◌, refl, ap, ◌∙◌, inl, inr, String, Bool, true, false, not, ◌&&◌, Option, some, List, [],
  ◌∷◌, ◌++◌, arith, str_eq, eq_iff, all, find, map_option, Option-cases, Bool-cases, err,
  if◌then◌else◌,
}
use extension_jobs.Connector.{Failure}
use extension_jobs.Connector.Idempotent.{
  runs, refused, key_conflict, unknown_failure, enter_submission, entered_submission,
  leave_submission, is_unknown,
}
use extension_jobs.Store.Idempotency.{
  IdempotencyStatus, succeeded, uncertain, Entry, is_entry, Begun, started, begin_idempotent,
  finish_idempotent, clear_idempotent, conflict, existing, running, failed,
}
use extension_jobs.Store.Idempotency.Replay.{done, started_entry, find_finished}

abbrev is_uncertain : IdempotencyStatus → Bool
is_uncertain uncertain = true
is_uncertain _ = false

-- The calls of `beginIdempotent`, `finishIdempotent` and `clearIdempotent` that the wrappers make.
pub data Call : Type 0 where
  begins : ℕ → String → String → String → Call
  finishes : ℕ → String → String → IdempotencyStatus → String → Call
  clears : String → String → Call

unfoldable pub run : List Entry → List Call → List Entry
unfolding begin_idempotent finish_idempotent clear_idempotent
run rows [] = rows
run rows (begins now operation key request_hash ∷ cs) =
    run (begin_idempotent now operation key request_hash rows).0 cs
run rows (finishes now operation key status response ∷ cs) =
    run (finish_idempotent now operation key status response rows) cs
run rows (clears operation key ∷ cs) = run (clear_idempotent operation key rows) cs

-- No caller ends an operation under this key.
abbrev pub ends_other : String → String → Call → Bool
ends_other operation key (begins _ _ _ _) = true
ends_other operation key (finishes _ o k _ _) = not (str_eq o operation && str_eq k key)
ends_other operation key (clears o k) = not (str_eq o operation && str_eq k key)

module _ (operation key : String) where
  abbrev entry_of : List Entry → Option Entry
  entry_of rows = find (is_entry operation key) rows

  apart :
      (o k : String) (x : Entry)
      → not (str_eq o operation && str_eq k key) ≡ true
      → is_entry o k x ≡ true
      → is_entry operation key x ≡ false
  apart o k x n h = ground (
    arith,
    eq_iff x.operation o,
    eq_iff x.key k,
    eq_iff x.operation operation,
    eq_iff x.key key,
    eq_iff o operation,
    eq_iff k key,
  )

  added_keeps :
      (rows : List Entry) (new : Entry) {e : Entry}
      → entry_of rows ≡ some e
      → entry_of (rows ++ new ∷ []) ≡ some e
  added_keeps [] new {e} h = absurd (cc h)
  added_keeps (x ∷ xs) new {e} h = elim (Bool-cases (is_entry operation key x)) [
    | inl hit ↦ rw hit (rw hit at h)
    | inr miss ↦ rw miss (added_keeps xs new (rw miss at h))
  ]

  begin_keeps :
      (now : ℕ) (o k request_hash : String) (rows : List Entry) {e : Entry}
      → entry_of rows ≡ some e
      → entry_of (begin_idempotent now o k request_hash rows).0 ≡ some e
  unfolding begin_idempotent
  begin_keeps now o k request_hash rows {e} h = elim (Option-cases (find (is_entry o k) rows)) [
    | inl fresh ↦ rw fresh (added_keeps rows _ h)
    | inr (x, found) ↦ rw found h
  ]

  finish_keeps :
      (now : ℕ) (o k : String) (status : IdempotencyStatus) (response : String) (rows : List Entry)
      → not (str_eq o operation && str_eq k key) ≡ true
      → entry_of (finish_idempotent now o k status response rows) ≡ entry_of rows
  unfolding finish_idempotent
  finish_keeps now o k status response [] n = refl
  finish_keeps now o k status response (x ∷ xs) n = elim (Bool-cases (is_entry o k x)) [
    | inl hit ↦ rw (hit, apart o k x n hit) (finish_keeps now o k status response xs n)
    | inr miss ↦ rw miss (elim (Bool-cases (is_entry operation key x)) [
      | inl ours ↦ rw ours refl
      | inr other ↦ rw other (finish_keeps now o k status response xs n)
    ])
  ]

  clear_keeps :
      (o k : String) (rows : List Entry)
      → not (str_eq o operation && str_eq k key) ≡ true
      → entry_of (clear_idempotent o k rows) ≡ entry_of rows
  unfolding clear_idempotent
  clear_keeps o k [] n = refl
  clear_keeps o k (x ∷ xs) n = elim (Bool-cases (is_entry o k x)) [
    | inl hit ↦ rw (hit, apart o k x n hit) (clear_keeps o k xs n)
    | inr miss ↦ rw miss (elim (Bool-cases (is_entry operation key x)) [
      | inl ours ↦ rw ours refl
      | inr other ↦ rw other (clear_keeps o k xs n)
    ])
  ]

  run_keeps :
      (rows : List Entry) (cs : List Call) {e : Entry}
      → all (ends_other operation key) cs ≡ true
      → entry_of rows ≡ some e
      → entry_of (run rows cs) ≡ some e
  unfolding run
  run_keeps rows [] {e} others h = h
  run_keeps rows (begins now o k request_hash ∷ cs) {e} others h =
      run_keeps (begin_idempotent now o k request_hash rows).0 cs (ground arith)
        (begin_keeps now o k request_hash rows h)
  run_keeps rows (finishes now o k status response ∷ cs) {e} others h =
      run_keeps (finish_idempotent now o k status response rows) cs (ground arith)
        (finish_keeps now o k status response rows (ground arith) ∙ h)
  run_keeps rows (clears o k ∷ cs) {e} others h =
      run_keeps (clear_idempotent o k rows) cs (ground arith)
        (clear_keeps o k rows (ground arith) ∙ h)

was_started : (b : Begun) → entered_submission b ≡ runs → b ≡ started
was_started started h = refl
was_started conflict h = absurd (cc h)
was_started (existing running response) h = absurd (cc h)
was_started (existing succeeded response) h = absurd (cc h)
was_started (existing failed response) h = absurd (cc h)
was_started (existing uncertain response) h = absurd (cc h)

told :
    (same : Bool) (s : IdempotencyStatus) (response : Option String)
    → is_uncertain s ≡ true
    → entered_submission (if not same then conflict else existing s response)
      ≡ refused (if same then unknown_failure else key_conflict)
told true uncertain response h = refl
told true running response h = absurd (cc h)
told true succeeded response h = absurd (cc h)
told true failed response h = absurd (cc h)
told false s response h = refl

stays_unknown :
    (later : ℕ) (key other : String) (table : List Entry) {x : Entry}
    → find (is_entry "submit" key) table ≡ some x
    → is_uncertain x.status ≡ true
    → enter_submission later key other table
      ≡ (table, refused (if str_eq x.request_hash other then unknown_failure else key_conflict))
unfolding enter_submission begin_idempotent
stays_unknown later key other table {x} h unknown =
    rw h (ap (λ t. (table, t)) (told (str_eq x.request_hash other) x.status x.response unknown))

-- A submission that ended with an unknown outcome is never run again under its key: it had been
-- started, and whatever calls follow, as long as no other caller ends an operation under this key,
-- a submission with the key changes nothing and is refused, with the unknown outcome for the same
-- input and as a conflict for another one.
pub unknown_never_runs :
    (error_json : Failure → String) (now ended later : ℕ) (key request_hash other : String)
    (e : Failure) (rows : List Entry) (calls : List Call)
    → (enter_submission now key request_hash rows).1 ≡ runs
    → is_unknown e ≡ true
    → all (ends_other "submit" key) calls ≡ true
    → (let table =
          run
            (leave_submission error_json ended key
              (err e)
              (enter_submission now key request_hash rows).0)
            calls in
        enter_submission later key other table
        ≡ (table, refused (if str_eq request_hash other then unknown_failure else key_conflict)))
unfolding enter_submission leave_submission begin_idempotent
unknown_never_runs error_json now ended later key request_hash other e rows calls h unknown others =
    let begun = (enter_submission now key request_hash rows).0 in
    let entry =
      started_entry "submit" key now request_hash rows
        (was_started (begin_idempotent now "submit" key request_hash rows).1 h) in
    let stored =
      find_finished "submit" key begun ended uncertain (error_json e)
      ∙ ap (map_option (done ended uncertain (error_json e))) entry in
    rw unknown (
      stays_unknown later key other
        (run (finish_idempotent ended "submit" key uncertain (error_json e) begun) calls)
        (run_keeps "submit" key
          (finish_idempotent ended "submit" key uncertain (error_json e) begun) calls others stored)
        refl)
