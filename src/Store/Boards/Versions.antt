-- ===== src/Store/Boards/Versions.antt =====
-- Optimistic locking of the notes, the saved views and the preferences of apps/orchestrator/src/store.ts.
use extension_jobs.Common.{
  ℕ, suc, String, true, false, Option, none, some, List, ◌≡◌, refl, sym, ap, subst, ◌∙◌, arith,
  str_eq, str_eq→eq, find_holds, find_by, map_option, get_or, Bool-cases, inl, inr, ok, err,
  ok_injective, ok_not_err,
}
use extension_jobs.Json.{Members}
use extension_jobs.Store.Boards.{
  NoteRow, SavedJobView, version_conflict, upsert, conflicts, note_version, set_job_note,
  get_job_note, save_job_view, view_version, view_created,
}
use extension_jobs.Store.Boards.Upserts.{find_by-upsert}

module _ (job_id note : String) (now : ℕ) where
  note_with : ℕ → NoteRow
  note_with c = record { job_id = job_id; note = note; version = c; updated_at = now }

  noted : ℕ → NoteRow → NoteRow
  noted c r = record r { note = note; version = c; updated_at = now }

  note_at :
      (c : ℕ) (o : Option NoteRow)
      → map_option {B = String × ℕ}
          (λ r. (r.note, r.version))
          (some (get_or (map_option (noted c) o) (note_with c)))
        ≡ some (note, c)
  unfolding noted note_with
  note_at c none = refl
  note_at c (some r) = refl

  saved_note :
      (c : ℕ) (rows : List NoteRow)
      → get_job_note job_id (upsert (λ r. str_eq r.job_id job_id) (noted c) (note_with c) rows)
        ≡ some (note, c)
  unfolding get_job_note noted note_with
  saved_note c rows =
      rw (find_by-upsert (λ r. r.job_id) job_id (noted c) (note_with c) rows (λ r. refl) refl)
        (note_at c (find_by (λ r. r.job_id) job_id rows))

-- A successful save of a note: the caller expected the version of the note, or said no version; the job has
-- the note, with the version that the call returned, which is the next one.
pub set_job_note_lem :
    (now : ℕ) (job_id note : String) (expected : Option ℕ) (rows : List NoteRow)
    {after : List NoteRow} {version : ℕ}
    → set_job_note now job_id note expected rows ≡ ok (after, version)
    → (conflicts expected (note_version job_id rows) ≡ false)
      × (version ≡ suc (note_version job_id rows))
      × (get_job_note job_id after ≡ some (note, version))
unfolding set_job_note noted note_with
set_job_note_lem now job_id note expected rows {after} {version} e =
    elim (Bool-cases (conflicts expected (note_version job_id rows))) [
      | inl conflict ↦ absurd (ok_not_err (sym (rw conflict at e)))
      | inr fine ↦
          let same = ok_injective (rw fine at e) in
          (
            fine,
            sym (ap (λ p. p.1) same),
            subst (λ p. get_job_note job_id p.0 ≡ some (note, p.1)) same
                (saved_note job_id note now (suc (note_version job_id rows)) rows),
          )
    ]

note_version-get_job_note :
    (job_id note : String) (version : ℕ) (rows : List NoteRow)
    → get_job_note job_id rows ≡ some (note, version)
    → note_version job_id rows ≡ version
unfolding get_job_note
note_version-get_job_note job_id note version rows h =
    at_row (find_by (λ r. r.job_id) job_id rows) h
  where
    at_row :
        (o : Option NoteRow)
        → map_option {B = String × ℕ} (λ r. (r.note, r.version)) o ≡ some (note, version)
        → get_or (map_option (λ r. r.version) o) 0 ≡ version
    at_row none h = absurd (cc)
    at_row (some r) h = ap (λ q. get_or (map_option (λ p. p.1) q) 0) h

-- No lost update: of two clients that read the same version of a note, the second one to save is refused.
pub second_save_conflicts :
    (now later : ℕ) (job_id first second : String) (version : ℕ) (rows : List NoteRow)
    {after : List NoteRow} {next : ℕ}
    → set_job_note now job_id first (some version) rows ≡ ok (after, next)
    → set_job_note later job_id second (some version) after ≡ err version_conflict
unfolding set_job_note
second_save_conflicts now later job_id first second version rows {after} {next} e =
    let (fine, bumped, held) = set_job_note_lem now job_id first (some version) rows e in
    let current : note_version job_id after ≡ next =
      note_version-get_job_note job_id first next after held in
    let stale : conflicts (some version) (note_version job_id after) ≡ true =
      rw current (outdated version (note_version job_id rows) next fine bumped) in
    rw stale refl
  where
    outdated :
        (version before next : ℕ)
        → conflicts (some version) before ≡ false
        → next ≡ suc before
        → conflicts (some version) next ≡ true
    outdated version before next fine bumped = ground arith

module _ (now : ℕ) (id name : String) (query : Members) where
  view_with : Option SavedJobView → SavedJobView
  view_with o = record {
    id = id;
    name = name;
    query = query;
    version = suc (view_version o);
    created_at = view_created now o;
    updated_at = now;
  }

  viewed : ℕ → SavedJobView → SavedJobView
  viewed c v = record v { name = name; query = query; version = c; updated_at = now }

  view_at :
      (o : Option SavedJobView)
      → ((v : SavedJobView) → o ≡ some v → v.id ≡ id)
      → get_or (map_option (viewed (suc (view_version o))) o) (view_with o) ≡ view_with o
  unfolding viewed view_with
  view_at none h = refl
  view_at (some v) h = rw (h v refl) refl

-- A successful save of a view: the caller expected the version of the view, or said no version; a reader
-- finds under the id the view that the call returned, whose version is the next one.
pub save_job_view_lem :
    (now : ℕ) (id name : String) (query : Members) (expected : Option ℕ) (rows : List SavedJobView)
    {after : List SavedJobView} {saved : SavedJobView}
    → save_job_view now id name query expected rows ≡ ok (after, saved)
    → (conflicts expected (view_version (find_by (λ v. v.id) id rows)) ≡ false)
      × (saved.version ≡ suc (view_version (find_by (λ v. v.id) id rows)))
      × (find_by (λ v. v.id) id after ≡ some saved)
unfolding save_job_view viewed view_with
save_job_view_lem now id name query expected rows {after} {saved} e =
    let existing : Option SavedJobView = find_by (λ v. v.id) id rows in
    elim (Bool-cases (conflicts expected (view_version existing))) [
      | inl conflict ↦ absurd (ok_not_err (sym (rw conflict at e)))
      | inr fine ↦
          let same = ok_injective (rw fine at e) in
          (
            fine,
            sym (ap (λ p. p.1.version) same),
            subst (λ p. find_by (λ v. v.id) id p.0 ≡ some p.1) same
                (find_by-upsert (λ v. v.id) id
                    (viewed now id name query (suc (view_version existing)))
                    (view_with now id name query existing) rows (λ v. refl) refl
                  ∙ ap some (view_at now id name query existing (at_id rows))),
          )
    ]
  where
    at_id :
        (rows : List SavedJobView) (v : SavedJobView)
        → find_by (λ v. v.id) id rows ≡ some v
        → v.id ≡ id
    at_id rows v found = str_eq→eq v.id id (find_holds (λ v. str_eq v.id id) rows found)
