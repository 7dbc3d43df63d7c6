-- ===== src/Store/Boards/Refinement.antt =====
-- The saved views of apps/orchestrator/src/store.ts as a map from ids, with the version as the only lock.
use extension_jobs.Common.{
  ℕ, suc, String, Option, some, List, ◌≡◌, str_eq, find_by, Result, ok, err, if◌then◌else◌,
}
use extension_jobs.Json.{Members}
use extension_jobs.Store.Boards.{
  SavedJobView, VersionConflict, version_conflict, conflicts, view_version, view_created,
}

abbrev pub ViewMap : Type 0
ViewMap = String → Option SavedJobView

-- What the table stands for.
abbrev pub meaning : List SavedJobView → ViewMap
meaning rows id = find_by (λ v. v.id) id rows

abbrev pub put : String → SavedJobView → ViewMap → ViewMap
put id v m j = if str_eq id j then some v else m j

abbrev pub next_view : ℕ → String → String → Members → Option SavedJobView → SavedJobView
next_view now id name query existing = record {
  id = id;
  name = name;
  query = query;
  version = suc (view_version existing);
  created_at = view_created now existing;
  updated_at = now;
}

-- The specification: one map from ids to views. A save with a version that is not the view's is refused.
abbrev pub spec_save :
    ℕ
    → String
    → String
    → Members
    → Option ℕ
    → ViewMap
    → Result VersionConflict (ViewMap × SavedJobView)
spec_save now id name query expected m =
    let saved = next_view now id name query (m id) in
    if conflicts expected (view_version (m id))
    then err version_conflict
    else ok (put id saved m, saved)

-- The two results agree: the same error, or the same view and tables that mean the same map.
abbrev pub Agrees :
    Result VersionConflict (List SavedJobView × SavedJobView)
    → Result VersionConflict (ViewMap × SavedJobView)
    → Type 0
Agrees (ok (rows, v)) (ok (m, w)) = (v ≡ w) × ((j : String) → meaning rows j ≡ m j)
Agrees (err e) (err d) = e ≡ d
Agrees _ _ = ⊥
