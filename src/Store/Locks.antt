-- ===== src/Store/Locks.antt =====
-- `acquireLock` and `releaseLock` of apps/orchestrator/src/store.ts.
pub mod Exclusion
pub mod Freed
use extension_jobs.Common.{
  ℕ, ◌+◌, String, Bool, true, false, ◌&&◌, Option, none, some, List, [], ◌∷◌, ◌++◌, leb, str_eq,
  any, delete_where, if◌then◌else◌,
}

-- A row of the table `locks`.
pub record Lock : Type 0 where
  pub key : String
  pub acquired_at : ℕ
  pub owner : String
  pub expires_at : Option ℕ

-- expires_at IS NULL OR expires_at<=?
abbrev pub is_stale : ℕ → Lock → Bool
is_stale now l = stale l.expires_at
  where
    stale : Option ℕ → Bool
    stale none = true
    stale (some t) = leb t now

abbrev pub has_key : String → Lock → Bool
has_key key l = str_eq l.key key

-- `lease` is the `lockLeaseMs` of the store, `owner` its `lockOwner`. INSERT OR IGNORE adds no row
-- where the key is taken.
unfoldable pub acquire_lock : ℕ → ℕ → String → String → List Lock → List Lock × Bool
acquire_lock now lease owner key locks =
    let live = delete_where (is_stale now) locks in
    if any (has_key key) live then (live, false) else (
      live
          ++ record { key = key; acquired_at = now; owner = owner; expires_at = some (now + lease) }
            ∷ [],
      true,
    )

-- WHERE key=? AND owner=?
abbrev pub is_held_by : String → String → Lock → Bool
is_held_by owner key l = has_key key l && str_eq l.owner owner

unfoldable pub release_lock : String → String → List Lock → List Lock
release_lock owner key locks = delete_where (is_held_by owner key) locks
