-- ===== src/Store/Locks/Freed.antt =====
-- A lock of apps/orchestrator/src/store.ts that its owner releases within the lease.
use extension_jobs.Common.{
  ℕ, ◌+◌, ◌≡◌, String, true, List, [], ◌∷◌, map, all, Distinct, Distinct-delete_where,
}
use extension_jobs.Store.Locks.{Lock, is_held_by, acquire_lock, release_lock}
use extension_jobs.Store.Locks.Exclusion.{
  Call, acquires, releases, step, run, leaves, lock_key, run-Holds, acquired-Holds,
  acquire-Distinct, Holds-sole, sole_released, stale_lock_acquired,
}

run-Distinct :
    (locks : List Lock) (cs : List Call)
    → Distinct (map lock_key locks)
    → Distinct (map lock_key (run locks cs))
unfolding run step release_lock
run-Distinct locks [] d = d
run-Distinct locks (acquires now lease owner key ∷ cs) d =
    run-Distinct (acquire_lock now lease owner key locks).0 cs
      (acquire-Distinct now lease owner key locks d)
run-Distinct locks (releases owner key ∷ cs) d =
    run-Distinct (release_lock owner key locks) cs
      (Distinct-delete_where lock_key (is_held_by owner key) locks d)

-- A lock that was acquired and that its owner releases, whatever other calls come in between within its
-- lease, can be acquired by anybody.
pub release_frees :
    (now lease : ℕ) (owner key : String) (locks : List Lock) (cs : List Call) (later lease' : ℕ)
    (other : String)
    → Distinct (map (λ (l : Lock). l.key) locks)
    → (acquire_lock now lease owner key locks).1 ≡ true
    → all (leaves owner key (now + lease)) cs ≡ true
    → (acquire_lock later lease' other key
        (release_lock owner key (run (acquire_lock now lease owner key locks).0 cs))).1
      ≡ true
release_frees now lease owner key locks cs later lease' other d h quiet =
    let first = (acquire_lock now lease owner key locks).0 in
    stale_lock_acquired later lease' other key (release_lock owner key (run first cs)) (
      sole_released owner key (now + lease) later (run first cs) (
        Holds-sole owner key (now + lease) (run first cs)
          (run-Distinct first cs (acquire-Distinct now lease owner key locks d))
          (run-Holds owner key (now + lease) first cs quiet
            (acquired-Holds now lease owner key locks h))))
