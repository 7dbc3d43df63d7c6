-- ===== src/Store/Locks/Exclusion.antt =====
-- Mutual exclusion by the locks of apps/orchestrator/src/store.ts.
use extension_jobs.Common.{
  ℕ, ◌+◌, ◌≤◌, ◌<◌, ◌≡◌, refl, sym, ◌∙◌, subst, Distinct-delete_where, inl, inr, String, Bool, true,
  false, not, ◌&&◌, ◌||◌, Option, none, some, List, [], ◌∷◌, map, arith, ltb, str_eq, str_eq→eq,
  eq_iff, eq_refl, any, all, delete_where, includes, any-append, any-delete_where_kept, ◌==◌,
  includes-map, Distinct, Distinct-append_one, map-append_one, Bool-cases,
}
use extension_jobs.Store.Locks.{Lock, is_stale, has_key, acquire_lock, is_held_by, release_lock}

-- Every call by any store, at its time. A store's own lease and name come with each call.
pub data Call : Type 0 where
  acquires : ℕ → ℕ → String → String → Call
  releases : String → String → Call

unfoldable pub step : List Lock → Call → List Lock
step locks (acquires now lease owner key) = (acquire_lock now lease owner key locks).0
step locks (releases owner key) = release_lock owner key locks

unfoldable pub run : List Lock → List Call → List Lock
run locks [] = locks
run locks (c ∷ cs) = run (step locks c) cs

-- The calls that leave the lock of `owner` on `key` alone: none is its release, and none comes at
-- or after the end of its lease.
abbrev pub leaves : String → String → ℕ → Call → Bool
leaves owner key until (acquires now lease other k) = ltb now until
leaves owner key until (releases other k) = not (str_eq key k && str_eq owner other)

abbrev ends_at : ℕ → Option ℕ → Bool
ends_at until none = false
ends_at until (some t) = t == until

-- The lock on the key, with its owner and the end of its lease.
abbrev is_lock : String → String → ℕ → Lock → Bool
is_lock owner key until l = has_key key l && str_eq l.owner owner && ends_at until l.expires_at

abbrev pub Holds : String → String → ℕ → List Lock → Type 0
Holds owner key until locks = any (is_lock owner key until) locks ≡ true

module _ (owner key : String) (until : ℕ) where
  not_stale :
      (now : ℕ) (l : Lock) → now < until → is_lock owner key until l ≡ true → is_stale now l ≡ false
  not_stale now l p h = ground arith

  acquire-Holds :
      (now lease : ℕ) (other k : String) (locks : List Lock)
      → now < until
      → Holds owner key until locks
      → Holds owner key until (acquire_lock now lease other k locks).0
  unfolding acquire_lock
  acquire-Holds now lease other k locks p h =
      let kept : any (is_lock owner key until) (delete_where (is_stale now) locks) ≡ true =
        any-delete_where_kept (is_lock owner key until) (is_stale now) locks
          (λ l. not_stale now l p) h in
      elim (Bool-cases (any (has_key k) (delete_where (is_stale now) locks))) [
        | inl taken ↦ rw taken kept
        | inr free ↦ rw free (
            rw (any-append (is_lock owner key until) (delete_where (is_stale now) locks)) (rw kept))
      ]

  release-Holds :
      (other k : String) (locks : List Lock)
      → not (str_eq key k && str_eq owner other) ≡ true
      → Holds owner key until locks
      → Holds owner key until (release_lock other k locks)
  unfolding release_lock
  release-Holds other k locks n h =
      any-delete_where_kept (is_lock owner key until) (is_held_by other k) locks
        (λ l e. ground (arith, eq_iff l.key key, eq_iff l.owner owner)) h

  pub run-Holds :
      (locks : List Lock) (cs : List Call)
      → all (leaves owner key until) cs ≡ true
      → Holds owner key until locks
      → Holds owner key until (run locks cs)
  unfolding run step
  run-Holds locks [] a h = h
  run-Holds locks (acquires now lease other k ∷ cs) a h =
      run-Holds (acquire_lock now lease other k locks).0 cs (ground arith)
        (acquire-Holds now lease other k locks (ground arith) h)
  run-Holds locks (releases other k ∷ cs) a h =
      run-Holds (release_lock other k locks) cs (ground arith)
        (release-Holds other k locks (ground arith) h)

  Holds-refused :
      (now lease : ℕ) (other : String) (locks : List Lock)
      → now < until
      → Holds owner key until locks
      → (acquire_lock now lease other key locks).1 ≡ false
  unfolding acquire_lock
  Holds-refused now lease other locks p h = rw (
      any-has_key (delete_where (is_stale now) locks) (
        any-delete_where_kept (is_lock owner key until) (is_stale now) locks
          (λ l. not_stale now l p) h))
    where
      any-has_key : (ls : List Lock) → Holds owner key until ls → any (has_key key) ls ≡ true
      any-has_key [] e = e
      any-has_key (l ∷ ls) e = ground (arith, any-has_key ls)

pub acquired-Holds :
    (now lease : ℕ) (owner key : String) (locks : List Lock)
    → (acquire_lock now lease owner key locks).1 ≡ true
    → Holds owner key (now + lease) (acquire_lock now lease owner key locks).0
unfolding acquire_lock
acquired-Holds now lease owner key locks h =
    elim (Bool-cases (any (has_key key) (delete_where (is_stale now) locks))) [
      | inl taken ↦ absurd (ground arith)
      | inr free ↦ rw free (
          rw (any-append (is_lock owner key (now + lease)) (delete_where (is_stale now) locks))
            (ground (arith, eq_refl key, eq_refl owner)))
    ]

-- Mutual exclusion: a lock that was acquired refuses everybody, its owner included, until its
-- lease is over or its owner releases it, whatever other calls come in between.
pub lock_excludes :
    (now lease : ℕ) (owner key : String) (locks : List Lock) (cs : List Call) (later lease' : ℕ)
    (other : String)
    → (acquire_lock now lease owner key locks).1 ≡ true
    → all (leaves owner key (now + lease)) cs ≡ true
    → later < now + lease
    → (acquire_lock later lease' other key (run (acquire_lock now lease owner key locks).0 cs)).1
      ≡ false
lock_excludes now lease owner key locks cs later lease' other h a p =
    Holds-refused owner key (now + lease) later lease' other
      (run (acquire_lock now lease owner key locks).0 cs) p
      (run-Holds owner key (now + lease) (acquire_lock now lease owner key locks).0 cs a
        (acquired-Holds now lease owner key locks h))

-- Liveness: where every lock on the key is stale, an acquisition succeeds, so a crashed owner
-- blocks the key for one lease at most.
pub stale_lock_acquired :
    (now lease : ℕ) (owner key : String) (locks : List Lock)
    → any (λ l. has_key key l && not (is_stale now l)) locks ≡ false
    → (acquire_lock now lease owner key locks).1 ≡ true
unfolding acquire_lock
stale_lock_acquired now lease owner key locks h = rw (no_live locks h)
  where
    no_live :
        (ls : List Lock)
        → any (λ l. has_key key l && not (is_stale now l)) ls ≡ false
        → any (has_key key) (delete_where (is_stale now) ls) ≡ false
    no_live [] e = refl
    no_live (l ∷ ls) e = ground (arith, no_live ls)

abbrev pub lock_key : Lock → String
lock_key l = l.key

pub acquire-Distinct :
    (now lease : ℕ) (owner key : String) (locks : List Lock)
    → Distinct (map lock_key locks)
    → Distinct (map lock_key (acquire_lock now lease owner key locks).0)
unfolding acquire_lock
acquire-Distinct now lease owner key locks d =
    let live = Distinct-delete_where lock_key (is_stale now) locks d in
    elim (Bool-cases (any (has_key key) (delete_where (is_stale now) locks))) [
      | inl taken ↦ rw taken live
      | inr free ↦ rw free (
          rw (map-append_one lock_key (delete_where (is_stale now) locks) _) (
            Distinct-append_one key (map lock_key (delete_where (is_stale now) locks))
              (rw (includes-map lock_key key (delete_where (is_stale now) locks)) free) live))
    ]

module _ (owner key : String) (until : ℕ) where
  any-has_key : (ls : List Lock) → Holds owner key until ls → any (has_key key) ls ≡ true
  any-has_key [] e = e
  any-has_key (l ∷ ls) e = ground (arith, any-has_key ls)

  -- With distinct keys it is the only lock on the key.
  abbrev is_sole : Lock → Bool
  is_sole l = not (has_key key l) || is_lock owner key until l

  no_key_sole : (ls : List Lock) → any (has_key key) ls ≡ false → all is_sole ls ≡ true
  no_key_sole [] e = refl
  no_key_sole (l ∷ ls) e = ground (arith, no_key_sole ls)

  pub Holds-sole :
      (ls : List Lock)
      → Distinct (map lock_key ls)
      → Holds owner key until ls
      → all is_sole ls ≡ true
  Holds-sole [] d h = refl
  Holds-sole (l ∷ ls) d h = elim (Bool-cases (has_key key l)) [
    | inl same ↦
        let none_left : any (has_key key) ls ≡ false =
          sym (includes-map lock_key key ls)
          ∙ subst (λ k. includes k (map lock_key ls) ≡ false) (str_eq→eq l.key key same) d.0 in
        ground (arith, no_key_sole ls none_left, any-has_key ls)
    | inr other ↦ ground (arith, Holds-sole ls d.1)
  ]

  sole_stale :
      (later : ℕ) (ls : List Lock)
      → until ≤ later
      → all is_sole ls ≡ true
      → any (λ l. has_key key l && not (is_stale later l)) ls ≡ false
  sole_stale later [] p h = refl
  sole_stale later (l ∷ ls) p h = ground (arith, sole_stale later ls p)

  pub sole_released :
      (now : ℕ) (ls : List Lock)
      → all is_sole ls ≡ true
      → any (λ l. has_key key l && not (is_stale now l)) (release_lock owner key ls) ≡ false
  unfolding release_lock
  sole_released now [] h = refl
  sole_released now (l ∷ ls) h = ground (arith, sole_released now ls)

-- A store that outlives the lease of its lock, and acquires the key again for another operation,
-- loses the second lock when the first operation releases: the owner is the store and not the
-- acquisition. Then anybody acquires the key within the lease of the second.
pub late_release_frees :
    (now later third lease lease' : ℕ) (owner other key : String) (locks : List Lock)
    → Distinct (map (λ (l : Lock). l.key) locks)
    → (acquire_lock now lease owner key locks).1 ≡ true
    → now + lease ≤ later
    → (acquire_lock later lease owner key (acquire_lock now lease owner key locks).0).1 ≡ true
      × ((acquire_lock third lease' other key (
            release_lock owner key
              (acquire_lock later lease owner key (acquire_lock now lease owner key locks).0).0)).1
          ≡ true)
late_release_frees now later third lease lease' owner other key locks d h p =
    let first = (acquire_lock now lease owner key locks).0 in
    let second = (acquire_lock later lease owner key first).0 in
    let d1 = acquire-Distinct now lease owner key locks d in
    let again : (acquire_lock later lease owner key first).1 ≡ true =
      stale_lock_acquired later lease owner key first (
        sole_stale owner key (now + lease) later first p (
          Holds-sole owner key (now + lease) first d1
            (acquired-Holds now lease owner key locks h))) in
    let d2 = acquire-Distinct later lease owner key first d1 in
    (
      again,
      stale_lock_acquired third lease' other key (release_lock owner key second) (
          sole_released owner key (later + lease) third second (
            Holds-sole owner key (later + lease) second d2
              (acquired-Holds later lease owner key first again))),
    )
