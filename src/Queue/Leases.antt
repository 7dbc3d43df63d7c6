-- ===== src/Queue/Leases.antt =====
-- What `claim` of packages/persistence/src/queue.ts hands out, and for how long nobody else gets it.
use extension_jobs.Common.{
  ℕ, ◌-◌, ◌≡◌, refl, ◌∙◌, ap, inl, inr, String, Bool, true, false, none, some, arith, any, find_by,
  find_by-update_where, changes, changes-find_by, one_if, All, All-map, ◌+◌, Option-cases,
  str_eq→eq, eq_refl, subst, sym, ◌<◌, update_where,
}
use extension_jobs.Queue.{
  Queue, Row, running, get, claim, claim_selected, claim_where, lock, select_first, is_claimable,
}
use extension_jobs.Queue.Claims.{
  NotBefore, select_first_holds, select_first-find, select_first_least, select_first-none,
  select_first-some,
}
use extension_jobs.Queue.Due.{IsDue, IsFirst, is_claimable-IsDue, IsDue-is_claimable, first_lem}
use extension_jobs.Queue.Invariant.{IsValid, claim-IsValid}

abbrev key : Row → String
key r = r.id

module _ (now : ℕ) (worker : String) (lease : ℕ) (q : Queue) (v : IsValid q) where
  abbrev ready : Row → Bool
  ready = is_claimable now (now - lease)

  claim_result :
      (row : Row)
      → select_first ready q.jobs ≡ some row
      → ((claim now worker lease q).1 ≡ some (lock now worker row))
        × (get row.id (claim now worker lease q).0 ≡ some (lock now worker row))
        × (get row.id q ≡ some row)
  unfolding claim get
  claim_result row e =
      let p = claim_where (now - lease) row.id in
      let found : find_by key row.id q.jobs ≡ some row = select_first-find ready q.jobs v.keys e in
      let meets : p row ≡ true =
        ground (arith, select_first_holds ready q.jobs e, eq_refl row.id) in
      let after : find_by key row.id (update_where p (lock now worker) q.jobs)
          ≡ some (lock now worker row) =
        rw (find_by-update_where key row.id p (lock now worker) q.jobs (λ r. refl), found)
          (rw meets) in
      let one : changes p q.jobs ≡ 1 =
        changes-find_by key row.id p q.jobs (λ x h. ground (arith, str_eq→eq x.id row.id)) v.keys
        ∙ (ap (one_if key p) found ∙ rw meets) in
      (rw (e, claim_selected) (rw one after), rw (e, claim_selected) after, found)

claim_locked :
    (now : ℕ) (worker : String) (lease : ℕ) (q : Queue) {r : Row}
    → IsValid q
    → (claim now worker lease q).1 ≡ some r
    → (old : Row) × (get r.id q ≡ some old)
      × (is_claimable now (now - lease) old ≡ true)
      × (r ≡ lock now worker old)
      × (get r.id (claim now worker lease q).0 ≡ some r)
      × All (NotBefore old (is_claimable now (now - lease))) q.jobs
claim_locked now worker lease q {r} v h =
    elim (Option-cases (select_first (is_claimable now (now - lease)) q.jobs)) [
      | inl n ↦ absurd (nothing n)
      | inr (row, e) ↦
          let (handed, stored, found) = claim_result now worker lease q v row e in
          let same : lock now worker row ≡ r = ground (arith, handed) in
          subst
            (λ x.
              (old : Row) × (get x.id q ≡ some old)
              × (is_claimable now (now - lease) old ≡ true)
              × (x ≡ lock now worker old)
              × (get x.id (claim now worker lease q).0 ≡ some x)
              × All (NotBefore old (is_claimable now (now - lease))) q.jobs)
            same
            (
              row,
              found,
              select_first_holds (is_claimable now (now - lease)) q.jobs e,
              refl,
              stored,
              select_first_least (is_claimable now (now - lease)) q.jobs e,
            )
    ]
  where
    nothing : select_first (is_claimable now (now - lease)) q.jobs ≡ none → ⊥
    nothing n = unfold claim in cc

-- A claim hands out the job that is due first. It had attempts left, and was waiting with its time come,
-- or running with a lock older than the lease; no such job is before it by the time it is due and
-- then the time of its creation. It comes back, and is stored, as running, with one attempt more,
-- locked by the caller at the time of the claim, and otherwise as it was.
pub claim_hands_out :
    (now : ℕ) (worker : String) (lease : ℕ) (q : Queue) {r : Row}
    → IsValid q
    → (claim now worker lease q).1 ≡ some r
    → (old : Row) × (get r.id q ≡ some old)
      × IsDue now lease old
      × (r ≡ record old {
        status = running;
        attempts = old.attempts + 1;
        locked_by = some worker;
        locked_at = some now;
        updated_at = now;
      })
      × (get r.id (claim now worker lease q).0 ≡ some r)
      × All (λ x. IsDue now lease x → IsFirst old x) q.jobs
claim_hands_out now worker lease q {r} v h =
    let (old, found, ready, is_locked, stored, least) = claim_locked now worker lease q v h in
    (
      old,
      found,
      is_claimable-IsDue now lease old ready,
      is_locked,
      stored,
      All-map q.jobs (λ x n due. first_lem old x (n (IsDue-is_claimable now lease x due))) least,
    )

-- A claim returns a job exactly when some row can be claimed; otherwise it changes nothing.
pub claim_total :
    (now : ℕ) (worker : String) (lease : ℕ) (q : Queue)
    → IsValid q
    → (any (is_claimable now (now - lease)) q.jobs ≡ true
        → (r : Row) × ((claim now worker lease q).1 ≡ some r))
      × (any (is_claimable now (now - lease)) q.jobs ≡ false → claim now worker lease q ≡ (q, none))
unfolding claim
claim_total now worker lease q v = (
  λ h.
      let (row, e) = select_first-some (is_claimable now (now - lease)) q.jobs h in
      (lock now worker row, (claim_result now worker lease q v row e).0),
  λ h. rw (select_first-none (is_claimable now (now - lease)) q.jobs h, claim_selected),
)

relock :
    (now later expired : ℕ) (worker : String) (old : Row)
    → is_claimable later expired (lock now worker old) ≡ true
    → now < expired
relock now later expired worker old h = ground arith

-- The lease: right after a claim at `now`, no other claim gets the same job until its own lease
-- allows for a claim made at `now` to be over.
pub claim_exclusive :
    (now later : ℕ) (worker other : String) (lease lease' : ℕ) (q : Queue) {r s : Row}
    → IsValid q
    → (claim now worker lease q).1 ≡ some r
    → (claim later other lease' (claim now worker lease q).0).1 ≡ some s
    → s.id ≡ r.id
    → now < later - lease'
claim_exclusive now later worker other lease lease' q {r} {s} v h k same =
    let (old, found, ready_old, is_locked, stored, least) = claim_locked now worker lease q v h in
    let (old', found', ready', is_locked', stored', least') =
      claim_locked later other lease' (claim now worker lease q).0
        (claim-IsValid now worker lease q v) k in
    let stored_at : get s.id (claim now worker lease q).0 ≡ some r =
      subst (λ i. get i (claim now worker lease q).0 ≡ some r) (sym same) stored in
    let again : old' ≡ lock now worker old = cc in
    relock now later (later - lease') worker old
      (subst (λ x. is_claimable later (later - lease') x ≡ true) again ready')
