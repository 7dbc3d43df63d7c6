-- ===== src/Queue/Attempts.antt =====
-- The attempts of a job of packages/persistence/src/queue.ts: a claim counts one.
use extension_jobs.Common.{
  ℕ, ◌+◌, ◌-◌, ◌≤◌, ◌≡◌, refl, inl, inr, String, Bool, true, false, Option, none, some, List, [],
  ◌∷◌, ◌++◌, arith, find, find_by, find_by-update_where, find_by-append, update_where, changes,
  changes-find_by, one_if, subst, Option-cases, Bool-cases, str_eq, str_eq→eq, opt_eq, map_option,
  or_else, if◌then◌else◌, ◌==◌, eq_refl, find_holds,
}
use extension_jobs.Queue.{
  Queue, Row, has_id, claim, claim_selected, claim_by_id, claim_where, claim_by_id_where, lock,
  select_first, is_claimable,
}
use extension_jobs.Queue.Claims.{select_first_holds, select_first-find}
use extension_jobs.Queue.Invariant.{IsValid}
use extension_jobs.Queue.Trace.{claims, claims_by_id, claimed}

abbrev pub attempts_in : Option Row → ℕ
attempts_in none = 0
attempts_in (some r) = r.attempts

abbrev pub attempts_of : String → Queue → ℕ
attempts_of id q = attempts_in (find_by (λ (r : Row). r.id) id q.jobs)

abbrev key : Row → String
key r = r.id

claim_selected_self :
    (now expired : ℕ) (worker : String) (q : Queue) (row : Row)
    → find_by key row.id q.jobs ≡ some row
    → is_claimable now expired row ≡ true
    → attempts_of row.id q + 1
      ≤ attempts_of row.id (claim_selected now expired worker (some row) q).0
unfolding claim_selected
claim_selected_self now expired worker q row e c =
    rw
      (
        find_by-update_where key row.id (claim_where expired row.id) (lock now worker) q.jobs
            (λ r. refl),
        e,
      )
      (ground (arith, eq_refl row.id))

claim_by_id_self :
    (now : ℕ) (k worker : String) (q : Queue)
    → IsValid q
    → (if changes (claim_by_id_where now k) q.jobs == 1 then 1 else 0) + attempts_of k q
      ≤ attempts_of k (claim_by_id now k worker q).0
unfolding claim_by_id
claim_by_id_self now k worker q v =
    rw
      (changes-find_by key k (claim_by_id_where now k) q.jobs
        (λ r h. ground (arith, str_eq→eq r.id k)) v.keys)
      (rw
        (find_by-update_where key k (claim_by_id_where now k) (lock now worker) q.jobs (λ r. refl))
        (at (find_by key k q.jobs)))
  where
    at :
        (o : Option Row)
        → (if one_if key (claim_by_id_where now k) o == 1 then 1 else 0) + attempts_in o
          ≤ attempts_in
              (map_option (λ r. if claim_by_id_where now k r then lock now worker r else r) o)
    at none = omega arith
    at (some r) = ground arith

module _ (id : String) where
  pub update_attempts :
      (q : Queue) (p : Row → Bool) (f : Row → Row)
      → ((r : Row) → (f r).id ≡ r.id)
      → ((r : Row) → r.attempts ≤ (f r).attempts)
      → attempts_of id q ≤ attempts_in (find_by (λ (r : Row). r.id) id (update_where p f q.jobs))
  update_attempts q p f same more =
      rw (find_by-update_where (λ (r : Row). r.id) id p f q.jobs same)
        (grows (find_by (λ (r : Row). r.id) id q.jobs))
    where
      grows :
          (o : Option Row)
          → attempts_in o ≤ attempts_in (map_option (λ r. if p r then f r else r) o)
      grows none = omega arith
      grows (some r) = ground (arith, more r)

  pub enqueue_attempts :
      (q : Queue) (row : Row)
      → attempts_of id q ≤ attempts_in (find_by (λ (r : Row). r.id) id (q.jobs ++ row ∷ []))
  enqueue_attempts q row =
      rw (find_by-append (λ (r : Row). r.id) id q.jobs)
        (first (find_by (λ (r : Row). r.id) id q.jobs) _)
    where
      first : (o : Option Row) (b : Option Row) → attempts_in o ≤ attempts_in (or_else o b)
      first none b = omega arith
      first (some r) b = omega arith

  claim_selected_attempts :
      (now expired : ℕ) (worker : String) (q : Queue) (row : Row)
      → find_by (λ (r : Row). r.id) row.id q.jobs ≡ some row
      → is_claimable now expired row ≡ true
      → attempts_of id q + (if opt_eq (some row.id) id then 1 else 0)
        ≤ attempts_of id (claim_selected now expired worker (some row) q).0
  unfolding claim_selected
  claim_selected_attempts now expired worker q row e c = elim (Bool-cases (str_eq row.id id)) [
    | inl same ↦ rw same (
        subst
          (λ k.
            attempts_of k q + 1 ≤ attempts_of k (claim_selected now expired worker (some row) q).0)
          (str_eq→eq row.id id same) (claim_selected_self now expired worker q row e c))
    | inr other ↦ rw other (
        omega (
          arith,
          update_attempts q (claim_where expired row.id) (lock now worker) (λ r. refl)
              (λ r. omega arith),
        ))
  ]

  handed_id :
      (k : String) (jobs : List Row) (b : Bool)
      → (if opt_eq (map_option (λ (r : Row). r.id) (if b then find (has_id k) jobs else none)) id
          then 1
          else 0)
        ≤ (if opt_eq (some k) id then 1 else 0)
  handed_id k jobs b = elim (Option-cases (find (has_id k) jobs)) [
    | inl n ↦ ground arith
    | inr (r, e) ↦ ground (arith, find_holds (has_id k) jobs e, str_eq→eq r.id k)
  ]

  handed_at_most :
      (k : String) (jobs : List Row) (b : Bool)
      → (if opt_eq (map_option (λ (r : Row). r.id) (if b then find (has_id k) jobs else none)) id
          then 1
          else 0)
        ≤ (if b then 1 else 0)
  handed_at_most k jobs true = ground arith
  handed_at_most k jobs false = omega arith

  pub claim_attempts :
      (now : ℕ) (worker : String) (lease : ℕ) (q : Queue)
      → IsValid q
      → (if opt_eq (claimed q (claims now worker lease)) id then 1 else 0) + attempts_of id q
        ≤ attempts_of id (claim now worker lease q).0
  unfolding claimed claim
  claim_attempts now worker lease q v =
      elim (Option-cases (select_first (is_claimable now (now - lease)) q.jobs)) [
        | inl n ↦ rw (n, claim_selected) (omega arith)
        | inr (row, e) ↦
            let p = claim_where (now - lease) row.id in
            let rows = update_where p (lock now worker) q.jobs in
            rw e (
              omega (
                arith,
                handed_id row.id rows (changes p q.jobs == 1),
                claim_selected_attempts now (now - lease) worker q row
                    (select_first-find (is_claimable now (now - lease)) q.jobs v.keys e)
                    (select_first_holds (is_claimable now (now - lease)) q.jobs e),
              ))
      ]

  pub claim_by_id_attempts :
      (now : ℕ) (k worker : String) (q : Queue)
      → IsValid q
      → (if opt_eq (claimed q (claims_by_id now k worker)) id then 1 else 0) + attempts_of id q
        ≤ attempts_of id (claim_by_id now k worker q).0
  unfolding claimed claim_by_id
  claim_by_id_attempts now k worker q v =
      let p = claim_by_id_where now k in
      let rows = update_where p (lock now worker) q.jobs in
      let more = update_attempts q p (lock now worker) (λ r. refl) (λ r. omega arith) in
      elim (Bool-cases (str_eq k id)) [
        | inl same ↦
            let self =
              subst
                (λ j.
                  (if changes p q.jobs == 1 then 1 else 0) + attempts_of j q
                  ≤ attempts_of j (claim_by_id now k worker q).0)
                (str_eq→eq k id same) (claim_by_id_self now k worker q v) in
            omega (arith, self, handed_at_most k rows (changes p q.jobs == 1))
        | inr other ↦
            let never : (if str_eq k id then 1 else 0) ≤ 0 = rw other (omega arith) in
            omega (arith, handed_id k rows (changes p q.jobs == 1))
      ]
