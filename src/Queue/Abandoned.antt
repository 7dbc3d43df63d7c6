-- ===== src/Queue/Abandoned.antt =====
-- A job of packages/persistence/src/queue.ts whose worker died in its last attempt.
use extension_jobs.Common.{
  ℕ, ◌-◌, ◌≤◌, ◌≡◌, refl, sym, subst, ◌∙◌, ◌⊎◌, Bool-cases, find_holds, inl, inr, String, Bool,
  true, false, ◌&&◌, Option, none, some, List, [], ◌∷◌, arith, all, str_eq→eq, str_eq, keep,
  if◌then◌else◌,
}
use extension_jobs.Queue.{
  Queue, Row, Status, queued, running, cancelled, is_queued, is_running, has_id, get, new_row,
  enqueue, claim, claim_selected, claim_by_id, claim_where, claim_by_id_where, lock, select_first,
  is_claimable,
}
use extension_jobs.Queue.Claims.{select_first_holds, select_first-find}
use extension_jobs.Queue.Invariant.{IsValid, step-IsValid}
use extension_jobs.Queue.Operations.{
  is_active, unlock, cancel, request_cancellation, request_cancellation_of, note_cancellation,
  request_each, request_cancellation_all,
}
use extension_jobs.Queue.Settled.{update_kept, enqueue_kept}
use extension_jobs.Queue.Trace.{
  Op, enqueues, claims, claims_by_id, requests_cancellation, requests_cancellation_all, step, run,
}

-- What the rest of the system does about a job that it does not hold: queue, claim, ask to cancel. The
-- method `cancel` itself is called by `requestCancellation`, for a job that waits, and by the worker of
-- the job in apps/playwright-worker/src/worker-runtime.ts.
abbrev pub by_others : Op → Bool
by_others (enqueues now k uuid type payload o) = true
by_others (claims now worker lease) = true
by_others (claims_by_id now k worker) = true
by_others (requests_cancellation now k actor) = true
by_others (requests_cancellation_all now actor) = true
by_others _ = false

module _ (id : String) {r : Row} (is_run : is_running r.status ≡ true) where
  other_id :
      (q : Queue) (row : Row)
      → get id q ≡ some r
      → get row.id q ≡ some row
      → (row ≡ r) ⊎ (str_eq r.id row.id ≡ false)
  other_id q row e f = elim (Bool-cases (str_eq r.id row.id)) [
    | inl same ↦
        let named : r.id ≡ id = unfold get in str_eq→eq r.id id (find_holds (has_id id) q.jobs e) in
        let at_r : get row.id q ≡ some r =
          subst (λ k. get k q ≡ some r) (sym named ∙ str_eq→eq r.id row.id same) e in
        inl (cc)
    | inr other ↦ inr other
  ]

  claim_selected_kept :
      (now expired : ℕ) (worker : String) (q : Queue)
      → get id q ≡ some r
      → r.max_attempts ≤ r.attempts
      → (o : Option Row)
      → ((row : Row)
          → o ≡ some row
          → (is_claimable now expired row ≡ true) × (get row.id q ≡ some row))
      → get id (claim_selected now expired worker o q).0 ≡ some r
  unfolding claim_selected
  claim_selected_kept now expired worker q e x none sel = e
  claim_selected_kept now expired worker q e x (some row) sel =
      let (ready, found) = sel row refl in
      elim (other_id q row e found) [
        | inl same ↦ absurd (not_ready (subst (λ y. is_claimable now expired y ≡ true) same ready))
        | inr other ↦
            update_kept id q (claim_where expired row.id) (lock now worker) (λ y. refl) e (rw other)
      ]
    where
      not_ready : is_claimable now expired r ≡ true → ⊥
      not_ready h = ground arith

  claim_kept :
      (now : ℕ) (worker : String) (lease : ℕ) (q : Queue)
      → IsValid q
      → get id q ≡ some r
      → r.max_attempts ≤ r.attempts
      → get id (claim now worker lease q).0 ≡ some r
  unfolding claim
  claim_kept now worker lease q v e x =
      claim_selected_kept now (now - lease) worker q e x
        (select_first (is_claimable now (now - lease)) q.jobs)
        (λ row s. (
          select_first_holds (is_claimable now (now - lease)) q.jobs s,
          unfold get in select_first-find (is_claimable now (now - lease)) q.jobs v.keys s,
        ))

  queued_other :
      (q : Queue) (k : String) (row : Row)
      → get id q ≡ some r
      → get k q ≡ some row
      → is_queued row.status ≡ true
      → str_eq r.id k ≡ false
  queued_other q k row e f w =
      let named : row.id ≡ k = unfold get in str_eq→eq row.id k (find_holds (has_id k) q.jobs f) in
      elim (other_id q row e (subst (λ j. get j q ≡ some row) (sym named) f)) [
        | inl same ↦ absurd (both (subst (λ x. is_queued x.status ≡ true) same w))
        | inr other ↦ subst (λ j. str_eq r.id j ≡ false) named other
      ]
    where
      both : is_queued r.status ≡ true → ⊥
      both h = ground arith

  request_running :
      (now : ℕ) (k : String) (actor : List ℕ) (q : Queue)
      → get id q ≡ some r
      → get id (request_cancellation now k actor q).0 ≡ some r
  unfolding request_cancellation
  request_running now k actor q e = asked (get k q) refl
    where
      noted : get id (note_cancellation now k actor q) ≡ some r
      noted = unfold note_cancellation get in ground arith

      cancelled_kept :
          str_eq r.id k ≡ false → get id (cancel now k (note_cancellation now k actor q)).0 ≡ some r
      cancelled_kept n =
          unfold cancel in
          update_kept id (note_cancellation now k actor q) (λ x. has_id k x && is_active x.status)
            (unlock now cancelled) (λ x. refl) noted (rw n)

      by_status :
          (s : Status)
          → (is_queued s ≡ true → str_eq r.id k ≡ false)
          → (let out : Queue × Bool =
                if is_active s
                then (
                  if is_queued s
                      then (cancel now k (note_cancellation now k actor q)).0
                      else note_cancellation now k actor q,
                  true,
                )
                else (q, false) in
              get id out.0)
            ≡ some r
      by_status queued n = cancelled_kept (n refl)
      by_status running n = noted
      by_status _ n = e

      asked :
          (o : Option Row)
          → get k q ≡ o
          → get id (request_cancellation_of now k actor o q).0 ≡ some r
      asked none f = e
      asked (some row) f = by_status row.status (λ w. queued_other q k row e f w)

  request_each_running :
      (now : ℕ) (actor : List ℕ) (rows : List Row) (q : Queue)
      → get id q ≡ some r
      → get id (request_each now actor rows q).0 ≡ some r
  unfolding request_each
  request_each_running now actor [] q e = e
  request_each_running now actor (row ∷ rows) q e =
      request_each_running now actor rows (request_cancellation now row.id actor q).0
        (request_running now row.id actor q e)

  abandoned_step :
      (q : Queue) (op : Op)
      → IsValid q
      → by_others op ≡ true
      → get id q ≡ some r
      → r.max_attempts ≤ r.attempts
      → get id (step q op) ≡ some r
  unfolding step
  abandoned_step q (enqueues now k uuid type payload o) v b e x =
      unfold enqueue in ground (arith, enqueue_kept id q (new_row now k uuid type payload o) e)
  abandoned_step q (claims now worker lease) v b e x = claim_kept now worker lease q v e x
  abandoned_step q (claims_by_id now k worker) v b e x =
      unfold claim_by_id in
      update_kept id q (claim_by_id_where now k) (lock now worker) (λ y. refl) e (ground arith)
  abandoned_step q (requests_cancellation now k actor) v b e x = request_running now k actor q e
  abandoned_step q (requests_cancellation_all now actor) v b e x =
      unfold request_cancellation_all in
      request_each_running now actor (keep (λ y. is_active y.status) q.jobs) q e
  abandoned_step q _ v b e x = absurd (ground arith)

-- A job whose worker died in its last attempt, as any submission whose worker died: its row stays as it
-- is, running, whatever calls of `enqueue`, `claim`, `claimById`, `requestCancellation` and
-- `requestCancellationAll` follow, at whatever times. Calls of its worker, and of `cancel` itself, are
-- not among them.
pub abandoned_run :
    (id : String) {r : Row} (q : Queue) (ops : List Op)
    → IsValid q
    → all by_others ops ≡ true
    → get id q ≡ some r
    → is_running r.status ≡ true
    → r.max_attempts ≤ r.attempts
    → get id (run q ops) ≡ some r
unfolding run
abandoned_run id q [] v b e w x = e
abandoned_run id q (op ∷ ops) v b e w x =
    abandoned_run id (step q op) ops (step-IsValid q op v) (ground arith)
      (abandoned_step id w q op v (ground arith) e x) w x
