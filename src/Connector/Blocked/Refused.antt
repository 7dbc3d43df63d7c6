-- ===== src/Connector/Blocked/Refused.antt =====
-- No approval again for an application whose request has expired: any history of
-- apps/orchestrator/src/wuzzuf-tool-service.ts.
use extension_jobs.Common.{
  ℕ, zero, suc, ◌≡◌, refl, sym, ap, subst, inl, inr, String, Bool, true, false, not, Option, some,
  List, [], ◌∷◌, Result, ok, err, is_ok, get_or, arith, str_eq, all, any, All, All-map,
  Option-cases, Result-cases, if◌then◌else◌,
}
use extension_jobs.Application.{PreparedApplication}
use extension_jobs.Connector.{
  Hashes, Env, Tables, Failure, Outcome, find_application, binding_hash, save, save_approval,
  invalidate, emergency_stop,
}
use extension_jobs.Connector.Approval.{
  request_submission_approval, request_found, request_for, new_request, assert_ready_for_approval,
}
use extension_jobs.Connector.Blocked.{request-Stuck, decide-Stuck, cancel-Stuck}
use extension_jobs.Connector.Blocked.Pages.{reserve-Stuck, finish-Stuck, reserve_other}
use extension_jobs.Connector.Blocked.Submissions.{begin-Stuck, begin_other}
use extension_jobs.Connector.Expired.{Stuck, invalidate-Stuck}
use extension_jobs.Connector.Submit.{Flight, Progress, returned, thrown, waiting, submit_begin}
use extension_jobs.Connector.Click.{submit_reserve}
use extension_jobs.Connector.Trace.{
  Phase, reading, clicking, World, Op, saves, invalidates, requests, decides, cancels, begins,
  reads, answers, nth, drop_nth, added, step, run,
}
use extension_jobs.Store.Approvals.{ApprovalRequest, Approvals, save_approval_request}
use extension_jobs.Store.Approvals.Expired.{save_refused}
use extension_jobs.Store.Approvals.Fresh.{Absent, absent_find, invalidate-Absent}

-- A new request gets another id: `randomUUID` does not repeat itself.
abbrev pub is_other : String → Op → Bool
is_other id (requests env k nonce seconds a) = not (str_eq k id)
is_other id _ = true

-- The approval that a waiting submission holds is another one.
abbrev pub HoldsOther : String → Phase → Type 0
HoldsOther id (reading f) = str_eq f.approval.id id ≡ false
HoldsOther id (clicking f) = str_eq f.approval.id id ≡ false

-- No request, and no row of submission_approvals, has the id.
abbrev pub Unused : String → Approvals → Type 0
Unused k t = (any (λ r. str_eq r.id k) t.requests ≡ false) × Absent k t

module _ (id application_id : String) where
  abbrev pub Halted : World → Type 0
  Halted w = Stuck id application_id w.tables × All (HoldsOther id) w.phases

  drop_kept :
      (n : ℕ) (ps : List Phase) → All (HoldsOther id) ps → All (HoldsOther id) (drop_nth n ps)
  unfolding drop_nth
  drop_kept n [] h = tt
  drop_kept zero (p ∷ ps) h = h.1
  drop_kept (suc n) (p ∷ ps) h = (h.0, drop_kept n ps h.1)

  nth_other :
      (n : ℕ) (ps : List Phase) {p : Phase}
      → All (HoldsOther id) ps
      → nth n ps ≡ some p
      → HoldsOther id p
  unfolding nth
  nth_other n [] {p} h e = ground (arith, e)
  nth_other zero (q ∷ ps) {p} h e = subst (HoldsOther id) (ap (λ o. get_or o p) e) h.0
  nth_other (suc n) (q ∷ ps) {p} h e = nth_other n ps h.1 e

  added-reading :
      (p : Progress) (ps : List Phase)
      → ((f : Flight) → p ≡ waiting f → str_eq f.approval.id id ≡ false)
      → All (HoldsOther id) ps
      → All (HoldsOther id) (added reading p ps)
  added-reading (returned r) ps k h = h
  added-reading (thrown e) ps k h = h
  added-reading (waiting f) ps k h = (k f refl, h)

  added_clicking :
      (p : Progress) (ps : List Phase)
      → ((f : Flight) → p ≡ waiting f → str_eq f.approval.id id ≡ false)
      → All (HoldsOther id) ps
      → All (HoldsOther id) (added clicking p ps)
  added_clicking (returned r) ps k h = h
  added_clicking (thrown e) ps k h = h
  added_clicking (waiting f) ps k h = (k f refl, h)

  step-Halted :
      (h : Hashes) (w : World) (op : Op) → is_other id op ≡ true → Halted w → Halted (step h w op)
  unfolding step save
  step-Halted h w (saves env a) o (b, ps) = (b, ps)
  step-Halted h w (invalidates env k except) o (b, ps) =
      (invalidate-Stuck id application_id env k except w.tables b, ps)
  step-Halted h w (requests env k nonce seconds a) o (b, ps) =
      (request-Stuck id application_id h env k nonce seconds a w.tables (ground (arith, o)) b, ps)
  step-Halted h w (decides env agreed token k) o (b, ps) =
      (decide-Stuck id application_id h env agreed token k w.tables b, ps)
  step-Halted h w (cancels env closing k) o (b, ps) =
      (cancel-Stuck id application_id env closing k w.tables b, ps)
  step-Halted h w (begins env input) o (b, ps) = (
    begin-Stuck id application_id h env input w.tables b,
    added-reading (submit_begin h env input w.tables).1 w.phases
        (λ f e. begin_other id application_id h env input w.tables f b e) ps,
  )
  step-Halted h w (reads env page n) o (b, ps) = elim (Option-cases (nth n w.phases)) [
    | inl e ↦ rw e (b, ps)
    | inr (clicking f, e) ↦ rw e (b, ps)
    | inr (reading f, e) ↦
        let other : str_eq f.approval.id id ≡ false = nth_other n w.phases ps e in
        rw e (
          reserve-Stuck id application_id h env page f w.tables other b,
          added_clicking (submit_reserve h env page f w.tables).1 (drop_nth n w.phases)
              (λ g x.
                subst (λ k. str_eq k id ≡ false)
                  (sym (reserve_other id application_id h env page f w.tables g x)) other)
              (drop_kept n w.phases ps),
        )
  ]
  step-Halted h w (answers env click n) o (b, ps) = elim (Option-cases (nth n w.phases)) [
    | inl e ↦ rw e (b, ps)
    | inr (reading f, e) ↦ rw e (b, ps)
    | inr (clicking f, e) ↦
        rw e (finish-Stuck id application_id env click f w.tables b, drop_kept n w.phases ps)
  ]

  run-Halted :
      (h : Hashes) (w : World) (ops : List Op)
      → all (is_other id) ops ≡ true
      → Halted w
      → Halted (run h w ops)
  unfolding run
  run-Halted h w [] o b = b
  run-Halted h w (op ∷ ops) o b =
      let first : is_other id op ≡ true = ground (arith, o) in
      run-Halted h (step h w op) ops (ground (arith, o)) (step-Halted h w op first b)

  request_refused :
      (h : Hashes) (env : Env) (k nonce : String) (seconds : Option ℕ) (a : PreparedApplication)
      (t : Tables)
      → str_eq k id ≡ false
      → a.id ≡ application_id
      → Stuck id application_id t
      → Stuck id application_id (invalidate env a.id (some (binding_hash h a)) t).0
      → Absent k (invalidate env a.id (some (binding_hash h a)) t).0.approvals
      → is_ok (request_for h env k nonce seconds a t).1 ≡ false
  unfolding request_for new_request save_approval
  request_refused h env k nonce seconds a t n e b c fresh =
      elim (Option-cases (assert_ready_for_approval a)) [
        | inr (f, x) ↦ rw x refl
        | inl r ↦
            let u = invalidate env a.id (some (binding_hash h a)) t in
            elim (Result-cases u.1) [
              | inr (f, x) ↦ rw (r, x) refl
              | inl (_, x) ↦
                  let request = new_request h env k nonce seconds a in
                  let thrown_now : (save_approval_request request u.0.approvals).1 ≡ false =
                    save_refused id application_id request u.0.approvals n e refl
                      (absent_find k u.0.approvals.approvals fresh) c in
                  rw (r, x, thrown_now) refl
            ]
      ]

  invalidated_fresh :
      (env : Env) (k : String) (except : Option String) (of_application : String) (t : Tables)
      → Unused k t.approvals
      → Stuck id application_id t
      → Absent k (invalidate env of_application except t).0.approvals
  unfolding invalidate
  invalidated_fresh env k except of_application t unused b =
      invalidate-Absent k env.now of_application except t.approvals
        (All-map {Q = λ r. r.record_data.id ≡ r.id} t.approvals.requests (λ r s. s.0) b.requests)
        unused.0 unused.1

  found_refused :
      (h : Hashes) (env : Env) (k nonce : String) (seconds : Option ℕ) (t : Tables)
      (r : Result Failure PreparedApplication)
      → ((a : PreparedApplication) → r ≡ ok a → a.id ≡ application_id)
      → str_eq k id ≡ false
      → Unused k t.approvals
      → Stuck id application_id t
      → is_ok (request_found h env k nonce seconds t r).1 ≡ false
  found_refused h env k nonce seconds t (err e) named n unused b = refl
  found_refused h env k nonce seconds t (ok a) named n unused b =
      let except = some (binding_hash h a) in
      request_refused h env k nonce seconds a t n (named a refl) b
        (invalidate-Stuck id application_id env a.id except t b)
        (invalidated_fresh env k except a.id t unused b)

stopped_refused :
    (stopped : Bool) (t : Tables) (o : Outcome ApprovalRequest)
    → is_ok o.1 ≡ false
    → is_ok (if stopped then (t, err emergency_stop) else o).1 ≡ false
stopped_refused true t o e = refl
stopped_refused false t o e = e

-- Once a request for the approval of an application has expired, its row of submission_approvals
-- still active and no waiting submission holding it, that application never gets an approval again:
-- whatever the service does from then on, every later request for the approval of the record that
-- is stored under its id throws, where `randomUUID` repeats no id: neither the expired request's,
-- nor, for the last request, that of any other.
pub expired_refused :
    (h : Hashes) (w : World) (ops : List Op) (id application_id : String) (env : Env)
    (k nonce : String) (seconds : Option ℕ)
    → Halted id application_id w
    → all (is_other id) ops ≡ true
    → ((a : PreparedApplication)
        → find_application application_id (run h w ops).tables ≡ ok a
        → a.id ≡ application_id)
    → str_eq k id ≡ false
    → Unused k (run h w ops).tables.approvals
    → is_ok
        (request_submission_approval h env k nonce seconds application_id (run h w ops).tables).1
      ≡ false
unfolding request_submission_approval
expired_refused h w ops id application_id env k nonce seconds halted others named n unused =
    let t = (run h w ops).tables in
    let (b, ps) = run-Halted id application_id h w ops others halted in
    let found = find_application application_id t in
    stopped_refused env.stopped t (request_found h env k nonce seconds t found)
      (found_refused id application_id h env k nonce seconds t found named n unused b)
