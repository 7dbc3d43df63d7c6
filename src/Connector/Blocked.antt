-- ===== src/Connector/Blocked.antt =====
-- After an approval request has expired: the history of
-- apps/orchestrator/src/wuzzuf-tool-service.ts goes on, and its application gets no approval again.
pub mod Submissions
pub mod Pages
pub mod Refused
use extension_jobs.Common.{
  ℕ, zero, suc, ◌≡◌, refl, ◌∙◌, sym, ap, subst, inl, inr, String, Bool, true, false, not, ◌&&◌,
  Option, none, some, List, [], ◌∷◌, Result, ok, err, arith, str_eq, leb, any, all, find, All,
  Bool-cases, Option-cases, Result-cases, if◌then◌else◌,
}
use extension_jobs.Application.{PreparedApplication, terminal, advance}
use extension_jobs.Connector.{
  Hashes, Env, Tables, Failure, emergency_stop, Outcome, find_application, save, save_approval,
  invalidate, Attempting, continue, try_advance, disallow, binding_hash, saved_and_thrown,
}
use extension_jobs.Connector.Approval.{
  request_submission_approval, request_found, request_for, new_request, assert_ready_for_approval,
  decide_approval, decide_found, decide_request, assert_approval, mark_approval_used,
  approval_required,
}
use extension_jobs.Connector.Cancel
use extension_jobs.Connector.Cancel.{cancel, cancel_open, close_session}
use extension_jobs.Connector.Expired.{
  Stuck, save_approval-Stuck, invalidate-Stuck, continue-Stuck, try_advance-Stuck, thrown_by-Stuck,
  disallow-Stuck, changed_form-Stuck, found_other, decide_request-Stuck, assert_approval-Stuck,
}
use extension_jobs.Store.Approvals.{ApprovalRequest, get_approval_request}
use extension_jobs.Workflow.{cancelled}

module _ (id application_id : String) where
  request_for-Stuck :
      (h : Hashes) (env : Env) (k nonce : String) (seconds : Option ℕ) (a : PreparedApplication)
      (t : Tables)
      → str_eq k id ≡ false
      → Stuck id application_id t
      → Stuck id application_id (request_for h env k nonce seconds a t).0
  unfolding request_for new_request
  request_for-Stuck h env k nonce seconds a t n b =
      elim (Option-cases (assert_ready_for_approval a)) [
        | inr (e, x) ↦ rw x b
        | inl r ↦
            let u = invalidate env a.id (some (binding_hash h a)) t in
            let c = invalidate-Stuck id application_id env a.id (some (binding_hash h a)) t b in
            elim (Result-cases u.1) [
              | inr (e, x) ↦ rw (r, x) c
              | inl (_, x) ↦
                  let request = new_request h env k nonce seconds a in
                  let v = save_approval request u.0 in
                  let d = save_approval-Stuck id application_id request u.0 n c in
                  elim (Result-cases v.1) [
                    | inl (_, y) ↦ rw (r, x, y) d
                    | inr (e, y) ↦ rw (r, x, y) d
                  ]
            ]
      ]

  pub request-Stuck :
      (h : Hashes) (env : Env) (k nonce : String) (seconds : Option ℕ) (wanted : String)
      (t : Tables)
      → str_eq k id ≡ false
      → Stuck id application_id t
      → Stuck id application_id (request_submission_approval h env k nonce seconds wanted t).0
  unfolding request_submission_approval
  request-Stuck h env k nonce seconds wanted t n b =
      running env.stopped (request_found h env k nonce seconds t (find_application wanted t))
        (found (find_application wanted t))
    where
      found :
          (r : Result Failure PreparedApplication)
          → Stuck id application_id (request_found h env k nonce seconds t r).0
      found (err e) = b
      found (ok a) = request_for-Stuck h env k nonce seconds a t n b

      running :
          (stopped : Bool) (o : Outcome ApprovalRequest)
          → Stuck id application_id o.0
          → Stuck id application_id (if stopped then (t, err emergency_stop) else o).0
      running true o c = b
      running false o c = c

  pub decide-Stuck :
      (h : Hashes) (env : Env) (agreed : Bool) (token k : String) (t : Tables)
      → Stuck id application_id t
      → Stuck id application_id (decide_approval h env agreed token k t).0
  unfolding decide_approval
  decide-Stuck h env agreed token k t b = elim (Option-cases (get_approval_request k t.approvals)) [
    | inl n ↦ rw n b
    | inr (request, e) ↦ rw e (found request e (find_application request.application_id t))
  ]
    where
      found :
          (request : ApprovalRequest)
          → get_approval_request k t.approvals ≡ some request
          → (r : Result Failure PreparedApplication)
          → Stuck id application_id (decide_found h env agreed token request t r).0
      found request e (err f) = b
      found request e (ok a) =
          decide_request-Stuck id application_id h env agreed token request a t
            (found_other id application_id k t b e) b

  closed-Stuck :
      (closing : Option Failure) (t : Tables) (a : PreparedApplication)
      → (close_session closing t a).tables ≡ t
  unfolding close_session
  closed-Stuck closing t a = ground arith

  pub cancel-Stuck :
      (env : Env) (closing : Option Failure) (k : String) (t : Tables)
      → Stuck id application_id t
      → Stuck id application_id (cancel env closing k t).0
  unfolding cancel cancel_open save
  cancel-Stuck env closing k t b = elim (Result-cases (find_application k t)) [
    | inr (f, e) ↦ rw e b
    | inl (a, e) ↦ elim (Bool-cases (terminal a.state)) [
      | inl done ↦ rw (e, done) b
      | inr live ↦
          let closed = close_session closing t a in
          let moved = continue closed (try_advance env cancelled) in
          let c : Stuck id application_id closed.tables =
            subst (Stuck id application_id) (sym (closed-Stuck closing t a)) b in
          rw (e, live)
            (continue-Stuck id application_id (continue moved (disallow env)) (Cancel.saved env)
              (continue-Stuck id application_id moved (disallow env)
                (continue-Stuck id application_id closed (try_advance env cancelled) c
                  (try_advance-Stuck id application_id env cancelled))
                (disallow-Stuck id application_id env))
              (λ u d k'. k'))
    ]
  ]
