-- ===== src/Connector/Blocked/Submissions.antt =====
-- The parts of `submitOnce` of apps/orchestrator/src/wuzzuf-tool-service.ts beside an approval request
-- that has expired.
use extension_jobs.Common.{
  ◌≡◌, inl, inr, String, Bool, true, false, Option, none, some, Result, ok, err, arith, str_eq,
  Bool-cases, Option-cases, if◌then◌else◌,
}
use extension_jobs.Application.{PreparedApplication, SubmissionResult}
use extension_jobs.Connector.{
  Hashes, Env, Tables, Failure, Outcome, emergency_stop, find_application, save, try_advance,
  saved_and_thrown,
}
use extension_jobs.Connector.Approval.{approval_required, assert_approval}
use extension_jobs.Connector.Expired.{
  Stuck, continue-Stuck, try_advance-Stuck, found_other, assert_approval-Stuck, authorised_lem,
}
use extension_jobs.Connector.Gate.{begin_waits}
use extension_jobs.Connector.Submit.{
  SubmitInput, Flight, Progress, waiting, thrown, submit_failed, submit_asserted, submit_approve,
  submit_locked, submit_unrefused, submit_unsubmitted, submit_found, submit_begin, refusal,
  lock_key, with_error, outcome_unknown,
}
use extension_jobs.Store.Approvals.{ApprovalRequest, get_approval_request}
use extension_jobs.Store.Locks.{acquire_lock}
use extension_jobs.Workflow.{failed_permanent}

module _ (id application_id : String) where
  abbrev S : Tables → Type 0
  S t = Stuck id application_id t

  pub failed-Stuck :
      (env : Env) (clicked : Bool) (e : Failure) (a : PreparedApplication) (t : Tables)
      → S t
      → S (submit_failed env clicked e a t).0
  unfolding submit_failed save
  failed-Stuck env false e a t b = b
  failed-Stuck env true e a t b =
      let c = with_error env outcome_unknown a in
      continue-Stuck id application_id (try_advance env failed_permanent t c)
        (saved_and_thrown env outcome_unknown)
        (try_advance-Stuck id application_id env failed_permanent t c b) (λ u d k. k)

  asserted-Stuck :
      (env : Env) (a : PreparedApplication) (request : ApprovalRequest) (o : Outcome (Unit {0}))
      → S o.0
      → S (submit_asserted env a request o).0
  asserted-Stuck env a request (t, ok _) b = b
  asserted-Stuck env a request (t, err e) b = failed-Stuck env false e a t b

  approve-Stuck :
      (h : Hashes) (env : Env) (input : SubmitInput) (a : PreparedApplication) (t : Tables)
      → S t
      → S (submit_approve h env input a t).0
  unfolding submit_approve
  approve-Stuck h env input a t b =
      elim (Option-cases (get_approval_request input.approval_request_id t.approvals)) [
        | inl n ↦ rw n (failed-Stuck env false approval_required a t b)
        | inr (request, e) ↦ rw e (
            asserted-Stuck env a request (assert_approval h env request a input.approval_token t) (
              assert_approval-Stuck id application_id h env request a input.approval_token t
                (found_other id application_id input.approval_request_id t b e) b))
      ]

  unrefused-Stuck :
      (h : Hashes) (env : Env) (input : SubmitInput) (a : PreparedApplication) (t : Tables)
      (o : Option Failure)
      → S t
      → S (submit_unrefused h env input a t o).0
  unfolding submit_locked
  unrefused-Stuck h env input a t (some e) b = b
  unrefused-Stuck h env input a t none b =
      let (locks, got) = acquire_lock env.now env.lease env.owner (lock_key a) t.locks in
      elim (Bool-cases got) [
        | inl won ↦ rw won (approve-Stuck h env input a (record t { locks = locks }) b)
        | inr lost ↦ rw lost b
      ]

  unsubmitted-Stuck :
      (h : Hashes) (env : Env) (input : SubmitInput) (a : PreparedApplication) (t : Tables)
      (o : Option SubmissionResult)
      → S t
      → S (submit_unsubmitted h env input a t o).0
  unsubmitted-Stuck h env input a t none b = unrefused-Stuck h env input a t (refusal a) b
  unsubmitted-Stuck h env input a t (some r) b = elim (Bool-cases r.submitted) [
    | inl done ↦ ground (arith, done, b)
    | inr new ↦ ground (arith, new, unrefused-Stuck h env input a t (refusal a) b)
  ]

  pub begin-Stuck :
      (h : Hashes) (env : Env) (input : SubmitInput) (t : Tables)
      → S t
      → S (submit_begin h env input t).0
  unfolding submit_begin
  begin-Stuck h env input t b =
      running env.stopped (submit_found h env input t (find_application input.application_id t))
        (found (find_application input.application_id t))
    where
      found : (r : Result Failure PreparedApplication) → S (submit_found h env input t r).0
      found (err e) = b
      found (ok a) = unsubmitted-Stuck h env input a t a.submission_result b

      running :
          (stopped : Bool) (o : Tables × Progress)
          → S o.0
          → S (if stopped then (t, thrown emergency_stop) else o).0
      running true o c = b
      running false o c = c

  -- A call that waits after its approval was checked has another request's approval.
  pub begin_other :
      (h : Hashes) (env : Env) (input : SubmitInput) (t : Tables) (f : Flight)
      → S t
      → (submit_begin h env input t).1 ≡ waiting f
      → str_eq f.approval.id id ≡ false
  begin_other h env input t f b w =
      let (on, record_found, ready, approved) = begin_waits h env input t f w in
      found_other id application_id input.approval_request_id t b approved.found
        (authorised_lem h f.approval f.application input.approval_token approved.authorised)
