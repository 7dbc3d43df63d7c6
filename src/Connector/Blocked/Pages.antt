-- ===== src/Connector/Blocked/Pages.antt =====
-- The parts of `submitOnce` of apps/orchestrator/src/wuzzuf-tool-service.ts that see the page and the
-- answer of the click, beside an approval request that has expired.
use extension_jobs.Common.{
  ◌≡◌, sym, ap, inl, inr, String, Bool, true, false, Option, none, some, Result, ok, err, [], ◌∷◌,
  str_eq, Bool-cases, Option-cases, Result-cases, opt_eq, is_some, any, if◌then◌else◌,
}
use extension_jobs.Application.{PreparedApplication, FormFingerprint, advance}
use extension_jobs.Connector.{
  Hashes, Env, Tables, Failure, other_error, save, Attempting, continue, try_advance,
}
use extension_jobs.Connector.Approval.{mark_approval_used}
use extension_jobs.Connector.Expired.{
  Stuck, save_approval-Stuck, continue-Stuck, try_advance-Stuck, thrown_by-Stuck,
  changed_form-Stuck,
}
use extension_jobs.Connector.Gate.{failed_waits}
use extension_jobs.Connector.Submit.{Flight, Progress, waiting}
use extension_jobs.Connector.Click.{
  Page, Click, with_session, form_compared, form_checked, assert_form_unchanged, values_compared,
  assert_form_values_unchanged, valid_checked, assert_valid, reserved_as, reserve_attempt,
  use_approval, submit_reserved, saved, checked_form, submit_next, submit_reserve, submit_answered,
  submit_finish, with_result, submission_key,
}
use extension_jobs.Store.Approvals.{ApprovalRequest}
use extension_jobs.Store.Submissions.{Submissions, reserve_submission_attempt}
use extension_jobs.Workflow.{submitting, submitted}
use extension_jobs.Connector.Blocked.Submissions.{failed-Stuck}

abbrev approval_id : Progress → String
approval_id (waiting f) = f.approval.id
approval_id _ = ""

module _ (id application_id : String) where
  abbrev S : Tables → Type 0
  S t = Stuck id application_id t

  checked-Stuck :
      (env : Env) (page : Page) (t : Tables) (a : PreparedApplication)
      → S t
      → S (checked_form env page t a).tables
  unfolding checked_form assert_form_unchanged assert_form_values_unchanged assert_valid
  checked-Stuck env page t a b =
      let form = assert_form_unchanged env page.form t a in
      let values = assert_form_values_unchanged env page.values in
      continue-Stuck id application_id (continue form values) (assert_valid page.valid)
        (continue-Stuck id application_id form values (form_checked-Stuck a.form_fingerprint)
          (λ u c k. values-Stuck u c (with_session c page.values) k))
        (λ u c k. valid-Stuck u c (with_session c page.valid) k)
    where
      compared-Stuck :
          (old : FormFingerprint) (r : Result Failure FormFingerprint)
          → S (form_compared env t a old r).tables
      compared-Stuck old (err e) = b
      compared-Stuck old (ok current) =
          elim (Bool-cases (str_eq current.form_version old.form_version)) [
            | inl e ↦ rw e b
            | inr n ↦ rw n (changed_form-Stuck id application_id env _ _ t a b)
          ]

      form_checked-Stuck :
          (o : Option FormFingerprint) → S (form_checked env page.form t a o).tables
      form_checked-Stuck none = b
      form_checked-Stuck (some old) = compared-Stuck old (with_session a page.form)

      values-Stuck :
          (u : Tables) (c : PreparedApplication) (r : Result Failure String)
          → S u
          → S (values_compared env u c r).tables
      values-Stuck u c (err e) k = k
      values-Stuck u c (ok current) k = elim (Bool-cases (opt_eq c.form_value_hash current)) [
        | inl e ↦ rw e k
        | inr n ↦ rw n (changed_form-Stuck id application_id env _ _ u c k)
      ]

      valid-Stuck :
          (u : Tables) (c : PreparedApplication) (r : Result Failure Bool)
          → S u
          → S (valid_checked u c r).tables
      valid-Stuck u c (err e) k = k
      valid-Stuck u c (ok true) k = k
      valid-Stuck u c (ok false) k = k

  reserved-Stuck :
      (h : Hashes) (env : Env) (request : ApprovalRequest) (t : Tables) (a : PreparedApplication)
      → str_eq request.id id ≡ false
      → S t
      → S (submit_reserved h env request t a).tables
  unfolding submit_reserved reserve_attempt use_approval mark_approval_used save
  reserved-Stuck h env request t a n b =
      let first = reserve_attempt h env request t a in
      let second = continue first (use_approval env request) in
      let third = continue second (try_advance env submitting) in
      continue-Stuck id application_id third (saved env)
        (continue-Stuck id application_id second (try_advance env submitting)
          (continue-Stuck id application_id first (use_approval env request)
            (as-Stuck (
              reserve_submission_attempt env.now (h.text (submission_key h a)) a.id request.id
                (any (λ r. str_eq r.id request.id) t.approvals.approvals) (submission_key h a)
                t.submissions))
            used-Stuck)
          (try_advance-Stuck id application_id env submitting))
        (λ u c k. k)
    where
      as-Stuck : (o : Submissions × Option Bool) → S (reserved_as t a o).tables
      as-Stuck (s, none) = b
      as-Stuck (s, some true) = b
      as-Stuck (s, some false) = b

      used-Stuck :
          (u : Tables) (c : PreparedApplication) → S u → S (use_approval env request u c).tables
      used-Stuck u c k =
          let v = mark_approval_used env request u in
          thrown_by-Stuck id application_id v.1 v.0 c
            (save_approval-Stuck id application_id _ u n k)

  pub reserve-Stuck :
      (h : Hashes) (env : Env) (page : Page) (f : Flight) (t : Tables)
      → str_eq f.approval.id id ≡ false
      → S t
      → S (submit_reserve h env page f t).0
  unfolding submit_reserve
  reserve-Stuck h env page f t n b =
      let first = checked_form env page t f.application in
      let next = submit_reserved h env f.approval in
      ended (continue first next) (
        continue-Stuck id application_id first next (checked-Stuck env page t f.application b)
          (λ u c k. reserved-Stuck h env f.approval u c n k))
    where
      ended : (s : Attempting) → S s.tables → S (submit_next env f.approval s).0
      ended s k = elim (Option-cases s.thrown) [
        | inl e ↦ rw e k
        | inr (x, e) ↦ rw e (failed-Stuck id application_id env false x s.application s.tables k)
      ]

  answered-Stuck :
      (env : Env) (click : Click) (done : Bool) (confirmation : Option String)
      (a : PreparedApplication) (t : Tables)
      → S t
      → S (submit_answered env click done confirmation a t).0
  unfolding submit_answered save
  answered-Stuck env click done confirmation a t b =
      elim (Result-cases (advance env.now (submitted ∷ []) a)) [
        | inl (c, e) ↦
            let d = with_result env done confirmation c in
            elim (Option-cases (if is_some a.adapter_session_id then click.cleanup else none)) [
              | inl n ↦ rw (e, n) b
              | inr (f, x) ↦
                  rw (e, x) (failed-Stuck id application_id env false f d (save env d t) b)
            ]
        | inr (f, e) ↦ rw e (
            failed-Stuck id application_id env click.started (other_error "Invalid transition") a t
              b)
      ]

  pub finish-Stuck :
      (env : Env) (click : Click) (f : Flight) (t : Tables)
      → S t
      → S (submit_finish env click f t).0
  unfolding submit_finish
  finish-Stuck env click f t b = elim (Result-cases click.result) [
    | inr (e, x) ↦ rw x (failed-Stuck id application_id env click.started e f.application t b)
    | inl ((done, confirmation), x) ↦
        rw x (answered-Stuck env click done confirmation f.application t b)
  ]

  pub reserve_other :
      (h : Hashes) (env : Env) (page : Page) (f : Flight) (t : Tables) (g : Flight)
      → (submit_reserve h env page f t).1 ≡ waiting g
      → g.approval.id ≡ f.approval.id
  unfolding submit_reserve
  reserve_other h env page f t g w =
      ended (continue (checked_form env page t f.application) (submit_reserved h env f.approval)) w
    where
      ended :
          (s : Attempting)
          → (submit_next env f.approval s).1 ≡ waiting g
          → g.approval.id ≡ f.approval.id
      ended s = elim (Option-cases s.thrown) [
        | inl e ↦ rw e (λ w'. sym (ap approval_id w'))
        | inr (x, e) ↦ rw e (λ w'. failed_waits env x s.application s.tables g w')
      ]
