-- ===== src/Connector/Clicks.antt =====
-- At most one click: the parts of `submitOnce` of apps/orchestrator/src/wuzzuf-tool-service.ts, and
-- any interleaving of them with whatever else the service does.
use extension_jobs.Common.{
  ◌+◌, ◌≤◌, ◌≡◌, refl, inl, inr, String, Bool, true, false, Option, none, some, [], ◌∷◌, Result, ok,
  err, arith, str_eq, Bool-cases, Option-cases, Result-cases, any, is_some, if◌then◌else◌,
}
use extension_jobs.Application.{PreparedApplication, FormFingerprint, SubmissionResult, advance}
use extension_jobs.Connector.{
  Hashes, Env, Tables, Failure, Outcome, other_error, emergency_stop, find_application, Attempting,
  continue, try_advance, save,
}
use extension_jobs.Connector.Approval.{approval_required, assert_approval, mark_approval_used}
use extension_jobs.Connector.Keys.{
  Grows, Kept, same, then-Grows, save-Grows, continue-Kept, try_advance-Kept, changed_form-Kept,
  assert_approval-Grows, submit_failed-Grows,
}
use extension_jobs.Connector.Submit.{
  SubmitInput, Flight, Progress, thrown, submit_failed, submit_approve, submit_locked, submit_found,
  submit_begin, refusal, lock_key, submit_asserted, submit_unrefused, submit_unsubmitted,
}
use extension_jobs.Connector.Click.{
  Page, Click, assert_form_unchanged, assert_form_values_unchanged, assert_valid, reserve_attempt,
  use_approval, submit_reserved, saved, checked_form, submit_answered, submit_finish, with_result,
  submission_key, reserved_as,
}
use extension_jobs.Store.Locks.{acquire_lock}
use extension_jobs.Store.Approvals.{ApprovalRequest, get_approval_request}
use extension_jobs.Store.Submissions.Reservations.{taken, free, reserve-taken}
use extension_jobs.Store.Submissions.{Submissions, reserve_submission_attempt}
use extension_jobs.Workflow.{submitting, submitted}

module _ (id : String) where
  asserted-Grows :
      (env : Env) (a : PreparedApplication) (request : ApprovalRequest) (t : Tables)
      (o : Outcome (Unit {0}))
      → Grows id t o.0
      → Grows id t (submit_asserted env a request o).0
  asserted-Grows env a request t (u, ok _) g = g
  asserted-Grows env a request t (u, err e) g =
      then-Grows id t u (submit_failed env false e a u).0 g (submit_failed-Grows id env false e a u)

  approve-Grows :
      (h : Hashes) (env : Env) (input : SubmitInput) (a : PreparedApplication) (t : Tables)
      → Grows id t (submit_approve h env input a t).0
  unfolding submit_approve
  approve-Grows h env input a t =
      elim (Option-cases (get_approval_request input.approval_request_id t.approvals)) [
        | inl n ↦ rw n (submit_failed-Grows id env false approval_required a t)
        | inr (request, e) ↦ rw e (
            asserted-Grows env a request t (assert_approval h env request a input.approval_token t)
              (assert_approval-Grows id h env request a input.approval_token t))
      ]

  locked-Grows :
      (h : Hashes) (env : Env) (input : SubmitInput) (a : PreparedApplication) (t : Tables)
      → Grows id t (submit_locked h env input a t).0
  unfolding submit_locked
  locked-Grows h env input a t =
      let (locks, got) = acquire_lock env.now env.lease env.owner (lock_key a) t.locks in
      elim (Bool-cases got) [
        | inl won ↦ rw won (approve-Grows h env input a (record t { locks = locks }))
        | inr lost ↦ rw lost (same id t t refl)
      ]

  unrefused-Grows :
      (h : Hashes) (env : Env) (input : SubmitInput) (a : PreparedApplication) (t : Tables)
      (o : Option Failure)
      → Grows id t (submit_unrefused h env input a t o).0
  unrefused-Grows h env input a t none = locked-Grows h env input a t
  unrefused-Grows h env input a t (some e) = same id t t refl

  unsubmitted-Grows :
      (h : Hashes) (env : Env) (input : SubmitInput) (a : PreparedApplication) (t : Tables)
      (o : Option SubmissionResult)
      → Grows id t (submit_unsubmitted h env input a t o).0
  unsubmitted-Grows h env input a t none = unrefused-Grows h env input a t (refusal a)
  unsubmitted-Grows h env input a t (some r) = elim (Bool-cases r.submitted) [
    | inl done ↦ ground (arith, done)
    | inr new ↦ ground (arith, new, unrefused-Grows h env input a t (refusal a))
  ]

  pub begin-Grows :
      (h : Hashes) (env : Env) (input : SubmitInput) (t : Tables)
      → Grows id t (submit_begin h env input t).0
  unfolding submit_begin
  begin-Grows h env input t =
      unless_grows env.stopped
        (submit_found h env input t (find_application input.application_id t))
        (found_grows (find_application input.application_id t))
    where
      found_grows :
          (r : Result Failure PreparedApplication) → Grows id t (submit_found h env input t r).0
      found_grows (err e) = same id t t refl
      found_grows (ok a) = unsubmitted-Grows h env input a t a.submission_result

      unless_grows :
          (b : Bool) (o : Tables × Progress)
          → Grows id t o.0
          → Grows id t (if b then (t, thrown emergency_stop) else o).0
      unless_grows true o g = same id t t refl
      unless_grows false o g = g

  form-Kept :
      (env : Env) (form : Result Failure FormFingerprint) (t : Tables) (a : PreparedApplication)
      → Kept id t a (assert_form_unchanged env form t a)
  unfolding assert_form_unchanged
  form-Kept env form t a = ground (
    arith,
    changed_form-Kept id env "FORM_CHANGED" "The Wuzzuf application form changed after review." t a,
  )

  values-Kept :
      (env : Env) (values : Result Failure String) (t : Tables) (a : PreparedApplication)
      → Kept id t a (assert_form_values_unchanged env values t a)
  unfolding assert_form_values_unchanged
  values-Kept env values t a = ground (
    arith,
    changed_form-Kept id env "FORM_VALUES_CHANGED"
        "The Wuzzuf application values changed after review." t a,
  )

  valid-Kept :
      (valid : Result Failure Bool) (t : Tables) (a : PreparedApplication)
      → Kept id t a (assert_valid valid t a)
  unfolding assert_valid
  valid-Kept valid t a = ground arith

  pub checked-Kept :
      (env : Env) (page : Page) (t : Tables) (a : PreparedApplication)
      → Kept id t a (checked_form env page t a)
  unfolding checked_form
  checked-Kept env page t a =
      let form = assert_form_unchanged env page.form t a in
      continue-Kept id t a (continue form (assert_form_values_unchanged env page.values))
        (assert_valid page.valid)
        (continue-Kept id t a form (assert_form_values_unchanged env page.values)
          (form-Kept env page.form t a) (values-Kept env page.values))
        (valid-Kept page.valid)

  mark-Kept :
      (env : Env) (request : ApprovalRequest) (t : Tables) (a : PreparedApplication)
      → Kept id t a (use_approval env request t a)
  unfolding use_approval mark_approval_used
  mark-Kept env request t a = ground arith

  reserved-Kept :
      (t : Tables) (a : PreparedApplication) (o : Submissions × Option Bool)
      → (taken id t.submissions ≤ taken id o.0)
        × (taken id t.submissions + free id t.submissions ≤ 1 → taken id o.0 + free id o.0 ≤ 1)
        × (o.1 ≡ some true → str_eq a.id id ≡ true → taken id o.0 ≡ taken id t.submissions + 1)
      → Kept id t a (reserved_as t a o)
        × ((reserved_as t a o).thrown ≡ none
            → str_eq a.id id ≡ true
            → taken id (reserved_as t a o).tables.submissions ≡ taken id t.submissions + 1)
  reserved-Kept t a (s, none) (more, one, taken_now) = ground arith
  reserved-Kept t a (s, some false) (more, one, taken_now) = ground arith
  reserved-Kept t a (s, some true) (more, one, taken_now) =
      (((more, one), refl), λ n e. taken_now refl e)

  reserve_lem :
      (h : Hashes) (env : Env) (request : ApprovalRequest) (t : Tables) (a : PreparedApplication)
      → (let s = reserve_attempt h env request t a in
          Kept id t a s
          × (s.thrown ≡ none
              → str_eq a.id id ≡ true
              → taken id s.tables.submissions ≡ taken id t.submissions + 1))
  unfolding reserve_attempt
  reserve_lem h env request t a =
      let key = submission_key h a in
      let known = any (λ r. str_eq r.id request.id) t.approvals.approvals in
      reserved-Kept t a
        (reserve_submission_attempt env.now (h.text key) a.id request.id known key t.submissions)
        (reserve-taken id env.now (h.text key) a.id request.id known key t.submissions)

  pub continue_after :
      (s : Attempting) (next : Tables → PreparedApplication → Attempting)
      → ((u : Tables) (b : PreparedApplication) → Kept id u b (next u b))
      → Kept id s.tables s.application (continue s next)
        × ((continue s next).thrown ≡ none → s.thrown ≡ none)
  unfolding continue
  continue_after s next k = (
    continue-Kept id s.tables s.application s next (same id s.tables s.tables refl, refl) k,
    elim (Option-cases s.thrown) [ inl n ↦ λ _. n | inr (f, e) ↦ rw e (λ z. z) ],
  )

  saved-Kept : (env : Env) (t : Tables) (a : PreparedApplication) → Kept id t a (saved env t a)
  saved-Kept env t a = (save-Grows id env a t, refl)

  -- A submission that gets as far as the click has got the key of its application.
  pub clicking_lem :
      (h : Hashes) (env : Env) (request : ApprovalRequest) (t : Tables) (a : PreparedApplication)
      → (let s = submit_reserved h env request t a in
          Kept id t a s
          × (s.thrown ≡ none
              → str_eq a.id id ≡ true
              → taken id t.submissions + 1 ≤ taken id s.tables.submissions))
  unfolding submit_reserved
  clicking_lem h env request t a =
      let first = reserve_attempt h env request t a in
      let marked = continue first (use_approval env request) in
      let moved = continue marked (try_advance env submitting) in
      let (kept, key) = reserve_lem h env request t a in
      let (g, n) = continue_after first (use_approval env request) (mark-Kept env request) in
      let (g', n') =
        continue_after marked (try_advance env submitting) (try_advance-Kept id env submitting) in
      let (g'', n'') = continue_after moved (saved env) (saved-Kept env) in
      (
        continue-Kept id t a moved (saved env)
            (continue-Kept id t a marked (try_advance env submitting)
              (continue-Kept id t a first (use_approval env request) kept (mark-Kept env request))
              (try_advance-Kept id env submitting))
            (saved-Kept env),
        λ none_thrown own.
            omega (arith, key (n (n' (n'' none_thrown))) own, g.0.0, g'.0.0, g''.0.0),
      )

  answered-Grows :
      (env : Env) (click : Click) (done : Bool) (confirmation : Option String)
      (a : PreparedApplication) (t : Tables)
      → Grows id t (submit_answered env click done confirmation a t).0
  unfolding submit_answered
  answered-Grows env click done confirmation a t =
      elim (Result-cases (advance env.now (submitted ∷ []) a)) [
        | inl (b, e) ↦
            let c = with_result env done confirmation b in
            let u = save env c t in
            let g : Grows id t u = save-Grows id env c t in
            elim (Option-cases (if is_some a.adapter_session_id then click.cleanup else none)) [
              | inl n ↦ rw (e, n) g
              | inr (f, x) ↦
                  rw (e, x)
                    (then-Grows id t u (submit_failed env false f c u).0 g
                      (submit_failed-Grows id env false f c u))
            ]
        | inr (f, e) ↦
            rw e (submit_failed-Grows id env click.started (other_error "Invalid transition") a t)
      ]

  pub finish-Grows :
      (env : Env) (click : Click) (f : Flight) (t : Tables)
      → Grows id t (submit_finish env click f t).0
  unfolding submit_finish
  finish-Grows env click f t = elim (Result-cases click.result) [
    | inl ((done, confirmation), e) ↦
        rw e (answered-Grows env click done confirmation f.application t)
    | inr (e, x) ↦ rw x (submit_failed-Grows id env click.started e f.application t)
  ]
