-- ===== src/Connector/Keys.antt =====
-- What the operations of apps/orchestrator/src/wuzzuf-tool-service.ts do to the keys of submissions:
-- none is taken away, and a submission that goes on to its click has got one.
use extension_jobs.Common.{
  ℕ, ◌+◌, ◌≤◌, ◌≡◌, refl, ◌∙◌, inl, inr, String, Bool, true, false, Option, none, Result, arith,
  Bool-cases, Option-cases, Result-cases,
}
use extension_jobs.Application.{PreparedApplication, terminal, advance}
use extension_jobs.Connector.{
  Hashes, Env, Tables, Failure, find_application, save, save_approval, invalidate, Attempting,
  continue, try_advance, thrown_by, invalidate_changed_form, disallow, saved_and_thrown, tool_error,
}
use extension_jobs.Connector.Approval.{
  request_submission_approval, request_for, decide_approval, decide_request, refuse_as,
  assert_approval,
}
use extension_jobs.Connector.Cancel.{cancel, cancel_open, close_session, saved}
use extension_jobs.Connector.Submit.{submit_failed, with_error, outcome_unknown}
use extension_jobs.Store.Approvals.{ApprovalRequest, ApprovalRequestStatus}
use extension_jobs.Store.Submissions.Reservations.{taken, free, save-taken}
use extension_jobs.Workflow.{ApplicationState, form_changed, cancelled, failed_permanent}

module _ (id : String) where
  abbrev pub One : Tables → Type 0
  One t = taken id t.submissions + free id t.submissions ≤ 1

  abbrev pub Grows : Tables → Tables → Type 0
  Grows t u = (taken id t.submissions ≤ taken id u.submissions) × (One t → One u)

  pub same : (t u : Tables) → u.submissions ≡ t.submissions → Grows t u
  same t u e = ground (arith, e)

  pub then-Grows : (t u v : Tables) → Grows t u → Grows u v → Grows t v
  then-Grows t u v g h = (omega (arith, g, h), λ o. h.1 (g.1 o))

  pub save-Grows : (env : Env) (a : PreparedApplication) (t : Tables) → Grows t (save env a t)
  unfolding save
  save-Grows env a t =
      let (kept, one) = save-taken id env.now (record a { updated_at = env.now }) t.submissions in
      (omega (arith, kept), one)

  -- A `try` that changes a record of the application keeps the record's id.
  abbrev pub Kept : Tables → PreparedApplication → Attempting → Type 0
  Kept t a s = Grows t s.tables × (s.application.id ≡ a.id)

  pub continue-Kept :
      (t : Tables) (a : PreparedApplication) (s : Attempting)
      (next : Tables → PreparedApplication → Attempting)
      → Kept t a s
      → ((u : Tables) (b : PreparedApplication) → Kept u b (next u b))
      → Kept t a (continue s next)
  unfolding continue
  continue-Kept t a s next k h = elim (Option-cases s.thrown) [
    | inl e ↦
        let (g, same_id) = h s.tables s.application in
        rw e (then-Grows t s.tables (next s.tables s.application).tables k.0 g, same_id ∙ k.1)
    | inr (f, e) ↦ rw e k
  ]

  pub try_advance-Kept :
      (env : Env) (s : ApplicationState) (t : Tables) (a : PreparedApplication)
      → Kept t a (try_advance env s t a)
  unfolding try_advance advance
  try_advance-Kept env s t a = ground arith

  pub thrown_by-Kept :
      (r : Result Failure (Unit {0})) (t : Tables) (a : PreparedApplication)
      → Kept t a (thrown_by r t a)
  unfolding thrown_by
  thrown_by-Kept r t a = ground arith

  pub invalidate_same :
      (env : Env) (k : String) (except : Option String) (t : Tables)
      → (invalidate env k except t).0.submissions ≡ t.submissions
  unfolding invalidate
  invalidate_same env k except t = refl

  pub save_approval_same :
      (request : ApprovalRequest) (t : Tables)
      → (save_approval request t).0.submissions ≡ t.submissions
  unfolding save_approval
  save_approval_same request t = refl

  disallow-Kept : (env : Env) (t : Tables) (a : PreparedApplication) → Kept t a (disallow env t a)
  unfolding disallow
  disallow-Kept env t a =
      let b = record a { submission_allowed = false } in
      let u = (invalidate env b.id none t).0 in
      let (g, i) = thrown_by-Kept (invalidate env b.id none t).1 u b in
      (then-Grows t u (disallow env t a).tables (same t u (invalidate_same env b.id none t)) g, i)

  pub changed_form-Kept :
      (env : Env) (code message : String) (t : Tables) (a : PreparedApplication)
      → Kept t a (invalidate_changed_form env code message t a)
  unfolding invalidate_changed_form
  changed_form-Kept env code message t a =
      continue-Kept t a (continue (try_advance env form_changed t a) (disallow env))
        (saved_and_thrown env (tool_error code message 409 false))
        (continue-Kept t a (try_advance env form_changed t a) (disallow env)
          (try_advance-Kept env form_changed t a) (disallow-Kept env))
        (λ u b. (save-Grows env b u, refl))

  -- What an operation does that is no attempt.
  abbrev pub Leads : {A : Type 0} → Tables → Tables × A → Type 0
  Leads t o = Grows t o.0

  refuse_as-Grows :
      (env : Env) (status : ApprovalRequestStatus) (e : Failure) (request : ApprovalRequest)
      (t : Tables)
      → Grows t (refuse_as env status e request t).0
  unfolding refuse_as save_approval
  refuse_as-Grows env status e request t = ground arith

  pub assert_approval-Grows :
      (h : Hashes) (env : Env) (request : ApprovalRequest) (a : PreparedApplication)
      (token : Option String) (t : Tables)
      → Grows t (assert_approval h env request a token t).0
  unfolding assert_approval refuse_as save_approval
  assert_approval-Grows h env request a token t = ground arith

  pub request-Grows :
      (h : Hashes) (env : Env) (k nonce : String) (seconds : Option ℕ) (application_id : String)
      (t : Tables)
      → Grows t (request_submission_approval h env k nonce seconds application_id t).0
  unfolding request_submission_approval request_for save_approval invalidate
  request-Grows h env k nonce seconds application_id t = ground arith

  pub decide-Grows :
      (h : Hashes) (env : Env) (agreed : Bool) (token k : String) (t : Tables)
      → Grows t (decide_approval h env agreed token k t).0
  unfolding decide_approval decide_request refuse_as save_approval
  decide-Grows h env agreed token k t = ground arith

  close-Kept :
      (closing : Option Failure) (t : Tables) (a : PreparedApplication)
      → Kept t a (close_session closing t a)
  unfolding close_session
  close-Kept closing t a = ground arith

  cancel_open-Kept :
      (env : Env) (closing : Option Failure) (t : Tables) (a : PreparedApplication)
      → Kept t a (cancel_open env closing a t)
  unfolding cancel_open
  cancel_open-Kept env closing t a =
      let closed = close_session closing t a in
      let moved = continue closed (try_advance env cancelled) in
      continue-Kept t a (continue moved (disallow env)) (saved env)
        (continue-Kept t a moved (disallow env)
          (continue-Kept t a closed (try_advance env cancelled) (close-Kept closing t a)
            (try_advance-Kept env cancelled))
          (disallow-Kept env))
        (λ u b. (save-Grows env b u, refl))

  pub cancel-Grows :
      (env : Env) (closing : Option Failure) (k : String) (t : Tables)
      → Grows t (cancel env closing k t).0
  unfolding cancel
  cancel-Grows env closing k t = elim (Result-cases (find_application k t)) [
    | inl (a, e) ↦ elim (Bool-cases (terminal a.state)) [
      | inl done ↦ rw (e, done) (same t t refl)
      | inr live ↦ rw (e, live) (cancel_open-Kept env closing t a).0
    ]
    | inr (f, e) ↦ rw e (same t t refl)
  ]

  pub submit_failed-Grows :
      (env : Env) (clicked : Bool) (e : Failure) (a : PreparedApplication) (t : Tables)
      → Grows t (submit_failed env clicked e a t).0
  unfolding submit_failed
  submit_failed-Grows env false e a t = save-Grows env (with_error env e a) t
  submit_failed-Grows env true e a t =
      let b = with_error env outcome_unknown a in
      (continue-Kept t b (try_advance env failed_permanent t b)
        (saved_and_thrown env outcome_unknown) (try_advance-Kept env failed_permanent t b)
        (λ u c. (save-Grows env c u, refl))).0
