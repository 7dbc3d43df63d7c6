-- ===== src/Connector/Expired.antt =====
-- An approval request that has expired, in apps/orchestrator/src/wuzzuf-tool-service.ts: no operation
-- takes its row of submission_approvals out of the way of the next request.
use extension_jobs.Common.{
  ◌≡◌, ◌∙◌, sym, ap, subst, inl, inr, String, Bool, true, false, Option, none, some, Result, ok,
  err, arith, str_eq, leb, find, find-All, Bool-cases, Option-cases, Result-cases, map_option,
  get_or,
}
use extension_jobs.Application.{PreparedApplication, advance}
use extension_jobs.Connector.{
  Hashes, Env, Tables, Failure, tool_error, save, save_approval, invalidate, Attempting, continue,
  try_advance, thrown_by, disallow, saved_and_thrown, invalidate_changed_form, binding_hash,
}
use extension_jobs.Connector.Approval.{
  decide_request, decided, refuse_as, is_authorised, assert_approval, approval_expired,
  approval_invalidated, token_expired, token_invalidated,
}
use extension_jobs.Store.Approvals.{
  ApprovalRequest, ApprovalRequestStatus, RequestRow, expired, pending, invalidated, status_eq,
  get_approval_request, request_of,
}
use extension_jobs.Store.Approvals.Expired.{Blocked, Settled, save-Blocked, invalidate-Blocked}
use extension_jobs.Workflow.{ApplicationState, form_changed}

pending_lem : (s : ApprovalRequestStatus) → status_eq s pending ≡ true → status_eq s expired ≡ false
pending_lem s h = ground (arith, h)

pub authorised_lem :
    (h : Hashes) (request : ApprovalRequest) (a : PreparedApplication) (token : Option String)
    → is_authorised h request a token ≡ true
    → status_eq request.status expired ≡ false
authorised_lem h request a token g = ground (arith, g)

module _ (id application_id : String) where
  abbrev pub Stuck : Tables → Type 0
  Stuck t = Blocked id application_id t.approvals

  pub save_approval-Stuck :
      (a : ApprovalRequest) (t : Tables)
      → str_eq a.id id ≡ false
      → Stuck t
      → Stuck (save_approval a t).0
  unfolding save_approval
  save_approval-Stuck a t n b = save-Blocked id application_id a t.approvals n b

  pub invalidate-Stuck :
      (env : Env) (k : String) (except : Option String) (t : Tables)
      → Stuck t
      → Stuck (invalidate env k except t).0
  unfolding invalidate
  invalidate-Stuck env k except t b =
      invalidate-Blocked id application_id env.now k except t.approvals b

  pub continue-Stuck :
      (s : Attempting) (next : Tables → PreparedApplication → Attempting)
      → Stuck s.tables
      → ((u : Tables) (a : PreparedApplication) → Stuck u → Stuck (next u a).tables)
      → Stuck (continue s next).tables
  unfolding continue
  continue-Stuck s next b k = elim (Option-cases s.thrown) [
    | inl n ↦ rw n (k s.tables s.application b)
    | inr (f, e) ↦ rw e b
  ]

  advance_tables :
      (env : Env) (s : ApplicationState) (t : Tables) (a : PreparedApplication)
      → (try_advance env s t a).tables ≡ t
  unfolding try_advance advance
  advance_tables env s t a = ground arith

  pub try_advance-Stuck :
      (env : Env) (s : ApplicationState) (t : Tables) (a : PreparedApplication)
      → Stuck t
      → Stuck (try_advance env s t a).tables
  try_advance-Stuck env s t a b = subst Stuck (sym (advance_tables env s t a)) b

  pub thrown_by-Stuck :
      (r : Result Failure (Unit {0})) (t : Tables) (a : PreparedApplication)
      → Stuck t
      → Stuck (thrown_by r t a).tables
  unfolding thrown_by
  thrown_by-Stuck (ok _) t a b = b
  thrown_by-Stuck (err e) t a b = b

  pub disallow-Stuck :
      (env : Env) (t : Tables) (a : PreparedApplication) → Stuck t → Stuck (disallow env t a).tables
  unfolding disallow
  disallow-Stuck env t a b =
      let c = record a { submission_allowed = false } in
      let u = invalidate env c.id none t in
      thrown_by-Stuck u.1 u.0 c (invalidate-Stuck env c.id none t b)

  pub changed_form-Stuck :
      (env : Env) (code message : String) (t : Tables) (a : PreparedApplication)
      → Stuck t
      → Stuck (invalidate_changed_form env code message t a).tables
  unfolding invalidate_changed_form save
  changed_form-Stuck env code message t a b =
      let moved = try_advance env form_changed t a in
      continue-Stuck (continue moved (disallow env))
        (saved_and_thrown env (tool_error code message 409 false))
        (continue-Stuck moved (disallow env) (try_advance-Stuck env form_changed t a b)
          (disallow-Stuck env))
        (λ u c k. k)

  -- A request that is found and has not expired is another one.
  pub found_other :
      (k : String) (t : Tables) {request : ApprovalRequest}
      → Stuck t
      → get_approval_request k t.approvals ≡ some request
      → status_eq request.status expired ≡ false
      → str_eq request.id id ≡ false
  unfolding get_approval_request
  found_other k t {request} b e n =
      elim (Option-cases (find (λ r. str_eq r.id k) t.approvals.requests)) [
        | inl none_found ↦ ground (arith, e, none_found)
        | inr (row, x) ↦
            let same : request_of row ≡ request =
              ap (λ o. get_or o request) (sym (ap (map_option request_of) x) ∙ e) in
            let settled : Settled id application_id row =
              find-All (Settled id application_id) (λ r. str_eq r.id k) t.approvals.requests
                b.requests x in
            subst (λ r. str_eq r.id id ≡ false) same
              (row_other row settled (subst (λ r. status_eq r.status expired ≡ false) (sym same) n))
      ]
    where
      row_other :
          (row : RequestRow)
          → Settled id application_id row
          → status_eq row.status expired ≡ false
          → str_eq row.record_data.id id ≡ false
      row_other row s m = elim (Bool-cases (str_eq row.record_data.id id)) [
        | inl own ↦ ground (arith, m, s.1 (subst (λ k. str_eq k id ≡ true) s.0 own))
        | inr other ↦ other
      ]

  refuse_as-Stuck :
      (env : Env) (status : ApprovalRequestStatus) (e : Failure) (request : ApprovalRequest)
      (t : Tables)
      → str_eq request.id id ≡ false
      → Stuck t
      → Stuck (refuse_as env status e request t).0
  unfolding refuse_as
  refuse_as-Stuck env status e request t n b =
      let u = save_approval (record request { status = status; updated_at = env.now }) t in
      let k : Stuck u.0 =
        save_approval-Stuck (record request { status = status; updated_at = env.now }) t n b in
      elim (Result-cases u.1) [ inl (_, r) ↦ rw r k | inr (x, r) ↦ rw r k ]

  pub decide_request-Stuck :
      (h : Hashes) (env : Env) (agreed : Bool) (token : String) (request : ApprovalRequest)
      (a : PreparedApplication) (t : Tables)
      → (status_eq request.status expired ≡ false → str_eq request.id id ≡ false)
      → Stuck t
      → Stuck (decide_request h env agreed token request a t).0
  unfolding decide_request
  decide_request-Stuck h env agreed token request a t other b =
      let late = leb request.expires_at env.now in
      let bound = str_eq request.binding_hash (binding_hash h a) in
      elim (Bool-cases (status_eq request.status pending)) [
        | inr closed ↦ rw closed b
        | inl live ↦
            let n : str_eq request.id id ≡ false = other (pending_lem request.status live) in
            elim (Bool-cases late) [
              | inl l ↦ rw (live, l) (refuse_as-Stuck env expired approval_expired request t n b)
              | inr l ↦ elim (Bool-cases bound) [
                | inl c ↦
                    rw (live, l, c) (save_approval-Stuck (decided h env agreed token request) t n b)
                | inr c ↦
                    rw (live, l, c)
                      (refuse_as-Stuck env invalidated approval_invalidated request t n b)
              ]
            ]
      ]

  pub assert_approval-Stuck :
      (h : Hashes) (env : Env) (request : ApprovalRequest) (a : PreparedApplication)
      (token : Option String) (t : Tables)
      → (status_eq request.status expired ≡ false → str_eq request.id id ≡ false)
      → Stuck t
      → Stuck (assert_approval h env request a token t).0
  unfolding assert_approval
  assert_approval-Stuck h env request a token t other b =
      elim (Bool-cases (is_authorised h request a token)) [
        | inr closed ↦ rw closed b
        | inl live ↦
            let n : str_eq request.id id ≡ false = other (authorised_lem h request a token live) in
            elim (Bool-cases (leb request.expires_at env.now)) [
              | inl l ↦ rw (live, l) (refuse_as-Stuck env expired token_expired request t n b)
              | inr l ↦ elim (Bool-cases (str_eq request.binding_hash (binding_hash h a))) [
                | inl c ↦ rw (live, l, c) b
                | inr c ↦
                    rw (live, l, c)
                      (refuse_as-Stuck env invalidated token_invalidated request t n b)
              ]
            ]
      ]
