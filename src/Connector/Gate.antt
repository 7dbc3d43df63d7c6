-- ===== src/Connector/Gate.antt =====
-- What a submission of apps/orchestrator/src/wuzzuf-tool-service.ts must have shown before it reads
-- the form, and before it clicks.
use extension_jobs.Common.{
  ◌<◌, ◌≡◌, refl, sym, ap, subst, inl, inr, String, Bool, true, false, Option, none, some, Result,
  ok, err, arith, str_eq→eq, Bool-cases, Option-cases, if◌then◌else◌,
}
use extension_jobs.Application.{PreparedApplication, SubmissionResult}
use extension_jobs.Connector.{
  Hashes, Env, Tables, Failure, Outcome, emergency_stop, find_application, binding_hash,
  save_approval,
}
use extension_jobs.Connector.Approval.{is_authorised, assert_approval, refuse_as}
use extension_jobs.Connector.Submit.{
  SubmitInput, Flight, Progress, thrown, waiting, submit_failed, submit_asserted, submit_approve,
  submit_locked, submit_found, submit_begin, submit_unrefused, submit_unsubmitted, refusal,
  lock_key,
}
use extension_jobs.Store.Approvals.{ApprovalRequest, get_approval_request}
use extension_jobs.Store.Locks.{acquire_lock}
use extension_jobs.Workflow.{ApplicationState, ready_to_submit, state_eq}

abbrev flight_of : Flight → Progress → Flight
flight_of f (waiting g) = g
flight_of f _ = f

-- The approval that a call goes on with is the one it names, and is good at that time for what the
-- record then says.
pub record Approved (h : Hashes) (env : Env) (input : SubmitInput) (t : Tables) (f : Flight)
    : Type 0 where
  pub found : get_approval_request input.approval_request_id t.approvals ≡ some f.approval
  pub authorised : is_authorised h f.approval f.application input.approval_token ≡ true
  pub current : env.now < f.approval.expires_at
  pub bound : f.approval.binding_hash ≡ binding_hash h f.application

asserted_lem :
    (h : Hashes) (env : Env) (request : ApprovalRequest) (a : PreparedApplication)
    (token : Option String) (t : Tables)
    → (assert_approval h env request a token t).1 ≡ ok tt
    → (is_authorised h request a token ≡ true)
      × (env.now < request.expires_at)
      × (request.binding_hash ≡ binding_hash h a)
unfolding assert_approval refuse_as save_approval
asserted_lem h env request a token t e =
    ground (arith, str_eq→eq request.binding_hash (binding_hash h a))

pub failed_waits :
    {A : Type 0} (env : Env) (e : Failure) (a : PreparedApplication) (t : Tables) (f : Flight)
    → (submit_failed env false e a t).1 ≡ waiting f
    → A
unfolding submit_failed
failed_waits env e a t f w = ground arith

asserted_waits :
    (env : Env) (a : PreparedApplication) (request : ApprovalRequest) (o : Outcome (Unit {0}))
    (f : Flight)
    → (submit_asserted env a request o).1 ≡ waiting f
    → (o.1 ≡ ok tt) × (record { application = a; approval = request } ≡ f)
asserted_waits env a request (t, ok _) f w = (refl, ap (flight_of f) w)
asserted_waits env a request (t, err e) f w = failed_waits env e a t f w

approve_waits :
    (h : Hashes) (env : Env) (input : SubmitInput) (a : PreparedApplication) (t : Tables)
    (f : Flight)
    → (submit_approve h env input a t).1 ≡ waiting f
    → (f.application ≡ a) × Approved h env input t f
unfolding submit_approve
approve_waits h env input a t f =
    elim (Option-cases (get_approval_request input.approval_request_id t.approvals)) [
      | inl n ↦ rw n (λ w. failed_waits env _ a t f w)
      | inr (request, e) ↦ rw e (λ w.
          let o = assert_approval h env request a input.approval_token t in
          let (done, same) = asserted_waits env a request o f w in
          let (authorised, current, bound) =
            asserted_lem h env request a input.approval_token t done in
          subst (λ g. (g.application ≡ a) × Approved h env input t g) same
            (refl, record { found = e; authorised = authorised; current = current; bound = bound }))
    ]

-- What a record has shown before its submission takes the lock, and the lock.
pub record Ready (env : Env) (t : Tables) (a : PreparedApplication) : Type 0 where
  pub ready : a.state ≡ ready_to_submit
  pub real : a.dry_run ≡ false
  pub lock : (acquire_lock env.now env.lease env.owner (lock_key a) t.locks).1 ≡ true

is_ready : (s : ApplicationState) → state_eq s ready_to_submit ≡ true → s ≡ ready_to_submit
is_ready s e = ground (arith, e)

not_refused :
    (a : PreparedApplication) → refusal a ≡ none → (a.state ≡ ready_to_submit) × (a.dry_run ≡ false)
not_refused a e = ground (arith, is_ready a.state)

locked_waits :
    (h : Hashes) (env : Env) (input : SubmitInput) (a : PreparedApplication) (t : Tables)
    (f : Flight)
    → refusal a ≡ none
    → (submit_locked h env input a t).1 ≡ waiting f
    → (f.application ≡ a) × Ready env t f.application × Approved h env input t f
unfolding submit_locked
locked_waits h env input a t f r =
    let (locks, got) = acquire_lock env.now env.lease env.owner (lock_key a) t.locks in
    elim (Bool-cases got) [
      | inl won ↦ rw won (λ w.
          let (same, approved) = approve_waits h env input a (record t { locks = locks }) f w in
          let (ready, real) = not_refused a r in
          (
            same,
            subst (λ b. Ready env t b) (sym same)
                (record { ready = ready; real = real; lock = won }),
            record {
              found = approved.found;
              authorised = approved.authorised;
              current = approved.current;
              bound = approved.bound;
            },
          ))
      | inr lost ↦ rw lost (λ w. ground (arith, w))
    ]

unrefused_waits :
    (h : Hashes) (env : Env) (input : SubmitInput) (a : PreparedApplication) (t : Tables)
    (f : Flight) (o : Option Failure)
    → o ≡ refusal a
    → (submit_unrefused h env input a t o).1 ≡ waiting f
    → (f.application ≡ a) × Ready env t f.application × Approved h env input t f
unrefused_waits h env input a t f none e w = locked_waits h env input a t f (sym e) w
unrefused_waits h env input a t f (some x) e w = ground (arith, w)

unsubmitted_waits :
    (h : Hashes) (env : Env) (input : SubmitInput) (a : PreparedApplication) (t : Tables)
    (f : Flight) (o : Option SubmissionResult)
    → (submit_unsubmitted h env input a t o).1 ≡ waiting f
    → (submit_unrefused h env input a t (refusal a)).1 ≡ waiting f
unsubmitted_waits h env input a t f none w = w
unsubmitted_waits h env input a t f (some r) w = ground (arith, w)

found_waits :
    (h : Hashes) (env : Env) (input : SubmitInput) (t : Tables) (f : Flight)
    (r : Result Failure PreparedApplication)
    → (submit_found h env input t r).1 ≡ waiting f
    → (r ≡ ok f.application) × Ready env t f.application × Approved h env input t f
found_waits h env input t f (err e) w = ground (arith, w)
found_waits h env input t f (ok a) w =
    let (same, ready, approved) =
      unrefused_waits h env input a t f (refusal a) refl
        (unsubmitted_waits h env input a t f a.submission_result w) in
    (ap ok (sym same), ready, approved)

running_waits :
    (b : Bool) (t : Tables) (e : Failure) (o : Tables × Progress) (f : Flight)
    → (if b then (t, thrown e) else o).1 ≡ waiting f
    → (b ≡ false) × (o.1 ≡ waiting f)
running_waits true t e o f w = ground (arith, w)
running_waits false t e o f w = (refl, w)

-- A submission reads the form only if the emergency stop is off, the application is ready and no
-- dry run, nobody else holds its lock, and the request that the caller names is approved for it,
-- carries the caller's token, has not expired, and is bound to what the record says now.
pub begin_waits :
    (h : Hashes) (env : Env) (input : SubmitInput) (t : Tables) (f : Flight)
    → (submit_begin h env input t).1 ≡ waiting f
    → (env.stopped ≡ false)
      × (find_application input.application_id t ≡ ok f.application)
      × Ready env t f.application
      × Approved h env input t f
unfolding submit_begin
begin_waits h env input t f w =
    let found = find_application input.application_id t in
    let (on, begun) =
      running_waits env.stopped t emergency_stop (submit_found h env input t found) f w in
    let (record_found, ready, approved) = found_waits h env input t f found begun in
    (on, record_found, ready, approved)
