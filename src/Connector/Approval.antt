-- ===== src/Connector/Approval.antt =====
-- Approvals of a submission in apps/orchestrator/src/wuzzuf-tool-service.ts:
-- `requestSubmissionApproval` inside its idempotency, `decideApproval`, `assertApproval`.
use extension_jobs.Common.{
  ℕ, ◌+◌, ◌*◌, min, max, String, Bool, true, false, not, ◌&&◌, Option, none, some, List, [], ◌∷◌,
  Result, ok, err, str_eq, get_or, leb, if◌then◌else◌,
}
use extension_jobs.Application.{PreparedApplication}
use extension_jobs.Connector.{
  Hashes, Env, Tables, Failure, tool_error, Outcome, emergency_stop, find_application, binding_hash,
  save_approval, invalidate,
}
use extension_jobs.Store.Approvals.{
  ApprovalRequest, ApprovalRequestStatus, pending, approved, rejected, expired, used, invalidated,
  status_eq, get_approval_request,
}
use extension_jobs.Workflow.{ready_to_submit, state_eq}

abbrev is_empty : List String → Bool
is_empty [] = true
is_empty (_ ∷ _) = false

-- `assertReadyForApproval`: what it throws, if anything.
unfoldable pub assert_ready_for_approval : PreparedApplication → Option Failure
assert_ready_for_approval a =
    if not (state_eq a.state ready_to_submit)
    then some (
        tool_error "WUZZUF_NOT_READY_TO_SUBMIT"
          "Application must be filled and valid before approval" 409 false)
    else if a.dry_run
    then some (
        tool_error "WUZZUF_DRY_RUN_BLOCKED" "Disable dry-run and refill before requesting approval"
          409 false)
    else if is_empty a.skipped_fields && is_empty a.validation_errors
    then none
    else some (
        tool_error "WUZZUF_REVIEW_INCOMPLETE"
          "Resolve skipped fields and validation errors before approval" 409 false)

-- `Math.max(30, Math.min(input.ttlSeconds ?? 120, 300)) * 1000`
unfoldable pub time_to_live : Option ℕ → ℕ
time_to_live seconds = max 30 (min (get_or seconds 120) 300) * 1000

-- `id` is the `randomUUID`, `nonce` the random text whose hash is stored.
unfoldable pub new_request :
    Hashes → Env → String → String → Option ℕ → PreparedApplication → ApprovalRequest
unfolding time_to_live
new_request h env id nonce seconds a = record {
  id = id;
  application_id = a.id;
  binding_hash = binding_hash h a;
  nonce_hash = h.text nonce;
  status = pending;
  expires_at = env.now + time_to_live seconds;
  created_at = env.now;
  updated_at = env.now;
  decided_at = none;
  used_at = none;
}

abbrev pub saved_as : ApprovalRequest → Outcome (Unit {0}) → Outcome ApprovalRequest
saved_as request (t, err e) = (t, err e)
saved_as request (t, ok _) = (t, ok request)

unfoldable pub request_for :
    Hashes
    → Env
    → String
    → String
    → Option ℕ
    → PreparedApplication
    → Tables
    → Outcome ApprovalRequest
unfolding assert_ready_for_approval new_request save_approval invalidate
request_for h env id nonce seconds a t = ready (assert_ready_for_approval a)
  where
    invalidated_by : Outcome (Unit {0}) → Outcome ApprovalRequest
    invalidated_by (u, err e) = (u, err e)
    invalidated_by (u, ok _) =
        let request = new_request h env id nonce seconds a in
        saved_as request (save_approval request u)

    ready : Option Failure → Outcome ApprovalRequest
    ready (some e) = (t, err e)
    ready none = invalidated_by (invalidate env a.id (some (binding_hash h a)) t)

abbrev pub request_found :
    Hashes
    → Env
    → String
    → String
    → Option ℕ
    → Tables
    → Result Failure PreparedApplication
    → Outcome ApprovalRequest
request_found h env id nonce seconds t (err e) = (t, err e)
request_found h env id nonce seconds t (ok a) = request_for h env id nonce seconds a t

-- `requestSubmissionApproval`, the function that its `idempotentSync` runs.
unfoldable pub request_submission_approval :
    Hashes → Env → String → String → Option ℕ → String → Tables → Outcome ApprovalRequest
unfolding request_for find_application
request_submission_approval h env id nonce seconds application_id t =
    if env.stopped
    then (t, err emergency_stop)
    else request_found h env id nonce seconds t (find_application application_id t)

abbrev pub approval_required : Failure
approval_required =
    tool_error "WUZZUF_APPROVAL_REQUIRED" "A current human-approved submission request is required."
      403 false

-- The status that a request is put in before an error is thrown about it.
unfoldable pub refuse_as :
    Env → ApprovalRequestStatus → Failure → ApprovalRequest → Tables → Outcome (Unit {0})
unfolding save_approval
refuse_as env status e request t =
    thrown (save_approval (record request { status = status; updated_at = env.now }) t)
  where
    thrown : Outcome (Unit {0}) → Outcome (Unit {0})
    thrown (u, err e') = (u, err e')
    thrown (u, ok _) = (u, err e)

-- The decision on a pending request that is current. An approval comes with a new token, of which
-- the hash is stored.
abbrev pub decided : Hashes → Env → Bool → String → ApprovalRequest → ApprovalRequest
decided h env agreed token request = record request {
  status = if agreed then approved else rejected;
  nonce_hash = if agreed then h.text token else request.nonce_hash;
  decided_at = some env.now;
  updated_at = env.now;
}

abbrev pub not_pending : Failure
not_pending = tool_error "WUZZUF_APPROVAL_NOT_PENDING" "Approval request is not pending" 409 false

abbrev pub approval_expired : Failure
approval_expired = tool_error "WUZZUF_APPROVAL_EXPIRED" "Approval request expired" 409 false

abbrev pub approval_invalidated : Failure
approval_invalidated =
    tool_error "WUZZUF_APPROVAL_INVALIDATED"
      "The reviewed application changed; request a new approval." 409 false

unfoldable pub decide_request :
    Hashes
    → Env
    → Bool
    → String
    → ApprovalRequest
    → PreparedApplication
    → Tables
    → Outcome (Unit {0})
unfolding refuse_as save_approval
decide_request h env agreed token request a t =
    if not (status_eq request.status pending)
    then (t, err not_pending)
    else if leb request.expires_at env.now
    then refuse_as env expired approval_expired request t
    else if not (str_eq request.binding_hash (binding_hash h a))
    then refuse_as env invalidated approval_invalidated request t
    else save_approval (decided h env agreed token request) t

abbrev pub decide_found :
    Hashes
    → Env
    → Bool
    → String
    → ApprovalRequest
    → Tables
    → Result Failure PreparedApplication
    → Outcome (Unit {0})
decide_found h env agreed token request t (err e) = (t, err e)
decide_found h env agreed token request t (ok a) = decide_request h env agreed token request a t

-- `decideApproval`; the caller gets the token of an approval.
unfoldable pub decide_approval : Hashes → Env → Bool → String → String → Tables → Outcome (Unit {0})
unfolding decide_request find_application
decide_approval h env agreed token request_id t =
    found (get_approval_request request_id t.approvals)
  where
    found : Option ApprovalRequest → Outcome (Unit {0})
    found none = (t, err approval_required)
    found (some request) =
        decide_found h env agreed token request t (find_application request.application_id t)

-- `request.applicationId !== record.id || request.status !== 'approved' || !approvalToken ||
-- !secureHashEquals(approvalToken, request.nonceHash)`, of which the empty token is falsy.
abbrev pub is_authorised : Hashes → ApprovalRequest → PreparedApplication → Option String → Bool
is_authorised h request a none = false
is_authorised h request a (some token) =
    str_eq request.application_id a.id
    && status_eq request.status approved
    && not (str_eq token "")
    && str_eq (h.text token) request.nonce_hash

abbrev pub token_expired : Failure
token_expired = tool_error "APPROVAL_EXPIRED" "Approval request expired." 403 false

abbrev pub token_invalidated : Failure
token_invalidated =
    tool_error "APPROVAL_INVALIDATED" "The application changed after approval." 409 false

-- `assertApproval`
unfoldable pub assert_approval :
    Hashes
    → Env
    → ApprovalRequest
    → PreparedApplication
    → Option String
    → Tables
    → Outcome (Unit {0})
unfolding refuse_as
assert_approval h env request a token t =
    if not (is_authorised h request a token)
    then (
      t,
      err (
          tool_error "APPROVAL_REQUIRED"
            "A valid one-use approval token from the paired extension is required." 403 false),
    )
    else if leb request.expires_at env.now
    then refuse_as env expired token_expired request t
    else if not (str_eq request.binding_hash (binding_hash h a))
    then refuse_as env invalidated token_invalidated request t
    else (t, ok tt)

-- `markApprovalUsed`
unfoldable pub mark_approval_used : Env → ApprovalRequest → Tables → Outcome (Unit {0})
unfolding save_approval
mark_approval_used env request t =
    save_approval (record request { status = used; used_at = some env.now; updated_at = env.now }) t
