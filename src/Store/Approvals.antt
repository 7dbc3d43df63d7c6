-- ===== src/Store/Approvals.antt =====
-- `saveApprovalRequest`, `getApprovalRequest`, `listApprovalRequests`, `invalidateApprovalRequests` of
-- apps/orchestrator/src/store.ts, and the two tables that they write, with their constraints.
pub mod Expired
pub mod Fresh
use extension_jobs.Common.{
  ℕ, String, Bool, true, false, not, ◌&&◌, ◌||◌, Option, none, some, List, [], ◌∷◌, ◌++◌, map,
  str_eq, is_some, any, find, keep, update_where, map_option, if◌then◌else◌,
}

pub data ApprovalRequestStatus : Type 0 where
  pending approved rejected expired used invalidated : ApprovalRequestStatus

pub record ApprovalRequest : Type 0 where
  pub id : String
  pub application_id : String
  pub binding_hash : String
  pub nonce_hash : String
  pub status : ApprovalRequestStatus
  pub expires_at : ℕ
  pub created_at : ℕ
  pub updated_at : ℕ
  pub decided_at : Option ℕ
  pub used_at : Option ℕ

-- A row of approval_requests. The column `data` has the record as JSON.
pub record RequestRow : Type 0 where
  pub id : String
  pub application_id : String
  pub binding_hash : String
  pub status : ApprovalRequestStatus
  pub expires_at : ℕ
  pub record_data : ApprovalRequest

-- A row of submission_approvals.
pub record ApprovalRow : Type 0 where
  pub id : String
  pub application_id : String
  pub binding_hash : String
  pub token_hash : String
  pub expires_at : ℕ
  pub used_at : Option ℕ
  pub revoked_at : Option ℕ
  pub record_data : ApprovalRequest
  pub created_at : ℕ

pub record Approvals : Type 0 where
  pub requests : List RequestRow
  pub approvals : List ApprovalRow

-- INSERT INTO approval_requests … ON CONFLICT(id) DO UPDATE, which leaves application_id alone.
unfoldable pub put_request : ApprovalRequest → List RequestRow → List RequestRow
put_request a rows =
    if any (λ r. str_eq r.id a.id) rows
    then update_where (λ r. str_eq r.id a.id)
        (λ r. record r {
          binding_hash = a.binding_hash;
          status = a.status;
          expires_at = a.expires_at;
          record_data = a;
        })
        rows
    else rows
      ++ record {
        id = a.id;
        application_id = a.application_id;
        binding_hash = a.binding_hash;
        status = a.status;
        expires_at = a.expires_at;
        record_data = a;
      }
        ∷ []

-- ['rejected', 'invalidated'].includes(record.status) ? record.updatedAt : null
abbrev pub revoked : ApprovalRequest → Option ℕ
revoked a = since a.status
  where
    since : ApprovalRequestStatus → Option ℕ
    since rejected = some a.updated_at
    since invalidated = some a.updated_at
    since _ = none

abbrev pub approval_row : ApprovalRequest → ApprovalRow
approval_row a = record {
  id = a.id;
  application_id = a.application_id;
  binding_hash = a.binding_hash;
  token_hash = a.nonce_hash;
  expires_at = a.expires_at;
  used_at = a.used_at;
  revoked_at = revoked a;
  record_data = a;
  created_at = a.created_at;
}

-- WHERE used_at IS NULL AND revoked_at IS NULL, of the index one_active_submission_approval.
abbrev pub is_active : ApprovalRow → Bool
is_active r = not (is_some r.used_at) && not (is_some r.revoked_at)

-- A row that the new values of `r` cannot stand beside: the primary key aside, token_hash is unique,
-- and an application has at most one active row.
abbrev pub conflicts : ApprovalRow → ApprovalRow → Bool
conflicts r other =
    not (str_eq other.id r.id)
    && (str_eq other.token_hash r.token_hash
        || (str_eq other.application_id r.application_id && is_active other && is_active r))

-- What DO UPDATE makes of the row that is there: its application and creation stay.
abbrev pub renewed : ApprovalRequest → ApprovalRow → ApprovalRow
renewed a r = record r {
  binding_hash = a.binding_hash;
  token_hash = a.nonce_hash;
  expires_at = a.expires_at;
  used_at = a.used_at;
  revoked_at = revoked a;
  record_data = a;
}

abbrev pub put_at :
    ApprovalRequest → List ApprovalRow → Option ApprovalRow → Option (List ApprovalRow)
put_at a rows none =
    if any (conflicts (approval_row a)) rows then none else some (rows ++ approval_row a ∷ [])
put_at a rows (some r) =
    if any (conflicts (renewed a r)) rows
    then none
    else some (update_where (λ s. str_eq s.id a.id) (renewed a) rows)

-- INSERT INTO submission_approvals … ON CONFLICT(id) DO UPDATE; `none` where a constraint throws.
unfoldable pub put_approval : ApprovalRequest → List ApprovalRow → Option (List ApprovalRow)
put_approval a rows = put_at a rows (find (λ r. str_eq r.id a.id) rows)

abbrev pub with_approvals :
    List RequestRow → List ApprovalRow → Option (List ApprovalRow) → Approvals × Bool
with_approvals requests old none = (record { requests = requests; approvals = old }, false)
with_approvals requests old (some new) = (record { requests = requests; approvals = new }, true)

-- The two statements stand in no transaction: where the second throws, `false`, the first stays.
unfoldable pub save_approval_request : ApprovalRequest → Approvals → Approvals × Bool
unfolding put_request put_approval
save_approval_request a t =
    with_approvals (put_request a t.requests) t.approvals (put_approval a t.approvals)

-- { ...JSON.parse(row.data), status: row.status }
abbrev pub request_of : RequestRow → ApprovalRequest
request_of r = record r.record_data { status = r.status }

unfoldable pub get_approval_request : String → Approvals → Option ApprovalRequest
get_approval_request id t = map_option request_of (find (λ r. str_eq r.id id) t.requests)

abbrev pub status_eq : ApprovalRequestStatus → ApprovalRequestStatus → Bool
status_eq pending pending = true
status_eq approved approved = true
status_eq rejected rejected = true
status_eq expired expired = true
status_eq used used = true
status_eq invalidated invalidated = true
status_eq _ _ = false

-- ORDER BY rowid DESC
unfoldable pub newest_first {ℓ} : {A : Type ℓ} → List A → List A
newest_first [] = []
newest_first (x ∷ xs) = newest_first xs ++ x ∷ []

unfoldable pub list_approval_requests :
    Option ApprovalRequestStatus → Approvals → List ApprovalRequest
unfolding newest_first
list_approval_requests none t = map request_of (newest_first t.requests)
list_approval_requests (some s) t =
    map request_of (newest_first (keep (λ r. status_eq r.status s) t.requests))

-- status IN ('pending','approved')
abbrev pub is_open : ApprovalRequestStatus → Bool
is_open pending = true
is_open approved = true
is_open _ = false

-- `exceptBinding && record.bindingHash === exceptBinding`, of which the empty text is falsy.
abbrev pub is_excepted : Option String → ApprovalRequest → Bool
is_excepted none a = false
is_excepted (some binding) a = not (str_eq binding "") && str_eq a.binding_hash binding

-- The body of the loop for one row.
unfoldable pub invalidate_one : ℕ → Option String → RequestRow → Approvals → Approvals × Bool
unfolding save_approval_request
invalidate_one now except r t =
    if is_excepted except r.record_data
    then (t, true)
    else save_approval_request (record r.record_data { status = invalidated; updated_at = now }) t

-- The loop over the selected rows, which ends where a save throws.
unfoldable pub invalidate_each : ℕ → Option String → List RequestRow → Approvals → Approvals × Bool
unfolding invalidate_one
invalidate_each now except [] t = (t, true)
invalidate_each now except (r ∷ rs) t =
    let u = invalidate_one now except r t in
    let rest = invalidate_each now except rs u.0 in if u.1 then rest else u

unfoldable pub invalidate_approval_requests :
    ℕ → String → Option String → Approvals → Approvals × Bool
unfolding invalidate_each
invalidate_approval_requests now application_id except t =
    invalidate_each now except
      (keep (λ r. str_eq r.application_id application_id && is_open r.status) t.requests) t
