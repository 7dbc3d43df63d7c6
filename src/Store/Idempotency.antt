-- ===== src/Store/Idempotency.antt =====
-- `beginIdempotent`, `finishIdempotent`, `clearIdempotent` of apps/orchestrator/src/store.ts.
-- A response is the JSON text of the column.
pub mod Replay
use extension_jobs.Common.{
  ℕ, String, Bool, true, false, not, ◌&&◌, Option, none, some, List, [], ◌∷◌, ◌++◌, str_eq, find,
  update_where, delete_where, if◌then◌else◌,
}

pub data IdempotencyStatus : Type 0 where
  running succeeded failed uncertain : IdempotencyStatus

-- A row of operation_idempotency, whose key is (operation, key).
pub record Entry : Type 0 where
  pub operation : String
  pub key : String
  pub request_hash : String
  pub status : IdempotencyStatus
  pub response : Option String
  pub updated_at : ℕ

-- WHERE operation=? AND key=?
abbrev pub is_entry : String → String → Entry → Bool
is_entry operation key e = str_eq e.operation operation && str_eq e.key key

pub data Begun : Type 0 where
  started conflict : Begun
  existing : IdempotencyStatus → Option String → Begun

abbrev pub begin_at : ℕ → String → String → String → List Entry → Option Entry → List Entry × Begun
begin_at now operation key request_hash rows none = (
  rows
      ++ record {
        operation = operation;
        key = key;
        request_hash = request_hash;
        status = running;
        response = none;
        updated_at = now;
      }
        ∷ [],
  started,
)
begin_at now operation key request_hash rows (some e) = (
  rows,
  if not (str_eq e.request_hash request_hash) then conflict else existing e.status e.response,
)

unfoldable pub begin_idempotent : ℕ → String → String → String → List Entry → List Entry × Begun
begin_idempotent now operation key request_hash rows =
    begin_at now operation key request_hash rows (find (is_entry operation key) rows)

unfoldable pub finish_idempotent :
    ℕ → String → String → IdempotencyStatus → String → List Entry → List Entry
finish_idempotent now operation key status response rows =
    update_where (is_entry operation key)
      (λ e. record e { status = status; response = some response; updated_at = now }) rows

unfoldable pub clear_idempotent : String → String → List Entry → List Entry
clear_idempotent operation key rows = delete_where (is_entry operation key) rows
