-- ===== src/Workflow.antt =====
-- The states of an application: packages/shared/src/domain.ts, and the transition table of
-- packages/shared/src/validation.ts. The engine of packages/workflow-engine is a child.
pub mod Order
mod Tests
pub mod Engine
use extension_jobs.Common.{
  ℕ, ◌==◌, Bool, true, false, ◌≡◌, Option, none, some, List, [], ◌∷◌, any, Result, ok, err, guard,
  ◌>>◌,
}

pub data ApplicationState : Type 0 where
  discovered normalized deduplicated scored selected : ApplicationState
  application_started questions_extracted answers_prepared : ApplicationState
  waiting_for_approval filling validating ready_to_submit : ApplicationState
  submitting submitted skipped rejected_by_user duplicate : ApplicationState
  auth_required captcha_required policy_blocked failed_retryable : ApplicationState
  failed_permanent cancelled security_check_required form_changed : ApplicationState

-- The position in `applicationStates`. The names there are distinct, so two states are equal
-- exactly when their positions are.
abbrev pub position : ApplicationState → ℕ
position discovered = 0
position normalized = 1
position deduplicated = 2
position scored = 3
position selected = 4
position application_started = 5
position questions_extracted = 6
position answers_prepared = 7
position waiting_for_approval = 8
position filling = 9
position validating = 10
position ready_to_submit = 11
position submitting = 12
position submitted = 13
position skipped = 14
position rejected_by_user = 15
position duplicate = 16
position auth_required = 17
position captcha_required = 18
position policy_blocked = 19
position failed_retryable = 20
position failed_permanent = 21
position cancelled = 22
position security_check_required = 23
position form_changed = 24

abbrev pub state_eq : ApplicationState → ApplicationState → Bool
state_eq a b = position a == position b

pub data ValidationError : Type 0 where
  invalid_transition : ApplicationState → ApplicationState → ValidationError

-- `none` is a state that the table has no key for.
unfoldable pub transitions : ApplicationState → Option (List ApplicationState)
transitions discovered = some (normalized ∷ skipped ∷ cancelled ∷ [])
transitions normalized = some (deduplicated ∷ duplicate ∷ cancelled ∷ [])
transitions deduplicated = some (scored ∷ cancelled ∷ [])
transitions scored = some (selected ∷ skipped ∷ cancelled ∷ [])
transitions selected = some (application_started ∷ cancelled ∷ [])
transitions application_started =
    some
      (questions_extracted ∷ auth_required ∷ captcha_required ∷ failed_retryable ∷ cancelled ∷ [])
transitions questions_extracted = some (answers_prepared ∷ cancelled ∷ [])
transitions answers_prepared = some (waiting_for_approval ∷ filling ∷ cancelled ∷ [])
transitions waiting_for_approval = some (filling ∷ rejected_by_user ∷ form_changed ∷ cancelled ∷ [])
transitions filling = some (validating ∷ form_changed ∷ failed_retryable ∷ cancelled ∷ [])
transitions validating =
    some (ready_to_submit ∷ form_changed ∷ failed_retryable ∷ failed_permanent ∷ cancelled ∷ [])
transitions ready_to_submit = some (submitting ∷ form_changed ∷ cancelled ∷ [])
transitions submitting = some (submitted ∷ failed_retryable ∷ failed_permanent ∷ cancelled ∷ [])
transitions failed_retryable = some (cancelled ∷ [])
transitions _ = none

-- `xs?.includes(s)`
abbrev pub listed : Option (List ApplicationState) → ApplicationState → Bool
listed none s = false
listed (some l) s = any (λ t. state_eq t s) l

-- The test `applicationStates.includes(from)` holds of every value of the type.
unfoldable pub assert_transition :
    ApplicationState → ApplicationState → Result ValidationError (Unit {0})
unfolding transitions
assert_transition from to = guard (listed (transitions from) to) (invalid_transition from to)

-- The states that `advance` of apps/orchestrator/src/wuzzuf-tool-service.ts moves a record through.
-- The first refused transition throws, and the record keeps the states before it.
unfoldable pub advance_state :
    ApplicationState → List ApplicationState → Result ValidationError ApplicationState
advance_state s [] = ok s
advance_state s (t ∷ ts) = let rest = advance_state t ts in assert_transition s t >> rest
