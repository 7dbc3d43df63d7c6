-- ===== src/Workflow/Engine.antt =====
-- packages/workflow-engine/src/index.ts, over the states of packages/shared-contracts/src/index.ts.
pub mod Gates
use extension_jobs.Common.{ℕ, ◌==◌, Bool, List, [], ◌∷◌, any, Result, ok, guard, ◌>>◌}

pub data ApplicationState : Type 0 where
  discovered normalized deduplicated scored selected : ApplicationState
  resume_tailoring resume_review_required resume_approved application_inspecting
        application_review_required :
      ApplicationState
  approved_for_fill filling filled validating awaiting_submission_approval : ApplicationState
  submitting submitted auth_required security_challenge_required form_changed : ApplicationState
  policy_blocked failed_retryable failed_permanent cancelled rejected : ApplicationState
  preparing awaiting_review security_check_required blocked : ApplicationState

-- The position in `applicationStates`, whose names are distinct.
abbrev pub position : ApplicationState → ℕ
position discovered = 0
position normalized = 1
position deduplicated = 2
position scored = 3
position selected = 4
position resume_tailoring = 5
position resume_review_required = 6
position resume_approved = 7
position application_inspecting = 8
position application_review_required = 9
position approved_for_fill = 10
position filling = 11
position filled = 12
position validating = 13
position awaiting_submission_approval = 14
position submitting = 15
position submitted = 16
position auth_required = 17
position security_challenge_required = 18
position form_changed = 19
position policy_blocked = 20
position failed_retryable = 21
position failed_permanent = 22
position cancelled = 23
position rejected = 24
position preparing = 25
position awaiting_review = 26
position security_check_required = 27
position blocked = 28

abbrev pub state_eq : ApplicationState → ApplicationState → Bool
state_eq a b = position a == position b

-- The table has a key for every state.
unfoldable pub allowed_transitions : ApplicationState → List ApplicationState
allowed_transitions discovered = normalized ∷ scored ∷ cancelled ∷ []
allowed_transitions normalized = deduplicated ∷ cancelled ∷ []
allowed_transitions deduplicated = scored ∷ cancelled ∷ []
allowed_transitions scored = selected ∷ preparing ∷ cancelled ∷ []
allowed_transitions selected = resume_tailoring ∷ application_inspecting ∷ cancelled ∷ []
allowed_transitions resume_tailoring =
    resume_review_required ∷ failed_retryable ∷ failed_permanent ∷ cancelled ∷ []
allowed_transitions resume_review_required = resume_approved ∷ rejected ∷ cancelled ∷ []
allowed_transitions resume_approved = application_inspecting ∷ cancelled ∷ []
allowed_transitions application_inspecting =
    application_review_required ∷ auth_required ∷ security_challenge_required ∷ form_changed
    ∷ policy_blocked ∷ failed_retryable ∷ failed_permanent ∷ cancelled ∷ []
allowed_transitions application_review_required = approved_for_fill ∷ rejected ∷ cancelled ∷ []
allowed_transitions approved_for_fill = filling ∷ cancelled ∷ []
allowed_transitions filling =
    filled ∷ form_changed ∷ failed_retryable ∷ failed_permanent ∷ cancelled ∷ []
allowed_transitions filled = validating ∷ awaiting_submission_approval ∷ cancelled ∷ []
allowed_transitions validating =
    awaiting_submission_approval ∷ application_review_required ∷ form_changed ∷ failed_retryable
    ∷ failed_permanent ∷ cancelled ∷ []
allowed_transitions awaiting_submission_approval = submitting ∷ form_changed ∷ cancelled ∷ []
allowed_transitions submitting = submitted ∷ failed_permanent ∷ []
allowed_transitions submitted = []
allowed_transitions auth_required = preparing ∷ cancelled ∷ []
allowed_transitions security_challenge_required = application_inspecting ∷ cancelled ∷ []
allowed_transitions form_changed = preparing ∷ cancelled ∷ []
allowed_transitions policy_blocked = cancelled ∷ []
allowed_transitions failed_retryable = preparing ∷ cancelled ∷ []
allowed_transitions failed_permanent = []
allowed_transitions cancelled = []
allowed_transitions rejected = []
allowed_transitions preparing =
    awaiting_review ∷ auth_required ∷ security_check_required ∷ form_changed ∷ failed_retryable
    ∷ failed_permanent ∷ cancelled ∷ []
allowed_transitions awaiting_review = approved_for_fill ∷ cancelled ∷ []
allowed_transitions security_check_required = preparing ∷ cancelled ∷ []
allowed_transitions blocked = cancelled ∷ []

pub data WorkflowConflictError : Type 0 where
  workflow_state_conflict : ApplicationState → ApplicationState → WorkflowConflictError

unfoldable pub assert_workflow_transition :
    ApplicationState → ApplicationState → Result WorkflowConflictError (Unit {0})
unfolding allowed_transitions
assert_workflow_transition from to =
    guard (any (λ t. state_eq t to) (allowed_transitions from)) (workflow_state_conflict from to)

-- A sequence of transitions, each asserted before it is made.
unfoldable pub run :
    ApplicationState → List ApplicationState → Result WorkflowConflictError ApplicationState
run s [] = ok s
run s (t ∷ ts) = let rest = run t ts in assert_workflow_transition s t >> rest
