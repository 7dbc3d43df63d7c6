-- ===== src/Workflow/Tests.antt =====
-- Tests of the two transition tables, and the theorems about them at concrete runs.
use extension_jobs.Common.{
  ◌≤◌, ◌≡◌, refl, ◌⊎◌, ◌==◌, true, false, List, [], ◌∷◌, any, length, ok, err,
}
use extension_jobs.Workflow.{
  ApplicationState, discovered, normalized, deduplicated, scored, selected, application_started,
  questions_extracted, answers_prepared, waiting_for_approval, filling, validating, ready_to_submit,
  submitting, submitted, cancelled, form_changed, invalid_transition, state_eq, assert_transition,
  advance_state,
}
use extension_jobs.Workflow.Order.{
  advance_state-length, advance_state_submitted, advance_state_no_return, cancel_or_stuck,
}
use extension_jobs.Workflow.Engine
use extension_jobs.Workflow.Engine.Gates.{
  stage, run_submitted_gates, run_submitting_final, cancellable_or_final,
}

abbrev to_submitted : List ApplicationState
to_submitted =
    normalized ∷ deduplicated ∷ scored ∷ selected ∷ application_started ∷ questions_extracted
    ∷ answers_prepared ∷ waiting_for_approval ∷ filling ∷ validating ∷ ready_to_submit ∷ submitting
    ∷ submitted ∷ []

runs_to_submitted : advance_state discovered to_submitted ≡ ok submitted
unfolding advance_state assert_transition
runs_to_submitted = refl

ready_not_refilled :
    advance_state ready_to_submit (filling ∷ []) ≡ err (invalid_transition ready_to_submit filling)
unfolding advance_state assert_transition
ready_not_refilled = refl

advance_state-length_at : length to_submitted ≤ 14
advance_state-length_at = advance_state-length discovered submitted to_submitted runs_to_submitted

advance_state_submitted_example :
    (any (λ u. state_eq filling u) to_submitted ≡ true)
    × (any (λ u. state_eq validating u) to_submitted ≡ true)
    × (any (λ u. state_eq ready_to_submit u) to_submitted ≡ true)
    × (any (λ u. state_eq submitting u) to_submitted ≡ true)
advance_state_submitted_example = advance_state_submitted to_submitted runs_to_submitted

no_return_to_discovered : any (λ u. state_eq discovered u) to_submitted ≡ false
no_return_to_discovered =
    advance_state_no_return discovered submitted to_submitted runs_to_submitted

cancel_or_stuck_example :
    (assert_transition form_changed cancelled ≡ ok tt)
    ⊎ ((t : ApplicationState)
        → assert_transition form_changed t ≡ err (invalid_transition form_changed t))
cancel_or_stuck_example = cancel_or_stuck form_changed

abbrev engine_run : List Engine.ApplicationState
engine_run =
    Engine.preparing ∷ Engine.awaiting_review ∷ Engine.approved_for_fill ∷ Engine.filling
    ∷ Engine.filled ∷ Engine.awaiting_submission_approval ∷ Engine.submitting ∷ Engine.submitted
    ∷ []

engine_runs : Engine.run Engine.scored engine_run ≡ ok Engine.submitted
unfolding Engine.run Engine.assert_workflow_transition
engine_runs = refl

run_submitted_gates_at :
    (any (λ u. stage u == 1) engine_run ≡ true)
    × (any (λ u. stage u == 2) engine_run ≡ true)
    × (any (λ u. stage u == 3) engine_run ≡ true)
    × (any (λ u. stage u == 5) engine_run ≡ true)
    × (any (λ u. stage u == 6) engine_run ≡ true)
run_submitted_gates_at = run_submitted_gates Engine.scored engine_run refl engine_runs

engine_submits : Engine.run Engine.submitting (Engine.submitted ∷ []) ≡ ok Engine.submitted
unfolding Engine.run Engine.assert_workflow_transition
engine_submits = refl

submitting_to_submitted :
    (Engine.submitted ∷ [] ≡ [])
    ⊎ (Engine.submitted ∷ [] ≡ Engine.submitted ∷ [])
    ⊎ (Engine.submitted ∷ [] ≡ Engine.failed_permanent ∷ [])
submitting_to_submitted =
    run_submitting_final Engine.submitted (Engine.submitted ∷ []) engine_submits

changed_cancellable :
    (Engine.assert_workflow_transition Engine.form_changed Engine.cancelled ≡ ok tt)
    ⊎ ((t : Engine.ApplicationState)
        → Engine.assert_workflow_transition Engine.form_changed t
          ≡ err (Engine.workflow_state_conflict Engine.form_changed t))
changed_cancellable = cancellable_or_final Engine.form_changed λ e. cc
