-- ===== src/Workflow/Engine/Gates.antt =====
-- What no run of the workflow engine can go round.
use extension_jobs.Common.{
  ℕ, ◌==◌, ◌≡◌, refl, ◌≢◌, ◌<◌, ltb, ◌⊎◌, inl, inr, Bool, true, false, ◌||◌, List, [], ◌∷◌, any,
  ◌≤◌, arith, ok, err, Result-cases, Bool-cases,
}
use extension_jobs.Workflow.Engine.{
  ApplicationState, discovered, approved_for_fill, filling, filled, validating,
  awaiting_submission_approval, submitting, submitted, failed_permanent, cancelled, rejected,
  workflow_state_conflict, assert_workflow_transition, run,
}

run_head :
    (s u t : ApplicationState) (ts : List ApplicationState)
    → run s (u ∷ ts) ≡ ok t
    → (assert_workflow_transition s u ≡ ok tt) × (run u ts ≡ ok t)
unfolding run
run_head s u t ts h = elim (Result-cases (assert_workflow_transition s u)) [
  | inl (tt, e) ↦ (e, rw e at h)
  | inr (x, e) ↦ cc
]

-- A set of states that is left only through the gate: a run out of it visits the gate.
module _ (inside at_gate : ApplicationState → Bool)
    (closed : (s u : ApplicationState)
      → inside s ≡ true
      → assert_workflow_transition s u ≡ ok tt
      → (at_gate u || inside u) ≡ true) where
  run-gate :
      (s t : ApplicationState) (ts : List ApplicationState)
      → inside s ≡ true
      → run s ts ≡ ok t
      → inside t ≡ false
      → any at_gate ts ≡ true
  unfolding run
  run-gate s t [] i h o = ground arith
  run-gate s t (u ∷ ts) i h o =
      let (first, rest) = run_head s u t ts h in
      elim (Bool-cases (at_gate u)) [
        | inl e ↦ rw e
        | inr e ↦ rw e (run-gate u t ts (rw e at (closed s u i first)) rest o)
      ]

-- How far a state is on the way from the review to a submission.
abbrev pub stage : ApplicationState → ℕ
stage approved_for_fill = 1
stage filling = 2
stage filled = 3
stage validating = 4
stage awaiting_submission_approval = 5
stage submitting = 6
stage submitted = 7
stage _ = 0

-- Only the stage `VALIDATING` can be left out.
stage_closed :
    (k : ℕ) (s u : ApplicationState)
    → k ≢ 4
    → ltb (stage s) k ≡ true
    → assert_workflow_transition s u ≡ ok tt
    → ((stage u == k) || ltb (stage u) k) ≡ true
unfolding assert_workflow_transition
stage_closed k discovered u n i h = ground arith
stage_closed k _ u n i h = ground arith

-- A run of accepted transitions from a state before the review's approval to `SUBMITTED` visits
-- `APPROVED_FOR_FILL`, `FILLING`, `FILLED`, `AWAITING_SUBMISSION_APPROVAL` and `SUBMITTING`:
-- neither approval can be gone round.
pub run_submitted_gates :
    (s : ApplicationState) (ts : List ApplicationState)
    → stage s ≡ 0
    → run s ts ≡ ok submitted
    → (any (λ u. stage u == 1) ts ≡ true)
      × (any (λ u. stage u == 2) ts ≡ true)
      × (any (λ u. stage u == 3) ts ≡ true)
      × (any (λ u. stage u == 5) ts ≡ true)
      × (any (λ u. stage u == 6) ts ≡ true)
run_submitted_gates s ts z h = (
  at 1 (omega arith) (omega arith) (omega arith),
  at 2 (omega arith) (omega arith) (omega arith),
  at 3 (omega arith) (omega arith) (omega arith),
  at 5 (omega arith) (omega arith) (omega arith),
  at 6 (omega arith) (omega arith) (omega arith),
)
  where
    at : (k : ℕ) → k ≢ 4 → 0 < k → k ≤ 7 → any (λ u. stage u == k) ts ≡ true
    at k n p q =
        run-gate (λ u. ltb (stage u) k) (λ u. stage u == k) (λ a b. stage_closed k a b n) s
          submitted ts (ground arith) h (ground arith)

-- Once `SUBMITTING`, an application is never moved but to `SUBMITTED` or `FAILED_PERMANENT`, and
-- from there nowhere: it is never retried and never cancelled.
pub run_submitting_final :
    (t : ApplicationState) (ts : List ApplicationState)
    → run submitting ts ≡ ok t
    → (ts ≡ []) ⊎ (ts ≡ submitted ∷ []) ⊎ (ts ≡ failed_permanent ∷ [])
unfolding run assert_workflow_transition
run_submitting_final t [] h = inl refl
run_submitting_final t (submitted ∷ []) h = inr (inl refl)
run_submitting_final t (failed_permanent ∷ []) h = inr (inr refl)
run_submitting_final t (submitted ∷ u ∷ ts) h = ground arith
run_submitting_final t (failed_permanent ∷ u ∷ ts) h = ground arith
run_submitting_final t (u ∷ ts) h = ground arith

-- Every state but `SUBMITTING` can be cancelled, or has no transition at all.
pub cancellable_or_final :
    (s : ApplicationState)
    → s ≢ submitting
    → (assert_workflow_transition s cancelled ≡ ok tt)
      ⊎ ((t : ApplicationState)
          → assert_workflow_transition s t ≡ err (workflow_state_conflict s t))
unfolding assert_workflow_transition
cancellable_or_final discovered n = inl refl
cancellable_or_final submitting n = absurd (n refl)
cancellable_or_final submitted n = inr (λ t. refl)
cancellable_or_final failed_permanent n = inr (λ t. refl)
cancellable_or_final cancelled n = inr (λ t. refl)
cancellable_or_final rejected n = inr (λ t. refl)
cancellable_or_final _ n = inl refl
