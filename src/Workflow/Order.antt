-- ===== src/Workflow/Order.antt =====
-- What the transition table of packages/shared/src/validation.ts allows: runs are short, never
-- come back to a state, and reach a submission only through the stages before it.
use mathlib.Core.Path.{fun_ext}
use extension_jobs.Common.{
  ℕ, ◌+◌, ◌≤◌, ◌<◌, ◌≡◌, refl, ◌⊎◌, inl, inr, List, [], ◌∷◌, true, false, arith, ◌==◌, any, length,
  ok, err, Result-cases, Bool-cases,
}
use extension_jobs.Workflow.{
  ApplicationState, discovered, normalized, deduplicated, scored, selected, application_started,
  questions_extracted, answers_prepared, waiting_for_approval, filling, validating, ready_to_submit,
  submitting, submitted, skipped, rejected_by_user, duplicate, auth_required, captcha_required,
  policy_blocked, failed_retryable, failed_permanent, cancelled, security_check_required,
  form_changed, invalid_transition, state_eq, assert_transition, advance_state,
}

-- How far a state is on the way from `DISCOVERED` to `SUBMITTED`; the states off that way count 0.
abbrev pub stage : ApplicationState → ℕ
stage normalized = 1
stage deduplicated = 2
stage scored = 3
stage selected = 4
stage application_started = 5
stage questions_extracted = 6
stage answers_prepared = 7
stage waiting_for_approval = 7
stage filling = 8
stage validating = 9
stage ready_to_submit = 10
stage submitting = 11
stage submitted = 12
stage _ = 0

-- A number that every accepted transition raises.
abbrev pub rank : ApplicationState → ℕ
rank discovered = 0
rank normalized = 1
rank deduplicated = 2
rank scored = 3
rank selected = 4
rank application_started = 5
rank questions_extracted = 6
rank answers_prepared = 7
rank waiting_for_approval = 8
rank filling = 9
rank validating = 10
rank ready_to_submit = 11
rank submitting = 12
rank failed_retryable = 13
rank _ = 14

step-rank : (s t : ApplicationState) → assert_transition s t ≡ ok tt → rank s < rank t
unfolding assert_transition
step-rank discovered t h = ground arith
step-rank _ t h = ground arith

step-stage : (s t : ApplicationState) → assert_transition s t ≡ ok tt → stage t ≤ stage s + 1
unfolding assert_transition
step-stage discovered t h = ground arith
step-stage _ t h = ground arith

state_ne : (s t : ApplicationState) → rank s < rank t → state_eq s t ≡ false
state_ne discovered t h = ground arith
state_ne _ t h = ground arith

filling_stage : (u : ApplicationState) → state_eq filling u ≡ (stage u == 8)
filling_stage u = ground arith

validating_stage : (u : ApplicationState) → state_eq validating u ≡ (stage u == 9)
validating_stage u = ground arith

ready_stage : (u : ApplicationState) → state_eq ready_to_submit u ≡ (stage u == 10)
ready_stage u = ground arith

submitting_stage : (u : ApplicationState) → state_eq submitting u ≡ (stage u == 11)
submitting_stage u = ground arith

-- The first step of an accepted run is accepted, and the rest is a run from there.
advance_head :
    (s u t : ApplicationState) (ts : List ApplicationState)
    → advance_state s (u ∷ ts) ≡ ok t
    → (assert_transition s u ≡ ok tt) × (advance_state u ts ≡ ok t)
unfolding advance_state
advance_head s u t ts h = elim (Result-cases (assert_transition s u)) [
  | inl (tt, e) ↦ (e, rw e at h)
  | inr (x, e) ↦ cc
]

-- An accepted run of n steps raises the rank by n at least: every run ends within 14 steps.
pub advance_state-rank :
    (s t : ApplicationState) (ts : List ApplicationState)
    → advance_state s ts ≡ ok t
    → rank s + length ts ≤ rank t
unfolding advance_state
advance_state-rank s t [] h = ground arith
advance_state-rank s t (u ∷ ts) h =
    let (first, rest) = advance_head s u t ts h in
    omega (arith, step-rank s u first, advance_state-rank u t ts rest)

rank_le : (t : ApplicationState) → rank t ≤ 14
rank_le t = ground arith

-- Whatever states the code tries to move a record through, an accepted run from any state has at
-- most 14 steps.
pub advance_state-length :
    (s t : ApplicationState) (ts : List ApplicationState)
    → advance_state s ts ≡ ok t
    → length ts ≤ 14
advance_state-length s t ts h = omega (arith, advance_state-rank s t ts h, rank_le t)

below_next : (a b k : ℕ) → a ≤ b + 1 → b < k → (a == k) ≡ false → a < k
below_next a b k p q e = ground arith

-- An accepted run passes through every stage between its ends.
advance_state_passes :
    (k : ℕ) (s t : ApplicationState) (ts : List ApplicationState)
    → advance_state s ts ≡ ok t
    → stage s < k
    → k ≤ stage t
    → any (λ u. stage u == k) ts ≡ true
unfolding advance_state
advance_state_passes k s t [] h lo hi = ground arith
advance_state_passes k s t (u ∷ ts) h lo hi =
    let (first, rest) = advance_head s u t ts h in
    elim (Bool-cases (stage u == k)) [
      | inl e ↦ rw e
      | inr e ↦ rw e (
          advance_state_passes k u t ts rest
            (below_next (stage u) (stage s) k (step-stage s u first) lo e) hi)
    ]

-- A run from `DISCOVERED` to `SUBMITTED`, whatever states it was asked to take, passes through
-- `FILLING`, `VALIDATING`, `READY_TO_SUBMIT` and `SUBMITTING`.
pub advance_state_submitted :
    (ts : List ApplicationState)
    → advance_state discovered ts ≡ ok submitted
    → (any (λ u. state_eq filling u) ts ≡ true)
      × (any (λ u. state_eq validating u) ts ≡ true)
      × (any (λ u. state_eq ready_to_submit u) ts ≡ true)
      × (any (λ u. state_eq submitting u) ts ≡ true)
advance_state_submitted ts h = (
  rw (fun_ext filling_stage) (passes 8 (omega arith) (omega arith)),
  rw (fun_ext validating_stage) (passes 9 (omega arith) (omega arith)),
  rw (fun_ext ready_stage) (passes 10 (omega arith) (omega arith)),
  rw (fun_ext submitting_stage) (passes 11 (omega arith) (omega arith)),
)
  where
    passes : (k : ℕ) → 0 < k → k ≤ 12 → any (λ u. stage u == k) ts ≡ true
    passes k p q = advance_state_passes k discovered submitted ts h p q

-- A state below in rank is not visited again.
advance_state_above :
    (r s t : ApplicationState) (ts : List ApplicationState)
    → rank r ≤ rank s
    → advance_state s ts ≡ ok t
    → any (λ u. state_eq r u) ts ≡ false
unfolding advance_state
advance_state_above r s t [] p h = refl
advance_state_above r s t (u ∷ ts) p h =
    let (first, rest) = advance_head s u t ts h in
    let up : rank r < rank u = omega (arith, step-rank s u first) in
    rw (state_ne r u up) (advance_state_above r u t ts (omega arith) rest)

-- No run comes back to the state that it left.
pub advance_state_no_return :
    (s t : ApplicationState) (ts : List ApplicationState)
    → advance_state s ts ≡ ok t
    → any (λ u. state_eq s u) ts ≡ false
advance_state_no_return s t ts h = advance_state_above s s t ts (omega arith) h

-- From every state the application can be cancelled, or nothing at all can be done with it.
pub cancel_or_stuck :
    (s : ApplicationState)
    → (assert_transition s cancelled ≡ ok tt)
      ⊎ ((t : ApplicationState) → assert_transition s t ≡ err (invalid_transition s t))
unfolding assert_transition
cancel_or_stuck discovered = inl refl
cancel_or_stuck submitted = inr (λ t. refl)
cancel_or_stuck skipped = inr (λ t. refl)
cancel_or_stuck rejected_by_user = inr (λ t. refl)
cancel_or_stuck duplicate = inr (λ t. refl)
cancel_or_stuck auth_required = inr (λ t. refl)
cancel_or_stuck captcha_required = inr (λ t. refl)
cancel_or_stuck policy_blocked = inr (λ t. refl)
cancel_or_stuck failed_permanent = inr (λ t. refl)
cancel_or_stuck cancelled = inr (λ t. refl)
cancel_or_stuck security_check_required = inr (λ t. refl)
cancel_or_stuck form_changed = inr (λ t. refl)
cancel_or_stuck _ = inl refl
