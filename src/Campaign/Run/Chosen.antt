-- ===== src/Campaign/Run/Chosen.antt =====
-- The jobs that a run of a campaign selects: apps/orchestrator/src/service.ts.
use native.Mathlib.Nat.{mul-le-mul_right}
use extension_jobs.Common.{
  ℕ, suc, ◌≤◌, ◌≡◌, ◌∙◌, ap, inl, inr, String, true, false, none, some, List, [], arith, leb,
  str_eq, eq_iff, any, map_option, All, All-map, find_by-none, Result, ok, err, Bool-cases,
}
use extension_jobs.Campaign.Setting.{RunError, RunResult, Selected, is_research}
use extension_jobs.Campaign.{RunRow}
use extension_jobs.Campaign.Run.Rows.{row_of}
use extension_jobs.Domain.{JobCampaign}
use extension_jobs.Json.{Number, no_more, denominator}
use extension_jobs.Workflow.{waiting_for_approval}

-- A job that may be selected, and whose application waits for an approval.
abbrev pub IsChosen : JobCampaign → List RunRow → Selected → Type 0
IsChosen campaign rows a =
    (no_more a.job.match_score campaign.minimum_match_score ≡ true)
    × (is_research campaign.execution_mode ≡ false)
    × (map_option (λ r. r.state) (row_of a.id rows) ≡ some waiting_for_approval)

abbrev pub chosen_of : Result RunError RunResult → List Selected
chosen_of (ok r) = r.applications
chosen_of (err _) = []

absent_id :
    (a_id id : String) (rows : List RunRow)
    → map_option (λ r. r.state) (row_of a_id rows) ≡ some waiting_for_approval
    → any (λ r. str_eq r.id id) rows ≡ false
    → str_eq a_id id ≡ false
absent_id a_id id rows h fresh = elim (Bool-cases (str_eq a_id id)) [
  | inr other ↦ other
  | inl same ↦
      let here : a_id ≡ id = ground (arith, eq_iff a_id id, same) in
      let gone : row_of a_id rows ≡ none = rw here (find_by-none (λ r. r.id) id rows fresh) in
      absurd (cc (rw gone at h))
]

pub others-IsChosen :
    (campaign : JobCampaign) (id : String) (rows after : List RunRow) (chosen : List Selected)
    → any (λ r. str_eq r.id id) rows ≡ false
    → ((k : String) → str_eq k id ≡ false → row_of k after ≡ row_of k rows)
    → All (IsChosen campaign rows) chosen
    → All (IsChosen campaign after) chosen
others-IsChosen campaign id rows after chosen fresh others h =
    All-map chosen
      (λ a. λ fits. (
        fits.0,
        fits.1,
        ap (λ o. map_option (λ r. r.state) o) (others a.id (absent_id a.id id rows fits.2 fresh))
            ∙ fits.2,
      ))
      h

pub room_left :
    (k most : ℕ) (n : Number) → no_more k n ≡ false → no_more most n ≡ true → suc k ≤ most
room_left k most n below above = elim (Bool-cases (leb (suc k) most)) [
  | inl fits ↦ ground (arith, fits)
  | inr over ↦
      let fewer : most ≤ k = ground (arith, over) in
      absurd (ground (arith, below, above, mul-le-mul_right (denominator n) fewer))
]
