-- ===== src/Dashboard/Campaigns/Limits.antt =====
-- The limits of a campaign that `campaignFrom` of apps/orchestrator/src/dashboard-api.ts accepts.
use extension_jobs.Common.{
  ℕ, List, String, true, ◌&&◌, Option, none, some, ◌≡◌, ◌≢◌, refl, sym, subst, ap, ok, err, ◌>>=◌,
  ok_injective, ok_not_err, inl, inr, and_left, and_right, Bool-cases, if◌then◌else◌,
}
use extension_jobs.Json.{Json, Number, Members, field, whole, at_least, no_more}
use extension_jobs.Domain.{JobCampaign, ExecutionMode, auto_submit}
use extension_jobs.Dashboard.{Attempt, Platform}
use extension_jobs.Dashboard.Values.{bounded, in_range, is_missing, read_number}
use extension_jobs.Dashboard.Campaigns.{
  CampaignTexts, CampaignLimits, CampaignAgent, texts_of, limits_of, agent_of, assemble,
  campaign_from, stored_mode,
}

abbrev pub Within : ℕ → ℕ → Number → Type 0
Within low high n = (at_least low n ≡ true) × (no_more high n ≡ true)

-- A number that `bounded` returns is in its range, if the fallback is.
in_range-Within :
    (o : Option Number) (low high : ℕ) {n : Number} → in_range low high o ≡ ok n → Within low high n
in_range-Within none low high {n} e = absurd (ok_not_err (sym e))
in_range-Within (some m) low high {n} e = elim (Bool-cases (at_least low m && no_more high m)) [
  | inr outside ↦ absurd (ok_not_err (sym (rw outside at e)))
  | inl inside ↦
      subst (λ k. Within low high k) (ok_injective (rw inside at e))
        (
          and_left (at_least low m) (no_more high m) inside,
          and_right (at_least low m) (no_more high m) inside,
        )
]

pub bounded-Within :
    (value : Option Json) (low high fallback : ℕ) {n : Number}
    → bounded value low high fallback ≡ ok n
    → Within low high n
unfolding bounded
bounded-Within value low high fallback {n} e =
    in_range-Within (if is_missing value then some (whole fallback) else read_number value) low high
      e

-- What a successful chain of four steps has read.
four_steps :
    (m : Attempt Number) (ss : Attempt (List String)) (r d : Attempt Number) {l : CampaignLimits}
    → (m >>= λ minimum. ss >>= λ sites. r >>= λ per_run. d >>= λ per_day.
        ok (record { minimum = minimum; sites = sites; per_run = per_run; per_day = per_day }))
      ≡ ok l
    → (m ≡ ok l.minimum) × (r ≡ ok l.per_run) × (d ≡ ok l.per_day)
four_steps (ok a) (ok b) (ok c) (ok d) {l} e =
    let same = ok_injective e in
    (ap (λ k. ok k.minimum) same, ap (λ k. ok k.per_run) same, ap (λ k. ok k.per_day) same)
four_steps (err x) b c d {l} e = absurd (ok_not_err (sym e))
four_steps (ok a) (err x) c d {l} e = absurd (ok_not_err (sym e))
four_steps (ok a) (ok b) (err x) d {l} e = absurd (ok_not_err (sym e))
four_steps (ok a) (ok b) (ok c) (err x) {l} e = absurd (ok_not_err (sym e))

LimitsHold : JobCampaign → Type 0
LimitsHold campaign =
    Within 0 100 campaign.minimum_match_score
    × Within 1 100 campaign.max_applications_per_run
    × Within 1 200 campaign.max_applications_per_day
    × campaign.execution_mode ≢ auto_submit

limits_of-Within :
    (body : Members) {l : CampaignLimits}
    → limits_of body ≡ ok l
    → Within 0 100 l.minimum × Within 1 100 l.per_run × Within 1 200 l.per_day
unfolding limits_of
limits_of-Within body {l} e =
    let (minimum, per_run, per_day) =
      four_steps (bounded (field "minimumMatchScore" body) 0 100 70) _
        (bounded (field "maxApplicationsPerRun" body) 1 100 10)
        (bounded (field "maxApplicationsPerDay" body) 1 200 20) {l = l} e in
    (
      bounded-Within _ 0 100 70 minimum,
      bounded-Within _ 1 100 10 per_run,
      bounded-Within _ 1 200 20 per_day,
    )

not_auto : (mode : ExecutionMode) → stored_mode true mode ≢ auto_submit
not_auto ExecutionMode.research_only = cc
not_auto ExecutionMode.prepare_and_review = cc
not_auto ExecutionMode.auto_submit = cc

-- A campaign that `campaignFrom` accepts for storing has a minimal score of at most 100, 1 to 100
-- applications a run and 1 to 200 a day, and never submits by itself, whatever the body.
pub campaign_from-Within :
    (platform : Platform) (now uuid : String) (body : Members) {campaign : JobCampaign}
    → campaign_from platform now uuid body true ≡ ok campaign
    → Within 0 100 campaign.minimum_match_score
      × Within 1 100 campaign.max_applications_per_run
      × Within 1 200 campaign.max_applications_per_day
      × campaign.execution_mode ≢ auto_submit
unfolding campaign_from LimitsHold
campaign_from-Within platform now uuid body {campaign} e =
    steps (texts_of uuid body) (limits_of body) (agent_of platform body) refl e
  where
    steps :
        (t : Attempt CampaignTexts) (l : Attempt CampaignLimits) (a : Attempt CampaignAgent)
        → limits_of body ≡ l
        → (t >>= λ t. l >>= λ l. a >>= λ a. ok (assemble now body true t l a)) ≡ ok campaign
        → LimitsHold campaign
    steps (ok t) (ok l) (ok a) read e =
        let (minimum, per_run, per_day) = limits_of-Within body read in
        subst LimitsHold (ok_injective e) (minimum, per_run, per_day, not_auto t.mode)
    steps (err x) l a read e = absurd (ok_not_err (sym e))
    steps (ok t) (err x) a read e = absurd (ok_not_err (sym e))
    steps (ok t) (ok l) (err x) read e = absurd (ok_not_err (sym e))
