-- ===== src/Jobs/Score/Bounds.antt =====
-- The bounds of the score of packages/shared/src/jobs.ts.
use extension_jobs.Common.{
  ℕ, suc, ◌+◌, ◌-◌, ◌*◌, ◌/◌, ◌≤◌, ◌<◌, ◌≡◌, refl, arith, String, Bool, true, false, List, [], ◌∷◌,
  length, length-keep-le, keep, min, includes, str_eq, str_eq→eq, Bool-cases, inl, inr, get_or,
  if◌then◌else◌,
}
use native.Mathlib.Nat.{div-lt_iff_lt-mul}
use extension_jobs.Domain.{CandidateProfile, JobCampaign}
use extension_jobs.Jobs.{Job, RawJob}
use extension_jobs.Jobs.Score.{
  TextTools, rounded_share, skill_points, skill_matched, skills_of, keyword_points, described,
  exclusion_item, gained, lost, score_job, is_near, fits_seniority,
}

half_bound : (part n : ℕ) → part ≤ suc n → rounded_share 50 part (suc n) ≤ 50
half_bound part n below =
    let low : (2 * 50 * part + suc n) / (2 * suc n) < 51 =
      (div-lt_iff_lt-mul {k = 2 * suc n} {x = 2 * 50 * part + suc n} {y = 51} (omega arith)).1
        (omega arith) in
    omega arith

fifth_bound : (part n : ℕ) → part ≤ suc n → rounded_share 20 part (suc n) ≤ 20
fifth_bound part n below =
    let low : (2 * 20 * part + suc n) / (2 * suc n) < 21 =
      (div-lt_iff_lt-mul {k = 2 * suc n} {x = 2 * 20 * part + suc n} {y = 21} (omega arith)).1
        (omega arith) in
    omega arith

module _ (tools : TextTools) where
  skill_points_bound : (skills required : List String) → skill_points tools skills required ≤ 50
  skill_points_bound skills [] = omega arith
  skill_points_bound skills (s ∷ ss) =
      half_bound (length (keep (skill_matched tools skills) (s ∷ ss))) (length ss)
        (length-keep-le (skill_matched tools skills) (s ∷ ss))

  keyword_points_bound :
      (job : RawJob) (included : List String) → keyword_points tools job included ≤ 20
  keyword_points_bound job [] = omega arith
  keyword_points_bound job (k ∷ ks) =
      fifth_bound (length (keep (described tools job) (k ∷ ks))) (length ks)
        (length-keep-le (described tools job) (k ∷ ks))

  excluded_item :
      (p : String → Bool) (k : String) (ks : List String)
      → includes k ks ≡ true
      → p k ≡ true
      → (gained (exclusion_item tools (keep p ks) ∷ []) ≡ 0)
        × (lost (exclusion_item tools (keep p ks) ∷ []) ≡ 50)
  excluded_item p k [] among hit = absurd (cc)
  excluded_item p k (x ∷ ks) among hit = elim (Bool-cases (p x)) [
    | inl here ↦ (rw here refl, rw here refl)
    | inr not_here ↦ elim (Bool-cases (str_eq x k)) [
      | inl same ↦ absurd (cc (rw (str_eq→eq x k same, hit) at not_here))
      | inr other ↦
          let (g, l) = excluded_item p k ks (rw other at among) hit in
          (rw not_here g, rw not_here l)
    ]
  ]

  total_bound :
      (skill keyword gain loss : ℕ) (near fits : Bool)
      → skill ≤ 50
      → keyword ≤ 20
      → gain ≡ 0
      → loss ≡ 50
      → min 100 (
          skill
          + ((if near then 20 else 0) + (keyword + ((if fits then 10 else 0) + gain)))
          - (0 + (0 + (0 + (0 + loss)))))
        ≤ 50
  total_bound skill keyword gain loss true true hs hk hg hl = omega arith
  total_bound skill keyword gain loss true false hs hk hg hl = omega arith
  total_bound skill keyword gain loss false true hs hk hg hl = omega arith
  total_bound skill keyword gain loss false false hs hk hg hl = omega arith

  -- A job whose title or description has an excluded keyword of the campaign scores at most 50, whatever
  -- else is in its favour.
  pub score_job_excluded :
      (job : Job) (profile : CandidateProfile) (campaign : JobCampaign) (k : String)
      → includes k campaign.excluded_keywords ≡ true
      → described tools job.raw k ≡ true
      → (score_job tools job profile campaign).match_score ≤ 50
  unfolding score_job
  score_job_excluded job profile campaign k among hit =
      let (g, l) = excluded_item (described tools job.raw) k campaign.excluded_keywords among hit in
      total_bound (skill_points tools (skills_of tools profile) (get_or job.raw.required_skills []))
        (keyword_points tools job.raw campaign.included_keywords)
        (gained
          (exclusion_item tools (keep (described tools job.raw) campaign.excluded_keywords) ∷ []))
        (lost
          (exclusion_item tools (keep (described tools job.raw) campaign.excluded_keywords) ∷ []))
        (is_near tools job.raw campaign) (fits_seniority tools job.raw.seniority campaign.seniority)
        (skill_points_bound (skills_of tools profile) (get_or job.raw.required_skills []))
        (keyword_points_bound job.raw campaign.included_keywords) g l
