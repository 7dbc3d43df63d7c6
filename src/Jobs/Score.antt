-- ===== src/Jobs/Score.antt =====
-- `fingerprintJob`, `normalizeJob` and `scoreJob` of packages/shared/src/jobs.ts.
pub mod Bounds
use extension_jobs.Common.{
  ℕ, zero, suc, ◌+◌, ◌-◌, ◌*◌, ◌/◌, ◌<>◌, String, Bool, true, false, not, ◌&&◌, ◌||◌, Option, none,
  some, List, [], ◌∷◌, map, ℤ, pos, negsuc, str_eq, leb, ◌==◌, length, any, keep, min, is_digit,
  is_empty, contains, trim, join, first_units, starts_with, get_or, if◌then◌else◌,
}
use Prim.Native.Char.{Char, code}
use extension_jobs.Contracts.Resumes.{FactValue, text_value, number_value, bool_value}
use extension_jobs.Domain.{
  CandidateProfile, JobCampaign, ProfileFact, Workplace, remote, hybrid, onsite,
}
use extension_jobs.Jobs.{Job, RawJob, ScoreItem}

-- What the code uses of JavaScript and Node: `toLowerCase().normalize('NFKD')`, `String(n)`, SHA-256.
pub record TextTools : Type 0 where
  pub folded : String → String
  pub number_text : ℕ → String
  pub sha256 : String → String

abbrev is_kept : ℕ → Bool
is_kept c = is_digit c || (leb b'a' c && leb c b'z')

abbrev starts_with_space : String → Bool
starts_with_space String.[] = false
starts_with_space (String.◌∷◌ c s) = code c == b' '

-- `replace(/[^a-z0-9]+/g, ' ')`
abbrev pub spaced : String → String
spaced String.[] = String.[]
spaced (String.◌∷◌ c s) =
    let rest = spaced s in
    if is_kept (code c)
    then String.◌∷◌ c rest
    else if starts_with_space rest
    then rest
    else String.◌∷◌ " " rest

-- `Math.round(whole * part / all)`, halves up.
abbrev pub rounded_share : ℕ → ℕ → ℕ → ℕ
rounded_share whole part all = (2 * whole * part + all) / (2 * all)

abbrev pub text_of_value : FactValue → String
text_of_value (text_value s) = s
text_of_value (number_value s) = s
text_of_value (bool_value true) = "true"
text_of_value (bool_value false) = "false"

abbrev pub allows_remote : List Workplace → Bool
allows_remote [] = false
allows_remote (remote ∷ ws) = true
allows_remote (hybrid ∷ ws) = allows_remote ws
allows_remote (onsite ∷ ws) = allows_remote ws

-- The gains and the losses of an explanation; their sum is clamped to 0 and 100.
abbrev pub gained : List ScoreItem → ℕ
gained [] = 0
gained (i ∷ is) = gain i.points + gained is
  where
    gain : ℤ → ℕ
    gain (pos n) = n
    gain (negsuc n) = 0

abbrev pub lost : List ScoreItem → ℕ
lost [] = 0
lost (i ∷ is) = loss i.points + lost is
  where
    loss : ℤ → ℕ
    loss (pos n) = 0
    loss (negsuc n) = suc n

abbrev pub clamped : List ScoreItem → ℕ
clamped items = min 100 (gained items - lost items)

abbrev item : String → ℤ → String → ScoreItem
item factor points reason = record { factor = factor; points = points; reason = reason }

module _ (tools : TextTools) where
  unfoldable pub clean : String → String
  clean value = trim (spaced (tools.folded value))

  unfoldable pub fingerprint_job : RawJob → String
  unfolding clean
  fingerprint_job job = tools.sha256 (
      if not (is_empty job.source_id)
      then clean job.source <> "|" <> clean job.source_id
      else join "|" (
          map clean
            (job.employer ∷ job.title ∷ job.location ∷ first_units 500 job.description ∷ [])))

  -- `uuid` is the random id.
  unfoldable pub normalize_job : String → RawJob → Job
  unfolding fingerprint_job
  normalize_job uuid raw =
      let normalized = record raw {
        title = trim raw.title;
        employer = trim raw.employer;
        location = trim raw.location;
        description = trim raw.description;
      } in
      record {
        raw = normalized;
        id = uuid;
        fingerprint = fingerprint_job normalized;
        match_score = 0;
        score_explanation = [];
      }

  abbrev pub skills_of : CandidateProfile → List String
  skills_of profile =
      map (λ f. clean (text_of_value f.value))
        (keep (λ f. starts_with f.path "skills.") profile.facts)

  abbrev pub skill_matched : List String → String → Bool
  skill_matched skills s = any (λ p. contains p (clean s) || contains (clean s) p) skills

  abbrev pub skill_points : List String → List String → ℕ
  skill_points skills [] = 20
  skill_points skills (s ∷ ss) =
      rounded_share 50 (length (keep (skill_matched skills) (s ∷ ss))) (length (s ∷ ss))

  abbrev pub is_near : RawJob → JobCampaign → Bool
  is_near job campaign =
      any (λ l. contains (clean job.location) (clean l)) campaign.locations
      || (get_or job.remote false && allows_remote campaign.workplace)

  abbrev pub described : RawJob → String → Bool
  described job keyword = contains (clean (job.title <> " " <> job.description)) (clean keyword)

  abbrev pub keyword_points : RawJob → List String → ℕ
  keyword_points job [] = 10
  keyword_points job (k ∷ ks) =
      rounded_share 20 (length (keep (described job) (k ∷ ks))) (length (k ∷ ks))

  abbrev pub fits_seniority : Option String → List String → Bool
  fits_seniority none wanted = true
  fits_seniority (some s) wanted = is_empty s || any (λ w. str_eq (clean w) (clean s)) wanted

  abbrev skill_item : List String → List String → ScoreItem
  skill_item skills required = item "required_skills" (pos (skill_points skills required)) (
      tools.number_text (length (keep (skill_matched skills) required))
      <> "/"
      <> tools.number_text (length required)
      <> " required skills matched")

  abbrev location_item : Bool → ScoreItem
  location_item near =
      item "location" (pos (if near then 20 else 0))
        (if near then "Location/workplace matched" else "Location did not match")

  abbrev keyword_item : RawJob → List String → ScoreItem
  keyword_item job included =
      item "keywords" (pos (keyword_points job included)) (
        tools.number_text (length (keep (described job) included)) <> " preferred keywords matched")

  abbrev seniority_item : Bool → ScoreItem
  seniority_item fits =
      item "seniority" (pos (if fits then 10 else 0))
        (if fits then "Seniority matched or unspecified" else "Seniority mismatch")

  abbrev pub exclusion_item : List String → ScoreItem
  exclusion_item [] = item "exclusions" (pos 0) "No excluded keywords"
  exclusion_item (k ∷ ks) = item "exclusions" (negsuc 49) ("Excluded: " <> join ", " (k ∷ ks))

  abbrev pub explanation : RawJob → CandidateProfile → JobCampaign → List ScoreItem
  explanation job profile campaign =
      skill_item (skills_of profile) (get_or job.required_skills [])
      ∷ location_item (is_near job campaign)
      ∷ keyword_item job campaign.included_keywords
      ∷ seniority_item (fits_seniority job.seniority campaign.seniority)
      ∷ exclusion_item (keep (described job) campaign.excluded_keywords)
      ∷ []

  unfoldable pub score_job : Job → CandidateProfile → JobCampaign → Job
  unfolding clean
  score_job job profile campaign =
      let items = explanation job.raw profile campaign in
      record job { match_score = clamped items; score_explanation = items }
