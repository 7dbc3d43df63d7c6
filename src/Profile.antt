-- ===== src/Profile.antt =====
-- The answers and the facts of a profile: packages/profile-engine/src/index.ts. The import of the text of a
-- CV and the snapshots are not modelled. A confidence is in hundredths.
mod Tests
use extension_jobs.Common.{
  ℕ, ◌<>◌, String, Bool, true, false, not, ◌||◌, Option, none, some, List, [], ◌∷◌, map, any, find,
  str_eq, ltb, ◌==◌, trim, split, contains, is_some, starts_with, map_option, get_or, Result, ok,
  err, if◌then◌else◌,
}
use Prim.Native.Char.{Char, code}
use extension_jobs.Application.{FieldAnswer}
use extension_jobs.Contracts.Resumes.{FactValue, text_value}
use extension_jobs.Domain.{
  CandidateProfile, ProfileFact, FactKind, verified_fact, approved_answer, generated_prose,
  user_edit, answer_approval,
}
use extension_jobs.Jobs.Score.{spaced, text_of_value}

-- The alternatives of the regular expressions, which ignore case.
unfoldable pub sensitive_words : List String
sensitive_words =
    "salary" ∷ "compensation" ∷ "pay" ∷ "sponsor" ∷ "visa" ∷ "work authorization"
    ∷ "legally authorized" ∷ "relocat" ∷ "background check" ∷ "disab" ∷ "demographic" ∷ "race"
    ∷ "ethnic" ∷ "gender" ∷ "security clearance" ∷ "legal declaration" ∷ "terms and conditions"
    ∷ "upload" ∷ "resume" ∷ "cv" ∷ "file" ∷ []

-- `now` and `uuid` are what the function draws; `lower_case` is `toLowerCase`.
module _ (lower_case : String → String) where
  unfoldable pub is_sensitive_field : String → Bool
  unfolding sensitive_words
  is_sensitive_field label = any (λ word. contains (lower_case label) word) sensitive_words

  -- Runs of other characters become one hyphen, and none is left at the ends.
  abbrev hyphens : String → String
  hyphens String.[] = String.[]
  hyphens (String.◌∷◌ c s) =
      let rest = hyphens s in if code c == b' ' then String.◌∷◌ "-" rest else String.◌∷◌ c rest

  unfoldable pub normalize_question : String → String
  normalize_question question = hyphens (trim (spaced (lower_case question)))

  abbrev pub supports : String → ProfileFact → Bool
  supports lower fact =
      if contains lower "email"
      then str_eq fact.path "identity.email"
      else if contains lower "phone"
      then str_eq fact.path "identity.phone"
      else if contains lower "skill"
      then starts_with fact.path "skills."
      else any (λ part. contains lower (lower_case part)) (split b'.' fact.path)

  abbrev pub answer_from : ℕ → String → String → String → Option ProfileFact → FieldAnswer
  unfolding is_sensitive_field
  answer_from now uuid label model candidate =
      let confidence = if is_some candidate then 98 else 0 in
      record {
        field_id = uuid;
        label = label;
        value = get_or (map_option (λ f. text_of_value f.value) candidate) "";
        confidence = confidence;
        supporting_fact_ids = get_or (map_option (λ f. f.id ∷ []) candidate) [];
        confirmation_required = is_sensitive_field label || ltb confidence 80;
        reason =
            if is_some candidate
            then none
            else some "No verified profile fact supports this answer";
        generated_at = now;
        model = model;
      }

  unfoldable pub prepare_answer : ℕ → String → String → CandidateProfile → String → FieldAnswer
  unfolding answer_from
  prepare_answer now uuid label profile model =
      answer_from now uuid label model (find (supports (lower_case label)) profile.facts)

  unfoldable pub approve_answer : ℕ → String → FieldAnswer → ProfileFact
  unfolding normalize_question
  approve_answer now uuid answer = record {
    id = uuid;
    path = "approvedAnswers." <> normalize_question answer.label;
    value = text_value answer.value;
    kind = approved_answer;
    source = answer_approval;
    verified_at = some now;
  }

  unfoldable pub generated_answer_cannot_verify : String → FieldAnswer → ProfileFact
  unfolding normalize_question
  generated_answer_cannot_verify uuid answer = record {
    id = uuid;
    path = "generated." <> normalize_question answer.label;
    value = text_value answer.value;
    kind = generated_prose;
    source = answer_approval;
    verified_at = none;
  }

abbrev edited : ℕ → String → FactValue → ProfileFact → ProfileFact
edited now fact_id value fact =
    if str_eq fact.id fact_id
    then record fact {
      value = value;
      kind = verified_fact;
      source = user_edit;
      verified_at = some now;
    }
    else fact

unfoldable pub update_profile_fact :
    ℕ → String → FactValue → CandidateProfile → Result String CandidateProfile
update_profile_fact now fact_id value profile =
    let facts = map (edited now fact_id value) profile.facts in
    if any (λ fact. str_eq fact.id fact_id) facts
    then ok (record profile { facts = facts; updated_at = now })
    else err "Fact not found"
