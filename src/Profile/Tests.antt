-- ===== src/Profile/Tests.antt =====
-- Tests of packages/profile-engine/src/index.ts.
use extension_jobs.Common.{◌≡◌, refl, true, some, [], ◌∷◌}
use extension_jobs.Contracts.Resumes.{text_value}
use extension_jobs.Domain.{CandidateProfile, verified_fact, cv_import}
use extension_jobs.Profile.{
  sensitive_words, is_sensitive_field, normalize_question, prepare_answer, answer_from,
}

abbrev profile : CandidateProfile
profile = record {
  id = "p";
  name = "n";
  facts =
      record {
        id = "f1";
        path = "identity.email";
        value = text_value "a@b.c";
        kind = verified_fact;
        source = cv_import;
        verified_at = some 1;
      }
      ∷ [];
  cv_variants = [];
  updated_at = 1;
}

email_answered : (prepare_answer (λ s. s) 2 "u" "your email" profile "m").value ≡ "a@b.c"
unfolding prepare_answer answer_from
email_answered = refl

salary_confirmed :
    (prepare_answer (λ s. s) 2 "u" "expected salary" profile "m").confirmation_required ≡ true
unfolding prepare_answer answer_from is_sensitive_field sensitive_words
salary_confirmed = refl

question : normalize_question (λ s. s) "visa, or not?" ≡ "visa-or-not"
unfolding normalize_question
question = refl
