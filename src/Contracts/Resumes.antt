-- ===== src/Contracts/Resumes.antt =====
-- The resumes of packages/shared-contracts/src/index.ts.
use extension_jobs.Common.{ℕ, String, Bool, ◌&&◌, Option, List, leb, ◌==◌, length, units}
use extension_jobs.Contracts.{sized, at_most, optional, array_of}

-- A number in a fact is kept as its text.
pub data FactValue : Type 0 where
  text_value number_value : String → FactValue
  bool_value : Bool → FactValue

pub data FactStatus : Type 0 where
  extracted verified rejected : FactStatus

pub record VerifiedFact : Type 0 where
  pub id : String
  pub path : String
  pub value : FactValue
  pub source_artifact_id : String
  pub source_location : Option String
  pub confidence : ℕ
  pub status : FactStatus
  pub created_at : ℕ
  pub updated_at : ℕ

pub data MediaType : Type 0 where
  application_pdf application_docx text_markdown text_plain application_json application_yaml :
      MediaType

pub record ResumeSource : Type 0 where
  pub id : String
  pub profile_id : String
  pub display_name : String
  pub media_type : MediaType
  pub sha256 : String
  pub size : ℕ
  pub approved : Bool
  pub created_at : ℕ

pub data ChangeKind : Type 0 where
  emphasize remove reorder rewrite keyword : ChangeKind

pub record TailoringChange : Type 0 where
  pub kind : ChangeKind
  pub change_section : String
  pub before : Option String
  pub after : Option String
  pub supporting_fact_ids : List String

pub record TailoredResume : Type 0 where
  pub id : String
  pub source_resume_id : String
  pub profile_snapshot_id : String
  pub job_id : String
  pub job_fingerprint : String
  pub tailoring_plan : List TailoringChange
  pub selected_fact_ids : List String
  pub generated_document_hash : String
  pub pdf_artifact_id : Option String
  pub approved : Bool
  pub created_at : ℕ

pub data ArtifactKind : Type 0 where
  resume_source resume_json resume_html resume_pdf tailoring_diff validation_report : ArtifactKind
  cover_letter : ArtifactKind

pub record Artifact : Type 0 where
  pub id : String
  pub kind : ArtifactKind
  pub media_type : String
  pub sha256 : String
  pub size : ℕ
  pub created_at : ℕ

abbrev value_fits : FactValue → Bool
value_fits (text_value s) = at_most 100000 s
value_fits (number_value n) = Bool.true
value_fits (bool_value b) = Bool.true

unfoldable pub verified_fact_schema : VerifiedFact → Bool
verified_fact_schema f =
    sized 1 100 f.id
    && sized 1 500 f.path
    && value_fits f.value
    && sized 1 100 f.source_artifact_id
    && optional (at_most 500) f.source_location
    && leb f.confidence 100

unfoldable pub resume_source_schema : ResumeSource → Bool
resume_source_schema s =
    sized 1 100 s.id
    && sized 1 100 s.profile_id
    && sized 1 500 s.display_name
    && units s.sha256 == 64
    && leb 1 s.size

abbrev ids : ℕ → List String → Bool
ids high xs = leb 1 (length xs) && array_of high (sized 1 100) xs

unfoldable pub tailoring_change_schema : TailoringChange → Bool
tailoring_change_schema c =
    sized 1 200 c.change_section
    && optional (at_most 10000) c.before
    && optional (at_most 10000) c.after
    && ids 100 c.supporting_fact_ids

unfoldable pub tailored_resume_schema : TailoredResume → Bool
unfolding tailoring_change_schema
tailored_resume_schema r =
    sized 1 100 r.id
    && sized 1 100 r.source_resume_id
    && sized 1 100 r.profile_snapshot_id
    && sized 1 100 r.job_id
    && sized 16 128 r.job_fingerprint
    && array_of 500 tailoring_change_schema r.tailoring_plan
    && ids 1000 r.selected_fact_ids
    && units r.generated_document_hash == 64
    && optional (sized 1 100) r.pdf_artifact_id

unfoldable pub artifact_schema : Artifact → Bool
artifact_schema a = sized 1 100 a.id && sized 1 200 a.media_type && units a.sha256 == 64
