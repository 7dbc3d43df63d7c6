-- ===== src/Contracts/Forms.antt =====
-- The forms of packages/shared-contracts/src/index.ts.
use extension_jobs.Common.{ℕ, String, Bool, ◌&&◌, Option, List, leb, all, includes}
use extension_jobs.Contracts.{
  ApplicationDestination, application_destination_schema, sized, at_most, optional, array_of,
}
use extension_jobs.Contracts.Names.{canonical_field_ids}

pub data FieldType : Type 0 where
  text_field email_field tel_field number_field textarea_field : FieldType
  select_field radio_field checkbox_field file_field : FieldType

pub record CanonicalFormField : Type 0 where
  pub id : String
  pub canonical_id : String
  pub label : String
  pub type : FieldType
  pub required : Bool
  pub sensitive : Bool
  pub options : Option (List String)
  pub mapping_confidence : ℕ
  pub step : ℕ

-- `FormFingerprintSchema`
pub record FormFingerprint : Type 0 where
  pub normalized_url : String
  pub fields_hash : String
  pub submit_control_hash : String
  pub form_version : String
  pub captured_at : ℕ
  pub step_fingerprints : Option (List String)

pub record ApplicationForm : Type 0 where
  pub destination : ApplicationDestination
  pub fields : List CanonicalFormField
  pub fingerprint : FormFingerprint
  pub step_count : ℕ

unfoldable pub canonical_form_field_schema : CanonicalFormField → Bool
unfolding canonical_field_ids
canonical_form_field_schema f =
    sized 1 500 f.id
    && includes f.canonical_id canonical_field_ids
    && sized 1 1000 f.label
    && optional (array_of 500 (at_most 500)) f.options
    && leb f.mapping_confidence 100

module _ (is_url : String → Bool) where
  unfoldable pub form_fingerprint_schema : FormFingerprint → Bool
  form_fingerprint_schema f =
      is_url f.normalized_url
      && at_most 4000 f.normalized_url
      && sized 16 128 f.fields_hash
      && sized 16 128 f.submit_control_hash
      && sized 16 128 f.form_version
      && optional (all (sized 16 128)) f.step_fingerprints

  unfoldable pub application_form_schema : ApplicationForm → Bool
  unfolding application_destination_schema canonical_form_field_schema form_fingerprint_schema
  application_form_schema f =
      application_destination_schema is_url f.destination
      && array_of 500 canonical_form_field_schema f.fields
      && form_fingerprint_schema f.fingerprint
      && leb 1 f.step_count
      && leb f.step_count 100
