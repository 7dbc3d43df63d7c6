-- ===== src/Contracts/Names.antt =====
-- The lists of names of packages/shared-contracts/src/index.ts.
use extension_jobs.Common.{String, Bool, List, [], ◌∷◌, includes, ◌&&◌}
use extension_jobs.Contracts.{ToolError, sized, at_most, optional}

unfoldable pub error_codes : List String
error_codes =
    "AUTHENTICATION_REQUIRED" ∷ "BROWSER_NOT_CONNECTED" ∷ "CONNECTOR_DISABLED"
    ∷ "AUTOMATION_NOT_PERMITTED" ∷ "SECURITY_CHALLENGE_DETECTED" ∷ "JOB_NOT_FOUND"
    ∷ "PROFILE_INCOMPLETE" ∷ "RESUME_NOT_SELECTED" ∷ "RESUME_NOT_APPROVED"
    ∷ "RESUME_TAILORING_REVIEW_REQUIRED" ∷ "RESUME_FACT_VALIDATION_FAILED"
    ∷ "APPLICATION_INPUT_REQUIRED" ∷ "APPLICATION_CHANGED_AFTER_REVIEW" ∷ "FORM_CHANGED"
    ∷ "APPROVAL_REQUIRED" ∷ "APPROVAL_EXPIRED" ∷ "APPROVAL_INVALID" ∷ "APPROVAL_ALREADY_USED"
    ∷ "APPROVAL_INVALIDATED" ∷ "DUPLICATE_APPLICATION" ∷ "DUPLICATE_SUBMISSION_PREVENTED"
    ∷ "SUBMISSION_IN_PROGRESS" ∷ "SUBMISSION_VERIFICATION_REQUIRED" ∷ "CAMPAIGN_PAUSED"
    ∷ "DAILY_LIMIT_REACHED" ∷ "EMERGENCY_STOP_ACTIVE" ∷ "RATE_LIMITED" ∷ "OPERATION_CANCELLED"
    ∷ "WORKFLOW_STATE_CONFLICT" ∷ "INTERNAL_ERROR" ∷ "AUTH_REQUIRED" ∷ "SECURITY_CHECK_REQUIRED"
    ∷ "APPLICATION_NOT_SUPPORTED" ∷ "BROWSER_UNAVAILABLE" ∷ "ORCHESTRATOR_UNAVAILABLE"
    ∷ "VALIDATION_ERROR" ∷ []

unfoldable pub canonical_field_ids : List String
canonical_field_ids =
    "identity.first_name" ∷ "identity.middle_name" ∷ "identity.last_name" ∷ "identity.full_name"
    ∷ "contact.email" ∷ "contact.phone" ∷ "contact.address" ∷ "contact.city" ∷ "contact.region"
    ∷ "contact.postal_code" ∷ "contact.country" ∷ "employment.current_company"
    ∷ "employment.current_title" ∷ "employment.years_experience" ∷ "employment.notice_period"
    ∷ "education.highest_level" ∷ "education.school" ∷ "education.degree" ∷ "education.field"
    ∷ "links.linkedin" ∷ "links.github" ∷ "links.portfolio" ∷ "links.website" ∷ "application.resume"
    ∷ "application.cover_letter" ∷ "application.salary_expectation"
    ∷ "application.work_authorization" ∷ "application.sponsorship_required"
    ∷ "application.relocation" ∷ "application.remote_preference" ∷ "application.custom" ∷ []

unfoldable pub generic_runtime_tool_names : List String
generic_runtime_tool_names =
    "job_automation_status" ∷ "job_automation_doctor" ∷ "job_automation_emergency_stop"
    ∷ "job_automation_clear_emergency_stop" ∷ "job_automation_get_audit_events"
    ∷ "jobs_get_connector_capabilities" ∷ "jobs_get_connection_status" ∷ "jobs_open_login"
    ∷ "candidate_profile_list" ∷ "candidate_profile_get" ∷ "candidate_profile_update_preferences"
    ∷ "candidate_profile_list_resumes" ∷ "candidate_profile_import_resume"
    ∷ "candidate_profile_select_resume" ∷ "candidate_profile_approve_resume"
    ∷ "candidate_profile_get_resume_variants" ∷ "jobs_search" ∷ "jobs_import_current_page"
    ∷ "jobs_get_details" ∷ "jobs_score" ∷ "jobs_explain_match" ∷ "jobs_shortlist" ∷ "jobs_reject"
    ∷ "jobs_tailor_resume" ∷ "jobs_get_tailored_resume_review" ∷ "jobs_approve_tailored_resume"
    ∷ "jobs_get_resume_artifact" ∷ "jobs_prepare_application" ∷ "jobs_get_application_review"
    ∷ "jobs_set_application_answer" ∷ "jobs_fill_application" ∷ "jobs_validate_application"
    ∷ "jobs_request_submission_approval" ∷ "jobs_submit_application" ∷ "jobs_cancel_application"
    ∷ "jobs_get_application_status" ∷ "campaign_create" ∷ "campaign_preview" ∷ "campaign_update"
    ∷ "campaign_run" ∷ "campaign_pause" ∷ "campaign_resume" ∷ "campaign_cancel" ∷ "campaign_get"
    ∷ "campaign_list" ∷ "campaign_get_activity" ∷ []

unfoldable pub wuzzuf_tool_actions : List String
wuzzuf_tool_actions =
    "WUZZUF_CREATE_CONNECTION" ∷ "WUZZUF_VERIFY_CONNECTION" ∷ "WUZZUF_DISCONNECT"
    ∷ "WUZZUF_SEARCH_JOBS" ∷ "WUZZUF_GET_JOB_DETAILS" ∷ "WUZZUF_SCORE_JOB"
    ∷ "WUZZUF_PREPARE_APPLICATION" ∷ "WUZZUF_FILL_APPLICATION" ∷ "WUZZUF_GET_APPLICATION_REVIEW"
    ∷ "WUZZUF_REQUEST_SUBMISSION_APPROVAL" ∷ "WUZZUF_SUBMIT_APPLICATION"
    ∷ "WUZZUF_GET_APPLICATION_STATUS" ∷ "WUZZUF_CANCEL_APPLICATION" ∷ "WUZZUF_GET_AUTH_STATUS"
    ∷ "WUZZUF_OPEN_LOGIN" ∷ []

unfoldable pub wuzzuf_runtime_tool_names : List String
wuzzuf_runtime_tool_names =
    "wuzzuf_create_connection" ∷ "wuzzuf_open_login" ∷ "wuzzuf_get_auth_status"
    ∷ "wuzzuf_verify_connection" ∷ "wuzzuf_disconnect" ∷ "wuzzuf_search_jobs"
    ∷ "wuzzuf_get_job_details" ∷ "wuzzuf_score_job" ∷ "wuzzuf_prepare_application"
    ∷ "wuzzuf_fill_application" ∷ "wuzzuf_get_application_review"
    ∷ "wuzzuf_request_submission_approval" ∷ "wuzzuf_submit_application"
    ∷ "wuzzuf_get_application_status" ∷ "wuzzuf_cancel_application" ∷ []

unfoldable pub client_scopes : List String
client_scopes =
    "profile:read" ∷ "profile:write" ∷ "jobs:search" ∷ "jobs:read" ∷ "artifacts:read"
    ∷ "applications:prepare" ∷ "applications:fill" ∷ "applications:review" ∷ "applications:approve"
    ∷ "applications:submit" ∷ "campaigns:read" ∷ "campaigns:manage" ∷ "audit:read"
    ∷ "admin:emergency-stop" ∷ "worker:execute" ∷ []

-- `toolErrorSchema`
unfoldable pub tool_error_schema : ToolError → Bool
unfolding error_codes
tool_error_schema e =
    includes e.code error_codes
    && sized 1 2000 e.message
    && optional (at_most 100) e.recommended_next_tool
    && sized 1 100 e.correlation_id
    && optional (at_most 2000) e.action_required
