-- ===== src/Connector/Tests.antt =====
-- A submission from its approval to its click, and the theorems about it at that history.
use extension_jobs.Common.{
  ℕ, ◌≤◌, ◌≡◌, refl, String, true, false, none, some, List, [], ◌∷◌, ok, err, ◌<>◌, Result, is_ok,
  ap, sym, ◌∙◌,
}
use extension_jobs.Application.{PreparedApplication, FormFingerprint, binding}
use extension_jobs.Connector.{Hashes, Env, Failure, find_application}
use extension_jobs.Connector.Approval.{request_submission_approval, decide_approval}
use extension_jobs.Connector.Blocked.Refused.{Halted, Unused, expired_refused}
use extension_jobs.Connector.Form.{Unchanged, reserve_waits}
use extension_jobs.Connector.Gate.{Ready, Approved, begin_waits}
use extension_jobs.Connector.Once.{clicks_of, clicks_bound}
use extension_jobs.Connector.Submit.{SubmitInput, Flight, waiting, submit_begin}
use extension_jobs.Connector.Click.{Page, Click, submit_reserve}
use extension_jobs.Connector.Trace.{
  Op, saves, requests, decides, begins, reads, answers, World, step, run, nothing,
}
use extension_jobs.Jobs.{Job}
use extension_jobs.Store.Approvals.{
  ApprovalRequest, approved, get_approval_request, invalidate_approval_requests,
}
use extension_jobs.Workflow.{ready_to_submit, submitting, assert_transition}
use extension_jobs.Store.Locks.{acquire_lock}
use extension_jobs.Store.Submissions.{get_prepared_application, save_prepared_application}

abbrev hashes : Hashes
hashes = record { text = λ s. "#" <> s; of_binding = λ b. b.application_id }

abbrev at : ℕ → Env
at now = record { now = now; lease = 300000; owner = "s1"; stopped = false }

abbrev posting : Job
posting = record {
  raw = record {
    source = "wuzzuf";
    source_id = "7";
    url = "https://wuzzuf.net/jobs/p/7";
    title = "Engineer";
    employer = "E";
    location = "Cairo";
    description = "";
    required_skills = none;
    preferred_skills = none;
    remote = none;
    seniority = none;
    salary = none;
    requirements = none;
    responsibilities = none;
    experience_level = none;
    employment_type = none;
    application_available = none;
    discovered_at = none;
  };
  id = "j1";
  fingerprint = "f1";
  match_score = 0;
  score_explanation = [];
}

abbrev form : FormFingerprint
form = record {
  normalized_url = "u";
  fields_hash = "h";
  submit_control_hash = "c";
  form_version = "v1";
  captured_at = 1;
}

abbrev filled : PreparedApplication
filled = record {
  id = "app";
  correlation_id = "c";
  job_id = "j1";
  job = posting;
  profile_id = "p";
  profile_snapshot_id = none;
  resume_file_id = none;
  resume_hash = none;
  facts_hash = none;
  selected_resume = none;
  answers = [];
  filled_fields = [];
  skipped_fields = [];
  validation_errors = [];
  sensitive_fields = [];
  screenshots = [];
  state = ready_to_submit;
  dry_run = false;
  submission_allowed = true;
  last_successful_step = "ready_to_submit";
  errors = [];
  created_at = 1;
  updated_at = 1;
  submitted_at = none;
  submission_result = none;
  adapter_session_id = some "session";
  review_revision = none;
  form_fingerprint = some form;
  form_value_hash = some "values";
}

abbrev input : SubmitInput
input = record { application_id = "app"; approval_request_id = "r1"; approval_token = some "token" }

abbrev page : Page
page = record { form = ok form; values = ok "values"; valid = ok true }

abbrev success : Click
success = record { started = true; result = ok (true, some "Application received"); cleanup = none }

abbrev approving : List Op
approving =
    saves (at 10) filled
    ∷ requests (at 20) "r1" "nonce" none "app"
    ∷ decides (at 30) true "token" "r1"
    ∷ []

-- Two clients submit at the same time, and one tries once more.
abbrev submitting_ops : List Op
submitting_ops =
    saves (at 10) filled
    ∷ requests (at 20) "r1" "nonce" none "app"
    ∷ decides (at 30) true "token" "r1"
    ∷ begins (at 40) input
    ∷ begins (at 41) input
    ∷ reads (at 50) page 0
    ∷ answers (at 60) success 0
    ∷ begins (at 70) input
    ∷ []

abbrev ready_world : World
ready_world = run hashes nothing approving

clicked_once : (run hashes nothing submitting_ops).clicks ≡ "app" ∷ []
unfolding run step submit_begin submit_reserve decide_approval request_submission_approval
    get_prepared_application save_prepared_application get_approval_request
    invalidate_approval_requests binding acquire_lock assert_transition
clicked_once = refl

clicks_bound_example : clicks_of "app" (run hashes nothing submitting_ops).clicks ≤ 1
clicks_bound_example = clicks_bound hashes submitting_ops "app"

abbrev granted : ApprovalRequest
granted = record {
  id = "r1";
  application_id = "app";
  binding_hash = "app";
  nonce_hash = "#token";
  status = approved;
  expires_at = 120020;
  created_at = 20;
  updated_at = 30;
  decided_at = some 30;
  used_at = none;
}

abbrev flight : Flight
flight = record { application = record filled { updated_at = 10 }; approval = granted }

reads_form : (submit_begin hashes (at 40) input ready_world.tables).1 ≡ waiting flight
unfolding run step submit_begin submit_reserve decide_approval request_submission_approval
    get_prepared_application save_prepared_application get_approval_request
    invalidate_approval_requests binding acquire_lock assert_transition
reads_form = refl

begin_waits_example :
    (false ≡ false)
    × (find_application "app" ready_world.tables ≡ ok flight.application)
    × Ready (at 40) ready_world.tables flight.application
    × Approved hashes (at 40) input ready_world.tables flight
begin_waits_example = begin_waits hashes (at 40) input ready_world.tables flight reads_form

clicks_form :
    (let begun = submit_begin hashes (at 40) input ready_world.tables in
      (submit_reserve hashes (at 50) page flight begun.0).1)
    ≡ waiting (record flight {
      application = record filled {
        state = submitting;
        last_successful_step = "submitting";
        updated_at = 50;
      };
    })
unfolding run step submit_begin submit_reserve decide_approval request_submission_approval
    get_prepared_application save_prepared_application get_approval_request
    invalidate_approval_requests binding acquire_lock assert_transition
clicks_form = refl

reserve_waits_example : Unchanged page flight.application
reserve_waits_example =
    reserve_waits hashes (at 50) page flight
      (submit_begin hashes (at 40) input ready_world.tables).0
      (record flight {
        application = record filled {
          state = submitting;
          last_successful_step = "submitting";
          updated_at = 50;
        };
      })
      clicks_form

-- The person answers after the request has expired.
abbrev late_ops : List Op
late_ops =
    saves (at 10) filled
    ∷ requests (at 20) "r1" "nonce" none "app"
    ∷ decides (at 900000) true "token" "r1"
    ∷ []

abbrev late_world : World
late_world = run hashes nothing late_ops

late-Halted : Halted "r1" "app" late_world
unfolding run step submit_begin submit_reserve decide_approval request_submission_approval
    get_prepared_application save_prepared_application get_approval_request
    invalidate_approval_requests binding acquire_lock assert_transition
late-Halted = (record { requests = ((refl, λ _. refl), tt); active = refl }, tt)

abbrev later : List Op
later = saves (at 900010) filled ∷ requests (at 900020) "r2" "nonce2" none "app" ∷ []

abbrev id_of : Result Failure PreparedApplication → String
id_of (ok a) = a.id
id_of (err e) = ""

later_found :
    find_application "app" (run hashes late_world later).tables
    ≡ ok (record filled { updated_at = 900010 })
unfolding run step submit_begin submit_reserve decide_approval request_submission_approval
    get_prepared_application save_prepared_application get_approval_request
    invalidate_approval_requests binding acquire_lock assert_transition find_application
later_found = refl

later-Unused : Unused "r3" (run hashes late_world later).tables.approvals
unfolding run step submit_begin submit_reserve decide_approval request_submission_approval
    get_prepared_application save_prepared_application get_approval_request
    invalidate_approval_requests binding acquire_lock assert_transition
later-Unused = (refl, refl)

expired_refused_example :
    is_ok
      (request_submission_approval hashes
        (at 900030)
        "r3"
        "nonce3"
        none
        "app"
        (run hashes late_world later).tables).1
    ≡ false
expired_refused_example =
    expired_refused hashes late_world later "r1" "app" (at 900030) "r3" "nonce3" none late-Halted
      refl (λ a e. ap id_of (sym e ∙ later_found)) refl later-Unused
