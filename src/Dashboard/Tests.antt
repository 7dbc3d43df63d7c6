-- ===== src/Dashboard/Tests.antt =====
-- Tests of apps/orchestrator/src/dashboard-api.ts, and the theorems about it at a concrete platform.
mod Examples
use Prim.Native.Char.{code}
use extension_jobs.Common.{
  ℕ, zero, suc, ◌+◌, ◌<◌, ◌≡◌, ◌≢◌, ◌∙◌, refl, ap, arith, String, true, false, none, some, List, [],
  ◌∷◌, ◌==◌, find, find_by, str_eq, ◌⊎◌, map, map_get, ok, err, if◌then◌else◌,
}
use extension_jobs.Application.{PreparedApplication}
use extension_jobs.Contracts.Dashboard.{enabled}
use extension_jobs.Domain.{JobCampaign, prepare_and_review, auto_submit}
use extension_jobs.Domain
use extension_jobs.Jobs.{Job}
use extension_jobs.Json.{
  Members, member, end, string, array, item, nil, whole, to_number, number_of_codes,
}
use extension_jobs.Queue.{empty}
use extension_jobs.Store.Boards.{ManualActionItem, continued}
use extension_jobs.Store.Submissions.{ApplicationRow, Submissions, application_of}
use extension_jobs.Workflow.{ApplicationState, cancelled, waiting_for_approval, form_changed}
use extension_jobs.Dashboard.{Platform, http_error}
use extension_jobs.Dashboard.Applications.{sync_manual_actions}
use extension_jobs.Dashboard.Applications.Sync.{sync_manual_actions-Kept}
use extension_jobs.Dashboard.Campaigns.{campaign_from}
use extension_jobs.Dashboard.Campaigns.Limits.{Within, campaign_from-Within}
use extension_jobs.Dashboard.Content.{Content}
use extension_jobs.Dashboard.Decisions.{Surroundings, World}
use extension_jobs.Dashboard.Dispatch.{handle, is_mutation}
use extension_jobs.Dashboard.Dispatch.Denied.{IsLetIn, IsDenied, handle-guarded}
use extension_jobs.Dashboard.Dispatch.HiddenViews.{views_request, handle-views_request}
use extension_jobs.Dashboard.Handlers.{not_found}
use extension_jobs.Dashboard.Values
use extension_jobs.Dashboard.Jobs.{dashboard_jobs, by_job, list_prepared_applications}
use extension_jobs.Dashboard.Jobs.Oldest.{by_job-oldest}
use extension_jobs.Dashboard.Paging.Walk.{walk, walk-pages}
use extension_jobs.Dashboard.Replies.{Request, http_thrown, other_thrown}
use extension_jobs.Dashboard.Services.{JobsApi}
use extension_jobs.Dashboard.Sessions
use extension_jobs.Dashboard.Cookies.{cookie, cookie_name}
use extension_jobs.Dashboard.Sessions.{
  DashboardSessions, Headers, Session, authenticate, with_token, with_session, hash,
  secure_hash_equals, csrf_holds, limit_session, new_sessions, login, verify_pairing, limit_login,
}
use extension_jobs.Dashboard.Sessions.Guards.{carried, authenticate_lem}
use extension_jobs.Dashboard.Tests.Examples.{
  unary, write, read, read-unary, read-write, platform, posting, application, row, twice_prepared,
  done, body, accepted,
}

two_reads : Values.bounded (some (string "2")) 1 100 25 ≡ ok (whole 2)
unfolding Values.bounded to_number number_of_codes
two_reads = refl

walk-pages_example :
    walk platform {A = ℕ} (1 ∷ 2 ∷ 3 ∷ 4 ∷ 5 ∷ []) "2" 6 none ≡ ok (1 ∷ 2 ∷ 3 ∷ 4 ∷ 5 ∷ [])
walk-pages_example =
    walk-pages platform (1 ∷ 2 ∷ 3 ∷ 4 ∷ 5 ∷ []) "2" (whole 2) read-write refl (omega arith)
      two_reads

abbrev paired : DashboardSessions
unfolding new_sessions login Sessions.paired verify_pairing limit_login hash
paired = (login platform 1000 "code" "token" "csrf" (new_sessions platform 0 "code" 600000)).0

abbrev posting_headers : Headers
posting_headers = record {
  cookie = some "a=1; extension_jobs_dashboard_session=token";
  csrf_token = some "csrf";
}

abbrev live : Session
live = record { csrf_hash = "csrf"; expires_at = 601000 }

let_in : (authenticate platform 2000 posting_headers true paired).1 ≡ ok live
unfolding authenticate with_token with_session csrf_holds hash secure_hash_equals limit_session
    cookie cookie_name paired new_sessions login Sessions.paired verify_pairing limit_login
let_in = refl

authenticate_lem_example :
    (token : String) × (carried platform posting_headers ≡ some token)
    × (map_get (hash platform token) paired.sessions ≡ some live)
    × (2000 < 601000)
    × (true ≡ true → csrf_holds platform (some "csrf") live ≡ true)
authenticate_lem_example = authenticate_lem platform 2000 posting_headers true paired let_in

cancelled_is_found :
    find (λ a. str_eq a.job_id "j1") (map application_of twice_prepared.applications)
    ≡ some (application "old" cancelled)
cancelled_is_found = refl

by_job-oldest_example :
    map_get "j1" (by_job (list_prepared_applications twice_prepared))
    ≡ find (λ a. str_eq a.job_id "j1") (map application_of twice_prepared.applications)
by_job-oldest_example = by_job-oldest twice_prepared "j1"

sync_manual_actions-Kept_at :
    find_by
      (λ i. i.id)
      "application:new:FORM_CHANGED"
      (sync_manual_actions platform 9 (application "new" form_changed ∷ []) (done ∷ []))
    ≡ find_by (λ i. i.id) "application:new:FORM_CHANGED" (done ∷ [])
sync_manual_actions-Kept_at =
    sync_manual_actions-Kept platform 9 "application:new:FORM_CHANGED"
      (application "new" form_changed ∷ []) (done ∷ []) refl

body_accepted : campaign_from platform "now" "id" body true ≡ ok accepted
unfolding campaign_from Values.bounded to_number number_of_codes
body_accepted = refl

campaign_from-Within_example :
    Within 0 100 (whole 70)
    × Within 1 100 (whole 10)
    × Within 1 200 (whole 5)
    × prepare_and_review ≢ auto_submit
campaign_from-Within_example = campaign_from-Within platform "now" "id" body body_accepted

abbrev content : Content
content = record {
  jobs = posting ∷ [];
  submissions = twice_prepared;
  approvals = record { requests = []; approvals = [] };
  boards = record {
    dispositions = [];
    tags = [];
    notes = [];
    views = [];
    actions = done ∷ [];
    preferences = [];
  };
  campaigns = [];
  audit_events = [];
  queue = empty;
  registry = record { enabled = [] };
  settings = [];
  stopped = false;
}

abbrev world : World
unfolding paired new_sessions login Sessions.paired verify_pairing limit_login hash
world = record { content = content; sessions = paired }

abbrev api : JobsApi
api = record {
  prepare_application = λ id profile dry key c. (c, err other_thrown);
  fill_application = λ id overrides dry key c. (c, err other_thrown);
  request_submission_approval = λ id ttl key c. (c, err other_thrown);
  decide_application_approval = λ id b c. (c, err other_thrown);
  submit_application = λ id approval token key c. (c, err other_thrown);
  cancel_application = λ id c. (c, err other_thrown);
  run_campaign = λ campaign c. (c, err other_thrown);
  has_profile = λ c id. true;
}

abbrev around : Surroundings
around = record {
  browser_status = "disconnected";
  queue_health = λ c. [];
  later = λ s t. false;
  time = λ s. 0;
  merged = λ campaign members. members;
  hostname = λ url. none;
  recent_events = λ c. [];
}

abbrev request : Headers → Request
request headers = record {
  method = "POST";
  path = "emergency-stop" ∷ [];
  query = [];
  headers = headers;
  body = [];
  now = 2000;
  now_text = "now";
  uuid = "id";
  session_token = "token2";
  csrf_token = "csrf2";
  correlation_id = "c";
}

-- The cookie is right, the x-csrf-token is not.
abbrev forged : Request
forged = request (record { cookie = posting_headers.cookie; csrf_token = some "guess" })

handle-guarded_example :
    IsLetIn platform api around forged world.sessions ⊎ IsDenied platform api around forged world
handle-guarded_example = handle-guarded platform api around forged world refl

reader_let_in : (authenticate platform 2000 posting_headers false world.sessions).1 ≡ ok live
unfolding world authenticate with_token with_session csrf_holds hash secure_hash_equals
    limit_session cookie cookie_name paired new_sessions login Sessions.paired verify_pairing
    limit_login
reader_let_in = refl

no_job_views : find (λ v. str_eq v.job.id "views") (dashboard_jobs world.content) ≡ none
unfolding dashboard_jobs world
no_job_views = refl

handle-views_request_example :
    (handle platform api around (views_request (request posting_headers)) world).1
    ≡ err (not_found "Job not found")
handle-views_request_example =
    handle-views_request platform api around (request posting_headers) world refl no_job_views
      reader_let_in
