-- ===== src/Dashboard/Handlers.antt =====
-- The handlers of apps/orchestrator/src/dashboard-api.ts that work on the store alone.
use extension_jobs.Common.{
  ℕ, String, true, false, Option, none, some, List, [], ◌∷◌, map_get, codes, str_eq, length, keep,
  Result, ok, err, ◌>>=◌, or_throw, if◌then◌else◌, ◌<>◌,
}
use extension_jobs.Json.{
  Json, number, whole, string, array, Items, nil, item, Members, end, member, field,
}
use extension_jobs.Contracts.Dashboard.{Disposition, shortlisted, rejected}
use extension_jobs.Domain.{AuditEvent}
use extension_jobs.Queue.Operations.{request_cancellation_all}
use extension_jobs.Store.Boards.{
  PreferenceRow, ManualStatus, open_item, continued, cancelled, set_job_disposition, add_job_tags,
  set_job_note, save_job_view, list_job_views, remove_job_view, list_manual_actions,
  get_dashboard_preference, save_dashboard_preference,
}
use extension_jobs.Dashboard.{Platform, http_error}
use extension_jobs.Dashboard.Applications.{public_application, sync_manual_actions}
use extension_jobs.Dashboard.Campaigns.{campaign_from, campaign_safeguards}
use extension_jobs.Dashboard.Content.{Content, get_job, audit, engage, reset}
use extension_jobs.Dashboard.Jobs.{list_prepared_applications, disposition_name, asked}
use extension_jobs.Dashboard.Paging.{page}
use extension_jobs.Dashboard.Replies.{
  Request, Thrown, http_thrown, Reply, disposition_reply, bulk_reply, version_reply, views_reply,
  view_reply, removed_reply, application_reply, preview_reply, actions_reply, activity_reply,
  no_preferences, preference_reply, stopped_reply, Handled, lift, lift_conflict, reading, writing,
}
use extension_jobs.Dashboard.Values.{
  text, record_of, string_list, optional_integer, required_version, clean_tags, decode, read_body,
}
use extension_jobs.Store.Submissions.{get_prepared_application}

abbrev pub not_found : String → Thrown
not_found message = http_thrown (http_error 404 message)

module _ (platform : Platform) (request : Request) where
  unfoldable pub body_of : Result Thrown Members
  unfolding read_body
  body_of = lift (read_body platform request.body)

  unfoldable pub decoded : String → Result Thrown String
  unfolding decode
  decoded segment = lift (decode platform (some segment))

  abbrev disposed : String → Disposition → Content → Content
  unfolding set_job_disposition
  disposed id disposition c = record c {
    boards = record c.boards {
      dispositions = set_job_disposition request.now id disposition c.boards.dispositions;
    };
  }

  unfoldable pub logged : String → Members → Content → Content
  unfolding audit
  logged type detail c = audit request.now request.uuid request.correlation_id type detail c

  -- POST jobs/:id/(shortlist|reject)
  unfoldable pub decide_job : String → String → Content → Handled
  unfolding decoded get_job disposed logged
  decide_job segment action c = writing c (
      decoded segment >>= λ id. or_throw (get_job id c) (not_found "Job not found") >>= λ _.
      let disposition : Disposition = if str_eq action "shortlist" then shortlisted else rejected in
      ok (
        logged ("job." <> disposition_name disposition) (member "jobId" (string id) end)
            (disposed id disposition c),
        disposition_reply id disposition,
      ))

  abbrev pub dispose_all : List String → Disposition → Content → Content
  unfolding disposed
  dispose_all [] disposition c = c
  dispose_all (id ∷ ids) disposition c = dispose_all ids disposition (disposed id disposition c)

  abbrev each_exists : List String → Content → Result Thrown (Unit {0})
  unfolding get_job
  each_exists [] c = ok tt
  each_exists (id ∷ ids) c =
      or_throw (get_job id c) (not_found ("Job " <> id <> " not found")) >>= λ _. each_exists ids c

  abbrev tagged : List String → Members → Content → Result Thrown Content
  unfolding string_list clean_tags add_job_tags
  tagged ids body c = lift (string_list (field "tags" body) "tags" 20) >>= λ given.
      lift (clean_tags platform given) >>= λ tags. ok (record c {
        boards = record c.boards { tags = add_job_tags request.now ids tags c.boards.tags };
      })

  abbrev bulk_action : String → List String → Members → Content → Result Thrown Content
  unfolding dispose_all tagged
  bulk_action action ids body c =
      if str_eq action "shortlist"
      then ok (dispose_all ids shortlisted c)
      else if str_eq action "reject"
      then ok (dispose_all ids rejected c)
      else if str_eq action "tag"
      then tagged ids body c
      else err
          (http_thrown (http_error 400 "Only shortlist, reject, and tag are safe bulk actions"))

  abbrev texts : List String → Items
  texts [] = nil
  texts (s ∷ ss) = item (string s) (texts ss)

  -- POST jobs/bulk
  unfoldable pub bulk_jobs : Content → Handled
  unfolding body_of string_list text each_exists bulk_action logged
  bulk_jobs c = writing c (
      body_of >>= λ body. lift (string_list (field "ids" body) "ids" 100) >>= λ ids.
      lift (text (field "action" body) "action" 40 false) >>= λ action. each_exists ids c >>= λ _.
      bulk_action action ids body c >>= λ after. ok (
        logged "jobs.bulk_updated"
            (member "ids" (array (texts ids)) (member "action" (string action) end)) after,
        bulk_reply (length ids) action,
      ))

  -- PUT jobs/:id/note
  unfoldable pub put_note : String → Content → Handled
  unfolding body_of decoded text optional_integer set_job_note
  put_note segment c = writing c (
      body_of >>= λ body. decoded segment >>= λ id.
      lift (text (field "note" body) "note" 5000 true) >>= λ note.
      lift (optional_integer (field "version" body)) >>= λ expected.
      lift_conflict (set_job_note request.now id note expected c.boards.notes) >>= λ saved.
      ok (record c { boards = record c.boards { notes = saved.0 } }, version_reply saved.1))

  -- GET jobs/views
  unfoldable pub list_views : Content → Handled
  unfolding list_job_views
  list_views c = reading c (ok (views_reply (list_job_views c.boards.views)))

  abbrev view_id : Option Json → Result Thrown String
  unfolding text
  view_id (some (string s)) = lift (text (some (string s)) "id" 100 false)
  view_id _ = ok request.uuid

  abbrev view_expected : Option Json → Result Thrown (Option ℕ)
  unfolding required_version
  view_expected none = ok none
  view_expected (some v) = lift (required_version (some v)) >>= λ version. ok (some version)

  -- POST jobs/views
  unfoldable pub save_view : Content → Handled
  unfolding body_of view_id text record_of view_expected save_job_view
  save_view c = writing c (
      body_of >>= λ body. view_id (field "id" body) >>= λ id.
      lift (text (field "name" body) "name" 100 false) >>= λ name.
      lift (record_of (field "query" body)) >>= λ query.
      view_expected (field "version" body) >>= λ expected.
      lift_conflict (save_job_view request.now id name query expected c.boards.views) >>= λ saved.
      ok (record c { boards = record c.boards { views = saved.0 } }, view_reply saved.1))

  -- DELETE jobs/views/:id
  unfoldable pub remove_view : String → Content → Handled
  unfolding decoded remove_job_view
  remove_view segment c = writing c (
      decoded segment >>= λ id.
      let removed = remove_job_view id c.boards.views in
      ok (record c { boards = record c.boards { views = removed.0 } }, removed_reply removed.1))

  -- GET applications/:id
  unfoldable pub get_application : String → Content → Handled
  unfolding decoded get_prepared_application public_application
  get_application segment c = reading c (
      decoded segment >>= λ id.
      or_throw (get_prepared_application id c.submissions) (not_found "Application not found")
      >>= λ application. ok (application_reply (public_application true application)))

  -- POST campaigns/preview
  unfoldable pub preview_campaign : Content → Handled
  unfolding body_of campaign_from campaign_safeguards
  preview_campaign c = reading c (
      body_of >>= λ body.
      lift (campaign_from platform request.now_text request.uuid body false) >>= λ preview.
      ok (preview_reply preview (campaign_safeguards preview)))

  abbrev manual_name : ManualStatus → String
  manual_name open_item = "open"
  manual_name continued = "continued"
  manual_name cancelled = "cancelled"

  -- GET manual-actions
  unfoldable pub get_manual_actions : Content → Handled
  unfolding list_prepared_applications sync_manual_actions list_manual_actions page
  get_manual_actions c =
      let actions =
        sync_manual_actions platform request.now (list_prepared_applications c.submissions)
          c.boards.actions in
      (
        record c { boards = record c.boards { actions = actions } },
        lift (
              page platform
                (keep (λ i. asked (map_get "status" request.query) (some (manual_name i.status)))
                  (list_manual_actions none actions))
                request.query)
            >>= λ p. ok (actions_reply p),
      )

  -- GET activity; `recent` are the 200 newest events, with sanitised details.
  unfoldable pub get_activity : List AuditEvent → Option String → Content → Handled
  unfolding page
  get_activity recent type c = reading c (
      lift (page platform (keep (λ e. asked type (some e.type)) recent) request.query) >>= λ p.
      ok (activity_reply p))

  -- GET and PUT preferences
  unfoldable pub get_preferences : Content → Handled
  unfolding get_dashboard_preference
  get_preferences c = reading c (ok (found (get_dashboard_preference "ui" c.boards.preferences)))
    where
      found : Option PreferenceRow → Reply
      found none = no_preferences
      found (some p) = preference_reply p

  unfoldable pub put_preferences : Content → Handled
  unfolding body_of record_of optional_integer save_dashboard_preference
  put_preferences c = writing c (
      body_of >>= λ body. lift (record_of (field "data" body)) >>= λ settings.
      lift (optional_integer (field "version" body)) >>= λ expected.
      lift_conflict
        (save_dashboard_preference request.now "ui" settings expected c.boards.preferences)
      >>= λ saved. ok (
        record c { boards = record c.boards { preferences = saved.0 } },
        preference_reply saved.1,
      ))

  -- POST emergency-stop and emergency-stop/reset
  unfoldable pub engage_stop : Content → Handled
  unfolding engage request_cancellation_all logged
  engage_stop c =
      let cancelled =
        request_cancellation_all request.now (codes "dashboard-emergency-stop") c.queue in
      (
        logged "emergency_stop.engaged" (member "cancelledJobs" (number (whole cancelled.1)) end)
            (record (engage c) { queue = cancelled.0 }),
        ok (stopped_reply true cancelled.1),
      )

  unfoldable pub reset_stop : Content → Handled
  unfolding reset logged
  reset_stop c = (logged "emergency_stop.reset" end (reset c), ok (stopped_reply false 0))
