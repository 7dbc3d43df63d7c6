-- ===== src/Dashboard/CampaignRoutes.antt =====
-- The handlers of campaigns and manual actions of apps/orchestrator/src/dashboard-api.ts, and
-- `createCampaign` of apps/orchestrator/src/service.ts.
use extension_jobs.Common.{
  String, Bool, true, false, Option, none, some, str_eq, ok, err, ◌>>=◌, guard, or_throw,
  if◌then◌else◌, ◌<>◌,
}
use extension_jobs.Json.{string, Members, end, member}
use extension_jobs.Contracts.Dashboard.{CampaignState, enabled, paused}
use extension_jobs.Domain.{JobCampaign}
use extension_jobs.Store.Boards.{continued, cancelled, ManualActionItem, update_manual_action}
use extension_jobs.Dashboard.{Platform, http_error}
use extension_jobs.Dashboard.Campaigns.{campaign_from}
use extension_jobs.Dashboard.Content.{Content, get_campaign, save_campaign, audit}
use extension_jobs.Dashboard.Handlers.{not_found, body_of, decoded, logged}
use extension_jobs.Dashboard.Replies.{
  Request, http_thrown, other_thrown, campaign_reply, created_reply, run_reply, action_reply,
  Handled, lift, writing,
}
use extension_jobs.Validation.{Locale, schedule_preview}
use extension_jobs.Dashboard.Services.{JobsApi, answered, calling}

module _ (platform : Platform) (api : JobsApi) (request : Request) where
  abbrev platform_locale : Locale
  platform_locale = record {
    lower_case = platform.lower_case;
    is_time_zone = platform.is_time_zone;
    whole_text = platform.whole_text;
    number_text = platform.number_text;
  }

  abbrev created_with : JobCampaign → Content → Option String → Handled
  unfolding audit
  created_with campaign c none = (c, err other_thrown)
  created_with campaign c (some preview) = (
    audit request.now request.uuid campaign.id "campaign.created"
        (member "preview" (string preview) end) c,
    ok (created_reply campaign preview),
  )

  -- `createCampaign` of the service: a preview that throws leaves the campaign saved.
  abbrev created : JobCampaign → Content → Handled
  unfolding save_campaign schedule_preview created_with
  created campaign c =
      if c.stopped
      then (c, err other_thrown)
      else created_with campaign (save_campaign campaign c)
          (schedule_preview platform_locale campaign)

  -- POST campaigns
  unfoldable pub create_campaign : Content → Handled
  unfolding body_of campaign_from created
  create_campaign c =
      calling c
        (body_of platform request >>= λ body.
          lift (campaign_from platform request.now_text request.uuid body true) >>= λ campaign.
          guard (api.has_profile c campaign.profile_id)
            (http_thrown (http_error 409 "Campaign requires an approved profile"))
          >>= λ _. ok campaign)
        λ campaign. created campaign c

  -- PATCH campaigns/:id; `merged` is `{ ...existing, ...body, id, createdAt }`, as JSON members.
  unfoldable pub update_campaign : (JobCampaign → Members → Members) → String → Content → Handled
  unfolding body_of decoded get_campaign campaign_from save_campaign logged
  update_campaign merged segment c = writing c (
      decoded platform request segment >>= λ id.
      or_throw (get_campaign id c) (not_found "Campaign not found") >>= λ existing.
      body_of platform request >>= λ body.
      lift (campaign_from platform request.now_text request.uuid (merged existing body) true)
      >>= λ updated. ok (
        logged platform request "campaign.updated" (member "campaignId" (string existing.id) end)
            (save_campaign updated c),
        campaign_reply updated,
      ))

  abbrev pub is_paused : CampaignState → Bool
  is_paused paused = true
  is_paused enabled = false

  abbrev run_or_set : String → JobCampaign → Content → Handled
  unfolding save_campaign logged
  run_or_set action campaign c =
      let updated : JobCampaign = record campaign {
        state = if str_eq action "pause" then paused else enabled;
        updated_at = request.now_text;
      } in
      if str_eq action "run"
      then if is_paused campaign.state
        then (c, err (http_thrown (http_error 409 "Campaign is paused")))
        else answered run_reply (api.run_campaign campaign c)
      else (
        logged platform request ("campaign." <> action)
            (member "campaignId" (string campaign.id) end) (save_campaign updated c),
        ok (campaign_reply updated),
      )

  -- POST campaigns/:id/(run|pause|resume)
  unfoldable pub campaign_action : String → String → Content → Handled
  unfolding decoded get_campaign run_or_set
  campaign_action segment action c =
      calling c
        (decoded platform request segment >>= λ id.
          or_throw (get_campaign id c) (not_found "Campaign not found"))
        λ campaign. run_or_set action campaign c

  abbrev cancelled_too : String → ManualActionItem → Option String → Content → Handled
  cancelled_too action i none c = (c, ok (action_reply i))
  cancelled_too action i (some application_id) c =
      if str_eq action "cancel"
      then answered (λ _. action_reply i) (api.cancel_application application_id c)
      else (c, ok (action_reply i))

  abbrev updated_action : String → Content → Option ManualActionItem → Handled
  updated_action action c none = (c, err (not_found "Manual action not found"))
  updated_action action c (some i) = cancelled_too action i i.application_id c

  -- POST manual-actions/:id/(continue|cancel)
  unfoldable pub manual_action : String → String → Content → Handled
  unfolding decoded update_manual_action
  manual_action segment action c = calling c (decoded platform request segment) λ id.
      let updated =
        update_manual_action request.now id
          (if str_eq action "continue" then continued else cancelled) c.boards.actions in
      updated_action action (record c { boards = record c.boards { actions = updated.0 } })
        updated.1
