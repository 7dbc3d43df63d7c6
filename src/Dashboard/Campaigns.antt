-- ===== src/Dashboard/Campaigns.antt =====
-- `campaignFrom`, `campaignSafeguards` and the routes of campaigns of
-- apps/orchestrator/src/dashboard-api.ts, with `createCampaign` of apps/orchestrator/src/service.ts.
-- The time is its text; `uuid` is the result of `randomUUID`.
pub mod Limits
use extension_jobs.Common.{
  ℕ, String, Bool, true, false, not, ◌&&◌, ◌||◌, Option, none, some, List, [], ◌∷◌, ◌++◌, str_eq,
  includes, Result, ok, err, ◌>>=◌, ◌>>◌, guard, if◌then◌else◌,
}
use extension_jobs.Json.{
  Json, null, bool, string, array, object, Items, nil, item, Members, member, Number, field, items,
}
use extension_jobs.Contracts.Dashboard.{CampaignState, enabled, paused}
use extension_jobs.Domain.{
  ExecutionMode, research_only, prepare_and_review, auto_submit, Workplace, remote, hybrid, onsite,
  JobCampaign,
}
use extension_jobs.Dashboard.{Attempt, Platform, http_error}
use extension_jobs.Dashboard.Values.{text, string_list, bounded, timezone}

-- `value ?? fallback`
abbrev or_else_json : Option Json → Json → Option Json
or_else_json none fallback = some fallback
or_else_json (some null) fallback = some fallback
or_else_json (some v) fallback = some v

abbrev execution_mode : String → Attempt ExecutionMode
execution_mode s =
    if str_eq s "research_only"
    then ok research_only
    else if str_eq s "prepare_and_review"
    then ok prepare_and_review
    else if str_eq s "auto_submit"
    then ok auto_submit
    else err (http_error 400 "Invalid execution mode")

abbrev state_of : Option Json → CampaignState
state_of (some (string s)) = if str_eq s "paused" then paused else enabled
state_of _ = enabled

abbrev workplace_item : Json → List Workplace
workplace_item (string s) =
    if str_eq s "remote"
    then remote ∷ []
    else if str_eq s "hybrid"
    then hybrid ∷ []
    else if str_eq s "onsite"
    then onsite ∷ []
    else []
workplace_item _ = []

abbrev workplaces : Items → List Workplace
workplaces nil = []
workplaces (item v vs) = workplace_item v ++ workplaces vs

abbrev workplace_of : Option Json → List Workplace
workplace_of (some (array (item v vs))) = workplaces (item v vs)
workplace_of _ = remote ∷ []

-- `typeof value === 'string' ? text(…) : fallback`
abbrev text_or : Option Json → String → ℕ → String → Attempt String
unfolding text
text_or (some (string s)) name most fallback = text (some (string s)) name most false
text_or _ name most fallback = ok fallback

abbrev string_or : Option Json → String → String
string_or (some (string s)) fallback = s
string_or _ fallback = fallback

-- `body.dryRun !== false`
abbrev not_false : Option Json → Bool
not_false (some (bool false)) = false
not_false _ = true

-- A campaign that is stored never submits by itself.
abbrev pub stored_mode : Bool → ExecutionMode → ExecutionMode
stored_mode true auto_submit = prepare_and_review
stored_mode _ mode = mode

-- The fields of the campaign, in the order in which the source reads them.
pub record CampaignTexts : Type 0 where
  pub mode : ExecutionMode
  pub id : String
  pub name : String
  pub search_queries : List String
  pub locations : List String
  pub included : List String
  pub excluded : List String
  pub seniority : List String

pub record CampaignLimits : Type 0 where
  pub minimum : Number
  pub sites : List String
  pub per_run : Number
  pub per_day : Number

pub record CampaignAgent : Type 0 where
  pub zone : String
  pub profile_id : String
  pub cv_strategy : String
  pub provider_id : String
  pub model : String

unfoldable pub texts_of : String → Members → Attempt CampaignTexts
unfolding text string_list text_or
texts_of uuid body =
    text (or_else_json (field "executionMode" body) (string "prepare_and_review")) "executionMode"
      40 false
    >>= λ mode_text. execution_mode mode_text >>= λ mode.
        text_or (field "id" body) "id" 100 uuid >>= λ id.
        text (field "name" body) "name" 100 false >>= λ name.
        string_list (field "searchQueries" body) "searchQueries" 10 >>= λ search_queries.
        string_list (field "locations" body) "locations" 10 >>= λ locations.
        string_list (or_else_json (field "includedKeywords" body) (array nil)) "includedKeywords" 20
        >>= λ included.
            string_list (or_else_json (field "excludedKeywords" body) (array nil))
              "excludedKeywords" 20
            >>= λ excluded.
                string_list (or_else_json (field "seniority" body) (array nil)) "seniority" 20
                >>= λ seniority. ok (record {
                  mode = mode;
                  id = id;
                  name = name;
                  search_queries = search_queries;
                  locations = locations;
                  included = included;
                  excluded = excluded;
                  seniority = seniority;
                })

unfoldable pub limits_of : Members → Attempt CampaignLimits
unfolding string_list
limits_of body = bounded (field "minimumMatchScore" body) 0 100 70 >>= λ minimum.
    string_list (or_else_json (field "allowedSites" body) (array (item (string "development") nil)))
      "allowedSites" 20
    >>= λ sites. bounded (field "maxApplicationsPerRun" body) 1 100 10 >>= λ per_run.
        bounded (field "maxApplicationsPerDay" body) 1 200 20 >>= λ per_day.
        ok (record { minimum = minimum; sites = sites; per_run = per_run; per_day = per_day })

unfoldable pub agent_of : Platform → Members → Attempt CampaignAgent
unfolding text timezone
agent_of platform body =
    text (or_else_json (field "timezone" body) (string "Africa/Cairo")) "timezone" 100 false
    >>= λ zone_text. timezone platform zone_text >>= λ zone.
        text (field "profileId" body) "profileId" 100 false >>= λ profile_id.
        text (or_else_json (field "cvStrategy" body) (string "selected")) "cvStrategy" 100 false
        >>= λ cv_strategy.
            text (or_else_json (field "providerId" body) (string "openclaw")) "providerId" 100 false
            >>= λ provider_id.
                text (or_else_json (field "model" body) (string "default")) "model" 200 false
                >>= λ model. ok (record {
                  zone = zone;
                  profile_id = profile_id;
                  cv_strategy = cv_strategy;
                  provider_id = provider_id;
                  model = model;
                })

abbrev pub assemble :
    String → Members → Bool → CampaignTexts → CampaignLimits → CampaignAgent → JobCampaign
assemble now body persisted t l a = record {
  id = t.id;
  name = t.name;
  state = state_of (field "state" body);
  search_queries = t.search_queries;
  locations = t.locations;
  workplace = workplace_of (field "workplace" body);
  included_keywords = t.included;
  excluded_keywords = t.excluded;
  seniority = t.seniority;
  minimum_match_score = l.minimum;
  allowed_sites = l.sites;
  max_applications_per_run = l.per_run;
  max_applications_per_day = l.per_day;
  timezone = some a.zone;
  schedule = none;
  execution_mode = stored_mode persisted t.mode;
  profile_id = a.profile_id;
  cv_strategy = a.cv_strategy;
  provider_id = a.provider_id;
  model = a.model;
  dry_run = not_false (field "dryRun" body);
  created_at = string_or (field "createdAt" body) now;
  updated_at = now;
}

unfoldable pub campaign_from : Platform → String → String → Members → Bool → Attempt JobCampaign
unfolding texts_of limits_of agent_of
campaign_from platform now uuid body persisted = texts_of uuid body >>= λ t.
    limits_of body >>= λ l. agent_of platform body >>= λ a. ok (assemble now body persisted t l a)

pub record Safeguards : Type 0 where
  pub dry_run : Bool
  pub human_submission_approval : Bool
  pub applications_per_run : Number
  pub applications_per_day : Number
  pub effective_execution_mode : ExecutionMode

unfoldable pub campaign_safeguards : JobCampaign → Safeguards
campaign_safeguards campaign = record {
  dry_run = campaign.dry_run;
  human_submission_approval = true;
  applications_per_run = campaign.max_applications_per_run;
  applications_per_day = campaign.max_applications_per_day;
  effective_execution_mode = stored_mode true campaign.execution_mode;
}
