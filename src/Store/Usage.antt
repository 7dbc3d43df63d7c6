-- ===== src/Store/Usage.antt =====
-- `reserveCampaignApplication` of apps/orchestrator/src/store.ts: the daily limit of a campaign.
pub mod Granted
pub mod Limit
use extension_jobs.Common.{
  ℕ, ◌+◌, String, Bool, true, false, ◌&&◌, List, [], ◌∷◌, ◌++◌, Option, none, some, Result, ok, err,
  ltb, leb, ◌==◌, codes, is_digit, str_eq, any, update_where, changes, if◌then◌else◌,
}

-- A row of campaign_daily_usage, whose key is (campaign_id, day_key).
pub record Usage : Type 0 where
  pub campaign_id : String
  pub day_key : String
  pub count : ℕ
  pub updated_at : ℕ

-- /^\d{4}-\d{2}-\d{2}$/
abbrev is_day : List ℕ → Bool
is_day (a ∷ b ∷ c ∷ d ∷ s ∷ e ∷ f ∷ t ∷ g ∷ h ∷ []) =
    is_digit a
    && is_digit b
    && is_digit c
    && is_digit d
    && s == b'-'
    && is_digit e
    && is_digit f
    && t == b'-'
    && is_digit g
    && is_digit h
is_day _ = false

unfoldable pub is_day_key : String → Bool
is_day_key day = is_day (codes day)

abbrev pub is_usage : String → String → Usage → Bool
is_usage campaign day u = str_eq u.campaign_id campaign && str_eq u.day_key day

-- INSERT OR IGNORE INTO campaign_daily_usage VALUES (?,?,0,?)
abbrev pub with_row : ℕ → String → String → List Usage → List Usage
with_row now campaign day rows =
    if any (is_usage campaign day) rows
    then rows
    else rows ++ record { campaign_id = campaign; day_key = day; count = 0; updated_at = now } ∷ []

abbrev pub is_below : String → String → ℕ → Usage → Bool
is_below campaign day maximum u = is_usage campaign day u && ltb u.count maximum

abbrev pub bump : ℕ → Usage → Usage
bump now u = record u { count = u.count + 1; updated_at = now }

pub data UsageError : Type 0 where
  invalid_reservation : UsageError

-- The transaction: the INSERT and the UPDATE.
unfoldable pub reserve_row : ℕ → String → String → ℕ → List Usage → List Usage × Bool
reserve_row now campaign day maximum rows =
    let all_rows = with_row now campaign day rows in
    let p = is_below campaign day maximum in
    (update_where p (bump now) all_rows, changes p all_rows == 1)

-- The maximum is a whole number of the campaign.
unfoldable pub reserve_campaign_application :
    ℕ → String → String → ℕ → List Usage → Result UsageError (List Usage × Bool)
unfolding is_day_key reserve_row
reserve_campaign_application now campaign day maximum rows =
    if is_day_key day && ltb 0 maximum
    then ok (reserve_row now campaign day maximum rows)
    else err invalid_reservation
