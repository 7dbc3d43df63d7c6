-- ===== src/Validation/Tests.antt =====
-- Tests of packages/shared/src/validation.ts.
use extension_jobs.Common.{◌≡◌, refl, true, none, some, [], ◌∷◌, ok, err, ◌==◌, if◌then◌else◌}
use extension_jobs.Domain.{skip}
use extension_jobs.Json.{string, array, item, nil}
use extension_jobs.Validation.{
  Locale, validate_cron, string_array, parse_friendly_schedule, validate_timezone,
}

abbrev locale : Locale
locale = record {
  lower_case = λ s. s;
  is_time_zone = λ s. true;
  whole_text = λ n. if◌then◌else◌ (n == 21) "21" "30";
  number_text = λ n. "1";
}

weekday_evening :
    parse_friendly_schedule locale "every weekday at 9:30 pm" "UTC"
    ≡ ok (record {
      cron = "30 21 * * 1-5";
      timezone = "UTC";
      friendly = "Every Monday–Friday";
      quiet_hours = none;
      missed_run_policy = skip;
      maximum_runtime_minutes = 30;
    })
unfolding parse_friendly_schedule validate_timezone
weekday_evening = refl

no_hour_25 : parse_friendly_schedule locale "daily 25" "UTC" ≡ err "Invalid schedule time"
unfolding parse_friendly_schedule validate_timezone
no_hour_25 = refl

five_fields : validate_cron " 0  9 * * 1-5 " ≡ ok "0  9 * * 1-5"
unfolding validate_cron
five_fields = refl

no_letters : validate_cron "0 9 * * MON" ≡ err "Unsupported cron expression"
unfolding validate_cron
no_letters = refl

blanks_dropped :
    string_array (some (array (item (string " a ") (item (string " ") nil)))) "queries" 10
    ≡ ok ("a" ∷ [])
unfolding string_array
blanks_dropped = refl
