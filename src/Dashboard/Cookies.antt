-- ===== src/Dashboard/Cookies.antt =====
-- `cookie` of apps/orchestrator/src/dashboard-api.ts: one value of the Cookie header.
use extension_jobs.Common.{
  String, Bool, false, Option, none, some, List, [], ◌∷◌, map, str_eq, find, get_or, map_option,
  is_empty, trim, split, join, if◌then◌else◌,
}

unfoldable pub cookie_name : String
cookie_name = "extension_jobs_dashboard_session"

-- `key === name` on the parts of `key=value`
abbrev has_key : String → List String → Bool
has_key name [] = false
has_key name (key ∷ _) = str_eq key name

abbrev after_key : List String → List String
after_key [] = []
after_key (_ ∷ parts) = parts

unfoldable pub cookie : Option String → String → Option String
cookie header name =
    let values = map (λ part. split b'=' (trim part)) (split b';' (get_or header "")) in
    map_option (λ parts. join "=" (after_key parts)) (find (has_key name) values)

-- `token ? … : undefined`: an empty token counts as none.
abbrev pub present : Option String → Option String
present none = none
present (some t) = if is_empty t then none else some t
