-- ===== src/Dashboard/Values.antt =====
-- The readers of untrusted values of apps/orchestrator/src/dashboard-api.ts.
use extension_jobs.Common.{
  ℕ, ◌+◌, ◌*◌, String, Bool, true, false, not, ◌&&◌, ◌||◌, Option, none, some, List, [], ◌∷◌, ◌++◌,
  map, leb, ltb, ◌==◌, str_eq, length, units, is_blank, is_empty, trim, contains, keep_chars,
  first_units, is_digit, ok, err, ◌>>=◌, or_throw, map_option, if◌then◌else◌, ◌<>◌,
}
use extension_jobs.Json.{
  Json, null, string, array, object, Items, Members, Number, items, whole, at_least, no_more,
  is_whole, truncated, to_number,
}
use extension_jobs.Dashboard.{Attempt, Platform, http_error}

-- `typeof value !== 'string' || (!allowEmpty && !value.trim()) || value.length > max`
abbrev is_text : ℕ → Bool → Option Json → Bool
is_text most allow_empty (some (string s)) = (allow_empty || not (is_blank s)) && leb (units s) most
is_text most allow_empty _ = false

abbrev text_of : Option Json → String
text_of (some (string s)) = s
text_of _ = ""

unfoldable pub text : Option Json → String → ℕ → Bool → Attempt String
text value name most allow_empty =
    if is_text most allow_empty value
    then ok (trim (text_of value))
    else err (http_error 400 ("Invalid " <> name))

-- `value as Record<string, unknown>`
unfoldable pub record_of : Option Json → Attempt Members
record_of (some (object ms)) = ok ms
record_of _ = err (http_error 400 "Expected an object")

abbrev is_item : Json → Bool
is_item (string s) = not (is_blank s) && leb (units s) 300
is_item _ = false

abbrev all_items : Items → Bool
all_items Items.nil = true
all_items (Items.item v vs) = is_item v && all_items vs

abbrev is_list : ℕ → Option Json → Bool
is_list most (some (array vs)) = leb (length (items vs)) most && all_items vs
is_list most _ = false

abbrev texts_of : Option Json → List String
texts_of (some (array vs)) = map (λ v. trim (text_of (some v))) (items vs)
texts_of _ = []

unfoldable pub string_list : Option Json → String → ℕ → Attempt (List String)
string_list value name most =
    if is_list most value then ok (texts_of value) else err (http_error 400 ("Invalid " <> name))

-- `value === null || value === undefined || value === ''`
abbrev pub is_missing : Option Json → Bool
is_missing none = true
is_missing (some null) = true
is_missing (some (string s)) = is_empty s
is_missing _ = false

abbrev pub read_number : Option Json → Option Number
read_number none = none
read_number (some v) = to_number v

abbrev pub in_range : ℕ → ℕ → Option Number → Attempt Number
in_range low high none = err (http_error 400 "Numeric value is out of range")
in_range low high (some n) =
    if at_least low n && no_more high n
    then ok n
    else err (http_error 400 "Numeric value is out of range")

unfoldable pub bounded : Option Json → ℕ → ℕ → ℕ → Attempt Number
bounded value low high fallback =
    in_range low high (if is_missing value then some (whole fallback) else read_number value)

-- `Number.isInteger(number) && number >= 0`
abbrev natural : Option Number → Option ℕ
natural none = none
natural (some n) = if at_least 0 n && is_whole n then some (truncated n) else none

unfoldable pub optional_integer : Option Json → Attempt (Option ℕ)
optional_integer none = ok none
optional_integer (some v) =
    or_throw (map_option some (natural (to_number v))) (http_error 400 "Invalid version")

unfoldable pub required_version : Option Json → Attempt ℕ
unfolding optional_integer
required_version value =
    optional_integer value >>= λ version. or_throw version (http_error 400 "Invalid version")

module _ (platform : Platform) where
  -- [a-z0-9 _-]
  abbrev is_tag_char : ℕ → Bool
  is_tag_char c = (leb b'a' c && leb c b'z') || is_digit c || c == b' ' || c == b'_' || c == b'-'

  unfoldable pub clean_tag : String → Attempt String
  clean_tag value =
      let tag = first_units 40 (keep_chars is_tag_char (platform.lower_case (trim value))) in
      if is_empty tag then err (http_error 400 "Invalid tag") else ok tag

  unfoldable pub clean_tags : List String → Attempt (List String)
  unfolding clean_tag
  clean_tags [] = ok []
  clean_tags (t ∷ ts) = clean_tag t >>= λ tag. clean_tags ts >>= λ tags. ok (tag ∷ tags)

  unfoldable pub decode : Option String → Attempt String
  decode none = err (http_error 400 "Missing resource identifier")
  decode (some value) =
      if is_empty value
      then err (http_error 400 "Missing resource identifier")
      else or_throw (platform.decode_uri_component value)
          (http_error 400 "Invalid resource identifier")

  unfoldable pub timezone : String → Attempt String
  timezone value =
      if platform.is_time_zone value then ok value else err (http_error 400 "Invalid timezone")

  max_body_bytes : ℕ
  max_body_bytes = 6 * 1024 * 1024

  -- The loop over the chunks of the request.
  unfoldable pub read_chunks : ℕ → List ℕ → List (List ℕ) → Attempt (List ℕ)
  unfolding max_body_bytes
  read_chunks size body [] = ok body
  read_chunks size body (chunk ∷ chunks) =
      let rest = read_chunks (size + length chunk) (body ++ chunk) chunks in
      if ltb max_body_bytes (size + length chunk)
      then err (http_error 413 "Request too large")
      else rest

  abbrev body_of : List ℕ → List ℕ
  body_of [] = b'{' ∷ b'}' ∷ []
  body_of (c ∷ cs) = c ∷ cs

  abbrev parsed : Attempt Members → Attempt Members
  parsed (ok ms) = ok ms
  parsed (err e) = err (http_error 400 "Invalid JSON body")

  unfoldable pub read_body : List (List ℕ) → Attempt Members
  unfolding read_chunks record_of
  read_body chunks =
      read_chunks 0 [] chunks >>= λ body. parsed (record_of (platform.parse_json (body_of body)))

unfoldable pub manual_title : String → String
manual_title state =
    if contains state "AUTH"
    then "Sign in required"
    else if contains state "SECURITY"
    then "Security challenge needs attention"
    else if str_eq state "FORM_CHANGED"
    then "Application form changed"
    else if str_eq state "POLICY_BLOCKED"
    then "Connector policy blocked this application"
    else "Application needs manual review"
