-- ===== src/Dashboard/Paging.antt =====
-- `page` and `cursorOffset` of apps/orchestrator/src/dashboard-api.ts.
pub mod Walk
use extension_jobs.Common.{
  ℕ, ◌+◌, ◌/◌, ◌%◌, String, Bool, true, false, ◌&&◌, Option, none, some, List, [], ◌∷◌, ltb, leb,
  ◌==◌, length, take, drop, is_empty, map_get, map_option, Result, ok, err, ◌>>=◌, if◌then◌else◌,
}
use extension_jobs.Json.{
  Json, string, null, Number, at_least, no_more, is_whole, truncated, number_of_codes,
}
use extension_jobs.Json.Decimal.{to_decimal}
use extension_jobs.Contracts.Dashboard.{CursorPage}
use extension_jobs.Dashboard.{Attempt, Platform, http_error}
use extension_jobs.Dashboard.Values.{bounded}

-- `url.searchParams.get(name)`
abbrev pub Query : Type 0
Query = List (String × String)

abbrev pub param : String → Query → Option Json
param name query = map_option string (map_get name query)

module _ (platform : Platform) where
  abbrev pub whole_offset : Option Number → Attempt ℕ
  whole_offset none = err (http_error 400 "Invalid cursor")
  whole_offset (some n) =
      if at_least 0 n && is_whole n && no_more 1000000 n
      then ok (truncated n)
      else err (http_error 400 "Invalid cursor")

  unfoldable pub cursor_offset : Option String → Attempt ℕ
  cursor_offset none = ok 0
  cursor_offset (some value) =
      if is_empty value
      then ok 0
      else whole_offset (number_of_codes (platform.from_base64url value))

  -- `items.slice(offset, offset + limit)`: the end is rounded down.
  abbrev pub page_from : {A : Type 0} → List A → ℕ → ℕ → CursorPage A
  page_from items limit offset =
      let values = take limit (drop offset items) in
      let next = offset + length values in
      record {
        items = values;
        next_cursor =
            if ltb next (length items)
            then some (platform.to_base64url (to_decimal next))
            else none;
        total = length items;
      }

  unfoldable pub page : {A : Type 0} → List A → Query → Attempt (CursorPage A)
  unfolding bounded cursor_offset
  page items query = bounded (param "limit" query) 1 100 25 >>= λ limit.
      cursor_offset (map_get "cursor" query) >>= λ offset.
      ok (page_from items (truncated limit) offset)
