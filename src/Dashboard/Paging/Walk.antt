-- ===== src/Dashboard/Paging/Walk.antt =====
-- A client that follows the cursors of `page` of apps/orchestrator/src/dashboard-api.ts.
use native.Mathlib.Nat.{le-div_iff_mul-le, one-le-pow}
use extension_jobs.Common.{
  ℕ, zero, suc, ◌+◌, ◌-◌, ◌*◌, ◌≤◌, ◌<◌, String, Bool, true, false, not, ◌&&◌, ◌||◌, ◌==◌, subst,
  and_left, ok_injective, ok_not_err, Option, none, some, List, [], ◌∷◌, ◌++◌, ◌≡◌, refl, sym, ap,
  ◌∙◌, arith, ltb, leb, length, take, drop, length-take, length-drop, take-drop, drop-drop,
  take_all, ok, ◌>>=◌, Bool-cases, inl, inr, if◌then◌else◌,
}
use extension_jobs.Json.{Json, Number, string, truncated, denominator, at_least, no_more, whole}
use extension_jobs.Json.Decimal.{to_decimal, number_of_codes-to_decimal, to_decimal_nonempty}
use extension_jobs.Contracts.Dashboard.{CursorPage}
use extension_jobs.Dashboard.{Attempt, Platform}
use extension_jobs.Dashboard.Values.{bounded, in_range, is_missing, read_number}
use extension_jobs.Dashboard.Paging.{Query, cursor_offset, page_from, page, whole_offset}

module _ (platform : Platform) {A : Type 0} (items : List A) (limit : String) where
  abbrev query_at : Option String → Query
  query_at none = ("limit", limit) ∷ []
  query_at (some cursor) = ("limit", limit) ∷ ("cursor", cursor) ∷ []

  abbrev walk_on : (Option String → Attempt (List A)) → CursorPage A → Attempt (List A)
  walk_on next p = elim p.next_cursor [
    | none ↦ ok p.items
    | some cursor ↦ next (some cursor) >>= λ rest. ok (p.items ++ rest)
  ]

  -- The items of the pages that at most `fuel` requests get.
  unfoldable pub walk : ℕ → Option String → Attempt (List A)
  unfolding page
  walk zero cursor = ok []
  walk (suc fuel) cursor =
      page platform items (query_at cursor) >>= walk_on (λ next. walk fuel next)

  page_at :
      (n : Number) (offset : ℕ) (cursor : Option String)
      → bounded (some (string limit)) 1 100 25 ≡ ok n
      → cursor_offset platform cursor ≡ ok offset
      → page platform items (query_at cursor) ≡ ok (page_from platform items (truncated n) offset)
  unfolding page
  page_at n offset none bound at = ground arith
  page_at n offset (some cursor) bound at = ground arith

one-le-truncated : (n : Number) → at_least 1 n ≡ true → 1 ≤ truncated n
one-le-truncated n h =
    let power : 1 ≤ denominator n = one-le-pow n.scale 10 (omega arith) in
    let positive : 0 < denominator n = omega (arith, power) in
    (le-div_iff_mul-le {k = denominator n} {x = 1} {y = n.digits} positive).1
      (enough n.negative n.digits (denominator n) h)
  where
    enough :
        (negative : Bool) (digits d : ℕ)
        → ((not negative || digits == 0) && leb (1 * d) digits) ≡ true
        → 1 * d ≤ digits
    enough negative digits d h = ground arith

at_least_low :
    (o : Option Number) (low high : ℕ) {n : Number}
    → in_range low high o ≡ ok n
    → at_least low n ≡ true
at_least_low none low high {n} e = ground arith
at_least_low (some m) low high {n} e = elim (Bool-cases (at_least low m && no_more high m)) [
  | inl inside ↦
      let same : m ≡ n = ok_injective (rw inside at e) in
      subst (λ k. at_least low k ≡ true) same (and_left (at_least low m) (no_more high m) inside)
  | inr outside ↦ absurd (ok_not_err (sym (rw outside at e)))
]

bounded_low :
    (value : Option Json) (low high fallback : ℕ) {n : Number}
    → bounded value low high fallback ≡ ok n
    → at_least low n ≡ true
unfolding bounded
bounded_low value low high fallback {n} e =
    at_least_low (if is_missing value then some (whole fallback) else read_number value) low high e

module _ (platform : Platform) {A : Type 0} (items : List A) (limit : String) where
  -- More items than the page has: the page is full.
  full_page :
      (k offset : ℕ)
      → offset ≤ length items
      → ltb (offset + length (take k (drop offset items))) (length items) ≡ true
      → length (take k (drop offset items)) ≡ k
  full_page k offset ho more =
      ground (arith, length-take k (drop offset items), length-drop offset items)

  last_page :
      (k offset : ℕ)
      → offset ≤ length items
      → ltb (offset + length (take k (drop offset items))) (length items) ≡ false
      → take k (drop offset items) ≡ drop offset items
  last_page k offset ho last =
      take_all k (drop offset items)
        (ground (arith, length-take k (drop offset items), length-drop offset items))

  -- A cursor of `page` is read back.
  cursor_offset-to_decimal :
      (n : ℕ) (cursor : String)
      → platform.from_base64url cursor ≡ to_decimal n
      → platform.from_base64url "" ≡ []
      → n ≤ 1000000
      → cursor_offset platform (some cursor) ≡ ok n
  unfolding cursor_offset
  cursor_offset-to_decimal n String.[] e em small = absurd (to_decimal_nonempty n (sym e ∙ em))
  cursor_offset-to_decimal n (String.◌∷◌ c s) e em small =
      rw (e, number_of_codes-to_decimal n) (in_bounds n small)
    where
      in_bounds : (n : ℕ) → n ≤ 1000000 → whole_offset platform (some (whole n)) ≡ ok n
      in_bounds n small = ground arith

  rejoin :
      (k count offset : ℕ)
      → count ≡ k
      → take k (drop offset items) ++ drop (offset + count) items ≡ drop offset items
  rejoin k count offset full =
      ap (λ ys. take k (drop offset items) ++ ys)
        (ap (λ m. drop (offset + m) items) full ∙ sym (drop-drop k offset items))
      ∙ take-drop k (drop offset items)

  walk-drop :
      (n : Number) (fuel offset : ℕ) (cursor : Option String)
      → ((cs : List ℕ) → platform.from_base64url (platform.to_base64url cs) ≡ cs)
      → platform.from_base64url "" ≡ []
      → length items ≤ 1000000
      → bounded (some (string limit)) 1 100 25 ≡ ok n
      → cursor_offset platform cursor ≡ ok offset
      → offset ≤ length items
      → length items - offset < fuel
      → walk platform items limit fuel cursor ≡ ok (drop offset items)
  unfolding walk
  walk-drop n zero offset cursor back blank small bound at ho hf = absurd (omega arith)
  walk-drop n (suc fuel) offset cursor back blank small bound at ho hf =
      let k : ℕ = truncated n in
      let values : List A = take k (drop offset items) in
      let next : ℕ = offset + length values in
      rw (page_at platform items limit n offset cursor bound at)
        (elim (Bool-cases (ltb next (length items))) [
          | inl more ↦
              let full : length values ≡ k = full_page k offset ho more in
              let progress : 1 ≤ k =
                one-le-truncated n (bounded_low (some (string limit)) 1 100 25 bound) in
              let cursor_next : String = platform.to_base64url (to_decimal next) in
              let rest : walk platform items limit fuel (some cursor_next) ≡ ok (drop next items) =
                walk-drop n fuel next (some cursor_next) back blank small bound
                  (cursor_offset-to_decimal next cursor_next (back (to_decimal next)) blank
                    (ground arith))
                  (ground arith) (ground arith) in
              rw (more, rest) (ap ok (rejoin k (length values) offset full))
          | inr last ↦ rw (last, last_page k offset ho last) refl
        ])

  -- Following the cursors from the first page, with a limit that `bounded` accepts, gets every item once
  -- and in order, for a list of at most a million items, which is the greatest offset that a cursor may
  -- have. Base64url is read back, and the empty text is read as no bytes. One request more than there are
  -- items is enough.
  pub walk-pages :
      (n : Number)
      → ((cs : List ℕ) → platform.from_base64url (platform.to_base64url cs) ≡ cs)
      → platform.from_base64url "" ≡ []
      → length items ≤ 1000000
      → bounded (some (string limit)) 1 100 25 ≡ ok n
      → walk platform items limit (suc (length items)) none ≡ ok items
  unfolding cursor_offset
  walk-pages n back blank small bound =
      walk-drop n (suc (length items)) 0 none back blank small bound refl (omega arith)
        (omega arith)
