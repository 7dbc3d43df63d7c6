-- ===== src/Queue/Claims.antt =====
-- Which row `claim` of packages/persistence/src/queue.ts selects.
use extension_jobs.Common.{
  subst, ◌≡◌, refl, inl, inr, Bool, true, false, none, some, List, [], ◌∷◌, map, arith, any,
  find-any, find_by, All, All-map, All-none, if◌then◌else◌, not, ◌&&◌, Distinct, includes-map,
  eq_refl, str_eq→eq, str_eq, Bool-cases, Option-cases, includes,
}
use extension_jobs.Queue.{Row, select_first, is_before}

-- The selected row meets the condition.
pub select_first_holds :
    (p : Row → Bool) (rs : List Row) {r : Row} → select_first p rs ≡ some r → p r ≡ true
unfolding select_first
select_first_holds p [] {r} e = ground arith
select_first_holds p (x ∷ xs) {r} e = elim (Option-cases (select_first p xs)) [
  | inl n ↦ ground arith
  | inr (s, m) ↦ ground (arith, select_first_holds p xs m)
]

absent_ne :
    (x s : Row) (xs : List Row)
    → includes x.id (map (λ (r : Row). r.id) xs) ≡ false
    → find_by (λ (r : Row). r.id) s.id xs ≡ some s
    → str_eq x.id s.id ≡ false
absent_ne x s xs n e = elim (Bool-cases (str_eq x.id s.id)) [
  | inl same ↦
      let same_id : x.id ≡ s.id = str_eq→eq x.id s.id same in
      let found : any (λ (r : Row). str_eq r.id x.id) xs ≡ true =
        rw same_id (find-any (λ (r : Row). str_eq r.id s.id) xs e) in
      ground (arith, includes-map (λ (r : Row). r.id) x.id xs)
  | inr other ↦ other
]

-- The id of the selected row names that row.
pub select_first-find :
    (p : Row → Bool) (rs : List Row) {r : Row}
    → Distinct (map (λ (x : Row). x.id) rs)
    → select_first p rs ≡ some r
    → find_by (λ (x : Row). x.id) r.id rs ≡ some r
unfolding select_first
select_first-find p [] {r} d e = ground arith
select_first-find p (x ∷ xs) {r} d e = elim (Option-cases (select_first p xs)) [
  | inl n ↦ ground (arith, eq_refl x.id)
  | inr (s, m) ↦
      let ih : find_by (λ (r : Row). r.id) s.id xs ≡ some s = select_first-find p xs d.1 m in
      ground (arith, eq_refl x.id, absent_ne x s xs d.0 ih)
]

pub select_first-none :
    (p : Row → Bool) (rs : List Row) → any p rs ≡ false → select_first p rs ≡ none
unfolding select_first
select_first-none p [] h = refl
select_first-none p (x ∷ xs) h = ground (arith, select_first-none p xs)

pub select_first-some :
    (p : Row → Bool) (rs : List Row) → any p rs ≡ true → (r : Row) × (select_first p rs ≡ some r)
unfolding select_first
select_first-some p [] h = ground arith
select_first-some p (x ∷ xs) h = elim (Option-cases (select_first p xs)) [
  | inl n ↦ (x, ground (arith, select_first-some p xs))
  | inr (s, m) ↦ (if p x then (if is_before s x then s else x) else s, ground arith)
]

none_meets : (p : Row → Bool) (rs : List Row) → select_first p rs ≡ none → any p rs ≡ false
none_meets p rs e = elim (Bool-cases (any p rs)) [
  | inl some_meet ↦ let (r, m) = select_first-some p rs some_meet in ground arith
  | inr none_meet ↦ none_meet
]

before_trans : (x s y : Row) → is_before y s ≡ false → is_before s x ≡ false → is_before y x ≡ false
before_trans x s y h k = ground arith

before_irrefl : (x : Row) → is_before x x ≡ false
before_irrefl x = ground arith

before_asym : (x s : Row) → is_before s x ≡ true → is_before x s ≡ false
before_asym x s h = ground arith

abbrev pub NotBefore : Row → (Row → Bool) → Row → Type 0
NotBefore r p x = p x ≡ true → is_before x r ≡ false

-- No row that meets the condition stands before the selected one.
pub select_first_least :
    (p : Row → Bool) (rs : List Row) {r : Row} → select_first p rs ≡ some r → All (NotBefore r p) rs
unfolding select_first
select_first_least p [] {r} e = tt
select_first_least p (x ∷ xs) {r} e = elim (Option-cases (select_first p xs)) [
  | inl n ↦ (ground arith, All-none (λ y. is_before y r ≡ false) p xs (none_meets p xs n))
  | inr (s, m) ↦
      let ih : All (NotBefore s p) xs = select_first_least p xs m in
      elim (Bool-cases (p x && not (is_before s x))) [
        | inl taken ↦
            let is_x : x ≡ r = ground arith in
            let not_yet : is_before s x ≡ false = ground arith in
            subst (λ z. All (NotBefore z p) (x ∷ xs)) is_x
              ((λ h. before_irrefl x), All-map xs (λ y h m'. before_trans x s y (h m') not_yet) ih)
        | inr passed ↦
            let is_s : s ≡ r = ground arith in
            subst (λ z. All (NotBefore z p) (x ∷ xs)) is_s (λ h. before_asym x s (ground arith), ih)
      ]
]
