-- ===== src/Common/Table.antt =====
-- SQL statements over a table, as a list of rows in rowid order.
use Prim.Native.Nat.{ℕ, suc}
use Prim.Native.String.{String}
use mathlib.Core.Path.{◌≡◌, refl, sym, subst, ap}
use mathlib.Core.Logic.{inl, inr}
use mathlib.Core.Bool.{Bool, true, false, ◌||◌}
use mathlib.Core.Option.{Option, none, some}
use mathlib.Core.List.{List, [], ◌∷◌, ◌++◌, map}
use native.Mathlib.Omega.{arith}
use text.Mathlib.Text.{◌==◌ as str_eq}
use text.Mathlib.TextEquality.{eq_iff}
use extension_jobs.Common.Tests.{if◌then◌else◌, Bool-cases, map_option, or_else, str_eq→eq}
use extension_jobs.Common.Lists.{All, any, insert, sort, find, find-any, includes}

module _ {ℓ} {A : Type ℓ} where
  -- UPDATE table SET f WHERE p
  abbrev pub update_where : (A → Bool) → (A → A) → List A → List A
  update_where p f [] = []
  update_where p f (x ∷ xs) = (if p x then f x else x) ∷ update_where p f xs

  -- The `changes` that an UPDATE or DELETE with this condition reports.
  abbrev pub changes : (A → Bool) → List A → ℕ
  changes p [] = 0
  changes p (x ∷ xs) = let rest = changes p xs in if p x then suc rest else rest

  -- DELETE FROM table WHERE p
  abbrev pub delete_where : (A → Bool) → List A → List A
  delete_where p [] = []
  delete_where p (x ∷ xs) = let rest = delete_where p xs in if p x then rest else x ∷ rest

  pub All-update_where {κ} :
      (P : A → Type κ) (p : A → Bool) (f : A → A) (xs : List A)
      → ((a : A) → p a ≡ true → P a → P (f a))
      → All P xs
      → All P (update_where p f xs)
  All-update_where P p f [] step h = tt
  All-update_where P p f (x ∷ xs) step h =
      (ground (arith, step x), All-update_where P p f xs step h.1)

  pub All-delete_where {κ} :
      (P : A → Type κ) (p : A → Bool) (xs : List A) → All P xs → All P (delete_where p xs)
  All-delete_where P p [] h = tt
  All-delete_where P p (x ∷ xs) h = ground (arith, All-delete_where P p xs h.1)

  -- A key that no UPDATE writes: the column of keys stays as it was.
  pub map-update_where {κ} :
      {K : Type κ} (k : A → K) (p : A → Bool) (f : A → A) (xs : List A)
      → ((a : A) → k (f a) ≡ k a)
      → map k (update_where p f xs) ≡ map k xs
  map-update_where k p f [] h = refl
  map-update_where k p f (x ∷ xs) h = ground (arith, map-update_where k p f xs h, h x)

  pub update_where_none :
      (p : A → Bool) (f : A → A) (xs : List A) → changes p xs ≡ 0 → update_where p f xs ≡ xs
  update_where_none p f [] h = refl
  update_where_none p f (x ∷ xs) h = ground (arith, update_where_none p f xs)

changes-insert {ℓ} :
    {A : Type ℓ} (p : A → Bool) (before : A → A → Bool) (x : A) (ys : List A)
    → changes p (insert before x ys) ≡ changes p (x ∷ ys)
changes-insert p before x [] = refl
changes-insert p before x (y ∷ ys) = ground (arith, changes-insert p before x ys)

pub changes-sort {ℓ} :
    {A : Type ℓ} (p : A → Bool) (before : A → A → Bool) (xs : List A)
    → changes p (sort before xs) ≡ changes p xs
changes-sort p before [] = refl
changes-sort p before (x ∷ xs) =
    ground (arith, changes-insert p before x (sort before xs), changes-sort p before xs)

pub find-none {ℓ} : {A : Type ℓ} (p : A → Bool) (xs : List A) → changes p xs ≡ 0 → find p xs ≡ none
find-none p [] h = refl
find-none p (x ∷ xs) h = ground (arith, find-none p xs)

pub map-append_one {ℓ κ} :
    {A : Type ℓ} {B : Type κ} (f : A → B) (xs : List A) (x : A)
    → map f (xs ++ x ∷ []) ≡ map f xs ++ f x ∷ []
map-append_one f [] x = refl
map-append_one f (y ∷ xs) x = ap (λ t. f y ∷ t) (map-append_one f xs x)

-- A column without repetitions: a primary key.
abbrev pub Distinct : List String → Type 0
Distinct [] = Unit
Distinct (k ∷ ks) = (includes k ks ≡ false) × Distinct ks

includes-append :
    (s k : String) (ks : List String) → includes s (ks ++ k ∷ []) ≡ (includes s ks || str_eq k s)
includes-append s k [] = ground arith
includes-append s k (j ∷ ks) = ground (arith, includes-append s k ks)

pub Distinct-append_one :
    (k : String) (ks : List String) → includes k ks ≡ false → Distinct ks → Distinct (ks ++ k ∷ [])
Distinct-append_one k [] n d = (refl, tt)
Distinct-append_one k (j ∷ ks) n d = (
  ground (arith, includes-append j k ks, eq_iff k j, eq_iff j k),
  Distinct-append_one k ks (ground arith) d.1,
)

module _ {ℓ} {A : Type ℓ} (key : A → String) where
  -- `SELECT … WHERE key=?`
  abbrev pub find_by : String → List A → Option A
  find_by k xs = find (λ a. str_eq (key a) k) xs

  pub find_by-none :
      (k : String) (xs : List A) → any (λ a. str_eq (key a) k) xs ≡ false → find_by k xs ≡ none
  find_by-none k [] h = refl
  find_by-none k (x ∷ xs) h = ground (arith, find_by-none k xs)

  pub includes-map :
      (k : String) (xs : List A) → includes k (map key xs) ≡ any (λ a. str_eq (key a) k) xs
  includes-map k [] = refl
  includes-map k (x ∷ xs) = ground (arith, includes-map k xs)

  pub find_by-update_where :
      (k : String) (p : A → Bool) (f : A → A) (xs : List A)
      → ((a : A) → key (f a) ≡ key a)
      → find_by k (update_where p f xs) ≡ map_option (λ a. if p a then f a else a) (find_by k xs)
  find_by-update_where k p f [] h = refl
  find_by-update_where k p f (x ∷ xs) h = ground (arith, h x, find_by-update_where k p f xs h)

  pub find_by-append :
      (k : String) (xs ys : List A) → find_by k (xs ++ ys) ≡ or_else (find_by k xs) (find_by k ys)
  find_by-append k [] ys = refl
  find_by-append k (x ∷ xs) ys = ground (arith, find_by-append k xs ys)

  -- An UPDATE that names one key changes one row at most.
  changes_absent :
      (k : String) (p : A → Bool) (xs : List A)
      → ((a : A) → p a ≡ true → key a ≡ k)
      → includes k (map key xs) ≡ false
      → changes p xs ≡ 0
  changes_absent k p [] h n = refl
  changes_absent k p (x ∷ xs) h n = ground (arith, h x, eq_iff (key x) k, changes_absent k p xs h)

  -- One if the row with the key meets the condition.
  abbrev pub one_if : (A → Bool) → Option A → ℕ
  one_if p none = 0
  one_if p (some a) = if p a then 1 else 0

  pub changes-find_by :
      (k : String) (p : A → Bool) (xs : List A)
      → ((a : A) → p a ≡ true → key a ≡ k)
      → Distinct (map key xs)
      → changes p xs ≡ one_if p (find_by k xs)
  changes-find_by k p [] h d = refl
  changes-find_by k p (x ∷ xs) h d = elim (Bool-cases (str_eq (key x) k)) [
    | inl same ↦
        rw same (ground (arith, changes_absent k p xs h (rw (str_eq→eq (key x) k same) at d.0)))
    | inr other ↦ ground (arith, h x, eq_iff (key x) k, changes-find_by k p xs h d.1)
  ]

  -- An UPDATE that names one key needs an invariant only at the row with that key.
  pub All-update_keyed {κ} :
      (P : A → Type κ) (k : String) (p : A → Bool) (f : A → A) (xs : List A) {a : A}
      → Distinct (map key xs)
      → find_by k xs ≡ some a
      → ((x : A) → p x ≡ true → key x ≡ k)
      → (p a ≡ true → P a → P (f a))
      → All P xs
      → All P (update_where p f xs)
  All-update_keyed P k p f [] d e n step h = tt
  All-update_keyed P k p f (x ∷ xs) {a} d e n step h = elim (Bool-cases (str_eq (key x) k)) [
    | inl same ↦
        let at_x : x ≡ a = ground arith in
        (
          ground (arith, subst (λ y. p y ≡ true → P y → P (f y)) (sym at_x) step),
          rw
              (update_where_none p f xs
                (changes_absent k p xs n (rw (str_eq→eq (key x) k same) at d.0)))
              h.1,
        )
    | inr other ↦ (
      ground (arith, n x, eq_iff (key x) k),
      All-update_keyed P k p f xs d.1 (rw other at e) n step h.1,
    )
  ]

  -- A SELECT that names one key finds the row with that key.
  pub find-find_by :
      (k : String) (p : A → Bool) (xs : List A) {a : A}
      → Distinct (map key xs)
      → ((x : A) → p x ≡ true → key x ≡ k)
      → find p xs ≡ some a
      → find_by k xs ≡ some a
  find-find_by k p [] {a} d n e = ground arith
  find-find_by k p (x ∷ xs) {a} d n e = elim (Bool-cases (p x)) [
    | inl hit ↦ ground (arith, n x hit, eq_iff (key x) k)
    | inr miss ↦
        let later : find p xs ≡ some a = rw miss at e in
        let ih : find_by k xs ≡ some a = find-find_by k p xs d.1 n later in
        let there : any (λ y. str_eq (key y) k) xs ≡ true =
          find-any (λ y. str_eq (key y) k) xs ih in
        elim (Bool-cases (str_eq (key x) k)) [
          | inl same ↦ ground (arith, includes-map k xs, rw (str_eq→eq (key x) k same) at d.0)
          | inr other ↦ rw other ih
        ]
  ]

  pub find_keyed :
      (k : String) (p : A → Bool) (xs : List A) {a : A}
      → Distinct (map key xs)
      → ((x : A) → p x ≡ true → key x ≡ k)
      → find_by k xs ≡ some a
      → p a ≡ true
      → find p xs ≡ some a
  find_keyed k p [] {a} d n e h = ground arith
  find_keyed k p (x ∷ xs) {a} d n e h = elim (Bool-cases (str_eq (key x) k)) [
    | inl same ↦
        let at_x : x ≡ a = ground arith in ground (arith, subst (λ y. p y ≡ true) (sym at_x) h)
    | inr other ↦
        ground (arith, n x, eq_iff (key x) k, find_keyed k p xs {a = a} d.1 n (rw other at e) h)
  ]

module _ {ℓ} {A : Type ℓ} where
  -- A DELETE leaves the rows that do not meet its condition.
  pub any-delete_where_kept :
      (q p : A → Bool) (xs : List A)
      → ((a : A) → q a ≡ true → p a ≡ false)
      → any q xs ≡ true
      → any q (delete_where p xs) ≡ true
  any-delete_where_kept q p [] h e = e
  any-delete_where_kept q p (x ∷ xs) h e = ground (arith, h x, any-delete_where_kept q p xs h)

  -- And it leaves no other.
  pub any-delete_where_gone :
      (q p : A → Bool) (xs : List A)
      → ((a : A) → q a ≡ true → p a ≡ true)
      → any q (delete_where p xs) ≡ false
  any-delete_where_gone q p [] h = refl
  any-delete_where_gone q p (x ∷ xs) h = ground (arith, h x, any-delete_where_gone q p xs h)

  pub any-delete_where-false :
      (q p : A → Bool) (xs : List A) → any q xs ≡ false → any q (delete_where p xs) ≡ false
  any-delete_where-false q p [] e = refl
  any-delete_where-false q p (x ∷ xs) e = ground (arith, any-delete_where-false q p xs)

module _ {ℓ} {A : Type ℓ} (key : A → String) where
  includes-delete_where :
      (k : String) (p : A → Bool) (xs : List A)
      → includes k (map key xs) ≡ false
      → includes k (map key (delete_where p xs)) ≡ false
  includes-delete_where k p [] h = refl
  includes-delete_where k p (x ∷ xs) h = ground (arith, includes-delete_where k p xs)

  pub Distinct-delete_where :
      (p : A → Bool) (xs : List A) → Distinct (map key xs) → Distinct (map key (delete_where p xs))
  Distinct-delete_where p [] d = tt
  Distinct-delete_where p (x ∷ xs) d =
      ground (arith, includes-delete_where (key x) p xs d.0, Distinct-delete_where p xs d.1)

pub changes-update_where {ℓ} :
    {A : Type ℓ} (q p : A → Bool) (f : A → A) (xs : List A)
    → ((a : A) → q (f a) ≡ q a)
    → changes q (update_where p f xs) ≡ changes q xs
changes-update_where q p f [] h = refl
changes-update_where q p f (x ∷ xs) h = ground (arith, h x, changes-update_where q p f xs h)
