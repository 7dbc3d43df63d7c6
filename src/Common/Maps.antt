-- ===== src/Common/Maps.antt =====
-- A `Map` with text keys, as the list of its entries in the order of their first insertion.
use Prim.Native.String.{String}
use mathlib.Core.Path.{◌≡◌, refl}
use mathlib.Core.Logic.{inl, inr}
use mathlib.Core.Bool.{false}
use mathlib.Core.Option.{Option, none, some}
use mathlib.Core.List.{List, [], ◌∷◌}
use native.Mathlib.Omega.{arith}
use text.Mathlib.Text.{◌==◌ as str_eq}
use text.Mathlib.TextPositions.{eq_refl}
use extension_jobs.Common.Tests.{if◌then◌else◌, Bool-cases, str_eq→eq}

module _ {A : Type 0} where
  abbrev pub map_get : String → List (String × A) → Option A
  map_get k [] = none
  map_get k ((j, a) ∷ m) = let rest = map_get k m in if str_eq j k then some a else rest

  abbrev pub map_set : String → A → List (String × A) → List (String × A)
  map_set k a [] = (k, a) ∷ []
  map_set k a ((j, b) ∷ m) =
      let rest = map_set k a m in if str_eq j k then (j, a) ∷ m else (j, b) ∷ rest

  abbrev pub map_delete : String → List (String × A) → List (String × A)
  map_delete k [] = []
  map_delete k ((j, b) ∷ m) =
      let rest = map_delete k m in if str_eq j k then rest else (j, b) ∷ rest

  pub map_get-map_set :
      (k : String) (a : A) (m : List (String × A)) → map_get k (map_set k a m) ≡ some a
  map_get-map_set k a [] = ground (arith, eq_refl k)
  map_get-map_set k a ((j, b) ∷ m) = ground (arith, map_get-map_set k a m)

  pub map_get-map_set_other :
      (i k : String) (a : A) (m : List (String × A))
      → str_eq k i ≡ false
      → map_get i (map_set k a m) ≡ map_get i m
  map_get-map_set_other i k a [] h = ground arith
  map_get-map_set_other i k a ((j, b) ∷ m) h = elim (Bool-cases (str_eq j k)) [
    | inl same ↦ rw (same, str_eq→eq j k same, h) refl
    | inr other ↦ ground (arith, map_get-map_set_other i k a m h)
  ]

  pub map_get-map_delete : (k : String) (m : List (String × A)) → map_get k (map_delete k m) ≡ none
  map_get-map_delete k [] = refl
  map_get-map_delete k ((j, b) ∷ m) = ground (arith, map_get-map_delete k m)
