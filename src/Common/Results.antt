-- ===== src/Common/Results.antt =====
-- Code that may throw: the error is a value. `do` chains such results.
use mathlib.Core.Path.{◌≡◌, refl, ap}
use mathlib.Core.Logic.{◌⊎◌, inl, inr}
use mathlib.Core.Bool.{Bool, true, false}
use mathlib.Core.Option.{Option, none, some}

pub data Result (E A : Type 0) : Type 0 where
  ok : A → Result E A
  err : E → Result E A

infixl 5 ◌>>=◌ ◌>>◌
abbrev pub ◌>>=◌ : {E A B : Type 0} → Result E A → (A → Result E B) → Result E B
ok a >>= f = f a
err e >>= f = err e

abbrev pub ◌>>◌ : {E B : Type 0} → Result E (Unit {0}) → Result E B → Result E B
m >> k = m >>= λ _. k

-- `if (!test) throw e`
abbrev pub guard : {E : Type 0} → Bool → E → Result E (Unit {0})
guard true e = ok tt
guard false e = err e

-- `x ?? throw e`
abbrev pub or_throw : {E A : Type 0} → Option A → E → Result E A
or_throw none e = err e
or_throw (some a) e = ok a

abbrev pub is_ok : {E A : Type 0} → Result E A → Bool
is_ok (ok a) = true
is_ok (err e) = false

pub Result-cases :
    {E A : Type 0} (r : Result E A) → ((a : A) × (r ≡ ok a)) ⊎ ((e : E) × (r ≡ err e))
Result-cases (ok a) = inl (a, refl)
Result-cases (err e) = inr (e, refl)

pub ok_injective : {E A : Type 0} {a b : A} → Path (Result E A) (ok a) (ok b) → a ≡ b
ok_injective {E = E} {A = A} {a = a} h = ap (value a) h
  where
    value : A → Result E A → A
    value d (ok x) = x
    value d (err e) = d

pub ok_not_err : {E A : Type 0} {a : A} {e : E} → Path (Result E A) (ok a) (err e) → ⊥
ok_not_err {a = a} {e = e} h = cc

pub err_injective : {E A : Type 0} {a b : E} → Path (Result E A) (err a) (err b) → a ≡ b
err_injective {E = E} {A = A} {a = a} h = ap (thrown a) h
  where
    thrown : E → Result E A → E
    thrown d (ok x) = d
    thrown d (err e) = e
