-- ===== src/Json/Decimal.antt =====
-- `String(n)` of a whole number, and that `Number` reads it back.
use extension_jobs.Common.{
  ℕ, zero, suc, ◌+◌, ◌*◌, ◌/◌, ◌%◌, ◌<◌, ◌≡◌, ◌≢◌, refl, subst, arith, some, List, [], ◌∷◌, ltb,
  Bool-cases, if◌then◌else◌, inl, inr,
}
use extension_jobs.Json.{take_digits, number_of_codes, whole}

-- The digits of n before `out`; a number has fewer digits than its value, or one.
abbrev pub decimal : ℕ → ℕ → List ℕ → List ℕ
decimal zero n out = out
decimal (suc fuel) n out =
    let rest = decimal fuel (n / 10) ((b'0' + n % 10) ∷ out) in
    if ltb n 10 then (b'0' + n) ∷ out else rest

unfoldable pub to_decimal : ℕ → List ℕ
to_decimal n = decimal (suc n) n []

one_digit :
    (value count d : ℕ) (cs : List ℕ)
    → d < 10
    → take_digits value count ((b'0' + d) ∷ cs) ≡ take_digits (value * 10 + d) (suc count) cs
one_digit value count d cs h = ground arith

digit_lem :
    (value count d n : ℕ) (cs : List ℕ)
    → d < 10
    → value * 10 + d ≡ n
    → take_digits value count ((b'0' + d) ∷ cs) ≡ take_digits n (suc count) cs
digit_lem value count d n cs h e =
    subst (λ m. take_digits value count ((b'0' + d) ∷ cs) ≡ take_digits m (suc count) cs) e
      (one_digit value count d cs h)

take_digits-decimal :
    (fuel n : ℕ) (out : List ℕ)
    → n < fuel
    → (w : ℕ) × (take_digits 0 0 (decimal fuel n out) ≡ take_digits n (suc w) out)
take_digits-decimal zero n out h = absurd (omega arith)
take_digits-decimal (suc fuel) n out h = elim (Bool-cases (ltb n 10)) [
  | inl small ↦ (0, rw small (digit_lem 0 0 n n out (ground arith) (omega arith)))
  | inr large ↦
      let (w, e) = take_digits-decimal fuel (n / 10) ((b'0' + n % 10) ∷ out) (ground arith) in
      (suc w, rw (large, e) (digit_lem (n / 10) (suc w) (n % 10) n out (omega arith) (omega arith)))
]

-- The first character is a digit.
starts_with_digit :
    (fuel n : ℕ) (out : List ℕ)
    → n < fuel
    → (d : ℕ) × (ds : List ℕ) × (d < 10) × (decimal fuel n out ≡ (b'0' + d) ∷ ds)
starts_with_digit zero n out h = absurd (omega arith)
starts_with_digit (suc fuel) n out h = elim (Bool-cases (ltb n 10)) [
  | inl small ↦ (n, out, ground arith, rw small refl)
  | inr large ↦
      let (d, ds, lt, e) = starts_with_digit fuel (n / 10) ((b'0' + n % 10) ∷ out) (ground arith) in
      (d, ds, lt, rw large e)
]

read_digits :
    (d : ℕ) (ds : List ℕ) (n w : ℕ)
    → d < 10
    → take_digits 0 0 ((b'0' + d) ∷ ds) ≡ take_digits n (suc w) []
    → number_of_codes ((b'0' + d) ∷ ds) ≡ some (whole n)
unfolding number_of_codes
read_digits d ds n w h e = ground arith

-- What `String` prints, `Number` reads.
pub number_of_codes-to_decimal : (n : ℕ) → number_of_codes (to_decimal n) ≡ some (whole n)
unfolding to_decimal
number_of_codes-to_decimal n =
    let (d, ds, lt, first) = starts_with_digit (suc n) n [] (omega arith) in
    let (w, read) = take_digits-decimal (suc n) n [] (omega arith) in
    rw first (read_digits d ds n w lt (rw first at read))

pub to_decimal_nonempty : (n : ℕ) → to_decimal n ≢ []
unfolding to_decimal
to_decimal_nonempty n h =
    let (d, ds, lt, first) = starts_with_digit (suc n) n [] (omega arith) in cc (rw first at h)
