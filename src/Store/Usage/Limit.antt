-- ===== src/Store/Usage/Limit.antt =====
-- The daily limit of a campaign holds (apps/orchestrator/src/store.ts).
use extension_jobs.Common.{
  ℕ, ◌+◌, ◌≤◌, ◌≡◌, inl, inr, String, Bool, true, false, ◌&&◌, ◌||◌, not, List, [], ◌∷◌, arith, all,
  ltb, leb, str_eq, eq_iff, Result, ok, err, Bool-cases, if◌then◌else◌,
}
use extension_jobs.Store.Usage.{
  Usage, UsageError, is_day_key, reserve_row, reserve_campaign_application,
}
use extension_jobs.Store.Usage.Granted.{used, Once, reserve_row_lem, reserve_row_other}

-- A call of `reserveCampaignApplication`.
pub record Reservation : Type 0 where
  pub now : ℕ
  pub campaign : String
  pub day : String
  pub maximum : ℕ

abbrev after_reserve : List Usage → Result UsageError (List Usage × Bool) → List Usage × Bool
after_reserve us (ok r) = r
after_reserve us (err e) = (us, false)

unfoldable pub step : List Usage → Reservation → List Usage × Bool
step us r = after_reserve us (reserve_campaign_application r.now r.campaign r.day r.maximum us)

abbrev is_for : String → String → Reservation → Bool
is_for c d r = str_eq r.campaign c && str_eq r.day d

-- How many reservations for the campaign on the day are granted.
unfoldable pub granted : String → String → List Usage → List Reservation → ℕ
granted c d us [] = 0
granted c d us (r ∷ rs) =
    (if is_for c d r && (step us r).1 then 1 else 0) + granted c d (step us r).0 rs

-- Every call for the campaign on the day has at most this maximum.
abbrev pub within : String → String → ℕ → List Reservation → Bool
within c d m rs = all (λ r. not (is_for c d r) || leb r.maximum m) rs

row_step :
    (c d campaign day : String) (now maximum m : ℕ) (us : List Usage)
    → Once c d us
    → used c d us ≤ m
    → (not (str_eq campaign c && str_eq day d) || leb maximum m) ≡ true
    → (let (us', done) = reserve_row now campaign day maximum us in
        (used c d us'
          ≡ (if (str_eq campaign c && str_eq day d) && done then 1 else 0) + used c d us)
        × (used c d us' ≤ m)
        × Once c d us')
row_step c d campaign day now maximum m us o h w =
    elim (Bool-cases (str_eq campaign c && str_eq day d)) [
      | inl same ↦
          let at_campaign : campaign ≡ c = ground (arith, eq_iff campaign c) in
          let at_day : day ≡ d = ground (arith, eq_iff day d) in
          rw (same, at_campaign, at_day) (own (rw same at w))
      | inr other ↦
          let (same_use, same_rows) = reserve_row_other campaign day c d other now maximum us in
          rw other (omega (arith, same_use), omega (arith, same_use), omega (arith, same_rows))
    ]
  where
    own :
        (false || leb maximum m) ≡ true
        → (let (us', done) = reserve_row now c d maximum us in
            (used c d us' ≡ (if done then 1 else 0) + used c d us)
            × (used c d us' ≤ m)
            × Once c d us')
    own below =
        let (granted, more, once) = reserve_row_lem now c d maximum us o in
        (rw granted (ground arith), ground arith, once)

granted_step :
    (c d : String) (m : ℕ) (us : List Usage) (r : Reservation)
    → Once c d us
    → used c d us ≤ m
    → (not (is_for c d r) || leb r.maximum m) ≡ true
    → (used c d (step us r).0 ≡ (if is_for c d r && (step us r).1 then 1 else 0) + used c d us)
      × (used c d (step us r).0 ≤ m)
      × Once c d (step us r).0
unfolding step reserve_campaign_application
granted_step c d m us r o h w = elim (Bool-cases (is_day_key r.day && ltb 0 r.maximum)) [
  | inl valid ↦ rw valid (row_step c d r.campaign r.day r.now r.maximum m us o h w)
  | inr refused ↦ rw refused (ground arith, h, o)
]

granted-used :
    (c d : String) (m : ℕ) (us : List Usage) (rs : List Reservation)
    → Once c d us
    → used c d us ≤ m
    → within c d m rs ≡ true
    → granted c d us rs + used c d us ≤ m
unfolding granted
granted-used c d m us [] o h w = omega arith
granted-used c d m us (r ∷ rs) o h w =
    let (more, below, once) = granted_step c d m us r o h (ground arith) in
    omega (arith, more, granted-used c d m (step us r).0 rs once below (ground arith))

-- From an empty table, whatever is reserved for whatever campaigns, days and maxima: at most m
-- applications of a campaign are granted for a day, if no call for them has a maximum over m.
pub granted_bound :
    (c d : String) (m : ℕ) (rs : List Reservation) → within c d m rs ≡ true → granted c d [] rs ≤ m
granted_bound c d m rs w = omega (arith, granted-used c d m [] rs (omega arith) (omega arith) w)
