-- ===== src/Store/Clients/Held.antt =====
-- What `authorizeClient` of apps/orchestrator/src/store.ts requires, in words of the columns of a token.
use extension_jobs.Common.{
  ℕ, ◌<◌, ◌≡◌, refl, sym, subst, String, true, not, ◌⊎◌, inl, inr, Option, none, some, List, [],
  ◌∷◌, arith, All, all, includes, ltb, is_some, str_eq, str_eq→eq, Bool-cases, Option-cases,
}
use extension_jobs.Store.Clients.{
  AuthToken, Clients, unexpired, newer, latest_of, holds_token, authorize_client,
}

-- No scope is required, or each one is there.
abbrev pub Grants : List String → Option (List String) → Type 0
Grants held none = Unit {0}
Grants held (some scopes) = All (λ s. includes s held ≡ true) scopes

-- The newest token of the client has the hash of what is shown and the scopes, is not revoked, and has no
-- end or one that is still to come.
abbrev pub Holds : (String → String) → ℕ → String → String → Option (List String) → Clients → Type 0
Holds sha256 now id token scope t =
    (row : AuthToken) × (latest_of id t.auth_tokens ≡ some row)
    × (row.client_id ≡ id)
    × (row.token_hash ≡ sha256 token)
    × (row.revoked_at ≡ none)
    × ((row.expires_at ≡ none) ⊎ ((e : ℕ) × (row.expires_at ≡ some e) × (now < e)))
    × Grants row.scopes scope

latest_client :
    (id : String) (rs : List AuthToken) {row : AuthToken}
    → latest_of id rs ≡ some row
    → str_eq row.client_id id ≡ true
latest_client id [] {row} e = absurd (cc e)
latest_client id (r ∷ rs) {row} e = elim (Bool-cases (str_eq r.client_id id)) [
  | inr other ↦ latest_client id rs (rw other at e)
  | inl mine ↦ elim (Option-cases (latest_of id rs)) [
    | inl n ↦
        let same : r ≡ row = cc (rw n at (rw mine at e)) in
        subst (λ x. str_eq x.client_id id ≡ true) same mine
    | inr (s, m) ↦ newer_client s (latest_client id rs m) (rw m at (rw mine at e)) mine
  ]
]
  where
    newer_client :
        (s : AuthToken)
        → str_eq s.client_id id ≡ true
        → newer r (some s) ≡ some row
        → str_eq r.client_id id ≡ true
        → str_eq row.client_id id ≡ true
    newer_client s h e mine = elim (Bool-cases (ltb r.created_at s.created_at)) [
      | inl older ↦
          let same : s ≡ row = cc (rw older at e) in
          subst (λ x. str_eq x.client_id id ≡ true) same h
      | inr not_older ↦
          let same : r ≡ row = cc (rw not_older at e) in
          subst (λ x. str_eq x.client_id id ≡ true) same mine
    ]

unrevoked : (o : Option ℕ) → not (is_some o) ≡ true → o ≡ none
unrevoked none e = refl
unrevoked (some t) e = absurd (cc e)

still_to_come :
    (now : ℕ) (o : Option ℕ)
    → unexpired now o ≡ true
    → (o ≡ none) ⊎ ((e : ℕ) × (o ≡ some e) × (now < e))
still_to_come now none h = inl refl
still_to_come now (some e) h = inr (e, refl, ground (arith, h))

each_scope :
    (held scopes : List String)
    → all (λ s. includes s held) scopes ≡ true
    → All (λ s. includes s held ≡ true) scopes
each_scope held [] h = tt
each_scope held (s ∷ scopes) h = (ground arith, each_scope held scopes (ground arith))

pub authorize_client-Holds :
    (sha256 : String → String) (now : ℕ) (id token : String) (scope : Option (List String))
    (t : Clients)
    → authorize_client sha256 now id token scope t ≡ true
    → Holds sha256 now id token scope t
unfolding authorize_client
authorize_client-Holds sha256 now id token scope t h =
    elim (Option-cases (latest_of id t.auth_tokens)) [
      | inl n ↦ absurd (cc (rw n at h))
      | inr (row, e) ↦ (
        row,
        e,
        str_eq→eq row.client_id id (latest_client id t.auth_tokens e),
        sym (str_eq→eq (sha256 token) row.token_hash (held row scope (rw e at h)).2),
        unrevoked row.revoked_at (held row scope (rw e at h)).0,
        still_to_come now row.expires_at (held row scope (rw e at h)).1,
        (held row scope (rw e at h)).3,
      )
    ]
  where
    held :
        (row : AuthToken) (o : Option (List String))
        → holds_token sha256 now token o (some row) ≡ true
        → (not (is_some row.revoked_at) ≡ true)
          × (unexpired now row.expires_at ≡ true)
          × (str_eq (sha256 token) row.token_hash ≡ true)
          × Grants row.scopes o
    held row none h = (ground arith, ground arith, ground arith, tt)
    held row (some scopes) h =
        (ground arith, ground arith, ground arith, each_scope row.scopes scopes (ground arith))
