-- ===== src/Store/Clients/Scopes.antt =====
-- What the enrolment of a client leaves for `authorizeClient` of apps/orchestrator/src/store.ts to read.
use extension_jobs.Common.{
  ◌∙◌, ℕ, String, Bool, true, false, not, ◌&&◌, Option, none, some, List, [], ◌∷◌, ◌≡◌, refl, sym,
  ap, subst, arith, str_eq, eq_refl, str_eq→eq, ltb, any, all, includes, All, All-append,
  update_where, Bool-cases, inl, inr, ok, ok_not_err, if◌then◌else◌,
}
use extension_jobs.Store.Boards.{upsert}
use extension_jobs.Store.Clients.{
  AuthToken, Clients, latest_of, newer, token_id, enroll_client, authorize_client, holds_token,
}

-- Every row of a client has the scopes.
abbrev Scoped : String → List String → AuthToken → Type 0
Scoped id scopes r = str_eq r.client_id id ≡ true → r.scopes ≡ scopes

picked :
    (scopes : List String) (x : AuthToken) (o : Option AuthToken) (mine : Bool) {r : AuthToken}
    → (mine ≡ true → x.scopes ≡ scopes)
    → ((y : AuthToken) → o ≡ some y → y.scopes ≡ scopes)
    → (if mine then newer x o else o) ≡ some r
    → r.scopes ≡ scopes
picked scopes x o false {r} hx ho e = ho r e
picked scopes x none true {r} hx ho e =
    let same : x ≡ r = cc in subst (λ y. y.scopes ≡ scopes) same (hx refl)
picked scopes x (some y) true {r} hx ho e = elim (Bool-cases (ltb x.created_at y.created_at)) [
  | inl older ↦ ho r (rw older at e)
  | inr first ↦
      let there : Path (Option AuthToken) (some x) (some r) = rw first at e in
      let same : x ≡ r = cc in subst (λ y. y.scopes ≡ scopes) same (hx refl)
]

latest_of-Scoped :
    (id : String) (scopes : List String) (rows : List AuthToken) (r : AuthToken)
    → All (Scoped id scopes) rows
    → latest_of id rows ≡ some r
    → r.scopes ≡ scopes
latest_of-Scoped id scopes [] r h e = absurd (cc)
latest_of-Scoped id scopes (x ∷ rows) r h e =
    picked scopes x (latest_of id rows) (str_eq x.client_id id) h.0
      (λ y. latest_of-Scoped id scopes rows y h.1) e

not_all :
    (scope : String) (held required : List String)
    → includes scope required ≡ true
    → includes scope held ≡ false
    → all (λ scope. includes scope held) required ≡ false
not_all scope held [] asked lacking = absurd (cc)
not_all scope held (s ∷ required) asked lacking = elim (Bool-cases (str_eq s scope)) [
  | inl same ↦ rw (str_eq→eq s scope same, lacking) refl
  | inr other ↦ ground (arith, not_all scope held required)
]

-- The id of a row of a token is made from the id of its client.
abbrev pub HasTokenId : (String → String) → AuthToken → Type 0
HasTokenId sha256 r = r.id ≡ token_id sha256 r.client_id

module _ (sha256 : String → String) (id : String) (scopes : List String) where
  missed :
      (x : AuthToken)
      → HasTokenId sha256 x
      → str_eq x.id (token_id sha256 id) ≡ false
      → Scoped id scopes x
  missed x named miss mine =
      let same : x.id ≡ token_id sha256 id =
        named ∙ ap (token_id sha256) (str_eq→eq x.client_id id mine) in
      absurd (cc (rw (same, eq_refl (token_id sha256 id)) at miss))

  kept-Scoped :
      (rows : List AuthToken)
      → All (HasTokenId sha256) rows
      → any (λ r. str_eq r.id (token_id sha256 id)) rows ≡ false
      → All (Scoped id scopes) rows
  kept-Scoped [] named none_there = tt
  kept-Scoped (x ∷ rows) named none_there =
      (missed x named.0 (ground arith), kept-Scoped rows named.1 (ground arith))

  updated-Scoped :
      (f : AuthToken → AuthToken) (rows : List AuthToken)
      → ((r : AuthToken) → (f r).scopes ≡ scopes)
      → All (HasTokenId sha256) rows
      → All (Scoped id scopes) (update_where (λ r. str_eq r.id (token_id sha256 id)) f rows)
  updated-Scoped f [] set named = tt
  updated-Scoped f (x ∷ rows) set named = (first, updated-Scoped f rows set named.1)
    where
      first : Scoped id scopes (if str_eq x.id (token_id sha256 id) then f x else x)
      first = elim (Bool-cases (str_eq x.id (token_id sha256 id))) [
        | inl hit ↦ rw hit (λ _. set x)
        | inr miss ↦ rw miss (missed x named.0 miss)
      ]

  upserted-Scoped :
      (f : AuthToken → AuthToken) (fresh : AuthToken) (rows : List AuthToken)
      → ((r : AuthToken) → (f r).scopes ≡ scopes)
      → fresh.scopes ≡ scopes
      → All (HasTokenId sha256) rows
      → All (Scoped id scopes) (upsert (λ r. str_eq r.id (token_id sha256 id)) f fresh rows)
  upserted-Scoped f fresh rows set new named =
      elim (Bool-cases (any (λ r. str_eq r.id (token_id sha256 id)) rows)) [
        | inl hit ↦ rw hit (updated-Scoped f rows set named)
        | inr miss ↦ rw miss (
            All-append (Scoped id scopes) rows (fresh ∷ []) (kept-Scoped rows named miss)
              ((λ _. new), tt))
      ]

module _ (sha256 : String → String) (now : ℕ) (id name token : String) (scopes : List String)
    (expires_at : Option ℕ) where
  enrolled-Scoped :
      (t : Clients)
      → All (HasTokenId sha256) t.auth_tokens
      → (enroll_client sha256 now id name token scopes expires_at t).1 ≡ ok tt
      → All
          (Scoped id scopes)
          (enroll_client sha256 now id name token scopes expires_at t).0.auth_tokens
  unfolding enroll_client
  enrolled-Scoped t named e =
      elim (Bool-cases (
        any (λ r. str_eq r.token_hash (sha256 token) && not (str_eq r.id (token_id sha256 id)))
          t.auth_tokens)) [
            | inl taken ↦ absurd (ok_not_err (sym (rw taken at e)))
            | inr free ↦
                rw free (upserted-Scoped sha256 id scopes _ _ t.auth_tokens (λ r. refl) refl named)
          ]

  -- A client that is enrolled without a scope is refused where the scope is required, whatever its token
  -- was before, and whatever token it shows.
  pub enrolled_refused :
      (t : Clients) (later : ℕ) (shown scope : String) (required : List String)
      → All (HasTokenId sha256) t.auth_tokens
      → (enroll_client sha256 now id name token scopes expires_at t).1 ≡ ok tt
      → includes scope required ≡ true
      → includes scope scopes ≡ false
      → authorize_client sha256 later id shown
          (some required)
          (enroll_client sha256 now id name token scopes expires_at t).0
        ≡ false
  unfolding authorize_client
  enrolled_refused t later shown scope required named e asked lacking =
      held (latest_of id (enroll_client sha256 now id name token scopes expires_at t).0.auth_tokens)
        (λ r.
          latest_of-Scoped id scopes
            (enroll_client sha256 now id name token scopes expires_at t).0.auth_tokens r
            (enrolled-Scoped t named e))
    where
      held :
          (o : Option AuthToken)
          → ((r : AuthToken) → o ≡ some r → r.scopes ≡ scopes)
          → holds_token sha256 later shown (some required) o ≡ false
      held none h = refl
      held (some r) h =
          let lacks : all (λ scope. includes scope r.scopes) required ≡ false =
            rw (h r refl) (not_all scope scopes required asked lacking) in
          ground arith
