-- ===== src/Store/Approvals/Expired.antt =====
-- A request for an approval that has expired, in apps/orchestrator/src/store.ts: its row of
-- submission_approvals stays active, and is the one active row that its application may have.
use extension_jobs.Common.{
  ℕ, ◌≡◌, refl, sym, subst, inl, inr, String, Bool, true, false, ◌&&◌, ◌||◌, Option, none, some,
  List, [], ◌∷◌, arith, str_eq, str_eq→eq, any, find, keep, update_where, All, All-append,
  any-append, Bool-cases, Option-cases,
}
use extension_jobs.Store.Approvals.{
  ApprovalRequest, RequestRow, ApprovalRow, Approvals, expired, invalidated, put_request,
  put_approval, approval_row, renewed, is_active, conflicts, put_at, save_approval_request,
  status_eq, is_open, is_excepted, invalidate_one, invalidate_each, invalidate_approval_requests,
}

and_all : (x y z : Bool) → (x && y && z) ≡ true → (x ≡ true) × (y ≡ true) × (z ≡ true)
and_all x y z h = ground (arith, h)

or_true : (x : Bool) → (x || true) ≡ true
or_true x = ground arith

any-weaken {ℓ} :
    {A : Type ℓ} (p q : A → Bool) (xs : List A)
    → ((x : A) → p x ≡ true → q x ≡ true)
    → any p xs ≡ true
    → any q xs ≡ true
any-weaken p q [] k h = h
any-weaken p q (x ∷ xs) k h = ground (arith, k x, any-weaken p q xs k)

module _ (id application_id : String) where
  -- The request's row is expired, and its `data` names the row it stands in.
  abbrev pub Settled : RequestRow → Type 0
  Settled r =
      (r.record_data.id ≡ r.id) × (str_eq r.id id ≡ true → status_eq r.status expired ≡ true)

  abbrev pub is_blocking : ApprovalRow → Bool
  is_blocking r = str_eq r.id id && str_eq r.application_id application_id && is_active r

  -- The application is blocked by the request.
  pub record Blocked (t : Approvals) : Type 0 where
    pub requests : All Settled t.requests
    pub active : any is_blocking t.approvals ≡ true

  put_request_kept :
      (a : ApprovalRequest) (rows : List RequestRow)
      → str_eq a.id id ≡ false
      → All Settled rows
      → All Settled (put_request a rows)
  unfolding put_request
  put_request_kept a rows n h = elim (Bool-cases (any (λ r. str_eq r.id a.id) rows)) [
    | inl e ↦ rw e (updated rows h)
    | inr e ↦ rw e (All-append Settled rows _ h ((refl, λ s. ground (arith, n, s)), tt))
  ]
    where
      updated :
          (rs : List RequestRow)
          → All Settled rs
          → All Settled (
              update_where
                (λ r. str_eq r.id a.id)
                (λ r. record r {
                  binding_hash = a.binding_hash;
                  status = a.status;
                  expires_at = a.expires_at;
                  record_data = a;
                })
                rs)
      updated [] k = tt
      updated (r ∷ rs) k = (ground (arith, str_eq→eq r.id a.id, k.0), updated rs k.1)

  renewed_kept :
      (a : ApprovalRequest) (rows : List ApprovalRow)
      → str_eq a.id id ≡ false
      → any is_blocking rows ≡ true
      → any is_blocking (update_where (λ s. str_eq s.id a.id) (renewed a) rows) ≡ true
  renewed_kept a [] n h = h
  renewed_kept a (r ∷ rs) n h = ground (arith, str_eq→eq r.id a.id, renewed_kept a rs n)

  put_at_kept :
      (a : ApprovalRequest) (rows : List ApprovalRow) (o : Option ApprovalRow)
      (new : List ApprovalRow)
      → str_eq a.id id ≡ false
      → put_at a rows o ≡ some new
      → any is_blocking rows ≡ true
      → any is_blocking new ≡ true
  put_at_kept a rows none new n e h =
      ground (arith, any-append is_blocking rows (approval_row a ∷ []))
  put_at_kept a rows (some r) new n e h = ground (arith, renewed_kept a rows n h)

  -- Another request is saved: the application stays blocked.
  pub save-Blocked :
      (a : ApprovalRequest) (t : Approvals)
      → str_eq a.id id ≡ false
      → Blocked t
      → Blocked (save_approval_request a t).0
  unfolding save_approval_request put_approval
  save-Blocked a t n b =
      elim (Option-cases (put_at a t.approvals (find (λ r. str_eq r.id a.id) t.approvals))) [
        | inl e ↦
            rw e
              (record { requests = put_request_kept a t.requests n b.requests; active = b.active })
        | inr (new, e) ↦ rw e (record {
          requests = put_request_kept a t.requests n b.requests;
          active =
              put_at_kept a t.approvals (find (λ r. str_eq r.id a.id) t.approvals) new n e b.active;
        })
      ]

  row_conflicts :
      (new r : ApprovalRow)
      → str_eq new.id id ≡ false
      → new.application_id ≡ application_id
      → is_active new ≡ true
      → is_blocking r ≡ true
      → conflicts new r ≡ true
  row_conflicts new r n e v h =
      let (own, of_application, active) = both h in
      let other : str_eq r.id new.id ≡ false = elim (Bool-cases (str_eq r.id new.id)) [
        | inl same_id ↦
            ground (arith, subst (λ k. str_eq k id ≡ true) (str_eq→eq r.id new.id same_id) own, n)
        | inr differs ↦ differs
      ] in
      let same_application : str_eq r.application_id new.application_id ≡ true =
        subst (λ k. str_eq r.application_id k ≡ true) (sym e) of_application in
      rw (other, same_application, active, v) (or_true (str_eq r.token_hash new.token_hash))
    where
      both :
          is_blocking r ≡ true
          → (str_eq r.id id ≡ true)
            × (str_eq r.application_id application_id ≡ true)
            × (is_active r ≡ true)
      both k = and_all (str_eq r.id id) (str_eq r.application_id application_id) (is_active r) k

  conflict :
      (new : ApprovalRow) (rows : List ApprovalRow)
      → str_eq new.id id ≡ false
      → new.application_id ≡ application_id
      → is_active new ≡ true
      → any is_blocking rows ≡ true
      → any (conflicts new) rows ≡ true
  conflict new rows n e v h =
      any-weaken is_blocking (conflicts new) rows (λ r. row_conflicts new r n e v) h

  -- A new request of the application throws.
  pub save_refused :
      (a : ApprovalRequest) (t : Approvals)
      → str_eq a.id id ≡ false
      → a.application_id ≡ application_id
      → is_active (approval_row a) ≡ true
      → find (λ r. str_eq r.id a.id) t.approvals ≡ none
      → Blocked t
      → (save_approval_request a t).1 ≡ false
  unfolding save_approval_request put_approval
  save_refused a t n e v f b = rw (f, conflict (approval_row a) t.approvals n e v b.active) refl

  Open-other :
      (r : RequestRow) → Settled r → is_open r.status ≡ true → str_eq r.record_data.id id ≡ false
  Open-other r s o = elim (Bool-cases (str_eq r.record_data.id id)) [
    | inl own ↦ ground (arith, s.1 (subst (λ k. str_eq k id ≡ true) s.0 own))
    | inr other ↦ other
  ]

  one-Blocked :
      (now : ℕ) (except : Option String) (r : RequestRow) (t : Approvals)
      → str_eq r.record_data.id id ≡ false
      → Blocked t
      → Blocked (invalidate_one now except r t).0
  unfolding invalidate_one
  one-Blocked now except r t n b = elim (Bool-cases (is_excepted except r.record_data)) [
    | inl kept ↦ rw kept b
    | inr gone ↦
        rw gone
          (save-Blocked (record r.record_data { status = invalidated; updated_at = now }) t n b)
  ]

  each-Blocked :
      (now : ℕ) (except : Option String) (rs : List RequestRow) (t : Approvals)
      → All (λ r. str_eq r.record_data.id id ≡ false) rs
      → Blocked t
      → Blocked (invalidate_each now except rs t).0
  unfolding invalidate_each
  each-Blocked now except [] t n b = b
  each-Blocked now except (r ∷ rs) t n b =
      let u = invalidate_one now except r t in
      let b' = one-Blocked now except r t n.0 b in
      elim (Bool-cases u.1) [
        | inl go ↦ rw go (each-Blocked now except rs u.0 n.1 b')
        | inr stop ↦ rw stop b'
      ]

  pub invalidate-Blocked :
      (now : ℕ) (k : String) (except : Option String) (t : Approvals)
      → Blocked t
      → Blocked (invalidate_approval_requests now k except t).0
  unfolding invalidate_approval_requests
  invalidate-Blocked now k except t b =
      each-Blocked now except (keep (λ r. str_eq r.application_id k && is_open r.status) t.requests)
        t (selected t.requests b.requests) b
    where
      selected :
          (rs : List RequestRow)
          → All Settled rs
          → All
              (λ r. str_eq r.record_data.id id ≡ false)
              (keep (λ r. str_eq r.application_id k && is_open r.status) rs)
      selected [] h = tt
      selected (r ∷ rs) h = ground (arith, Open-other r h.0, selected rs h.1)
