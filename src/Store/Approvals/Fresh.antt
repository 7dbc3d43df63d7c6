-- ===== src/Store/Approvals/Fresh.antt =====
-- An id that no approval request of apps/orchestrator/src/store.ts has.
use extension_jobs.Common.{
  ℕ, ◌≡◌, refl, sym, subst, inl, inr, String, false, ◌&&◌, Option, none, some, List, [], ◌∷◌, arith,
  str_eq, any, any-append, find, keep, update_where, All, Bool-cases, Option-cases,
}
use extension_jobs.Store.Approvals.{
  ApprovalRequest, RequestRow, ApprovalRow, Approvals, invalidated, put_approval, put_at,
  approval_row, renewed, save_approval_request, is_open, is_excepted, invalidate_one,
  invalidate_each, invalidate_approval_requests,
}

module _ (k : String) where
  abbrev pub Absent : Approvals → Type 0
  Absent t = any (λ r. str_eq r.id k) t.approvals ≡ false

  pub absent_find :
      (rows : List ApprovalRow)
      → any (λ r. str_eq r.id k) rows ≡ false
      → find (λ r. str_eq r.id k) rows ≡ none
  absent_find [] h = refl
  absent_find (r ∷ rs) h = ground (arith, absent_find rs)

  renewed_absent :
      (a : ApprovalRequest) (rows : List ApprovalRow)
      → any (λ r. str_eq r.id k) rows ≡ false
      → any (λ r. str_eq r.id k) (update_where (λ s. str_eq s.id a.id) (renewed a) rows) ≡ false
  renewed_absent a [] h = h
  renewed_absent a (r ∷ rs) h = ground (arith, renewed_absent a rs)

  put_at_absent :
      (a : ApprovalRequest) (rows : List ApprovalRow) (o : Option ApprovalRow)
      (new : List ApprovalRow)
      → str_eq a.id k ≡ false
      → put_at a rows o ≡ some new
      → any (λ r. str_eq r.id k) rows ≡ false
      → any (λ r. str_eq r.id k) new ≡ false
  put_at_absent a rows none new n e h =
      ground (arith, any-append (λ r. str_eq r.id k) rows (approval_row a ∷ []))
  put_at_absent a rows (some r) new n e h = ground (arith, renewed_absent a rows h)

  save-Absent :
      (a : ApprovalRequest) (t : Approvals)
      → str_eq a.id k ≡ false
      → Absent t
      → Absent (save_approval_request a t).0
  unfolding save_approval_request put_approval
  save-Absent a t n h =
      elim (Option-cases (put_at a t.approvals (find (λ r. str_eq r.id a.id) t.approvals))) [
        | inl e ↦ rw e h
        | inr (new, e) ↦
            rw e (put_at_absent a t.approvals (find (λ r. str_eq r.id a.id) t.approvals) new n e h)
      ]

  each-Absent :
      (now : ℕ) (except : Option String) (rs : List RequestRow) (t : Approvals)
      → All (λ r. str_eq r.record_data.id k ≡ false) rs
      → Absent t
      → Absent (invalidate_each now except rs t).0
  unfolding invalidate_each invalidate_one
  each-Absent now except [] t n h = h
  each-Absent now except (r ∷ rs) t n h =
      let u = invalidate_one now except r t in
      let c : Absent u.0 = one in
      elim (Bool-cases u.1) [
        | inl go ↦ rw go (each-Absent now except rs u.0 n.1 c)
        | inr stop ↦ rw stop c
      ]
    where
      one : Absent (invalidate_one now except r t).0
      one = elim (Bool-cases (is_excepted except r.record_data)) [
        | inl kept ↦ rw kept h
        | inr gone ↦
            rw gone (
              save-Absent (record r.record_data { status = invalidated; updated_at = now }) t n.0 h)
      ]

  pub invalidate-Absent :
      (now : ℕ) (application_id : String) (except : Option String) (t : Approvals)
      → All (λ r. r.record_data.id ≡ r.id) t.requests
      → any (λ r. str_eq r.id k) t.requests ≡ false
      → Absent t
      → Absent (invalidate_approval_requests now application_id except t).0
  unfolding invalidate_approval_requests
  invalidate-Absent now application_id except t named n h =
      each-Absent now except
        (keep (λ r. str_eq r.application_id application_id && is_open r.status) t.requests) t
        (selected t.requests named n) h
    where
      selected :
          (rs : List RequestRow)
          → All (λ r. r.record_data.id ≡ r.id) rs
          → any (λ r. str_eq r.id k) rs ≡ false
          → All
              (λ r. str_eq r.record_data.id k ≡ false)
              (keep (λ r. str_eq r.application_id application_id && is_open r.status) rs)
      selected [] m z = tt
      selected (r ∷ rs) m z =
          let other : str_eq r.id k ≡ false = ground (arith, z) in
          let other' : str_eq r.record_data.id k ≡ false =
            subst (λ x. str_eq x k ≡ false) (sym m.0) other in
          ground (arith, other', selected rs m.1)
