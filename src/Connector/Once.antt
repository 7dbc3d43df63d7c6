-- ===== src/Connector/Once.antt =====
-- At most one click for an application, in any history of
-- apps/orchestrator/src/wuzzuf-tool-service.ts.
use extension_jobs.Common.{
  ℕ, zero, suc, ◌+◌, ◌≤◌, ◌≡◌, refl, sym, ap, subst, inl, inr, String, Bool, true, false, Option,
  none, some, List, [], ◌∷◌, arith, str_eq, Bool-cases, Option-cases, changes, if◌then◌else◌,
}
use extension_jobs.Application.{PreparedApplication}
use extension_jobs.Connector.{Hashes, Env, Tables, Failure, Attempting, continue, save, invalidate}
use extension_jobs.Connector.Clicks.{begin-Grows, checked-Kept, clicking_lem, finish-Grows}
use extension_jobs.Connector.Approval.{request_submission_approval, decide_approval}
use extension_jobs.Connector.Cancel.{cancel}
use extension_jobs.Connector.Keys.{
  One, Grows, Kept, same, then-Grows, save-Grows, continue-Kept, request-Grows, decide-Grows,
  cancel-Grows, submit_failed-Grows, invalidate_same,
}
use extension_jobs.Connector.Submit.{
  Flight, Progress, returned, thrown, waiting, submit_failed, submit_begin,
}
use extension_jobs.Connector.Click.{
  Page, submit_next, submit_reserved, checked_form, submit_reserve, submit_finish,
}
use extension_jobs.Connector.Trace.{
  Phase, reading, clicking, World, Op, saves, invalidates, requests, decides, cancels, begins,
  reads, answers, nth, drop_nth, added, step, run, nothing,
}
use extension_jobs.Store.Approvals.{ApprovalRequest}
use extension_jobs.Store.Submissions.Reservations.{taken}

abbrev flight_id : Progress → String
flight_id (waiting f) = f.application.id
flight_id _ = ""

abbrev clicking_id : Option Phase → String
clicking_id (some (clicking f)) = f.application.id
clicking_id _ = ""

module _ (id : String) where
  -- What a submission that reads the page comes to.
  abbrev Reserved : Tables → Flight → Tables × Progress → Type 0
  Reserved t f (u, p) =
      Grows id t u
      × ((g : Flight)
          → p ≡ waiting g
          → str_eq g.application.id id ≡ true
          → taken id t.submissions + 1 ≤ taken id u.submissions)

  failed_absurd :
      {A : Type 0} (env : Env) (e : Failure) (a : PreparedApplication) (t : Tables) (w : Flight)
      → (submit_failed env false e a t).1 ≡ waiting w
      → A
  unfolding submit_failed
  failed_absurd env e a t w r = ground arith

  next_lem :
      (env : Env) (request : ApprovalRequest) (f : Flight) (t : Tables) (s : Attempting)
      → Grows id t s.tables
      → (s.thrown ≡ none
          → str_eq s.application.id id ≡ true
          → taken id t.submissions + 1 ≤ taken id s.tables.submissions)
      → Reserved t f (submit_next env request s)
  next_lem env request f t s g more = elim (Option-cases s.thrown) [
    | inl n ↦
        rw n (g, λ w e own. more n (subst (λ k. str_eq k id ≡ true) (sym (ap flight_id e)) own))
    | inr (e, x) ↦ rw x (
      then-Grows id t s.tables (submit_failed env false e s.application s.tables).0 g
          (submit_failed-Grows id env false e s.application s.tables),
      λ w r own. failed_absurd env e s.application s.tables w r,
    )
  ]

  after_check :
      (t : Tables) (s : Attempting) (next : Tables → PreparedApplication → Attempting)
      → Grows id t s.tables
      → ((u : Tables) (b : PreparedApplication)
          → Kept id u b (next u b)
            × ((next u b).thrown ≡ none
                → str_eq b.id id ≡ true
                → taken id u.submissions + 1 ≤ taken id (next u b).tables.submissions))
      → (continue s next).thrown ≡ none
      → str_eq (continue s next).application.id id ≡ true
      → taken id t.submissions + 1 ≤ taken id (continue s next).tables.submissions
  unfolding continue
  after_check t s next g k = elim (Option-cases s.thrown) [
    | inl n ↦ rw n (λ done own.
        let (kept, more) = k s.tables s.application in
        let own' : str_eq s.application.id id ≡ true = subst (λ x. str_eq x id ≡ true) kept.1 own in
        omega (arith, g.0, more done own'))
    | inr (f, e) ↦ rw e (λ done own. ground (arith, done, e))
  ]

  reserve_lem :
      (h : Hashes) (env : Env) (page : Page) (f : Flight) (t : Tables)
      → Reserved t f (submit_reserve h env page f t)
  unfolding submit_reserve
  reserve_lem h env page f t =
      let first = checked_form env page t f.application in
      let kept = checked-Kept id env page t f.application in
      let all_kept =
        λ (u : Tables) (b : PreparedApplication). (clicking_lem id h env f.approval u b).0 in
      let next = submit_reserved h env f.approval in
      next_lem env f.approval f t (continue first next)
        (continue-Kept id t f.application first next kept all_kept).0
        (after_check t first next kept.0 (clicking_lem id h env f.approval))

  abbrev pub clicks_of : List String → ℕ
  clicks_of cs = changes (λ c. str_eq c id) cs

  abbrev is_clicking : Phase → Bool
  is_clicking (reading f) = false
  is_clicking (clicking f) = str_eq f.application.id id

  taken_out :
      (n : ℕ) (ps : List Phase) (f : Flight)
      → nth n ps ≡ some (clicking f)
      → changes is_clicking ps
        ≡ changes is_clicking (drop_nth n ps) + (if str_eq f.application.id id then 1 else 0)
  unfolding nth drop_nth
  taken_out n [] f e = ground arith
  taken_out zero (reading g ∷ ps) f e = ground arith
  taken_out zero (clicking g ∷ ps) f e =
      let own : g.application.id ≡ f.application.id = ap clicking_id e in rw own (ground arith)
  taken_out (suc n) (p ∷ ps) f e = ground (arith, taken_out n ps f)

  taken_reading :
      (n : ℕ) (ps : List Phase) (f : Flight)
      → nth n ps ≡ some (reading f)
      → changes is_clicking ps ≡ changes is_clicking (drop_nth n ps)
  unfolding nth drop_nth
  taken_reading n [] f e = ground arith
  taken_reading zero (reading g ∷ ps) f e = refl
  taken_reading zero (clicking g ∷ ps) f e = ground arith
  taken_reading (suc n) (p ∷ ps) f e = ground (arith, taken_reading n ps f)

  -- Every click, and every submission that is about to click, has the key of its application.
  abbrev Bounded : World → Type 0
  Bounded w =
      One id w.tables
      × (clicks_of w.clicks + changes is_clicking w.phases ≤ taken id w.tables.submissions)

  moved :
      (t : Tables) (w : World) → Grows id w.tables t → Bounded w → Bounded (record w { tables = t })
  moved t w g b = (g.1 b.0, omega (arith, g, b))

  added-reading :
      (p : Progress) (ps : List Phase)
      → changes is_clicking (added reading p ps) ≡ changes is_clicking ps
  added-reading p ps = ground arith

  added_clicking :
      (t : Tables) (f : Flight) (u : Tables) (p : Progress) (ps : List Phase)
      → Reserved t f (u, p)
      → changes is_clicking (added clicking p ps) + taken id t.submissions
        ≤ changes is_clicking ps + taken id u.submissions
  added_clicking t f u (returned r) ps (g, k) = omega (arith, g.0)
  added_clicking t f u (thrown e) ps (g, k) = omega (arith, g.0)
  added_clicking t f u (waiting x) ps (g, k) = elim (Bool-cases (str_eq x.application.id id)) [
    | inl own ↦ rw own (omega (arith, k x refl own))
    | inr other ↦ rw other (omega (arith, g.0))
  ]

  step-Bounded : (h : Hashes) (w : World) (op : Op) → Bounded w → Bounded (step h w op)
  unfolding step
  step-Bounded h w (saves env a) b = moved (save env a w.tables) w (save-Grows id env a w.tables) b
  step-Bounded h w (invalidates env k except) b =
      let t = (invalidate env k except w.tables).0 in
      moved t w (same id w.tables t (invalidate_same id env k except w.tables)) b
  step-Bounded h w (requests env k nonce seconds a) b =
      moved (request_submission_approval h env k nonce seconds a w.tables).0 w
        (request-Grows id h env k nonce seconds a w.tables) b
  step-Bounded h w (decides env agreed token k) b =
      moved (decide_approval h env agreed token k w.tables).0 w
        (decide-Grows id h env agreed token k w.tables) b
  step-Bounded h w (cancels env closing k) b =
      moved (cancel env closing k w.tables).0 w (cancel-Grows id env closing k w.tables) b
  step-Bounded h w (begins env input) b =
      let (t, p) = submit_begin h env input w.tables in
      let (one, bound) = moved t w (begin-Grows id h env input w.tables) b in
      (one, omega (arith, bound, added-reading p w.phases))
  step-Bounded h w (reads env page n) b = elim (Option-cases (nth n w.phases)) [
    | inl e ↦ rw e b
    | inr (reading f, e) ↦
        let (t, p) = submit_reserve h env page f w.tables in
        let r : Reserved w.tables f (t, p) = reserve_lem h env page f w.tables in
        let more = added_clicking w.tables f t p (drop_nth n w.phases) r in
        rw e (r.0.1 b.0, omega (arith, more, b.1, taken_reading n w.phases f e))
    | inr (clicking f, e) ↦ rw e b
  ]
  step-Bounded h w (answers env click n) b = elim (Option-cases (nth n w.phases)) [
    | inl e ↦ rw e b
    | inr (reading f, e) ↦ rw e b
    | inr (clicking f, e) ↦
        let (t, p) = submit_finish env click f w.tables in
        let g : Grows id w.tables t = finish-Grows id env click f w.tables in
        rw e (g.1 b.0, ground (arith, g.0, b.1, taken_out n w.phases f e))
  ]

  run-Bounded : (h : Hashes) (w : World) (ops : List Op) → Bounded w → Bounded (run h w ops)
  unfolding run
  run-Bounded h w [] b = b
  run-Bounded h w (op ∷ ops) b = run-Bounded h (step h w op) ops (step-Bounded h w op b)

-- From empty tables, whatever is prepared, approved, cancelled and submitted, by however many
-- calls at the same time and with whatever the browser answers: the submit button of an
-- application is clicked at most once.
pub clicks_bound :
    (h : Hashes) (ops : List Op) (id : String) → clicks_of id (run h nothing ops).clicks ≤ 1
clicks_bound h ops id =
    let (one, bound) = run-Bounded id h nothing ops (omega arith, omega arith) in
    omega (arith, one, bound)
