-- ===== src/Connector/Form.antt =====
-- What the page must show before the click of a submission of
-- apps/orchestrator/src/wuzzuf-tool-service.ts.
use extension_jobs.Common.{
  ◌≡◌, refl, subst, inl, inr, String, Bool, true, false, Option, none, some, Result, ok, err, arith,
  str_eq, str_eq→eq, opt_eq, Bool-cases, Option-cases,
}
use extension_jobs.Application.{PreparedApplication, FormFingerprint}
use extension_jobs.Connector.{
  Hashes, Env, Tables, Failure, Attempting, continue, fine, tool_error, invalidate_changed_form,
  try_advance, disallow, saved_and_thrown,
}
use extension_jobs.Connector.Gate.{failed_waits}
use extension_jobs.Connector.Submit.{Flight, waiting}
use extension_jobs.Connector.Click.{
  Page, submit_next, submit_reserved, form_compared, form_checked, values_compared, valid_checked,
  assert_form_unchanged, assert_form_values_unchanged, assert_valid, with_session, checked_form,
  submit_reserve,
}
use extension_jobs.Store.Approvals.{ApprovalRequest}
use extension_jobs.Workflow.{form_changed}

-- Both parts of a `try` that has thrown nothing have thrown nothing.
continue-none :
    (s : Attempting) (next : Tables → PreparedApplication → Attempting)
    → (continue s next).thrown ≡ none
    → (s.thrown ≡ none) × ((next s.tables s.application).thrown ≡ none)
unfolding continue
continue-none s next = elim (Option-cases s.thrown) [
  | inl n ↦ rw n (λ h. (refl, h))
  | inr (f, e) ↦ rw e (λ h. ground (arith, h))
]

changed_throws :
    {A : Type 0} (env : Env) (code message : String) (t : Tables) (a : PreparedApplication)
    → (invalidate_changed_form env code message t a).thrown ≡ none
    → A
unfolding invalidate_changed_form
changed_throws env code message t a h =
    let first = continue (try_advance env form_changed t a) (disallow env) in
    let last = continue-none first (saved_and_thrown env (tool_error code message 409 false)) h in
    ground (arith, last.1)

with_session_ok :
    {A : Type 0} (a : PreparedApplication) (r : Result Failure A) {x : A}
    → with_session a r ≡ ok x
    → r ≡ ok x
with_session_ok a r e = ground (arith, e)

-- The form that the page shows is the one that was reviewed, where there was one.
abbrev pub SameForm : Result Failure FormFingerprint → Option FormFingerprint → Type 0
SameForm form none = Unit {0}
SameForm form (some old) =
    (current : FormFingerprint) × (form ≡ ok current) × (current.form_version ≡ old.form_version)

compared_fine :
    (env : Env) (t : Tables) (a : PreparedApplication) (old : FormFingerprint)
    (r : Result Failure FormFingerprint)
    → (form_compared env t a old r).thrown ≡ none
    → (form_compared env t a old r ≡ fine t a)
      × ((current : FormFingerprint) × (r ≡ ok current) × (current.form_version ≡ old.form_version))
compared_fine env t a old (err e) = λ h. ground (arith, h)
compared_fine env t a old (ok current) =
    elim (Bool-cases (str_eq current.form_version old.form_version)) [
      | inl e ↦
          rw e (λ h. (refl, (current, refl, str_eq→eq current.form_version old.form_version e)))
      | inr n ↦ rw n (λ h. changed_throws env _ _ t a h)
    ]

form_fine :
    (env : Env) (form : Result Failure FormFingerprint) (t : Tables) (a : PreparedApplication)
    (o : Option FormFingerprint)
    → (form_checked env form t a o).thrown ≡ none
    → (form_checked env form t a o ≡ fine t a) × SameForm form o
form_fine env form t a none h = (refl, tt)
form_fine env form t a (some old) h =
    let (same, (current, shown, version)) = compared_fine env t a old (with_session a form) h in
    (same, (current, with_session_ok a form shown, version))

values_fine :
    (env : Env) (t : Tables) (a : PreparedApplication) (r : Result Failure String)
    → (values_compared env t a r).thrown ≡ none
    → (values_compared env t a r ≡ fine t a)
      × ((current : String) × (r ≡ ok current) × (opt_eq a.form_value_hash current ≡ true))
values_fine env t a (err e) = λ h. ground (arith, h)
values_fine env t a (ok current) = elim (Bool-cases (opt_eq a.form_value_hash current)) [
  | inl e ↦ rw e (λ h. (refl, (current, refl, e)))
  | inr n ↦ rw n (λ h. changed_throws env _ _ t a h)
]

valid_fine :
    (t : Tables) (a : PreparedApplication) (r : Result Failure Bool)
    → (valid_checked t a r).thrown ≡ none
    → r ≡ ok true
valid_fine t a (err e) h = ground (arith, h)
valid_fine t a (ok true) h = refl
valid_fine t a (ok false) h = ground (arith, h)

-- What the page showed: the form and the values that were reviewed, and no error.
pub record Unchanged (page : Page) (a : PreparedApplication) : Type 0 where
  pub form : SameForm page.form a.form_fingerprint
  pub values :
      (current : String) × (page.values ≡ ok current) × (opt_eq a.form_value_hash current ≡ true)
  pub valid : page.valid ≡ ok true

checked_fine :
    (env : Env) (page : Page) (t : Tables) (a : PreparedApplication)
    → (checked_form env page t a).thrown ≡ none
    → Unchanged page a
unfolding checked_form assert_form_unchanged assert_form_values_unchanged assert_valid
checked_fine env page t a h =
    let first = assert_form_unchanged env page.form t a in
    let values = assert_form_values_unchanged env page.values in
    let second = continue first values in
    let (before, valid_none) = continue-none second (assert_valid page.valid) h in
    let (form_none, values_none) = continue-none first values before in
    let (same, shown) = form_fine env page.form t a a.form_fingerprint form_none in
    let values_none' : (values t a).thrown ≡ none =
      subst (λ s. (values s.tables s.application).thrown ≡ none) same values_none in
    let (_, (current, read, equal)) =
      values_fine env t a (with_session a page.values) values_none' in
    let valid_session =
      valid_fine second.tables second.application (with_session second.application page.valid)
        valid_none in
    record {
      form = shown;
      values = (current, with_session_ok a page.values read, equal);
      valid = with_session_ok second.application page.valid valid_session;
    }

next_none :
    (env : Env) (request : ApprovalRequest) (s : Attempting) (g : Flight)
    → (submit_next env request s).1 ≡ waiting g
    → s.thrown ≡ none
next_none env request s g = elim (Option-cases s.thrown) [
  | inl n ↦ λ w. n
  | inr (e, x) ↦ rw x (λ w. failed_waits env e s.application s.tables g w)
]

-- A submission clicks only if the page still shows the form that was reviewed, with the values that
-- were reviewed, and finds it valid.
pub reserve_waits :
    (h : Hashes) (env : Env) (page : Page) (f : Flight) (t : Tables) (g : Flight)
    → (submit_reserve h env page f t).1 ≡ waiting g
    → Unchanged page f.application
unfolding submit_reserve
reserve_waits h env page f t g w =
    let first = checked_form env page t f.application in
    let next = submit_reserved h env f.approval in
    let none_thrown = next_none env f.approval (continue first next) g w in
    checked_fine env page t f.application (continue-none first next none_thrown).0
