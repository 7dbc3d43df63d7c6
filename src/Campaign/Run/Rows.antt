-- ===== src/Campaign/Run/Rows.antt =====
-- The rows of applications that a run of a campaign adds: apps/orchestrator/src/store.ts.
use extension_jobs.Common.{
  ℕ, String, true, false, ◌≡◌, refl, sym, ◌∙◌, ap, Option, none, some, List, [], ◌∷◌, ◌++◌, arith,
  str_eq, eq_iff, eq_refl, any, find_by, find_by-none, find_by-append, find_by-update_where,
  update_where, map_option, or_else, Result, ok, err, ◌>>◌, if◌then◌else◌, ok_not_err, ok_injective,
}
use extension_jobs.Campaign.Setting.{stages}
use extension_jobs.Campaign.{RunRow, move, transition_row}
use extension_jobs.Campaign.Run.{transition_all}
use extension_jobs.Workflow.{
  ApplicationState, advance_state, assert_transition, transitions, discovered, waiting_for_approval,
}

abbrev pub row_of : String → List RunRow → Option RunRow
row_of id rows = find_by (λ r. r.id) id rows

-- `to` is the rows `from` with the row of the application moved to the state.
abbrev pub Moves : String → RunRow → ApplicationState → List RunRow → List RunRow → Type 0
Moves id r state from to =
    (row_of id to ≡ some (record r { state = state }))
    × ((k : String) → str_eq k id ≡ false → row_of k to ≡ row_of k from)

update_row :
    (k id : String) (to : ApplicationState) (rows : List RunRow)
    → row_of k (update_where (λ x. str_eq x.id id) (λ x. record x { state = to }) rows)
      ≡ map_option (λ x. if str_eq x.id id then record x { state = to } else x) (row_of k rows)
update_row k id to rows =
    find_by-update_where (λ r. r.id) k (λ x. str_eq x.id id) (λ x. record x { state = to }) rows
      (λ x. refl)

row_named :
    (k : String) (rows : List RunRow) (r : RunRow) → row_of k rows ≡ some r → str_eq r.id k ≡ true
row_named k [] r e = ground (arith, e)
row_named k (x ∷ xs) r e = ground (arith, e, row_named k xs r)

unmoved :
    (k id : String) (to : ApplicationState) (o : Option RunRow)
    → ((r : RunRow) → o ≡ some r → str_eq r.id k ≡ true)
    → str_eq k id ≡ false
    → map_option (λ x. if str_eq x.id id then record x { state = to } else x) o ≡ o
unmoved k id to none named other = refl
unmoved k id to (some r) named other =
    let elsewhere : str_eq r.id id ≡ false = ground (arith, named r refl, eq_iff r.id k, other) in
    rw elsewhere refl

move_lem :
    (id : String) (to : ApplicationState) (rows : List RunRow) (r : RunRow)
    → row_of id rows ≡ some r
    → assert_transition r.state to ≡ ok tt
    → (after : List RunRow) × (transition_row id to rows ≡ ok after) × Moves id r to rows after
unfolding transition_row move
move_lem id to rows r found legal = (
  update_where (λ x. str_eq x.id id) (λ x. record x { state = to }) rows,
  rw (found, legal) refl,
  (
    update_row id id to rows ∙ rw (found, row_named id rows r found) refl,
    λ k other. update_row k id to rows ∙ unmoved k id to (row_of k rows) (row_named k rows) other,
  ),
)

both_ok :
    {E A : Type 0} (a : Result E (Unit {0})) (b : Result E A) {x : A}
    → (a >> b) ≡ ok x
    → (a ≡ ok tt) × (b ≡ ok x)
both_ok (ok u) b {x} h = (refl, h)
both_ok (err e) b {x} h = absurd (ok_not_err (sym h))

all_step :
    (id : String) (s : ApplicationState) (ss : List ApplicationState) (rows mid : List RunRow)
    → transition_row id s rows ≡ ok mid
    → transition_all id (s ∷ ss) rows ≡ transition_all id ss mid
unfolding transition_all
all_step id s ss rows mid e = rw (e, transition_all) refl

-- A run of accepted transitions is done, and leaves the application in its last state.
moves_lem :
    (id : String) (ss : List ApplicationState) (rows : List RunRow) (r : RunRow)
    (last : ApplicationState)
    → row_of id rows ≡ some r
    → advance_state r.state ss ≡ ok last
    → (after : List RunRow) × (transition_all id ss rows ≡ (after, ok tt))
      × Moves id r last rows after
unfolding transition_all advance_state
moves_lem id [] rows r last found accepted = (
  rows,
  refl,
  (found ∙ ap (λ st. some (record r { state = st })) (ok_injective accepted), λ k other. refl),
)
moves_lem id (s ∷ ss) rows r last found accepted =
    let (legal, later) = both_ok (assert_transition r.state s) (advance_state s ss) accepted in
    let (mid, done, (here, others)) = move_lem id s rows r found legal in
    let (after, ended, (there, rest)) =
      moves_lem id ss mid (record r { state = s }) last here later in
    (
      after,
      all_step id s ss rows mid done ∙ ended,
      (there, λ k other. rest k other ∙ others k other),
    )

abbrev pub fresh_row : ℕ → String → String → String → RunRow
fresh_row now id job_id campaign_id = record {
  id = id;
  job_id = job_id;
  state = discovered;
  campaign_id = campaign_id;
  created_at = now;
}

or_else-none : (o : Option RunRow) → or_else o none ≡ o
or_else-none none = refl
or_else-none (some r) = refl

new_other :
    (k : String) (rows : List RunRow) (r : RunRow)
    → str_eq k r.id ≡ false
    → row_of k (rows ++ r ∷ []) ≡ row_of k rows
new_other k rows r other =
    let elsewhere : str_eq r.id k ≡ false = ground (arith, eq_iff r.id k, eq_iff k r.id, other) in
    find_by-append (λ x. x.id) k rows (r ∷ []) ∙ rw elsewhere (or_else-none (row_of k rows))

-- A new application passes through all the stages, and no other is touched.
pub created_lem :
    (now : ℕ) (id job_id campaign_id : String) (rows : List RunRow)
    → any (λ r. str_eq r.id id) rows ≡ false
    → (after : List RunRow) × (transition_all id stages
          (rows ++ fresh_row now id job_id campaign_id ∷ [])
        ≡ (after, ok tt))
      × (map_option (λ r. r.state) (row_of id after) ≡ some waiting_for_approval)
      × ((k : String) → str_eq k id ≡ false → row_of k after ≡ row_of k rows)
unfolding advance_state assert_transition transitions
created_lem now id job_id campaign_id rows fresh =
    let r = fresh_row now id job_id campaign_id in
    let there : row_of id (rows ++ r ∷ []) ≡ some r =
      find_by-append (λ x. x.id) id rows (r ∷ [])
      ∙ rw (find_by-none (λ x. x.id) id rows fresh, eq_refl id) refl in
    let (after, done, (here, others)) =
      moves_lem id stages (rows ++ r ∷ []) r waiting_for_approval there refl in
    (after, done, rw here refl, λ k other. others k other ∙ new_other k rows r other)
