-- ===== src/Jobs/Duplicates.antt =====
-- What `deduplicateJobs` of packages/shared/src/jobs.ts keeps of a list of jobs.
use extension_jobs.Common.{
  ℕ, suc, Option, find, if◌then◌else◌, ◌+◌, ◌≡◌, refl, sym, ap, subst, ◌∙◌, inl, inr, String, Bool,
  true, false, List, [], ◌∷◌, ◌++◌, map, arith, includes, Distinct, Distinct-append_one,
  map-append_one, Bool-cases, str_eq, str_eq→eq,
}
use extension_jobs.Jobs.{Job, Sorted, sort_job, sort_jobs, deduplicate_jobs}

abbrev print_of : Job → String
print_of job = job.fingerprint

-- What holds of the variables before each turn of the loop.
record IsSorted (s : Sorted) : Type 0 where
  seen : s.seen ≡ map print_of s.unique
  distinct : Distinct (map print_of s.unique)

abbrev has : String → List Job → Bool
has p jobs = includes p (map print_of jobs)

-- How often a name occurs.
abbrev pub occurrences : String → List String → ℕ
occurrences k [] = 0
occurrences k (n ∷ ns) = let rest = occurrences k ns in if str_eq n k then suc rest else rest

occurrences-append_one :
    (k : String) (ns : List String) (n : String)
    → occurrences k (ns ++ n ∷ []) ≡ occurrences k ns + (if str_eq n k then 1 else 0)
occurrences-append_one k [] n = ground arith
occurrences-append_one k (m ∷ ns) n = ground (arith, occurrences-append_one k ns n)

abbrev id_of : Job → String
id_of job = job.id

-- How often an id is among the jobs that are kept and the ids that are reported.
abbrev sorted_out : String → Sorted → ℕ
sorted_out k s = occurrences k (map id_of s.unique) + occurrences k s.duplicate_ids

-- The first job with the fingerprint.
abbrev pub first_with : String → List Job → Option Job
first_with p jobs = find (λ j. str_eq j.fingerprint p) jobs

append-nil : (p : String) (us : List Job) → first_with p us ≡ first_with p (us ++ [])
append-nil p [] = refl
append-nil p (u ∷ us) = ground (arith, append-nil p us)

module _ (p : String) (job : Job) (jobs : List Job) where
  add_other :
      (us : List Job)
      → str_eq job.fingerprint p ≡ false
      → first_with p (us ++ jobs) ≡ first_with p (us ++ job ∷ jobs)
  add_other [] n = rw n refl
  add_other (u ∷ us) n = ground (arith, add_other us n)

  -- A job whose fingerprint was seen is never the first.
  add_known :
      (us : List Job)
      → has job.fingerprint us ≡ true
      → first_with p (us ++ jobs) ≡ first_with p (us ++ job ∷ jobs)
  add_known [] h = absurd (cc h)
  add_known (u ∷ us) h = elim (Bool-cases (str_eq u.fingerprint p)) [
    | inl hit ↦ rw hit refl
    | inr miss ↦ elim (Bool-cases (str_eq u.fingerprint job.fingerprint)) [
      | inl same ↦
          let at : u.fingerprint ≡ job.fingerprint = str_eq→eq u.fingerprint job.fingerprint same in
          rw miss (add_other us (subst (λ f. str_eq f p ≡ false) at miss))
      | inr other ↦ rw miss (add_known us (ground arith))
    ]
  ]

  append_one :
      (us : List Job) → first_with p ((us ++ job ∷ []) ++ jobs) ≡ first_with p (us ++ job ∷ jobs)
  append_one [] = refl
  append_one (u ∷ us) = ground (arith, append_one us)

-- One turn: the lists stay sorted, no first job is lost, and the id of the job goes into one of them.
sort_job_lem :
    (s : Sorted) (job : Job)
    → IsSorted s
    → IsSorted (sort_job s job)
      × ((p : String) (jobs : List Job)
          → first_with p ((sort_job s job).unique ++ jobs) ≡ first_with p (s.unique ++ job ∷ jobs))
      × ((k : String)
          → sorted_out k (sort_job s job) ≡ sorted_out k s + (if str_eq job.id k then 1 else 0))
sort_job_lem s job h = elim (Bool-cases (includes job.fingerprint s.seen)) [
  | inl old ↦ rw old (
    record { seen = h.seen; distinct = h.distinct },
    (λ p jobs.
        add_known p job jobs s.unique (subst (λ k. includes job.fingerprint k ≡ true) h.seen old)),
    (λ k. omega (arith, occurrences-append_one k s.duplicate_ids job.id)),
  )
  | inr new ↦ rw new (
    record {
      seen =
          ap (λ k. k ++ job.fingerprint ∷ []) h.seen ∙ sym (map-append_one print_of s.unique job);
      distinct = subst Distinct (sym (map-append_one print_of s.unique job)) (
          Distinct-append_one job.fingerprint (map print_of s.unique)
            (subst (λ k. includes job.fingerprint k ≡ false) h.seen new) h.distinct);
    },
    (λ p jobs. append_one p job jobs s.unique),
    (λ k.
        rw (map-append_one id_of s.unique job)
          (omega (arith, occurrences-append_one k (map id_of s.unique) job.id))),
  )
]

sort_jobs_lem :
    (s : Sorted) (jobs : List Job)
    → IsSorted s
    → IsSorted (sort_jobs s jobs)
      × ((p : String) → first_with p (sort_jobs s jobs).unique ≡ first_with p (s.unique ++ jobs))
      × ((k : String)
          → sorted_out k (sort_jobs s jobs) ≡ sorted_out k s + occurrences k (map id_of jobs))
unfolding sort_jobs
sort_jobs_lem s [] h = (h, (λ p. append-nil p s.unique), (λ k. omega arith))
sort_jobs_lem s (job ∷ jobs) h =
    let (h', first, counted) = sort_job_lem s job h in
    let (h'', first', counted') = sort_jobs_lem (sort_job s job) jobs h' in
    (
      h'',
      (λ p. first' p ∙ first p jobs),
      (λ k. let here = counted k in let rest = counted' k in ground (arith, here, rest)),
    )

-- No two jobs that are kept have the same fingerprint. Of the jobs with a fingerprint the first is kept,
-- and no fingerprint is made up. Each id is, among the jobs that are kept and the ids that are
-- reported together, as often as among the jobs.
pub deduplicate_jobs_lem :
    (jobs : List Job)
    → Distinct (map (λ j. j.fingerprint) (deduplicate_jobs jobs).0)
      × ((p : String)
          → find (λ j. str_eq j.fingerprint p) (deduplicate_jobs jobs).0
            ≡ find (λ j. str_eq j.fingerprint p) jobs)
      × ((k : String)
          → occurrences k (map (λ j. j.id) (deduplicate_jobs jobs).0)
              + occurrences k (deduplicate_jobs jobs).1
            ≡ occurrences k (map (λ j. j.id) jobs))
unfolding deduplicate_jobs
deduplicate_jobs_lem jobs =
    let start : Sorted = record { seen = []; unique = []; duplicate_ids = [] } in
    let (h, first, counted) = sort_jobs_lem start jobs (record { seen = refl; distinct = tt }) in
    (h.distinct, first, λ k. let all_jobs = counted k in omega (arith, all_jobs))
