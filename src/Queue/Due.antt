-- ===== src/Queue/Due.antt =====
-- Which jobs `claim` of packages/persistence/src/queue.ts may hand out, and in which order, in words of
-- the columns alone.
use extension_jobs.Common.{
  ℕ, ◌+◌, ◌-◌, ◌<◌, ◌≤◌, ◌≡◌, refl, true, false, ◌&&◌, ◌⊎◌, inl, inr, Option, none, some, arith,
  leb, ltb, opt_ltb, Bool-cases,
}
use extension_jobs.Queue.{
  Row, Status, queued, running, completed, failed, cancelled, is_queued, is_running, is_claimable,
  is_before,
}

-- Attempts are left, and the job waits and its time has come, or it runs and its lock is older than
-- the lease.
abbrev pub IsDue : ℕ → ℕ → Row → Type 0
IsDue now lease r =
    (r.attempts < r.max_attempts)
    × (((r.status ≡ queued) × (r.run_after ≤ now))
        ⊎ ((r.status ≡ running) × ((t : ℕ) × (r.locked_at ≡ some t) × (t + lease < now))))

-- The first is due earlier, or at the same time and was created no later.
abbrev pub IsFirst : Row → Row → Type 0
IsFirst a b =
    (a.run_after < b.run_after) ⊎ ((a.run_after ≡ b.run_after) × (a.created_at ≤ b.created_at))

is_queued_lem : (s : Status) → is_queued s ≡ true → s ≡ queued
is_queued_lem queued e = refl
is_queued_lem running e = absurd (cc e)
is_queued_lem completed e = absurd (cc e)
is_queued_lem failed e = absurd (cc e)
is_queued_lem cancelled e = absurd (cc e)

is_running_lem : (s : Status) → is_running s ≡ true → s ≡ running
is_running_lem running e = refl
is_running_lem queued e = absurd (cc e)
is_running_lem completed e = absurd (cc e)
is_running_lem failed e = absurd (cc e)
is_running_lem cancelled e = absurd (cc e)

locked_before :
    (o : Option ℕ) (now lease : ℕ)
    → opt_ltb o (now - lease) ≡ true
    → (t : ℕ) × (o ≡ some t) × (t + lease < now)
locked_before none now lease e = absurd (cc e)
locked_before (some t) now lease e = (t, refl, ground (arith, e))

pub is_claimable-IsDue :
    (now lease : ℕ) (r : Row) → is_claimable now (now - lease) r ≡ true → IsDue now lease r
is_claimable-IsDue now lease r e = (
  ground arith,
  elim (Bool-cases (is_queued r.status && leb r.run_after now)) [
    | inl waits ↦ inl (is_queued_lem r.status (ground arith), ground arith)
    | inr other ↦
        inr (
          is_running_lem r.status (ground arith),
          locked_before r.locked_at now lease (ground arith),
        )
  ],
)

pub IsDue-is_claimable :
    (now lease : ℕ) (r : Row) → IsDue now lease r → is_claimable now (now - lease) r ≡ true
IsDue-is_claimable now lease r (left, inl (waits, come)) = rw waits (ground arith)
IsDue-is_claimable now lease r (left, inr (runs, lock)) =
    let (t, locked, old) = lock in rw (runs, locked) (ground arith)

pub first_lem : (a b : Row) → is_before b a ≡ false → IsFirst a b
first_lem a b n = elim (Bool-cases (ltb a.run_after b.run_after)) [
  | inl earlier ↦ inl (ground arith)
  | inr other ↦ inr (ground arith, ground arith)
]
