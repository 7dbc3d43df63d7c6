-- ===== src/Dashboard/Summary/Distribution.antt =====
-- The bands of `matchDistribution` of apps/orchestrator/src/dashboard-api.ts, and its groups.
use extension_jobs.Common.{ℕ, ◌+◌, List, [], ◌∷◌, ◌≡◌, refl, arith, length}
use extension_jobs.Contracts.Dashboard.{Labelled}
use extension_jobs.Dashboard.Summary.{match_distribution}

abbrev pub total_count : List Labelled → ℕ
total_count [] = 0
total_count (l ∷ ls) = l.count + total_count ls

-- Every job is in one band of the distribution, and in one only: the counts add up to the jobs.
pub total_count-match_distribution :
    (scores : List ℕ) → total_count (match_distribution scores) ≡ length scores
unfolding match_distribution
total_count-match_distribution [] = refl
total_count-match_distribution (s ∷ scores) = ground (arith, total_count-match_distribution scores)
