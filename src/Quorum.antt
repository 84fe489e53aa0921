-- ===== src/Quorum.antt =====
-- helper.go and chain_config.go: the sizes of the quorums, from the number of validators `n` and
-- the number of Byzantine ones tolerated, `f`.
pub mod Intersection
use go_hpc_rbft.Base.{ℕ, ◌+◌, ◌-◌, ◌/◌}

-- `c.F = (c.N - 1) / 3`, for the N ≥ 4 that updateDerivedData lets through.
unfoldable pub fault_bound : ℕ → ℕ
fault_bound n = (n - 1) / 3

-- `int(math.Ceil(float64(N+F+1) / 2))`; a float64 is exact below 2^53.
unfoldable pub common_case_quorum : ℕ → ℕ → ℕ
common_case_quorum n f = (n + f + 1 + 1) / 2

unfoldable pub all_correct_replicas_quorum : ℕ → ℕ → ℕ
all_correct_replicas_quorum n f = n - f

unfoldable pub one_correct_quorum : ℕ → ℕ → ℕ
one_correct_quorum n f = f + 1
