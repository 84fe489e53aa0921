-- ===== src/Watermarks/Retained.antt =====
-- How long moveWatermarks of rbft_impl.go keeps a batch.
use go_hpc_rbft.Base.{ℕ, ◌+◌, ◌≤◌, ◌≡◌, ◌⊎◌, some, arith}
use go_hpc_rbft.Watermarks.{clean_target}

pub clean_target-keeps :
    (period cached n target : ℕ)
    → clean_target period cached n ≡ some target
    → (target ≡ 0) ⊎ (target + cached ≤ n)
unfolding clean_target
clean_target-keeps period cached n target h = ground (arith, h)
