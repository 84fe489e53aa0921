-- ===== src/Checkpoints/Target.antt =====
-- The state target that a checkpoint message leads to.
use go_hpc_rbft.Base.{nat_eq, string_eq}
use go_hpc_rbft.Checkpoints.{chkpt_eq}
