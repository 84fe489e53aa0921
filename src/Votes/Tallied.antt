-- ===== src/Votes/Tallied.antt =====
-- The handlers of prepares and commits keep the votes of every cert in order.
use go_hpc_rbft.Base.{◌≡◌, some}
use go_hpc_rbft.Messages.{Prepare}
use go_hpc_rbft.Votes.{Replica}
use go_hpc_rbft.Votes.Kept.Prepares.{recv_prepare-Keeps}
use go_hpc_rbft.Votes.Phases.{recv_prepare}
use go_hpc_rbft.Votes.Tally.{Tally, Tallied, Tally-Closed}

-- When recvPrepare returns, it has kept every cert's votes in order, through the commit that it may
-- send and the blocks that it may execute: each vote is stored under its own id, is for the cert's
-- view, number and digest, and no id occurs twice.
pub recv_prepare-Tallied :
    (r r' : Replica) (p : Prepare)
    → recv_prepare r p ≡ some r'
    → Tallied r.cert_store
    → Tallied r'.cert_store
recv_prepare-Tallied r r' p h all = (recv_prepare-Keeps Tally Tally-Closed r r' p h all).certs
