-- ===== src/Examples/Epochs.antt =====
-- An epoch change at concrete inputs.
use go_hpc_rbft.Base.{ℕ, ◌≡◌, refl, true, [], Option, none, some, arith, length}
use go_hpc_rbft.Base.Words.{word}
use go_hpc_rbft.Messages.{Checkpoint}
use go_hpc_rbft.Epoch.{
  QuorumCheckpoint, EpochChangeRequest, EpochChangeProof, EpochManager, ProofOutcome,
  proof_next_epoch, process_epoch_change_request, process_epoch_change_proof,
}
use go_hpc_rbft.Epoch.Paged.{process_epoch_change_proof-request}

abbrev last_of : ℕ → Checkpoint
last_of e = record { epoch = e; execute_state = none; need_update_epoch = true }

abbrev every_epoch : ℕ → Option QuorumCheckpoint
every_epoch e = some (record { checkpoint = some (last_of e); validator_set = [] })

abbrev manager_in : ℕ → EpochManager
manager_in e = record { epoch = e; self_id = e; self_p2p_node_id = "p"; genesis_block_digest = "g" }

-- 200 epochs behind.
abbrev from_one : EpochChangeRequest
from_one = record { author = 1; start_epoch = 1; target_epoch = 201; author_p2p_node_id = "p" }

process_epoch_change_proof-request_example :
    (p : EpochChangeProof) × ((process_epoch_change_request every_epoch (manager_in 201) from_one
        ≡ some (p, "p"))
      × ((process_epoch_change_proof (manager_in 1) p ≡ ProofOutcome.sync p)
          × ((length p.epoch_changes ≡ 100) × (proof_next_epoch p ≡ some 101))))
process_epoch_change_proof-request_example =
    process_epoch_change_proof-request every_epoch (manager_in 201) (manager_in 1) from_one refl
      refl (omega arith) (omega arith) (omega (arith, word))
      (λ e ge lt. record {
        quorum = record { checkpoint = some (last_of e); validator_set = [] };
        point = last_of e;
        found = refl;
        has = refl;
        own = refl;
        updates = refl;
      })

-- A proof without epoch changes is a nil dereference.
empty_proof :
    process_epoch_change_proof
      (manager_in 1)
      (record { epoch_changes = []; more = 0; author = 2; genesis_block_digest = "g" })
    ≡ ProofOutcome.panicked
unfolding process_epoch_change_proof proof_next_epoch
empty_proof = refl
