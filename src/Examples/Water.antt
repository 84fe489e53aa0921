-- ===== src/Examples/Water.antt =====
-- A move of the watermarks at concrete inputs.
use go_hpc_rbft.Base.{◌≡◌, ◌≤◌, ◌<◌, refl, ◌⊎◌, false, [], ◌∷◌, Option, none, some, String, ℕ}
use go_hpc_rbft.Base.Maps.{lookup}
use go_hpc_rbft.Messages.{Checkpoint, SignedCheckpoint}
use go_hpc_rbft.Certs.{MsgId, MsgCert}
use go_hpc_rbft.Votes.{RequestBatch}
use go_hpc_rbft.Watermarks.{Cellar, clean_target, clear_to, move_watermarks}
use go_hpc_rbft.Watermarks.Moved.{Moved, move_watermarks-Moved}

abbrev plain_cert : MsgCert
plain_cert = record {
  pre_prepare = none;
  sent_prepare = false;
  prepare = [];
  sent_commit = false;
  commit = [];
  sent_execute = false;
  is_config = false;
}

abbrev id_of : ℕ → String → MsgId
id_of n d = record { v = 0; n = n; d = d }

abbrev batch_at : ℕ → String → RequestBatch
batch_at n d = record {
  request_hash_list = [];
  request_list = [];
  timestamp = 0;
  seq_no = n;
  local_list = [];
  batch_hash = d;
  proposer = 1;
}

abbrev own_checkpoint : SignedCheckpoint
own_checkpoint = record { author = 1; checkpoint = none; signature = "s" }

-- Three requests, of which the first two are executed and checkpointed.
abbrev cellar : Cellar
cellar = record {
  h = 0;
  checkpoint_period = 1;
  committed_block_cache_number = 1;
  last_service_height = 0;
  cert_store =
      (id_of 1 "a", plain_cert) ∷ (id_of 2 "b", plain_cert) ∷ (id_of 3 "c", plain_cert) ∷ [];
  outstanding_req_batches = ("a", batch_at 1 "a") ∷ [];
  committed_cert = [];
  seq_map = (1, "a") ∷ (2, "b") ∷ (3, "c") ∷ [];
  committed_cert_cache = [];
  batch_store = ("a", batch_at 1 "a") ∷ ("b", batch_at 2 "b") ∷ ("c", batch_at 3 "c") ∷ [];
  checkpoint_store = [];
  local_checkpoints = (1, own_checkpoint) ∷ (2, own_checkpoint) ∷ [];
  qlist = [];
  plist = [];
  missing_batches_in_fetching = ("b", id_of 2 "b") ∷ [];
  outbox = [];
}

abbrev no_signature : Option Checkpoint → Option String
no_signature _ = none

moves : move_watermarks no_signature 2 false cellar ≡ some (clear_to no_signature 2 false 1 cellar)
unfolding move_watermarks clean_target
moves = refl

move_watermarks-Moved_example :
    ((2 < 0) × (clear_to no_signature 2 false 1 cellar ≡ cellar))
    ⊎ ((0 ≤ 2) × Moved 2 cellar (clear_to no_signature 2 false 1 cellar))
unfolding lookup
move_watermarks-Moved_example =
    move_watermarks-Moved no_signature 2 cellar (clear_to no_signature 2 false 1 cellar)
      (refl, (refl, (refl, tt))) moves
