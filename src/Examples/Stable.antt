-- ===== src/Examples/Stable.antt =====
-- Checkpoint messages at concrete inputs.
use go_hpc_rbft.Base.{
  ℕ, ◌≤◌, ◌≡◌, refl, true, false, List, [], ◌∷◌, Option, none, some, String, length, string_eq,
  nat_eq,
}
use go_hpc_rbft.Base.Maps.{lookup, insert}
use go_hpc_rbft.Messages.{Checkpoint, SignedCheckpoint, height, digest}
use go_hpc_rbft.Quorum.{one_correct_quorum}
use go_hpc_rbft.Checkpoints.{chkpt_eq, Node, compare_checkpoint_with_weak_set}
use go_hpc_rbft.Checkpoints.Matching.{of_hash}
use go_hpc_rbft.Checkpoints.Weak.{visited, compare_checkpoint_with_weak_set-matching}

abbrev checkpoint_of_ten : String → Checkpoint
checkpoint_of_ten d = record {
  epoch = 1;
  execute_state = some (record { height = 10; digest = d; batch_digest = "" });
  need_update_epoch = false;
}

abbrev signed_ten : ℕ → String → SignedCheckpoint
signed_ten author d = record {
  author = author;
  checkpoint = some (checkpoint_of_ten d);
  signature = "";
}

abbrev hash_digest : Option Checkpoint → String
hash_digest none = ""
hash_digest (some c) = elim c.execute_state [ none ↦ "" | some s ↦ s.digest ]

abbrev waiting : Node
waiting = record {
  is_validator = true;
  h = 0;
  l = 20;
  nodes = 4;
  faults = 1;
  epoch = 1;
  last_exec = 5;
  checkpoint_store =
      (record { author = 1; sequence = 10 }, signed_ten 1 "a")
      ∷ (record { author = 2; sequence = 10 }, signed_ten 2 "a")
      ∷ (record { author = 3; sequence = 10 }, signed_ten 3 "a")
      ∷ [];
  local_checkpoints = [];
  higher_checkpoints = [];
  high_state_target = none;
  status = record { status = 0; atomic_status = 0 };
  last_checkpoint_exec_block_hash = "";
  last_checkpoint_exec_block_height = 0;
  tracker = record {
    block_processors = [];
    recent_block_num = 0;
    next_idx = 0;
    block_processor_id_set = [];
    start_block_num = 0;
    end_block_num = 0;
  };
  outbox = [];
}

-- Replica 4 sends another digest.
abbrev waiting' : Node
waiting' = record waiting {
  checkpoint_store =
      (record { author = 1; sequence = 10 }, signed_ten 1 "a")
      ∷ (record { author = 2; sequence = 10 }, signed_ten 2 "a")
      ∷ (record { author = 3; sequence = 10 }, signed_ten 3 "a")
      ∷ (record { author = 4; sequence = 10 }, signed_ten 4 "b")
      ∷ [];
}

finds_three :
    compare_checkpoint_with_weak_set hash_digest (λ m. m) (signed_ten 4 "b") waiting
    ≡ ((true, signed_ten 1 "a" ∷ signed_ten 2 "a" ∷ signed_ten 3 "a" ∷ []), waiting')
unfolding compare_checkpoint_with_weak_set lookup insert height digest one_correct_quorum
finds_three = refl

abbrev by_hash : List (String × List SignedCheckpoint)
by_hash =
    ("a", signed_ten 1 "a" ∷ signed_ten 2 "a" ∷ signed_ten 3 "a" ∷ [])
    ∷ ("b", signed_ten 4 "b" ∷ [])
    ∷ []

compare_checkpoint_with_weak_set-matching_example :
    (k : String) × (signed_ten 1 "a" ∷ signed_ten 2 "a" ∷ signed_ten 3 "a" ∷ []
      ≡ of_hash hash_digest
          (height (some (checkpoint_of_ten "b")))
          k
          (visited (λ m. m) (signed_ten 4 "b") waiting))
    × (one_correct_quorum 4 1 ≤ 3)
    × ((other : String)
        → one_correct_quorum 4 1
          ≤ length (
              of_hash hash_digest
                (height (some (checkpoint_of_ten "b")))
                other
                (visited (λ m. m) (signed_ten 4 "b") waiting))
        → other ≡ k)
    × ((local : SignedCheckpoint)
        → lookup (height (some (checkpoint_of_ten "b"))) [] ≡ some local
        → digest local.checkpoint ≡ digest (some (checkpoint_of_ten "a")))
compare_checkpoint_with_weak_set-matching_example =
    compare_checkpoint_with_weak_set-matching hash_digest (λ m. m) (signed_ten 4 "b") waiting
      waiting' (signed_ten 1 "a") (signed_ten 2 "a" ∷ signed_ten 3 "a" ∷ []) finds_three
