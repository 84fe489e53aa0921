-- ===== src/Examples/Views.antt =====
-- The initial checkpoint of a view at a concrete input.
use go_hpc_rbft.Base.{
  ℕ, ◌≤◌, ◌≡◌, ◌↔◌, refl, true, false, List, [], ◌∷◌, some, arith, length, count, In,
}
use go_hpc_rbft.Base.Maps.{lookup, insert}
use go_hpc_rbft.Messages.{SignedCheckpoint, VcBasis, height, digest}
use go_hpc_rbft.Quorum.{common_case_quorum, one_correct_quorum}
use go_hpc_rbft.ViewChange.Initial.{
  CheckpointState, Checkpoints, state_of, select_initial_checkpoint,
}
use go_hpc_rbft.ViewChange.Initial.Collected.{backers, in_cset}
use go_hpc_rbft.ViewChange.Initial.Held.{held}
use go_hpc_rbft.ViewChange.Initial.Chosen.{
  Eligible, select_initial_checkpoint-highest, select_initial_checkpoint-finds,
}

abbrev signed_at : ℕ → SignedCheckpoint
signed_at author = record {
  author = author;
  checkpoint = some (record {
    epoch = 1;
    execute_state = some (record { height = 10; digest = "b"; batch_digest = "x" });
    need_update_epoch = false;
  });
  signature = "s";
}

abbrev basis_at : ℕ → VcBasis
basis_at author = record {
  replica_id = author;
  view = 2;
  h = 10;
  pset = [];
  qset = [];
  cset = some (signed_at author) ∷ [];
}

abbrev three_messages : List VcBasis
three_messages = basis_at 1 ∷ basis_at 2 ∷ basis_at 3 ∷ []

abbrev state_at_ten : CheckpointState
state_at_ten = record { height = 10; digest = "b"; is_config = false }

abbrev all_signed : List SignedCheckpoint
all_signed = signed_at 1 ∷ signed_at 2 ∷ signed_at 3 ∷ []

as_it_is : (m : Checkpoints) (e : CheckpointState × List SignedCheckpoint) → In e m ↔ In e m
as_it_is m e = (λ i. i, λ i. i)

selects_ten :
    select_initial_checkpoint (λ m. m) (λ _. true) 4 1 three_messages
    ≡ some (state_at_ten, all_signed)
unfolding select_initial_checkpoint insert height digest lookup one_correct_quorum
    common_case_quorum
selects_ten = refl

ten_Eligible : Eligible 4 1 three_messages state_at_ten
unfolding in_cset state_of height digest one_correct_quorum common_case_quorum
ten_Eligible = record { weak = omega arith; config = λ e. cc; above = omega arith }

select_initial_checkpoint-highest_example :
    Eligible 4 1 three_messages state_at_ten
    × ((other : CheckpointState) → Eligible 4 1 three_messages other → other.height ≤ 10)
    × (all_signed ≡ held state_at_ten three_messages)
    × (length all_signed ≡ backers state_at_ten three_messages)
    × (one_correct_quorum 4 1 ≤ count (λ _. true) all_signed)
select_initial_checkpoint-highest_example =
    select_initial_checkpoint-highest (λ m. m) (λ _. true) 4 1 as_it_is three_messages state_at_ten
      all_signed selects_ten

select_initial_checkpoint-finds_example :
    (cs : CheckpointState) × (signed : List SignedCheckpoint) × (select_initial_checkpoint
        (λ m. m)
        (λ _. true)
        4
        1
        three_messages
      ≡ some (cs, signed))
select_initial_checkpoint-finds_example =
    select_initial_checkpoint-finds (λ m. m) (λ _. true) 4 1 as_it_is three_messages state_at_ten
      ((refl, tt), ((refl, tt), ((refl, tt), tt))) ten_Eligible
