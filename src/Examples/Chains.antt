-- ===== src/Examples/Chains.antt =====
-- The views of a chain configuration at concrete inputs.
use go_hpc_rbft.Base.{ℕ, ◌≡◌, refl, true, false, List, [], ◌∷◌, Option, some, arith}
use go_hpc_rbft.Base.Maps.{lookup, insert}
use go_hpc_rbft.Base.Words.{word}
use go_hpc_rbft.Search.{binary_search}
use go_hpc_rbft.Wrf.{wrf_select_node_by_voting_power}
use go_hpc_rbft.Tracker.{
  BlockMeta, BlockProcessorTracker, add_block, recent_processor, wanted_block, old_block,
  reset_recent_block_num,
}
use go_hpc_rbft.Chain.{
  ValidatorInfo, ElectionType, ChainConfig, check_validator, reset_tracker, set_view,
}
use go_hpc_rbft.Chain.Candidates.{ids, HasFree}
use go_hpc_rbft.Chain.Total.{IsSound, set_view-primary}
use go_hpc_rbft.Chain.Paths.{set_view-set_view}
use go_hpc_rbft.Chain.Interval.{reset_tracker-HasFree}

abbrev pub full_info : ℕ → ValidatorInfo
full_info id = record {
  id = id;
  consensus_voting_power = 10;
  consensus_voting_power_reduced = false;
  consensus_voting_power_reduce_view = 0;
}

abbrev four_infos : List (ℕ × ValidatorInfo)
four_infos = (1, full_info 1) ∷ (2, full_info 2) ∷ (3, full_info 3) ∷ (4, full_info 4) ∷ []

abbrev no_blocks : BlockProcessorTracker
no_blocks = record {
  block_processors = [];
  recent_block_num = 1;
  next_idx = 0;
  block_processor_id_set = [];
  start_block_num = 0;
  end_block_num = 0;
}

abbrev pub small_chain : ChainConfig
small_chain = record {
  epoch_info = record {
    epoch = 1;
    start_block = 1;
    checkpoint_period = 1;
    high_watermark_checkpoint_period = 10;
    proposer_election_type = ElectionType.wrf;
    not_active_weight = 1;
    abnormal_node_exclude_view = 10;
    again_propose_percentage = 50;
  };
  n = 4;
  f = 1;
  l = 10;
  self_id = 1;
  node_info_map = [];
  validator_set = (1, 10) ∷ (2, 10) ∷ (3, 10) ∷ (4, 10) ∷ [];
  validator_dynamic_info_map = four_infos;
  h = 0;
  last_stable_validator_dynamic_info_map = four_infos;
  last_stable_view = 1;
  view = 1;
  last_checkpoint_exec_block_hash = [];
  primary_id = 1;
  tracker = no_blocks;
  self_p2p_node_id = "";
}

-- In view 2, after the primary of view 1, node 3, was punished.
abbrev next_chain : ChainConfig
next_chain = record small_chain {
  validator_dynamic_info_map =
      (1, full_info 1)
      ∷ (2, full_info 2)
      ∷ (
        3,
        record {
          id = 3;
          consensus_voting_power = 1;
          consensus_voting_power_reduced = true;
          consensus_voting_power_reduce_view = 1;
        },
      )
      ∷ (4, full_info 4)
      ∷ [];
  view = 2;
  primary_id = 4;
}

sets_view : set_view (λ _. 25) false 2 small_chain ≡ some next_chain
unfolding set_view wrf_select_node_by_voting_power binary_search lookup insert recent_processor
sets_view = refl

set_view-set_view_example :
    set_view (λ _. 25) true 3 next_chain ≡ set_view (λ _. 25) true 3 small_chain
set_view-set_view_example =
    set_view-set_view (λ _. 25) false true 2 3 small_chain next_chain sets_view (omega arith)
      (omega arith)

small_chain-IsSound : IsSound 10 small_chain
unfolding lookup recent_processor
small_chain-IsSound = record {
  weighted = λ e. cc;
  not_active = (omega arith, omega arith);
  full = (
    (10, refl, omega arith, omega arith),
    (
      (10, refl, omega arith, omega arith),
      ((10, refl, omega arith, omega arith), ((10, refl, omega arith, omega arith), tt)),
    ),
  );
  weighs = omega arith;
  small = omega arith;
  free = refl;
}

set_view-primary_example :
    (c' : ChainConfig) × (set_view (λ _. 25) true 3 small_chain ≡ some c')
    × (c'.view ≡ 3)
    × (ids c'.validator_dynamic_info_map ≡ ids four_infos)
    × (check_validator c' c'.primary_id ≡ true)
    × (recent_processor c'.tracker c'.primary_id ≡ false)
set_view-primary_example = set_view-primary (λ _. 25) 10 small_chain true 3 small_chain-IsSound

abbrev made_by_one : ℕ → Option BlockMeta
made_by_one n = some (record { processor_node_id = 1; block_num = n })

abbrev refilled : ChainConfig
refilled = record small_chain {
  tracker = record {
    block_processors =
        some (record { processor_node_id = 1; block_num = 1 })
        ∷ some (record { processor_node_id = 1; block_num = 2 })
        ∷ [];
    recent_block_num = 2;
    next_idx = 0;
    block_processor_id_set = 1 ∷ [];
    start_block_num = 1;
    end_block_num = 2;
  };
}

refills : reset_tracker made_by_one small_chain 2 ≡ some refilled
unfolding reset_tracker reset_recent_block_num add_block wanted_block old_block
refills = refl

reset_tracker-HasFree_example : HasFree refilled.tracker four_infos
reset_tracker-HasFree_example =
    reset_tracker-HasFree made_by_one small_chain refilled 2 (ground arith) (omega arith)
      (omega (arith, word)) (omega arith) refills
