-- ===== src/Chain.antt =====
-- The chain configuration (chain_config.go) and the views and punishments that viewchange_mgr.go
-- keeps in it. SHA-256 is the parameter `hash`, as in Wrf; the nodes that getNodeInfoFn and
-- getNodeIDByP2PID know are parameters too. A voting power is the uint64 pattern of its int64. The
-- lists of ValidatorDynamicInfoMap and LastStableValidatorDynamicInfoMap hold the infos themselves: the
-- code copies the infos of one map before it changes them. Locks, metrics and logs are left out.
pub mod Paths
pub mod Candidates
pub mod Total
pub mod Interval
use go_hpc_rbft.Base.{
  ℕ, zero, suc, ◌+◌, ◌-◌, ◌*◌, ◌/◌, ◌%◌, ◌^◌, Bool, true, false, not, ◌&&◌, ◌||◌, List, [], ◌∷◌,
  ◌++◌, map, Option, none, some, String, if◌then◌else◌, ltb, leb, ◌==◌, nat_eq, length,
}
use go_hpc_rbft.Base.Words.{◌+ᵤ◌, ◌-ᵤ◌, ◌*ᵤ◌}
use go_hpc_rbft.Base.Maps.{lookup, insert}
use go_hpc_rbft.Quorum.{fault_bound}
use go_hpc_rbft.Tracker.{BlockMeta, BlockProcessorTracker, recent_processor, reset_recent_block_num}
use go_hpc_rbft.Wrf.{Weighted, wrf_select_node_by_voting_power}

pub record ValidatorInfo : Type 0 where
  pub id : ℕ
  pub consensus_voting_power : ℕ
  pub consensus_voting_power_reduced : Bool
  pub consensus_voting_power_reduce_view : ℕ

-- The values of ProposerElectionType: the two that the code names, and any other text.
pub data ElectionType : Type 0 where
  wrf abnormal_rotation unknown : ElectionType

-- types.EpochInfo with its ConsensusParams, as far as they are read here.
pub record EpochInfo : Type 0 where
  pub epoch : ℕ
  pub start_block : ℕ
  pub checkpoint_period : ℕ
  pub high_watermark_checkpoint_period : ℕ
  pub proposer_election_type : ElectionType
  pub not_active_weight : ℕ
  pub abnormal_node_exclude_view : ℕ
  pub again_propose_percentage : ℕ

pub record NodeInfo : Type 0 where
  pub id : ℕ
  pub p2p_node_id : String

pub record ChainConfig : Type 0 where
  pub epoch_info : EpochInfo
  pub n : ℕ
  pub f : ℕ
  pub l : ℕ
  pub self_id : ℕ
  pub node_info_map : List (ℕ × NodeInfo)
  pub validator_set : List (ℕ × ℕ)
  pub validator_dynamic_info_map : List (ℕ × ValidatorInfo)
  pub h : ℕ
  pub last_stable_validator_dynamic_info_map : List (ℕ × ValidatorInfo)
  pub last_stable_view : ℕ
  pub view : ℕ
  pub last_checkpoint_exec_block_hash : List ℕ
  pub primary_id : ℕ
  pub tracker : BlockProcessorTracker
  pub self_p2p_node_id : String

unfoldable pub is_proposer_election_type_wrf : ChainConfig → Bool
is_proposer_election_type_wrf c = elim c.epoch_info.proposer_election_type [
  | ElectionType.wrf ↦ true
  | _ ↦ false
]

unfoldable pub check_validator : ChainConfig → ℕ → Bool
check_validator c id = elim (lookup id c.validator_dynamic_info_map) [
  | none ↦ false
  | some _ ↦ true
]

unfoldable pub self_is_validator : ChainConfig → Bool
unfolding check_validator
self_is_validator c = check_validator c c.self_id

-- The info, and the configuration with the cache filled; `none` is the error of getNodeInfoFn.
unfoldable pub get_node_info :
    (ℕ → Option NodeInfo) → ChainConfig → ℕ → Option (NodeInfo × ChainConfig)
get_node_info get_info c id = elim (lookup id c.node_info_map) [
  | some info ↦ some (info, c)
  | none ↦ elim (get_info id) [
    | none ↦ none
    | some info ↦ some (info, record c { node_info_map = insert id info c.node_info_map })
  ]
]

-- The info of a validator with its full power.
unfoldable pub fresh_info : ℕ × ℕ → ℕ × ValidatorInfo
fresh_info (id, power) = (
  id,
  record {
    id = id;
    consensus_voting_power = power;
    consensus_voting_power_reduced = false;
    consensus_voting_power_reduce_view = 0;
  },
)

-- `none` is the error that there are less than 4 validators; `own_id` is the answer of
-- getNodeIDByP2PID.
unfoldable pub update_derived_data : Option ℕ → List (ℕ × ℕ) → ChainConfig → Option ChainConfig
unfolding fresh_info
update_derived_data own_id new_validator_set c =
    let infos = map fresh_info new_validator_set in
    if ltb (length new_validator_set) 4
    then none
    else some (record c {
      self_id = elim own_id [ none ↦ c.self_id | some id ↦ id ];
      validator_set = new_validator_set;
      validator_dynamic_info_map = infos;
      last_stable_validator_dynamic_info_map = infos;
      n = length infos;
      f = fault_bound (length infos);
      l = c.epoch_info.checkpoint_period *ᵤ c.epoch_info.high_watermark_checkpoint_period;
    })

-- binary.BigEndian.AppendUint64
unfoldable pub big_endian : ℕ → List ℕ
big_endian x =
    (x / 2 ^ 56 % 256)
    ∷ (x / 2 ^ 48 % 256)
    ∷ (x / 2 ^ 40 % 256)
    ∷ (x / 2 ^ 32 % 256)
    ∷ (x / 2 ^ 24 % 256)
    ∷ (x / 2 ^ 16 % 256)
    ∷ (x / 2 ^ 8 % 256)
    ∷ (x % 256)
    ∷ []

-- The nodes that made no recent block, with their powers.
unfoldable pub candidates : BlockProcessorTracker → List (ℕ × ValidatorInfo) → List Weighted
candidates t [] = []
candidates t ((id, info) ∷ infos) =
    let rest = candidates t infos in
    if recent_processor t id
    then rest
    else record { id = id; power = info.consensus_voting_power } ∷ rest

-- recentBlockNum of ChainConfig.ResetRecentBlockNum
unfoldable pub recent_block_number : ℕ → ℕ → ℕ
recent_block_number validators percentage =
    let recent = (validators *ᵤ percentage) / 100 in
    if recent == 0 then 1 else if recent == validators then validators -ᵤ 1 else recent

-- ChainConfig.ResetRecentBlockNum; `none` is a panic.
unfoldable pub reset_tracker : (ℕ → Option BlockMeta) → ChainConfig → ℕ → Option ChainConfig
unfolding recent_block_number
reset_tracker get_block c last =
    let recent =
      recent_block_number (length c.validator_dynamic_info_map)
        c.epoch_info.again_propose_percentage in
    elim (reset_recent_block_num get_block c.tracker c.epoch_info.start_block last recent) [
      | none ↦ none
      | some t ↦ some (record c { tracker = t })
    ]

-- The info of a node whose power is cut in view v.
unfoldable pub reduce : ℕ → ℕ → ValidatorInfo → ValidatorInfo
reduce weight v info = record info {
  consensus_voting_power = weight;
  consensus_voting_power_reduced = true;
  consensus_voting_power_reduce_view = v;
}

unfoldable pub set_last_stable_view : ℕ → ChainConfig → ChainConfig
set_last_stable_view view c = record c { last_stable_view = view }

-- checkView: the record of the higher views that other replicas are in.
unfoldable pub check_view : ChainConfig → ℕ → ℕ → List (ℕ × ℕ) → List (ℕ × ℕ)
unfolding check_validator
check_view c from view higher_view_record =
    if not (check_validator c from)
    then higher_view_record
    else if ltb c.view view
    then insert from view higher_view_record
    else higher_view_record

module _ (hash : List ℕ → ℕ) where
  unfoldable pub wrf_cal_primary_id_by_view : ChainConfig → ℕ → List (ℕ × ValidatorInfo) → Option ℕ
  unfolding candidates big_endian
  wrf_cal_primary_id_by_view c v infos =
      wrf_select_node_by_voting_power hash
        (c.last_checkpoint_exec_block_hash ++ (big_endian c.epoch_info.epoch ++ big_endian v))
        (candidates c.tracker infos)

  -- `none` is a panic: there is no candidate, or N is 0.
  unfoldable pub cal_primary_id_by_view : ChainConfig → ℕ → List (ℕ × ValidatorInfo) → Option ℕ
  unfolding wrf_cal_primary_id_by_view
  cal_primary_id_by_view c v infos = elim c.epoch_info.proposer_election_type [
    | ElectionType.wrf ↦ wrf_cal_primary_id_by_view c v infos
    | ElectionType.abnormal_rotation ↦ if c.n == 0 then none else some (v % c.n +ᵤ 1)
    | ElectionType.unknown ↦ wrf_cal_primary_id_by_view c v infos
  ]

  -- punishAbnormalNode; a primary that is no validator is a nil dereference.
  unfoldable pub punish_abnormal_node :
      ChainConfig → ℕ → List (ℕ × ValidatorInfo) → Option (List (ℕ × ValidatorInfo))
  unfolding cal_primary_id_by_view reduce
  punish_abnormal_node c v infos = elim (cal_primary_id_by_view c v infos) [
    | none ↦ none
    | some abnormal ↦ elim (lookup abnormal infos) [
      | none ↦ none
      | some info ↦
          if info.consensus_voting_power_reduced && info.consensus_voting_power_reduce_view == v
          then some infos
          else some (insert abnormal (reduce c.epoch_info.not_active_weight v info) infos)
    ]
  ]

  -- The loop over the views, `rounds` being those that are left.
  unfoldable pub punish_loop :
      Bool → ChainConfig → ℕ → ℕ → ℕ → List (ℕ × ValidatorInfo) → Option (List (ℕ × ValidatorInfo))
  unfolding punish_abnormal_node
  punish_loop is_recovery c view zero v infos = some infos
  punish_loop is_recovery c view (suc rounds) v infos = elim (v == view - 1 && is_recovery) [
    | true ↦ punish_loop is_recovery c view rounds (v + 1) infos
    | false ↦ elim (punish_abnormal_node c v infos) [
      | none ↦ none
      | some infos' ↦ punish_loop is_recovery c view rounds (v + 1) infos'
    ]
  ]

  unfoldable pub punish_abnormal_nodes :
      Bool → ℕ → ChainConfig → List (ℕ × ValidatorInfo) → Option (List (ℕ × ValidatorInfo))
  unfolding punish_loop
  punish_abnormal_nodes is_recovery view c infos =
      if view == 0 || (view == c.last_stable_view || ltb view c.view)
      then some infos
      else punish_loop is_recovery c view (view - c.last_stable_view) c.last_stable_view infos

-- The body of the loop of recoverAbnormalNodes.
unfoldable pub recover_info : ChainConfig → ℕ → ℕ → ValidatorInfo → ValidatorInfo
recover_info c view id info =
    if info.consensus_voting_power_reduced
      && leb (info.consensus_voting_power_reduce_view +ᵤ c.epoch_info.abnormal_node_exclude_view)
          view
    then record info {
      consensus_voting_power = elim (lookup id c.validator_set) [ none ↦ 0 | some p ↦ p ];
      consensus_voting_power_reduced = false;
      consensus_voting_power_reduce_view = 0;
    }
    else info

unfoldable pub recover_abnormal_nodes :
    ℕ → ChainConfig → List (ℕ × ValidatorInfo) → List (ℕ × ValidatorInfo)
unfolding recover_info
recover_abnormal_nodes view c infos =
    if view == 0 || ltb view c.view
    then infos
    else map (λ (x : ℕ × ValidatorInfo). (x.0, recover_info c view x.0 x.1)) infos

module _ (hash : List ℕ → ℕ) where
  -- updatePrimaryID
  unfoldable pub update_primary_id : ChainConfig → Option ChainConfig
  unfolding cal_primary_id_by_view
  update_primary_id c = elim (cal_primary_id_by_view hash c c.view c.validator_dynamic_info_map) [
    | none ↦ none
    | some id ↦ some (record c { primary_id = id })
  ]

  -- The infos of getUnstableValidatorDynamicInfoMap, before they are sorted into a message, and those
  -- that setView and setViewWithRecovery install.
  unfoldable pub unstable_infos : Bool → ℕ → ChainConfig → Option (List (ℕ × ValidatorInfo))
  unfolding punish_abnormal_nodes recover_abnormal_nodes
  unstable_infos is_recovery view c =
      elim (punish_abnormal_nodes hash is_recovery view c
        c.last_stable_validator_dynamic_info_map) [
          | none ↦ none
          | some infos ↦ some (recover_abnormal_nodes view c infos)
        ]

  -- setView, and setViewWithRecovery where `is_recovery` is true; isTest is false.
  unfoldable pub set_view : Bool → ℕ → ChainConfig → Option ChainConfig
  unfolding update_primary_id unstable_infos
  set_view is_recovery view c = elim (unstable_infos is_recovery view c) [
    | none ↦ none
    | some infos ↦ update_primary_id (record c { validator_dynamic_info_map = infos; view = view })
  ]
