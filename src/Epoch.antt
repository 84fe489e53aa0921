-- ===== src/Epoch.antt =====
-- epoch_mgr.go: the requests and proofs of epoch changes, and from pb_utils.go the getters of a
-- proof. The stored checkpoint of an epoch, as ReadEpochState and the generated unmarshalling give it,
-- is a parameter; a proof that cannot be marshalled is not modelled. Every element of a received list
-- is there, since the generated unmarshalling makes no nil elements.
pub mod Paged
use go_hpc_rbft.Base.{
  ℕ, zero, suc, ◌-◌, ◌+◌, Bool, true, false, not, List, [], ◌∷◌, map, Option, none, some, String,
  if◌then◌else◌, ltb, leb, ◌==◌, str_eq,
}
use go_hpc_rbft.Base.Words.{◌+ᵤ◌, ◌-ᵤ◌}
use go_hpc_rbft.Messages.{Checkpoint, get_epoch, next_epoch}

pub record QuorumValidator : Type 0 where
  pub id : ℕ
  pub peer_id : String

-- The signatures are left out: no code here reads them.
pub record QuorumCheckpoint : Type 0 where
  pub checkpoint : Option Checkpoint
  pub validator_set : List (ℕ × QuorumValidator)

pub record EpochChange : Type 0 where
  pub checkpoint : Option QuorumCheckpoint
  pub validators : List QuorumValidator

pub record EpochChangeRequest : Type 0 where
  pub author : ℕ
  pub start_epoch : ℕ
  pub target_epoch : ℕ
  pub author_p2p_node_id : String

pub record EpochChangeProof : Type 0 where
  pub epoch_changes : List EpochChange
  pub more : ℕ
  pub author : ℕ
  pub genesis_block_digest : String

pub record EpochManager : Type 0 where
  pub epoch : ℕ
  pub self_id : ℕ
  pub self_p2p_node_id : String
  pub genesis_block_digest : String

-- epc.GetCheckpoint().Epoch()
unfoldable pub epoch_of : EpochChange → ℕ
unfolding get_epoch
epoch_of c = elim c.checkpoint [ none ↦ 0 | some q ↦ get_epoch q.checkpoint ]

unfoldable pub last_change : List EpochChange → Option EpochChange
last_change [] = none
last_change (c ∷ cs) = elim cs [ [] ↦ some c | _ ∷ _ ↦ last_change cs ]

-- proof.NextEpoch(): the last change, its checkpoint or the checkpoint in it may be nil, which is a
-- nil dereference.
unfoldable pub proof_next_epoch : EpochChangeProof → Option ℕ
unfolding last_change next_epoch
proof_next_epoch p = elim (last_change p.epoch_changes) [
  | none ↦ none
  | some c ↦ elim c.checkpoint [
    | none ↦ none
    | some q ↦ elim q.checkpoint [ none ↦ none | some k ↦ some (next_epoch k) ]
  ]
]

-- retrieveEpochChange: the request and its recipient.
unfoldable pub retrieve_epoch_change : EpochManager → ℕ → ℕ → ℕ → EpochChangeRequest × ℕ
retrieve_epoch_change em start target recipient = (
  record {
    author = em.self_id;
    start_epoch = start;
    target_epoch = target;
    author_p2p_node_id = em.self_p2p_node_id;
  },
  recipient,
)

-- verifyEpochChangeRequest
unfoldable pub verify_request : EpochManager → EpochChangeRequest → Bool
verify_request em r =
    if leb r.target_epoch r.start_epoch then false else not (ltb em.epoch r.target_epoch)

unfoldable pub change_of : QuorumCheckpoint → EpochChange
change_of q = record {
  checkpoint = some q;
  validators = map (λ (x : ℕ × QuorumValidator). x.1) q.validator_set;
}

module _ (stored : ℕ → Option QuorumCheckpoint) where
  unfoldable pub collect_changes : ℕ → ℕ → Option (List EpochChange)
  unfolding change_of
  collect_changes zero epoch = some []
  collect_changes (suc rounds) epoch = elim (stored epoch) [
    | none ↦ none
    | some q ↦ elim (collect_changes rounds (epoch + 1)) [
      | none ↦ none
      | some rest ↦ some (change_of q ∷ rest)
    ]
  ]

  -- pagingGetEpochChangeProof; `none` is the error that an epoch is not stored.
  unfoldable pub paging_get_epoch_change_proof : EpochManager → ℕ → ℕ → ℕ → Option EpochChangeProof
  unfolding collect_changes
  paging_get_epoch_change_proof em start stop limit =
      let exceeds = ltb limit (stop -ᵤ start) in
      let paging = if exceeds then start +ᵤ limit else stop in
      elim (collect_changes (paging - start) start) [
        | none ↦ none
        | some changes ↦ some (record {
          epoch_changes = changes;
          more = if exceeds then stop else 0;
          author = em.self_id;
          genesis_block_digest = "";
        })
      ]

  -- processEpochChangeRequest: the proof that is sent and the node that it goes to; `none` is an
  -- error. The limit is MaxNumEpochEndingCheckpoint.
  unfoldable pub process_epoch_change_request :
      EpochManager → EpochChangeRequest → Option (EpochChangeProof × String)
  unfolding verify_request
  process_epoch_change_request em r =
      if verify_request em r
      then elim (paging_get_epoch_change_proof em r.start_epoch r.target_epoch 100) [
        | none ↦ none
        | some p ↦
            some (record p { genesis_block_digest = em.genesis_block_digest }, r.author_p2p_node_id)
      ]
      else none

-- The first epoch that is not stale, or 0, and the changes from there on.
unfoldable pub skip_stale : ℕ → List EpochChange → ℕ × List EpochChange
skip_stale epoch [] = (0, [])
skip_stale epoch (c ∷ cs) =
    let rest = skip_stale epoch cs in if leb epoch (epoch_of c) then (epoch_of c, c ∷ cs) else rest

unfoldable pub verify_epoch_change_proof : EpochManager → EpochChangeProof → Option EpochChangeProof
unfolding skip_stale
verify_epoch_change_proof em p =
    let (start, changes) = skip_stale em.epoch p.epoch_changes in
    if start == em.epoch
    then elim changes [ [] ↦ none | c ∷ cs ↦ some (record p { epoch_changes = c ∷ cs }) ]
    else none

pub data ProofOutcome : Type 0 where
  panicked stale other_genesis refused : ProofOutcome
  sync : EpochChangeProof → ProofOutcome

unfoldable pub process_epoch_change_proof : EpochManager → EpochChangeProof → ProofOutcome
process_epoch_change_proof em p = elim (proof_next_epoch p) [
  | none ↦ ProofOutcome.panicked
  | some change_to ↦
      if leb change_to em.epoch
      then ProofOutcome.stale
      else if not (str_eq p.genesis_block_digest em.genesis_block_digest)
      then ProofOutcome.other_genesis
      else elim (verify_epoch_change_proof em p) [
        | none ↦ ProofOutcome.refused
        | some p' ↦ ProofOutcome.sync p'
      ]
]

-- The messages that checkEpoch tells apart.
pub data EpochMessage : Type 0 where
  change_proof : EpochChangeProof → EpochMessage
  change_request : EpochChangeRequest → EpochMessage
  other : EpochMessage

pub data EpochAction : Type 0 where
  nothing : EpochAction
  asked : EpochChangeRequest → ℕ → EpochAction
  processed : ProofOutcome → EpochAction
  answered : Option (EpochChangeProof × String) → EpochAction

-- checkEpoch, of a message of epoch `remote` from the node `sender`.
unfoldable pub check_epoch :
    (ℕ → Option QuorumCheckpoint) → EpochManager → ℕ → ℕ → EpochMessage → EpochAction
check_epoch stored em remote sender msg =
    if ltb em.epoch remote
    then elim msg [
      | change_proof p ↦ EpochAction.processed (process_epoch_change_proof em p)
      | change_request _ ↦
          EpochAction.asked (retrieve_epoch_change em em.epoch remote sender).0 sender
      | other ↦ EpochAction.asked (retrieve_epoch_change em em.epoch remote sender).0 sender
    ]
    else if ltb remote em.epoch
    then elim msg [
      | change_proof _ ↦ EpochAction.nothing
      | change_request r ↦ EpochAction.answered (process_epoch_change_request stored em r)
      | other ↦ EpochAction.nothing
    ]
    else EpochAction.nothing
