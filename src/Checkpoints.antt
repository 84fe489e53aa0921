-- ===== src/Checkpoints.antt =====
-- Checkpoints and the state transfer they call for: compareCheckpointWithWeakSet (helper.go),
-- weakCheckpointSetOutOfRange, updateHighStateTarget and recvCheckpoint (rbft_impl.go). `order` is the
-- order in which Go walks the map checkpointStore, `hash` the hex text of a checkpoint's hash, `verified`
-- the check of a signature, `get_block_meta` the block that the ledger returns. What the handlers start
-- in other parts, the last thing they do, goes to `outbox`, the newest first. Metrics and logs are left
-- out, and so is the tracing text of an inconsistent checkpoint.
pub mod Matching
pub mod Weak
pub mod Target
use go_hpc_rbft.Base.{
  ℕ, ◌+◌, ◌≡◌, ◌↔◌, Bool, true, false, not, ◌&&◌, ◌||◌, List, [], ◌∷◌, ◌++◌, Option, none, some,
  String, arith, eq_iff, if◌then◌else◌, ltb, leb, ◌==◌, str_eq, Eq, nat_eq, string_eq, length,
}
use go_hpc_rbft.Base.Groups.{listed, append_to}
use go_hpc_rbft.Base.Maps.{lookup, insert, delete}
use go_hpc_rbft.Base.Words.{◌+ᵤ◌}
use go_hpc_rbft.Messages.{Checkpoint, SignedCheckpoint, height, digest}
use go_hpc_rbft.Quorum.{common_case_quorum, one_correct_quorum}
use go_hpc_rbft.Status.{StatusManager, StatusType, atomic_has_bit, has_bit, on, off}
use go_hpc_rbft.Tracker.{BlockMeta, BlockProcessorTracker, add_block}

pub record ChkptId : Type 0 where
  pub author : ℕ
  pub sequence : ℕ

abbrev chkpt_beq : ChkptId → ChkptId → Bool
chkpt_beq a b = a.author == b.author && a.sequence == b.sequence

pub chkpt_beq_iff : (a b : ChkptId) → (chkpt_beq a b ≡ true) ↔ (a ≡ b)
chkpt_beq_iff a b = ground arith

instance abbrev pub chkpt_eq : Eq ChkptId
chkpt_eq = record { beq = chkpt_beq; beq_iff = chkpt_beq_iff }

-- types.MetaState
pub record MetaState : Type 0 where
  pub height : ℕ
  pub digest : String

abbrev meta_beq : MetaState → MetaState → Bool
meta_beq a b = a.height == b.height && str_eq a.digest b.digest

pub meta_beq_iff : (a b : MetaState) → (meta_beq a b ≡ true) ↔ (a ≡ b)
meta_beq_iff a b = ground (arith, eq_iff a.digest b.digest)

instance abbrev pub meta_eq : Eq MetaState
meta_eq = record { beq = meta_beq; beq_iff = meta_beq_iff }

pub record StateUpdateTarget : Type 0 where
  pub meta_state : MetaState
  pub checkpoint_set : List SignedCheckpoint

pub data Effect : Type 0 where
  set_abnormal stop_namespace try_state_transfer init_recovery soft_start_high_watermark_timer :
      Effect
  finish_config_checkpoint finish_normal_checkpoint : ℕ → String → List SignedCheckpoint → Effect

pub record Node : Type 0 where
  pub is_validator : Bool
  pub h : ℕ
  pub l : ℕ
  pub nodes : ℕ
  pub faults : ℕ
  pub epoch : ℕ
  pub last_exec : ℕ
  pub checkpoint_store : List (ChkptId × SignedCheckpoint)
  pub local_checkpoints : List (ℕ × SignedCheckpoint)
  pub higher_checkpoints : List (ℕ × SignedCheckpoint)
  pub high_state_target : Option StateUpdateTarget
  pub status : StatusManager
  pub last_checkpoint_exec_block_hash : String
  pub last_checkpoint_exec_block_height : ℕ
  pub tracker : BlockProcessorTracker
  pub outbox : List Effect

unfoldable pub emit : Effect → Node → Node
emit e r = record r { outbox = e ∷ r.outbox }

unfoldable pub update_high_state_target : MetaState → List SignedCheckpoint → Node → Node
update_high_state_target target signed r =
    let updated = record r {
      high_state_target = some (record { meta_state = target; checkpoint_set = signed });
    } in
    elim r.high_state_target [
      | none ↦ updated
      | some old ↦ if leb target.height old.meta_state.height then r else updated
    ]

-- on(Inconsistent), setAbNormal, stopNamespace
unfoldable pub halt : Node → Node
unfolding emit
halt r =
    emit Effect.stop_namespace
      (emit Effect.set_abnormal (record r { status = on r.status (StatusType.inconsistent ∷ []) }))

-- The result of the loop over checkpointStore: too many values, or the checkpoints of each hash with
-- the hashes that have f + 1 of them.
pub data Tally : Type 0 where
  too_many : Tally
  tallied : List (String × List SignedCheckpoint) → List String → Tally

module _ (hash : Option Checkpoint → String) where
  unfoldable pub tally :
      ℕ
      → ℕ
      → List (ChkptId × SignedCheckpoint)
      → List (String × List SignedCheckpoint)
      → List String
      → Tally
  unfolding append_to
  tally weak wanted [] diff correct = tallied diff correct
  tally weak wanted ((cp, signed) ∷ rest) diff correct =
      let k = hash signed.checkpoint in
      let diff' = append_to k signed diff in
      elim (cp.sequence == wanted) [
        | false ↦ tally weak wanted rest diff correct
        | true ↦ elim (ltb weak (length diff')) [
          | true ↦ too_many
          | false ↦
              tally weak wanted rest diff'
                (if length (listed k diff') == weak then correct ++ k ∷ [] else correct)
        ]
      ]

  -- What is done with the hashes that have a weak certificate: the answer, and the checkpoints that
  -- match. A hash of the list has a checkpoint, so the text "" is never read.
  unfoldable pub judge : ℕ → Tally → Node → (Bool × List SignedCheckpoint) × Node
  unfolding halt emit update_high_state_target listed
  judge at too_many r = ((false, []), halt r)
  judge at (tallied diff []) r = ((true, []), r)
  judge at (tallied diff (k ∷ _ ∷ _)) r = ((false, []), halt r)
  judge at (tallied diff (k ∷ [])) r =
      let signed = listed k diff in
      let correct : String = elim signed [ [] ↦ "" | s ∷ _ ↦ digest s.checkpoint ] in
      elim (lookup at r.local_checkpoints) [
        | none ↦ ((true, signed), r)
        | some local ↦ if str_eq (digest local.checkpoint) correct then ((true, signed), r) else (
          (false, []),
          emit Effect.try_state_transfer
              (update_high_state_target (record { height = at; digest = correct }) signed r),
        )
      ]

  module _ (order : List (ChkptId × SignedCheckpoint) → List (ChkptId × SignedCheckpoint)) where
    unfoldable pub compare_checkpoint_with_weak_set :
        SignedCheckpoint → Node → (Bool × List SignedCheckpoint) × Node
    unfolding tally judge
    compare_checkpoint_with_weak_set signed r =
        let at = height signed.checkpoint in
        let store =
          insert (record { author = signed.author; sequence = at }) signed r.checkpoint_store in
        if not (ltb r.h at)
        then ((false, []), r)
        else judge at (tally (one_correct_quorum r.nodes r.faults) at (order store) [] [])
            (record r { checkpoint_store = store })

-- The loop over higherCheckpoints: those left in the map, the checkpoints of each state, and the
-- highest state with more than f + 1 of them.
unfoldable pub weak_loop :
    ℕ
    → ℕ
    → List (ℕ × SignedCheckpoint)
    → List (ℕ × SignedCheckpoint)
    → List (MetaState × List SignedCheckpoint)
    → MetaState
    → List (ℕ × SignedCheckpoint) × List (MetaState × List SignedCheckpoint) × MetaState
unfolding listed append_to
weak_loop weak high [] higher record_ highest = (higher, record_, highest)
weak_loop weak high ((id, signed) ∷ rest) higher record_ highest =
    let meta : MetaState = record {
      height = height signed.checkpoint;
      digest = digest signed.checkpoint;
    } in
    let record' = append_to meta signed record_ in
    elim (leb (height signed.checkpoint) high) [
      | true ↦ weak_loop weak high rest (delete id higher) record_ highest
      | false ↦ weak_loop weak high rest higher record' (
          if ltb weak (length (listed meta record')) && ltb highest.height meta.height
          then meta
          else highest)
    ]

module _ (visit : List (ℕ × SignedCheckpoint) → List (ℕ × SignedCheckpoint)) where
  unfoldable pub weak_checkpoint_set_out_of_range : SignedCheckpoint → Node → Bool × Node
  unfolding weak_loop update_high_state_target emit
  weak_checkpoint_set_out_of_range signed r =
      let high = r.h +ᵤ r.l in
      let added = record r {
        higher_checkpoints = insert signed.author signed r.higher_checkpoints;
      } in
      let (higher, found, highest) =
        weak_loop (one_correct_quorum r.nodes r.faults) high (visit added.higher_checkpoints)
          added.higher_checkpoints [] (record { height = 0; digest = "" }) in
      let looked = record added { higher_checkpoints = higher } in
      if ltb (height signed.checkpoint) high
      then (false, record r { higher_checkpoints = delete signed.author r.higher_checkpoints })
      else if ltb (length added.higher_checkpoints) (one_correct_quorum r.nodes r.faults)
      then (false, added)
      else elim (lookup highest found) [
        | none ↦ (false, looked)
        | some cert ↦
            if leb highest.height r.last_exec
            then (false, emit Effect.soft_start_high_watermark_timer looked)
            else (true, update_high_state_target highest cert looked)
      ]

-- The checkpoint that a node which is no validator takes in place of its own: the one visited last.
unfoldable pub take_stored :
    List (ChkptId × SignedCheckpoint) → Bool → SignedCheckpoint → Bool × SignedCheckpoint
take_stored [] found signed = (found, signed)
take_stored ((cp, stored) ∷ rest) found signed =
    let hit = cp.sequence == height signed.checkpoint in
    take_stored rest (hit || found) (if hit then stored else signed)

-- The end of recvCheckpoint, when the checkpoint is a local one too. `none` is a panic of AddBlock.
unfoldable pub advance :
    (ℕ → Option BlockMeta) → Checkpoint → List SignedCheckpoint → Node → Option Node
unfolding emit
advance get_block_meta cp matching r =
    let at = height (some cp) in
    let d = digest (some cp) in
    let moved = record r {
      last_checkpoint_exec_block_hash = d;
      last_checkpoint_exec_block_height = at;
    } in
    elim (get_block_meta at) [
      | none ↦ some moved
      | some meta ↦
          elim (add_block r.tracker
            (record { processor_node_id = meta.processor_node_id; block_num = at })) [
              | none ↦ none
              | some t ↦ some (
                  emit
                    (if cp.need_update_epoch
                      then Effect.finish_config_checkpoint at d matching
                      else Effect.finish_normal_checkpoint at d matching)
                    (record moved {
                      tracker = t;
                      status = off r.status (StatusType.wait_checkpoint_finished ∷ []);
                    }))
            ]
    ]

-- What recvCheckpoint does with the answer of compareCheckpointWithWeakSet.
unfoldable pub compared :
    (ℕ → Option BlockMeta)
    → Checkpoint
    → SignedCheckpoint
    → (Bool × List SignedCheckpoint) × Node
    → Option Node
unfolding advance update_high_state_target
compared get_block_meta cp signed ((false, _), r) = some r
compared get_block_meta cp signed ((true, matching), r) =
    let at = height signed.checkpoint in
    if ltb (length matching) (common_case_quorum r.nodes r.faults)
    then some r
    else elim (lookup at r.local_checkpoints) [
      | none ↦ some (
          update_high_state_target (record { height = at; digest = digest signed.checkpoint })
            matching r)
      | some _ ↦ advance get_block_meta cp matching r
    ]

module _ (hash : Option Checkpoint → String) (verified : SignedCheckpoint → Bool)
    (get_block_meta : ℕ → Option BlockMeta)
    (order : List (ChkptId × SignedCheckpoint) → List (ChkptId × SignedCheckpoint))
    (visit : List (ℕ × SignedCheckpoint) → List (ℕ × SignedCheckpoint)) where
  -- recvCheckpoint after the tests of the epoch and the signature.
  unfoldable pub recv_verified : Checkpoint → SignedCheckpoint → Node → Option Node
  unfolding weak_checkpoint_set_out_of_range compare_checkpoint_with_weak_set compared emit
  recv_verified cp signed r =
      let far = weak_checkpoint_set_out_of_range visit signed r in
      let r₁ = far.1 in
      let near =
        compared get_block_meta cp signed (compare_checkpoint_with_weak_set hash order signed r₁) in
      if not far.0
      then near
      else if atomic_has_bit r₁.status StatusType.state_transferring
      then some r₁
      else some (
          emit Effect.try_state_transfer (
            emit Effect.init_recovery
              (record r₁ { status = off r₁.status (StatusType.wait_checkpoint_finished ∷ []) })))

  -- `none` is a panic: a checkpoint message without a checkpoint, or AddBlock on an empty ring.
  unfoldable pub recv_checkpoint : SignedCheckpoint → Bool → Node → Option Node
  unfolding take_stored recv_verified
  recv_checkpoint signed local r =
      let outsider = local && not r.is_validator in
      let (found, stored) = take_stored (order r.checkpoint_store) false signed in
      let taken = if outsider then stored else signed in
      let checked = outsider && found in
      if outsider && not found then some r else elim taken.checkpoint [
        | none ↦ none
        | some cp ↦
            if ltb cp.epoch r.epoch
            then some r
            else if not local && (not checked && not (verified taken))
            then some r
            else recv_verified cp taken r
      ]
