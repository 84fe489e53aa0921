-- ===== src/ViewChange/Initial.antt =====
-- viewchange_mgr.go: selectInitialCheckpoint, the checkpoint that a new view starts from. `order` is
-- the order in which Go walks the map of checkpoints, `verified` the check of a signature. Log lines,
-- among them the one on a genesis block that differs, are left out.
pub mod Collected
pub mod Held
pub mod Verified
pub mod Chosen
use go_hpc_rbft.Base.{
  ℕ, ◌-◌, Bool, true, false, not, ◌&&◌, ◌≡◌, ◌↔◌, List, [], ◌∷◌, ◌++◌, Option, none, some, String,
  arith, eq_iff, if◌then◌else◌, ltb, leb, ◌==◌, str_eq, Eq, length, count, any,
}
use go_hpc_rbft.Base.Maps.{lookup, insert}
use go_hpc_rbft.Base.Groups.{append_to}
use go_hpc_rbft.Messages.{Checkpoint, SignedCheckpoint, VcBasis, height, digest}
use go_hpc_rbft.Quorum.{common_case_quorum, one_correct_quorum}

-- types.CheckpointState with its MetaState.
pub record CheckpointState : Type 0 where
  pub height : ℕ
  pub digest : String
  pub is_config : Bool

abbrev bool_eq : Bool → Bool → Bool
bool_eq true b = b
bool_eq false b = not b

abbrev state_beq : CheckpointState → CheckpointState → Bool
state_beq a b =
    a.height == b.height && (str_eq a.digest b.digest && bool_eq a.is_config b.is_config)

pub state_beq_iff : (a b : CheckpointState) → (state_beq a b ≡ true) ↔ (a ≡ b)
state_beq_iff a b = ground (arith, eq_iff a.digest b.digest)

instance abbrev pub state_eq : Eq CheckpointState
state_eq = record { beq = state_beq; beq_iff = state_beq_iff }

abbrev pub Checkpoints : Type 0
Checkpoints = List (CheckpointState × List SignedCheckpoint)

-- The key of a checkpoint; a nil one is skipped.
unfoldable pub state_of : Option SignedCheckpoint → Option CheckpointState
state_of none = none
state_of (some c) = elim c.checkpoint [
  | none ↦ none
  | some cp ↦ some (record {
    height = height (some cp);
    digest = digest (some cp);
    is_config = cp.need_update_epoch;
  })
]

-- The loop over one C set; `seen` has the keys of `record`.
unfoldable pub collect_cset :
    List (Option SignedCheckpoint) → List CheckpointState → Checkpoints → Checkpoints
unfolding state_of append_to
collect_cset [] seen m = m
collect_cset (none ∷ rest) seen m = collect_cset rest seen m
collect_cset (some c ∷ rest) seen m = elim (state_of (some c)) [
  | none ↦ collect_cset rest seen m
  | some cs ↦ elim (any (λ s. state_beq s cs) seen) [
    | true ↦ collect_cset rest seen m
    | false ↦ collect_cset rest (cs ∷ seen) (append_to cs c m)
  ]
]

unfoldable pub collect : List VcBasis → Checkpoints → Checkpoints
unfolding collect_cset
collect [] m = m
collect (b ∷ set) m = collect set (collect_cset b.cset [] m)

-- The three tests of the second loop.
unfoldable pub is_candidate : ℕ → ℕ → List VcBasis → CheckpointState × List SignedCheckpoint → Bool
is_candidate nodes f set (cs, signed) =
    not (ltb (length signed) (one_correct_quorum nodes f))
    && not (cs.is_config && ltb (length signed) (common_case_quorum nodes f))
    && not (ltb (count (λ b. leb b.h cs.height) set) (common_case_quorum nodes f))

pub record Initial : Type 0 where
  pub state : CheckpointState
  pub checkpoint_set : List SignedCheckpoint
  pub find : Bool

unfoldable pub choose : ℕ → ℕ → List VcBasis → Checkpoints → Initial → Initial
unfolding is_candidate
choose nodes f set [] best = best
choose nodes f set (entry ∷ rest) best = choose nodes f set rest (
    if not (is_candidate nodes f set entry)
    then best
    else if leb best.state.height entry.0.height
    then record { state = entry.0; checkpoint_set = entry.1; find = true }
    else best)

module _ (order : Checkpoints → Checkpoints) (verified : SignedCheckpoint → Bool)
    (nodes f : ℕ) where
  unfoldable pub select_initial_checkpoint :
      List VcBasis → Option (CheckpointState × List SignedCheckpoint)
  unfolding choose collect
  select_initial_checkpoint set =
      let checkpoints = collect set [] in
      let none_yet : Initial = record {
        state = record { height = 0; digest = ""; is_config = false };
        checkpoint_set = [];
        find = false;
      } in
      let best = choose nodes f set (order checkpoints) none_yet in
      if length checkpoints == 0
      then none
      else if not best.find
      then none
      else if ltb (count verified best.checkpoint_set) (one_correct_quorum nodes f)
      then none
      else some (best.state, best.checkpoint_set)
