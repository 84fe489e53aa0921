-- ===== src/Messages.antt =====
-- common/consensus/rbft.pb.go and pb_utils.go: the consensus messages and their getters. A pointer
-- that may be nil is an `Option`; a getter of a nil message gives Go's zero value. Byte strings and
-- digests are texts. The view change that a checkpoint may carry along is left out.
use go_hpc_rbft.Base.{
  ℕ, Bool, false, ◌&&◌, List, Option, none, some, String, ◌==◌, str_eq, if◌then◌else◌,
}
use go_hpc_rbft.Base.Words.{◌+ᵤ◌}

pub record HashBatch : Type 0 where
  pub request_hash_list : List String
  pub de_duplicate_request_hash_list : List String
  pub timestamp : ℕ
  pub proposer : ℕ

pub record PrePrepare : Type 0 where
  pub replica_id : ℕ
  pub view : ℕ
  pub sequence_number : ℕ
  pub batch_digest : String
  pub hash_batch : Option HashBatch

pub record Prepare : Type 0 where
  pub replica_id : ℕ
  pub view : ℕ
  pub sequence_number : ℕ
  pub batch_digest : String

pub record Commit : Type 0 where
  pub replica_id : ℕ
  pub view : ℕ
  pub sequence_number : ℕ
  pub batch_digest : String

pub record ExecuteState : Type 0 where
  pub height : ℕ
  pub digest : String
  pub batch_digest : String

pub record Checkpoint : Type 0 where
  pub epoch : ℕ
  pub execute_state : Option ExecuteState
  pub need_update_epoch : Bool

pub record SignedCheckpoint : Type 0 where
  pub author : ℕ
  pub checkpoint : Option Checkpoint
  pub signature : String

pub record VcPq : Type 0 where
  pub sequence_number : ℕ
  pub batch_digest : String
  pub view : ℕ

pub record VcBasis : Type 0 where
  pub replica_id : ℕ
  pub view : ℕ
  pub h : ℕ
  pub pset : List VcPq
  pub qset : List VcPq
  pub cset : List (Option SignedCheckpoint)

-- m.GetExecuteState().GetHeight() and its kin.
unfoldable pub get_execute_state : Option Checkpoint → Option ExecuteState
get_execute_state none = none
get_execute_state (some c) = c.execute_state

unfoldable pub get_height : Option ExecuteState → ℕ
get_height none = 0
get_height (some s) = s.height

unfoldable pub get_digest : Option ExecuteState → String
get_digest none = ""
get_digest (some s) = s.digest

unfoldable pub height : Option Checkpoint → ℕ
unfolding get_height get_execute_state
height c = get_height (get_execute_state c)

unfoldable pub digest : Option Checkpoint → String
unfolding get_digest get_execute_state
digest c = get_digest (get_execute_state c)

unfoldable pub get_epoch : Option Checkpoint → ℕ
get_epoch none = 0
get_epoch (some c) = c.epoch

unfoldable pub next_epoch : Checkpoint → ℕ
next_epoch c = if c.need_update_epoch then c.epoch +ᵤ 1 else c.epoch

unfoldable pub execute_state_equals : Option ExecuteState → Option ExecuteState → Bool
unfolding get_height get_digest
execute_state_equals a b = get_height a == get_height b && str_eq (get_digest a) (get_digest b)

abbrev bool_eq : Bool → Bool → Bool
bool_eq false false = Bool.true
bool_eq Bool.true Bool.true = Bool.true
bool_eq _ _ = false

unfoldable pub equals : Checkpoint → Checkpoint → Bool
unfolding execute_state_equals
equals m n =
    m.epoch == n.epoch
    && execute_state_equals m.execute_state n.execute_state
    && bool_eq m.need_update_epoch n.need_update_epoch
