-- ===== src/Votes.antt =====
-- The prepare and commit phases: recvPrepare, maybeSendCommit, sendCommit, recvCommit,
-- commitPendingBlocks and what they call (rbft_impl.go, helper.go, store_mgr.go). What a handler
-- sends, writes, executes and does to timers goes to `outbox`, the newest first; a view change is
-- always the last thing a handler starts, and stands there as `send_view_change`. A transaction is
-- named by its hash. Metrics are left out, and isTest is false.
pub mod Pending
pub mod Phases
pub mod Loop
pub mod Ordered
pub mod Ends
pub mod Kept
pub mod Tally
pub mod Tallied
pub mod Propose
pub mod Bound
pub mod Batched
pub mod Guard
pub mod Agree
use go_hpc_rbft.Base.{
  ℕ, zero, suc, ◌+◌, ◌-◌, ◌%◌, Bool, true, false, not, ◌&&◌, ◌||◌, List, [], ◌∷◌, ◌++◌, Option,
  none, some, String, if◌then◌else◌, ltb, leb, ◌==◌, str_eq, any, nat_eq, string_eq,
}
use go_hpc_rbft.Base.Words.{◌+ᵤ◌, ◌-ᵤ◌}
use go_hpc_rbft.Base.Maps.{lookup, insert, delete}
use go_hpc_rbft.Messages.{PrePrepare, Prepare, Commit}
use go_hpc_rbft.Certs.{MsgId, CertStore, VoteId}
use go_hpc_rbft.Status.{StatusManager}

-- RequestBatch, as far as the execution reads it.
pub record RequestBatch : Type 0 where
  pub request_hash_list : List String
  pub request_list : List String
  pub timestamp : ℕ
  pub seq_no : ℕ
  pub local_list : List Bool
  pub batch_hash : String
  pub proposer : ℕ

-- wrfHighViewCacheMsg
pub record HighViewCache : Type 0 where
  pub pre_prepares : List PrePrepare
  pub prepares : List Prepare
  pub commits : List Commit

pub data Effect : Type 0 where
  broadcast_prepare : Prepare → Effect
  broadcast_commit : Commit → Effect
  persist_p_set : MsgId → List Prepare → Effect
  persist_c_set : MsgId → List Commit → Effect
  execute : List (String × Bool) → ℕ → ℕ → ℕ → Effect  -- txs, height, timestamp, proposer
  stop_new_view_timer soft_start_new_view_timer soft_restart_batch_timer : Effect
  null_req_timer_reset send_view_change : Effect
  persist_q_set : PrePrepare → Effect
  persist_batch : String → Effect
  fetch_missing_request : MsgId → ℕ → Effect  -- the batch, the replica asked
  stop_null_request_timer soft_start_high_watermark_timer stop_sync_state_timers : Effect

pub record Replica : Type 0 where
  pub self_id : ℕ
  pub primary_id : ℕ
  pub view : ℕ
  pub h : ℕ
  pub l : ℕ
  pub start_block : ℕ
  pub epoch_period : ℕ
  pub checkpoint_period : ℕ
  pub nodes : ℕ
  pub faults : ℕ
  pub is_wrf : Bool
  pub validators : List ℕ  -- the keys of ValidatorDynamicInfoMap
  pub status : StatusManager
  pub last_exec : ℕ
  pub cert_store : CertStore
  pub seq_map : List (ℕ × String)
  pub missing_batches_in_fetching : List (String × MsgId)
  pub committed_cert : List (MsgId × String)
  pub batch_store : List (String × RequestBatch)
  pub outstanding_req_batches : List (String × RequestBatch)
  pub high_view_cache : List (ℕ × HighViewCache)
  pub config_batch_in_order : ℕ
  pub config_batch_to_execute : ℕ
  pub view_change_seq_no : ℕ
  pub last_new_view_timeout : ℕ
  pub new_view_timeout : ℕ
  pub null_request_timeout : ℕ
  pub outbox : List Effect

unfoldable pub emit : Effect → Replica → Replica
emit e r = record r { outbox = e ∷ r.outbox }

unfoldable pub is_primary : Replica → ℕ → Bool
is_primary r id = r.primary_id == id

unfoldable pub in_w : Replica → ℕ → Bool
in_w r n = ltb r.h n

unfoldable pub in_v : Replica → ℕ → Bool
in_v r v = r.view == v

unfoldable pub in_wv : Replica → ℕ → ℕ → Bool
in_wv r v n = in_v r v && in_w r n

unfoldable pub beyond_range : Replica → ℕ → Bool
beyond_range r n = ltb (r.h +ᵤ r.l) n || ltb (r.start_block +ᵤ r.epoch_period -ᵤ 1) n

unfoldable pub send_in_w : Replica → ℕ → Bool
send_in_w r n = ltb r.h n && (leb n (r.h +ᵤ r.l) && leb n (r.start_block +ᵤ r.epoch_period -ᵤ 1))

-- isValidator: CheckValidator of the own id.
unfoldable pub is_validator : Replica → Bool
is_validator r = any (λ id. id == r.self_id) r.validators

unfoldable pub get_high_view_cache : Replica → ℕ → HighViewCache
get_high_view_cache r view = elim (lookup view r.high_view_cache) [
  | some c ↦ c
  | none ↦ record { pre_prepares = []; prepares = []; commits = [] }
]

-- "only for wrf: cache messages that are higher in the view and do not exceed the high watermark"
unfoldable pub caches : Replica → ℕ → ℕ → Bool
caches r view n = r.is_wrf && (ltb r.view view && not (beyond_range r n))

unfoldable pub is_prepare_legal : Replica → Prepare → Bool
is_prepare_legal r p =
    if not (in_wv r p.view p.sequence_number)
    then false
    else if is_primary r p.replica_id
    then false
    else true

unfoldable pub is_commit_legal : Replica → Commit → Bool
is_commit_legal r c = if not (in_wv r c.view c.sequence_number) then false else true
