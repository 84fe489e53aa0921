-- ===== src/Watermarks.antt =====
-- rbft_impl.go: moveWatermarks, with cleanCommittedCertCache and deleteCheckpoint of store_mgr.go.
-- What is deleted from the storage, and what the request pool is told, are effects, newest first;
-- the signature of a checkpoint is a parameter that may fail.
pub mod Cleared
pub mod Batches
pub mod Retained
pub mod Moved
use go_hpc_rbft.Base.{
  ℕ, ◌+◌, ◌-◌, ◌*◌, ◌/◌, Bool, true, false, not, ◌&&◌, List, [], ◌∷◌, ◌++◌, Option, none, some,
  String, if◌then◌else◌, ltb, leb, ◌==◌, string_eq, nat_eq,
}
use go_hpc_rbft.Base.Maps.{insert, delete, delete_if}
use go_hpc_rbft.Messages.{VcPq, Checkpoint, SignedCheckpoint}
use go_hpc_rbft.Certs.{
  MsgId, Qidx, MsgCert, CertStore, msg_id_eq, qidx_eq, clean_committed_cert_cache,
}
use go_hpc_rbft.Votes.{RequestBatch}
use go_hpc_rbft.Checkpoints.{ChkptId, chkpt_eq}
use go_hpc_rbft.Persist.{persist_del_qpc_set}

pub data Effect : Type 0 where
  del_state : List String → Effect
  del_batch : String → Effect
  del_checkpoint store_h : ℕ → Effect
  remove_batches : List String → Effect
  stop_namespace : Effect

pub record Cellar : Type 0 where
  pub h : ℕ
  pub checkpoint_period : ℕ
  pub committed_block_cache_number : ℕ
  pub last_service_height : ℕ
  pub cert_store : CertStore
  pub outstanding_req_batches : List (String × RequestBatch)
  pub committed_cert : List (MsgId × String)
  pub seq_map : List (ℕ × String)
  pub committed_cert_cache : CertStore
  pub batch_store : List (String × RequestBatch)
  pub checkpoint_store : List (ChkptId × SignedCheckpoint)
  pub local_checkpoints : List (ℕ × SignedCheckpoint)
  pub qlist : List (Qidx × VcPq)
  pub plist : List (ℕ × VcPq)
  pub missing_batches_in_fetching : List (String × MsgId)
  pub outbox : List Effect

-- The body of the loop over certStore for an entry that is not above h.
unfoldable pub drop_cert : MsgId → MsgCert → Cellar → Cellar
unfolding persist_del_qpc_set
drop_cert idx cert s = record s {
  cert_store = delete idx s.cert_store;
  outstanding_req_batches = delete idx.d s.outstanding_req_batches;
  committed_cert = delete idx s.committed_cert;
  seq_map = delete idx.n s.seq_map;
  committed_cert_cache = insert idx cert s.committed_cert_cache;
  outbox = Effect.del_state (persist_del_qpc_set idx) ∷ s.outbox;
}

-- The first argument is certStore as the loop finds it.
unfoldable pub drop_certs : ℕ → CertStore → Cellar → Cellar
unfolding drop_cert
drop_certs h [] s = s
drop_certs h ((idx, cert) ∷ certs) s =
    drop_certs h certs (if leb idx.n h then drop_cert idx cert s else s)

-- Up to which number batches are cleaned; a CheckpointPeriod of 0 is a panic.
unfoldable pub clean_target : ℕ → ℕ → ℕ → Option ℕ
clean_target period cached n =
    let pos = n / period * period in
    let target = if leb pos period then 0 else pos - period in
    if period == 0
    then none
    else some (if ltb (n - target) cached then (if ltb cached n then n - cached else 0) else target)

unfoldable pub drop_batches : ℕ → List (String × RequestBatch) → Cellar → Cellar
drop_batches target [] s = s
drop_batches target ((digest, batch) ∷ batches) s = drop_batches target batches (
    if leb batch.seq_no target
    then record s {
      batch_store = delete digest s.batch_store;
      outbox = Effect.del_batch digest ∷ s.outbox;
    }
    else s)

-- digestList
unfoldable pub finished_batches : ℕ → ℕ → List (String × RequestBatch) → List String
finished_batches n executed [] = []
finished_batches n executed ((digest, batch) ∷ batches) =
    let rest = finished_batches n executed batches in
    if leb batch.seq_no n && ltb executed batch.seq_no then digest ∷ rest else rest

-- The last part of moveWatermarks, after the checkpoints.
unfoldable pub finish_watermarks : ℕ → Cellar → Cellar
finish_watermarks h s = record s {
  qlist = delete_if (λ (idx : Qidx) _. leb idx.n h) s.qlist;
  plist = delete_if (λ (n : ℕ) _. leb n h) s.plist;
  missing_batches_in_fetching =
      delete_if (λ _ (idx : MsgId). leb idx.n h) s.missing_batches_in_fetching;
  h = h;
  outbox = Effect.store_h h ∷ s.outbox;
}

module _ (sign : Option Checkpoint → Option String) where
  -- The loop over localCheckpoints: the entries that are left, the effects, and whether every
  -- signature was made; after a failure the rest stays as it is.
  unfoldable pub move_checkpoints :
      ℕ
      → Bool
      → List (ℕ × SignedCheckpoint)
      → List Effect
      → List (ℕ × SignedCheckpoint) × List Effect × Bool
  move_checkpoints h new_epoch [] out = ([], out, true)
  move_checkpoints h new_epoch ((seq_no, signed) ∷ rest) out = elim (ltb seq_no h) [
    | true ↦ move_checkpoints h new_epoch rest (Effect.del_checkpoint seq_no ∷ out)
    | false ↦ elim new_epoch [
      | false ↦
          let (kept, out', done) = move_checkpoints h new_epoch rest out in
          ((seq_no, signed) ∷ kept, out', done)
      | true ↦ elim (sign signed.checkpoint) [
        | none ↦ ((seq_no, signed) ∷ rest, Effect.stop_namespace ∷ out, false)
        | some sig ↦
            let (kept, out', done) = move_checkpoints h new_epoch rest out in
            ((seq_no, record signed { signature = sig }) ∷ kept, out', done)
      ]
    ]
  ]

  unfoldable pub clear_to : ℕ → Bool → ℕ → Cellar → Cellar
  unfolding drop_certs clean_committed_cert_cache drop_batches finished_batches
  clear_to n new_epoch target s =
      let dropped = drop_certs n s.cert_store s in
      let cleaned = drop_batches target s.batch_store (record dropped {
        committed_cert_cache =
            clean_committed_cert_cache s.committed_block_cache_number n
              dropped.committed_cert_cache;
      }) in
      let out =
        Effect.remove_batches (finished_batches n s.last_service_height s.batch_store)
        ∷ cleaned.outbox in
      let (kept, out', done) = move_checkpoints n new_epoch s.local_checkpoints out in
      let moved = record cleaned {
        checkpoint_store = delete_if (λ (id : ChkptId) _. leb id.sequence n) s.checkpoint_store;
        local_checkpoints = kept;
        outbox = out';
      } in
      if done then finish_watermarks n moved else moved

  -- `none` is a panic.
  unfoldable pub move_watermarks : ℕ → Bool → Cellar → Option Cellar
  move_watermarks n new_epoch s =
      if ltb n s.h
      then some s
      else elim (clean_target s.checkpoint_period s.committed_block_cache_number n) [
        | none ↦ none
        | some target ↦ some (clear_to n new_epoch target s)
      ]
