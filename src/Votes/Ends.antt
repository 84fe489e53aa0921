-- ===== src/Votes/Ends.antt =====
-- commitPendingBlocks ends without a panic.
use go_hpc_rbft.Base.{
  ℕ, zero, suc, ◌≤◌, ◌<◌, ◌≡◌, ◌≢◌, refl, ap, sym, subst, ◌∙◌, inl, inr, Bool, true, false, not,
  List, [], ◌∷◌, some, String, arith, if◌then◌else◌, str_eq, Bool-cases, Option-cases, length,
  nat_eq, string_eq, any,
}
use go_hpc_rbft.Base.Maps.{lookup, length-delete-lt}
use go_hpc_rbft.Certs.{MsgId, MsgCert, msg_id_eq}
use go_hpc_rbft.Status.{has_bit, wait_checkpoint_batch_execute}
use go_hpc_rbft.Votes.{RequestBatch, Replica}
use go_hpc_rbft.Votes.Batched.{HasBatch, Batched}
use go_hpc_rbft.Votes.Kept.{insert-Kept}
use go_hpc_rbft.Votes.Pending.{
  filter_txs, filter_executable_txs, has_batch, find_next_commit_batch, after_commit_block,
  finish_batch, before_execute, mark_config, commit_batch, commit_loop, commit_pending_blocks,
  start_timer_if_outstanding_requests,
}
use go_hpc_rbft.Votes.Loop.{
  commit_batch-Round, Ready, find_next_commit_batch-Ready, before_execute-Alike, mark_config-Alike,
}

-- Every stored batch says of each of its transactions whether it is local.
abbrev pub Complete : List (String × RequestBatch) → Type 0
Complete batches =
    (d : String) (b : RequestBatch)
    → lookup d batches ≡ some b
    → length b.request_list ≤ length b.local_list

filter_txs-some :
    (dups txs : List String) (locals : List Bool)
    → length txs ≤ length locals
    → (out : List (String × Bool)) × (filter_txs dups txs locals ≡ some out)
unfolding filter_txs
filter_txs-some dups [] locals h = ([], refl)
filter_txs-some dups (tx ∷ txs) [] h = absurd (omega arith)
filter_txs-some dups (tx ∷ txs) (b ∷ bs) h =
    let (out, e) = filter_txs-some dups txs bs (omega arith) in
    elim (Bool-cases (any (λ d. str_eq d tx) dups)) [
      | inl k ↦ (out, rw (filter_txs, k) e)
      | inr k ↦ ((tx, b) ∷ out, rw (filter_txs, k, e) refl)
    ]

filter_executable_txs-some :
    (r ready : Replica) (d : String) (dups : List String)
    → ready.batch_store ≡ r.batch_store
    → Complete r.batch_store
    → str_eq d "" ≡ false
    → has_batch r d ≡ true
    → (out : List (String × Bool)) × (filter_executable_txs ready d dups ≡ some out)
unfolding filter_executable_txs has_batch
filter_executable_txs-some r ready d dups same complete real has =
    elim (Option-cases (lookup d r.batch_store)) [
      | inl e ↦ absurd (ground arith)
      | inr (b, e) ↦
          let (out, k) = filter_txs-some dups b.request_list b.local_list (complete d b e) in
          (out, rw (filter_executable_txs, same, e) k)
    ]

finish_batch-some :
    (r : Replica) (idx : MsgId) (cert : MsgCert) (txs : List (String × Bool))
    (timestamp proposer : ℕ)
    → r.checkpoint_period ≢ 0
    → (m : Replica) × (finish_batch r idx cert txs timestamp proposer ≡ some m)
finish_batch-some r idx cert txs timestamp proposer positive =
    elim (Option-cases (finish_batch r idx cert txs timestamp proposer)) [
      | inl e ↦ absurd (unfold finish_batch in unfold after_commit_block in ground arith)
      | inr (m, e) ↦ (m, e)
    ]

commit_batch-some :
    (r : Replica) (idx : MsgId) (cert : MsgCert)
    → Ready r idx cert
    → HasBatch idx cert
    → Complete r.batch_store
    → r.checkpoint_period ≢ 0
    → (m : Replica) × (commit_batch r idx cert ≡ some m)
unfolding commit_batch
commit_batch-some r idx cert found has complete positive =
    let ready = before_execute r idx cert in
    let configured = mark_config ready idx cert in
    let a = before_execute-Alike r idx cert in
    let b = mark_config-Alike r ready idx cert a in
    let (p, e) = found.proposed in
    let (hashes, at_p) = has p e in
    elim (Bool-cases (str_eq idx.d "")) [
      | inl k ↦
          let (m, f) =
            finish_batch-some ready idx cert [] 0 hashes.proposer
              (λ z. positive (sym a.period ∙ z)) in
          let step : commit_batch r idx cert ≡ finish_batch ready idx cert [] 0 hashes.proposer =
            ground arith in
          (m, step ∙ f)
      | inr k ↦
          let (txs, g) =
            filter_executable_txs-some r configured idx.d hashes.de_duplicate_request_hash_list
              b.batches complete k found.batch in
          let (m, f) =
            finish_batch-some configured idx cert txs hashes.timestamp hashes.proposer
              (λ z. positive (sym b.period ∙ z)) in
          let step : commit_batch r idx cert
              ≡ finish_batch configured idx cert txs hashes.timestamp hashes.proposer =
            ground arith in
          (m, step ∙ f)
    ]

commit_loop-ends :
    (fuel : ℕ) (r : Replica)
    → length r.committed_cert < fuel
    → Batched r.cert_store
    → Complete r.batch_store
    → r.checkpoint_period ≢ 0
    → (r' : Replica) × (commit_loop fuel r ≡ some r')
unfolding commit_loop
commit_loop-ends zero r enough batched complete positive = absurd (omega arith)
commit_loop-ends (suc fuel) r enough batched complete positive =
    elim (Option-cases (find_next_commit_batch r)) [
      | inl e ↦ (r, rw (commit_loop, e) refl)
      | inr ((idx, cert), e) ↦
          let (found, (d, member)) = find_next_commit_batch-Ready r idx cert e in
          let mine = batched idx cert found.stored in
          let (m, k) = commit_batch-some r idx cert found mine complete positive in
          let round = commit_batch-Round r idx cert m k in
          let closed =
            insert-Kept HasBatch idx (record cert { sent_execute = true }) r.cert_store mine
              batched in
          let shorter = length-delete-lt idx d r.committed_cert member in
          let (r', f) =
            commit_loop-ends fuel m (omega (arith, shorter, ap length round.pending))
              (subst Batched (sym round.certs) closed) (λ d b. rw round.batches (complete d b))
              (λ z. positive (sym round.period ∙ z)) in
          (r', rw (commit_loop, e, k) f)
    ]

-- With one round more than committedCert has entries, commitPendingBlocks ends and does not panic,
-- when CheckpointPeriod is not 0, every stored batch has a local mark for each transaction, and every
-- pre-prepare in a cert has a hash batch.
pub commit_pending_blocks-ends :
    (r : Replica)
    → Batched r.cert_store
    → Complete r.batch_store
    → r.checkpoint_period ≢ 0
    → (r' : Replica) × (commit_pending_blocks (suc (length r.committed_cert)) r ≡ some r')
unfolding commit_pending_blocks
commit_pending_blocks-ends r batched complete positive =
    let (m, e) =
      commit_loop-ends (suc (length r.committed_cert)) r (omega arith) batched complete positive in
    (
      (if not (has_bit m.status wait_checkpoint_batch_execute)
          then start_timer_if_outstanding_requests m
          else m),
      rw (commit_pending_blocks, e) (ground arith),
    )
