-- ===== src/Votes/Kept/Commits.antt =====
-- What recvCommit of rbft_impl.go keeps of the certs and of the map of digests.
use go_hpc_rbft.Base.{
  ℕ, zero, suc, ◌≡◌, refl, sym, subst, inl, inr, true, not, ◌&&◌, some, arith, Bool-cases,
  Option-cases, ◌==◌, length,
}
use go_hpc_rbft.Base.Maps.{insert}
use go_hpc_rbft.Messages.{Commit}
use go_hpc_rbft.Certs.{MsgId, MsgCert, get_cert, committed, msg_id_eq, vote_id_eq}
use go_hpc_rbft.Status.{has_bit, wait_checkpoint_batch_execute}
use go_hpc_rbft.Votes.{Replica, emit, is_validator, is_commit_legal}
use go_hpc_rbft.Votes.Pending.{
  find_next_commit_batch, commit_batch, commit_loop, commit_pending_blocks,
  start_timer_if_outstanding_requests,
}
use go_hpc_rbft.Votes.Loop.{commit_batch-Round, find_next_commit_batch-Ready}
use go_hpc_rbft.Votes.Phases.{
  commit_key, cache_commit, store_commit, after_commit, commit_cert, recv_commit,
}
use go_hpc_rbft.Votes.Kept.{Closed, Kept, Keeps, insert-Kept, get_cert-Kept, same_Keeps, then_Keeps}

module _ (P : MsgId → MsgCert → Type 0) (c : Closed P) where
  store_commit-Keeps :
      (r : Replica) (m : Commit) → Kept P r.cert_store → Keeps P r (store_commit r m)
  unfolding store_commit
  store_commit-Keeps r m all =
      let (t, rest) = get_cert-Kept P r.cert_store (commit_key m) (c.fresh (commit_key m)) all in
      elim (Bool-cases (not (is_validator r) && m.replica_id == r.self_id)) [
        | inl e ↦ rw (store_commit, e) (record { certs = rest; seqs = refl })
        | inr e ↦
            rw (store_commit, e)
              (record {
                certs =
                    insert-Kept P (commit_key m) _ (get_cert r.cert_store (commit_key m)).1
                      (c.add_commit m _ t) rest;
                seqs = refl;
              })
      ]

  commit_loop-Keeps :
      (fuel : ℕ) (r r' : Replica)
      → commit_loop fuel r ≡ some r'
      → Kept P r.cert_store
      → Keeps P r r'
  unfolding commit_loop
  commit_loop-Keeps zero r r' h all = cc
  commit_loop-Keeps (suc fuel) r r' h all = elim (Option-cases (find_next_commit_batch r)) [
    | inl e ↦ same_Keeps P r r r' (ground arith) (record { certs = all; seqs = refl })
    | inr ((idx, cert), e) ↦ elim (Option-cases (commit_batch r idx cert)) [
      | inl k ↦ absurd (ground arith)
      | inr (m, k) ↦
          let found = (find_next_commit_batch-Ready r idx cert e).0 in
          let round = commit_batch-Round r idx cert m k in
          let marked = c.mark_execute idx cert (all idx cert found.stored) in
          let step : Keeps P r m = record {
            certs =
                subst (Kept P) (sym round.certs)
                  (insert-Kept P idx (record cert { sent_execute = true }) r.cert_store marked all);
            seqs = round.seqs;
          } in
          then_Keeps P r m r' step
            (commit_loop-Keeps fuel m r' (rw (commit_loop, e, k) at h) step.certs)
    ]
  ]

  start_timer-Keeps :
      (r : Replica) → Kept P r.cert_store → Keeps P r (start_timer_if_outstanding_requests r)
  unfolding start_timer_if_outstanding_requests emit
  start_timer-Keeps r all =
      let certs : (start_timer_if_outstanding_requests r).cert_store ≡ r.cert_store =
        ground arith in
      record { certs = subst (Kept P) (sym certs) all; seqs = ground arith }

  after_commit-Keeps :
      (r : Replica) (m : Commit) → Kept P r.cert_store → Keeps P r (after_commit r m)
  unfolding after_commit emit
  after_commit-Keeps r m all =
      let certs : (after_commit r m).cert_store ≡ r.cert_store = ground arith in
      record { certs = subst (Kept P) (sym certs) all; seqs = ground arith }

  commit_pending_blocks-Keeps :
      (fuel : ℕ) (r r' : Replica)
      → commit_pending_blocks fuel r ≡ some r'
      → Kept P r.cert_store
      → Keeps P r r'
  unfolding commit_pending_blocks
  commit_pending_blocks-Keeps fuel r r' h all = elim (Option-cases (commit_loop fuel r)) [
    | inl e ↦ absurd (ground arith)
    | inr (m, e) ↦
        let loop = commit_loop-Keeps fuel r m e all in
        elim (Bool-cases (has_bit m.status wait_checkpoint_batch_execute)) [
          | inl k ↦ same_Keeps P r m r' (ground arith) loop
          | inr k ↦ same_Keeps P r (start_timer_if_outstanding_requests m) r' (ground arith) (
              then_Keeps P r m (start_timer_if_outstanding_requests m) loop
                (start_timer-Keeps m loop.certs))
        ]
  ]

  commit_cert-Keeps :
      (r r' : Replica) (m : Commit) → commit_cert r m ≡ some r' → Kept P r.cert_store → Keeps P r r'
  unfolding commit_cert
  commit_cert-Keeps r r' m h all =
      let start = record r {
        committed_cert = insert (commit_key m) m.batch_digest r.committed_cert;
      } in
      elim (Option-cases (commit_pending_blocks (suc (length start.committed_cert)) start)) [
        | inl e ↦ absurd (ground arith)
        | inr (done, e) ↦
            let loop =
              commit_pending_blocks-Keeps (suc (length start.committed_cert)) start done e all in
            let last =
              then_Keeps P start done (after_commit done m) loop
                (after_commit-Keeps done m loop.certs) in
            same_Keeps P r (after_commit done m) r' (ground arith)
              (record { certs = last.certs; seqs = last.seqs })
      ]

  pub recv_commit-Keeps :
      (r r' : Replica) (m : Commit) → recv_commit r m ≡ some r' → Kept P r.cert_store → Keeps P r r'
  unfolding recv_commit cache_commit
  recv_commit-Keeps r r' m h all = elim (Bool-cases (is_commit_legal r m)) [
    | inr e ↦
        let certs : r.cert_store ≡ r'.cert_store = ground arith in
        record { certs = subst (Kept P) certs all; seqs = ground arith }
    | inl e ↦
        let kept = store_commit r m in
        let cert = (get_cert r.cert_store (commit_key m)).0 in
        let stored = store_commit-Keeps r m all in
        elim (Bool-cases (
          committed kept.nodes kept.faults kept.cert_store (commit_key m)
          && (not cert.sent_execute && cert.sent_commit))) [
            | inl k ↦
                then_Keeps P r kept r' stored
                  (commit_cert-Keeps kept r' m (rw (recv_commit, e, k) at h) stored.certs)
            | inr k ↦ same_Keeps P r kept r' (ground arith) stored
          ]
  ]
