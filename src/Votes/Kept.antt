-- ===== src/Votes/Kept.antt =====
-- What holds of every cert and does not mind votes and marks is kept by the handlers of prepares and
-- commits; so is the map of digests.
pub mod Commits
pub mod Prepares
use go_hpc_rbft.Base.{
  ℕ, zero, suc, ◌≡◌, refl, sym, subst, ◌∙◌, inl, inr, true, not, ◌&&◌, some, arith, Bool-cases,
  Option-cases, ◌==◌, length,
}
use go_hpc_rbft.Base.Maps.{lookup, insert, lookup-insert}
use go_hpc_rbft.Messages.{Prepare, Commit}
use go_hpc_rbft.Certs.{
  MsgId, MsgCert, CertStore, prepare_id, commit_id, get_cert, new_cert, prepared, committed,
  msg_id_eq, vote_id_eq, msg_id_beq_iff,
}
use go_hpc_rbft.Status.{has_bit, skip_in_progress, wait_checkpoint_batch_execute}
use go_hpc_rbft.Votes.{Replica, emit, is_primary, is_validator, is_prepare_legal, is_commit_legal}
use go_hpc_rbft.Votes.Pending.{
  find_next_commit_batch, commit_batch, commit_loop, commit_pending_blocks,
  start_timer_if_outstanding_requests,
}
use go_hpc_rbft.Votes.Loop.{commit_batch-Round, find_next_commit_batch-Ready}
use go_hpc_rbft.Votes.Phases.{
  prepare_key, commit_key, cache_prepare, cache_commit, store_commit, after_commit, commit_cert,
  recv_commit, announce_commit, send_commit, maybe_send_commit, store_prepare, recv_prepare,
  announce_prepare, send_prepare,
}

-- What the handlers do to one cert keeps the predicate.
pub record Closed (P : MsgId → MsgCert → Type 0) : Type 0 where
  pub fresh : (idx : MsgId) → P idx new_cert
  pub add_prepare :
      (p : Prepare) (cert : MsgCert)
      → P (prepare_key p) cert
      → P (prepare_key p) (record cert { prepare = insert (prepare_id p) p cert.prepare })
  pub add_commit :
      (c : Commit) (cert : MsgCert)
      → P (commit_key c) cert
      → P (commit_key c) (record cert { commit = insert (commit_id c) c cert.commit })
  pub mark_prepare :
      (idx : MsgId) (cert : MsgCert) → P idx cert → P idx (record cert { sent_prepare = true })
  pub mark_commit :
      (idx : MsgId) (cert : MsgCert) → P idx cert → P idx (record cert { sent_commit = true })
  pub mark_execute :
      (idx : MsgId) (cert : MsgCert) → P idx cert → P idx (record cert { sent_execute = true })

-- The predicate holds of every cert in the store.
abbrev pub Kept : (MsgId → MsgCert → Type 0) → CertStore → Type 0
Kept P certs = (idx : MsgId) (cert : MsgCert) → lookup idx certs ≡ some cert → P idx cert

module _ (P : MsgId → MsgCert → Type 0) where
  pub insert-Kept :
      (idx : MsgId) (cert : MsgCert) (certs : CertStore)
      → P idx cert
      → Kept P certs
      → Kept P (insert idx cert certs)
  insert-Kept idx cert certs t all j c h = elim (Bool-cases (msg_id_eq.beq idx j)) [
    | inl hit ↦
        let mine : cert ≡ c = ground (arith, lookup-insert idx j cert certs) in
        subst (λ k. P k c) ((msg_id_beq_iff idx j).0 hit) (subst (λ x. P idx x) mine t)
    | inr miss ↦ all j c (ground (arith, lookup-insert idx j cert certs))
  ]

  pub get_cert-Kept :
      (certs : CertStore) (idx : MsgId)
      → P idx new_cert
      → Kept P certs
      → P idx (get_cert certs idx).0 × Kept P (get_cert certs idx).1
  unfolding get_cert
  get_cert-Kept certs idx new all = elim (Option-cases (lookup idx certs)) [
    | inl e ↦ rw (get_cert, e) (new, insert-Kept idx new_cert certs new all)
    | inr (cert, e) ↦ rw (get_cert, e) (all idx cert e, all)
  ]

  -- The certs keep the predicate, and the digests of the numbers are the same.
  pub record Keeps (r r' : Replica) : Type 0 where
    pub certs : Kept P r'.cert_store
    pub seqs : r'.seq_map ≡ r.seq_map

  pub same_Keeps : (r m r' : Replica) → m ≡ r' → Keeps r m → Keeps r r'
  same_Keeps r m r' e k = subst (λ (x : Replica). Keeps r x) e k

  pub then_Keeps : (r m r' : Replica) → Keeps r m → Keeps m r' → Keeps r r'
  then_Keeps r m r' a b = record { certs = b.certs; seqs = b.seqs ∙ a.seqs }
