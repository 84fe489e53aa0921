-- ===== src/Votes/Guard.antt =====
-- A prepare makes a replica commit only to a prepared request, and at most once.
use go_hpc_rbft.Base.{
  ℕ, zero, suc, ◌≡◌, refl, ap, subst, ◌∙◌, ◌⊎◌, inl, inr, true, false, not, ◌&&◌, ◌∷◌, some, arith,
  Bool-cases, Option-cases, length,
}
use go_hpc_rbft.Base.Maps.{lookup, insert}
use go_hpc_rbft.Messages.{Prepare, Commit}
use go_hpc_rbft.Certs.{MsgId, prepare_id, get_cert, prepared, committed, msg_id_eq, vote_id_eq}
use go_hpc_rbft.Status.{has_bit, skip_in_progress, wait_checkpoint_batch_execute}
use go_hpc_rbft.Votes.{Replica, emit, is_primary, is_validator, is_prepare_legal, is_commit_legal}
use go_hpc_rbft.Votes.Pending.{
  find_next_commit_batch, commit_batch, commit_loop, commit_pending_blocks,
  start_timer_if_outstanding_requests,
}
use go_hpc_rbft.Votes.Loop.{commits_sent, commit_batch-Round}
use go_hpc_rbft.Votes.Phases.{
  prepare_key, commit_key, cache_prepare, cache_commit, store_commit, after_commit, commit_cert,
  recv_commit, announce_commit, send_commit, maybe_send_commit, store_prepare, recv_prepare,
}

abbrev Silent : Replica → Replica → Type 0
Silent r r' = commits_sent r'.outbox ≡ commits_sent r.outbox

same_Silent : (r m r' : Replica) → m ≡ r' → Silent r m → Silent r r'
same_Silent r m r' e s = subst (λ (x : Replica). Silent r x) e s

commit_loop-Silent : (fuel : ℕ) (r r' : Replica) → commit_loop fuel r ≡ some r' → Silent r r'
unfolding commit_loop
commit_loop-Silent zero r r' h = cc
commit_loop-Silent (suc fuel) r r' h = elim (Option-cases (find_next_commit_batch r)) [
  | inl e ↦ same_Silent r r r' (ground arith) refl
  | inr ((idx, cert), e) ↦ elim (Option-cases (commit_batch r idx cert)) [
    | inl k ↦ absurd (ground arith)
    | inr (m, k) ↦
        commit_loop-Silent fuel m r' (rw (commit_loop, e, k) at h)
        ∙ (commit_batch-Round r idx cert m k).silent
  ]
]

start_timer-Silent : (r : Replica) → Silent r (start_timer_if_outstanding_requests r)
unfolding start_timer_if_outstanding_requests emit
start_timer-Silent r = ground arith

after_commit-Silent : (r : Replica) (c : Commit) → Silent r (after_commit r c)
unfolding after_commit emit
after_commit-Silent r c = ground arith

commit_pending_blocks-Silent :
    (fuel : ℕ) (r r' : Replica) → commit_pending_blocks fuel r ≡ some r' → Silent r r'
unfolding commit_pending_blocks
commit_pending_blocks-Silent fuel r r' h = elim (Option-cases (commit_loop fuel r)) [
  | inl e ↦ absurd (ground arith)
  | inr (m, e) ↦ elim (Bool-cases (has_bit m.status wait_checkpoint_batch_execute)) [
    | inl k ↦ same_Silent r m r' (ground arith) (commit_loop-Silent fuel r m e)
    | inr k ↦
        same_Silent r (start_timer_if_outstanding_requests m) r' (ground arith)
          (start_timer-Silent m ∙ commit_loop-Silent fuel r m e)
  ]
]

commit_cert-Silent : (r r' : Replica) (c : Commit) → commit_cert r c ≡ some r' → Silent r r'
unfolding commit_cert
commit_cert-Silent r r' c h =
    let start = record r {
      committed_cert = insert (commit_key c) c.batch_digest r.committed_cert;
    } in
    elim (Option-cases (commit_pending_blocks (suc (length start.committed_cert)) start)) [
      | inl e ↦ absurd (ground arith)
      | inr (done, e) ↦ same_Silent r (after_commit done c) r' (ground arith) (
          after_commit-Silent done c
          ∙ commit_pending_blocks-Silent (suc (length start.committed_cert)) start done e)
    ]

store_commit-Silent : (r : Replica) (c : Commit) → Silent r (store_commit r c)
unfolding store_commit
store_commit-Silent r c = ground arith

recv_commit-Silent : (r r' : Replica) (c : Commit) → recv_commit r c ≡ some r' → Silent r r'
unfolding recv_commit cache_commit
recv_commit-Silent r r' c h = elim (Bool-cases (is_commit_legal r c)) [
  | inr e ↦ ground arith
  | inl e ↦
      let m = store_commit r c in
      let cert = (get_cert r.cert_store (commit_key c)).0 in
      elim (Bool-cases (
        committed m.nodes m.faults m.cert_store (commit_key c)
        && (not cert.sent_execute && cert.sent_commit))) [
          | inl k ↦
              commit_cert-Silent m r' c (rw (recv_commit, e, k) at h) ∙ store_commit-Silent r c
          | inr k ↦ same_Silent r m r' (ground arith) (store_commit-Silent r c)
        ]
]

-- The commit that a replica has broadcast between two states, and why.
pub record Committed (r r' : Replica) (idx : MsgId) : Type 0 where
  pub commit : Commit
  pub sent : commits_sent r'.outbox ≡ commit ∷ commits_sent r.outbox
  pub key : commit_key commit ≡ idx
  pub author : commit.replica_id ≡ r.self_id
  pub quorum : prepared r.nodes r.faults (get_cert r.cert_store idx).1 idx ≡ true
  pub first : (get_cert r.cert_store idx).0.sent_commit ≡ false

announce_validator :
    (r : Replica) (idx : MsgId)
    → is_validator r ≡ true
    → commits_sent (announce_commit r idx).0.outbox
      ≡ (announce_commit r idx).1 ∷ commits_sent r.outbox
unfolding announce_commit emit
announce_validator r idx e = rw e refl

announce_outside :
    (r : Replica) (idx : MsgId) → is_validator r ≡ false → Silent r (announce_commit r idx).0
unfolding announce_commit emit
announce_outside r idx e = rw e refl

maybe_send_commit-commits :
    (r r' : Replica) (idx : MsgId)
    → maybe_send_commit r idx ≡ some r'
    → Silent r r' ⊎ Committed r r' idx
unfolding maybe_send_commit send_commit announce_commit
maybe_send_commit-commits r r' idx h =
    let (cert, certs) = get_cert r.cert_store idx in
    let m = record r { cert_store = certs } in
    let (sent, commit) = announce_commit m idx in
    elim (Bool-cases (has_bit r.status skip_in_progress)) [
      | inl e ↦ inl (same_Silent r r r' (ground arith) refl)
      | inr e ↦
          elim (Bool-cases (
            prepared r.nodes r.faults certs idx
            && (not (not (is_primary m m.self_id) && not cert.sent_prepare)
                && not cert.sent_commit))) [
                  | inr k ↦ inl (same_Silent r m r' (ground arith) refl)
                  | inl k ↦
                      let after = recv_commit-Silent sent r' commit (ground arith) in
                      elim (Bool-cases (is_validator m)) [
                        | inr out ↦ inl (after ∙ announce_outside m idx out)
                        | inl v ↦ inr (record {
                          commit = commit;
                          sent = after ∙ announce_validator m idx v;
                          key = refl;
                          author = refl;
                          quorum = ground arith;
                          first = ground arith;
                        })
                      ]
                ]
    ]

store_prepare-Silent : (r : Replica) (p : Prepare) → Silent r (store_prepare r p)
unfolding store_prepare
store_prepare-Silent r p = ground arith

store_prepare_self : (r : Replica) (p : Prepare) → (store_prepare r p).self_id ≡ r.self_id
unfolding store_prepare
store_prepare_self r p = ground arith

-- When recvPrepare returns, it has broadcast no commit, or exactly one: the replica's own, for the
-- view, number and digest of the prepare, after the prepare is stored and the request is prepared,
-- and when the cert is not yet marked as committed to.
pub recv_prepare-commits :
    (r r' : Replica) (p : Prepare)
    → recv_prepare r p ≡ some r'
    → (commits_sent r'.outbox ≡ commits_sent r.outbox)
      ⊎ ((c : Commit) × (commits_sent r'.outbox ≡ c ∷ commits_sent r.outbox)
          × (commit_key c ≡ prepare_key p)
          × (c.replica_id ≡ r.self_id)
          × Committed (store_prepare r p) r' (prepare_key p))
unfolding recv_prepare cache_prepare
recv_prepare-commits r r' p h = elim (Bool-cases (is_prepare_legal r p)) [
  | inr e ↦ inl (ground arith)
  | inl e ↦
      let (cert, certs) = get_cert r.cert_store (prepare_key p) in
      let m = store_prepare r p in
      elim (Option-cases (lookup (prepare_id p) cert.prepare)) [
        | inr (q, k) ↦ inl (ground arith)
        | inl k ↦
            elim (maybe_send_commit-commits m r' (prepare_key p) (rw (recv_prepare, e, k) at h)) [
              | inl s ↦ inl (s ∙ store_prepare-Silent r p)
              | inr c ↦ inr (
                c.commit,
                c.sent ∙ ap (◌∷◌ c.commit) (store_prepare-Silent r p),
                c.key,
                c.author ∙ store_prepare_self r p,
                c,
              )
            ]
      ]
]
