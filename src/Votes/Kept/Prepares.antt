-- ===== src/Votes/Kept/Prepares.antt =====
-- What recvPrepare and sendPrepare of rbft_impl.go keep of the certs and of the map of digests.
use go_hpc_rbft.Base.{
  ◌≡◌, refl, subst, ◌∙◌, inl, inr, true, not, ◌&&◌, some, arith, Bool-cases, Option-cases, ◌==◌,
}
use go_hpc_rbft.Base.Maps.{lookup}
use go_hpc_rbft.Messages.{Prepare}
use go_hpc_rbft.Certs.{MsgId, MsgCert, prepare_id, get_cert, prepared, msg_id_eq, vote_id_eq}
use go_hpc_rbft.Status.{has_bit, skip_in_progress}
use go_hpc_rbft.Votes.{Replica, emit, is_primary, is_validator, is_prepare_legal}
use go_hpc_rbft.Votes.Phases.{
  prepare_key, cache_prepare, announce_commit, send_commit, maybe_send_commit, store_prepare,
  recv_prepare, announce_prepare, send_prepare,
}
use go_hpc_rbft.Votes.Kept.{Closed, Kept, Keeps, insert-Kept, get_cert-Kept, same_Keeps, then_Keeps}
use go_hpc_rbft.Votes.Kept.Commits.{recv_commit-Keeps}

module _ (P : MsgId → MsgCert → Type 0) (c : Closed P) where
  store_prepare-Keeps :
      (r : Replica) (p : Prepare) → Kept P r.cert_store → Keeps P r (store_prepare r p)
  unfolding store_prepare
  store_prepare-Keeps r p all =
      let (t, rest) = get_cert-Kept P r.cert_store (prepare_key p) (c.fresh (prepare_key p)) all in
      elim (Bool-cases (not (is_validator r) && p.replica_id == r.self_id)) [
        | inl e ↦ rw (store_prepare, e) (record { certs = rest; seqs = refl })
        | inr e ↦
            rw (store_prepare, e)
              (record {
                certs =
                    insert-Kept P (prepare_key p) _ (get_cert r.cert_store (prepare_key p)).1
                      (c.add_prepare p _ t) rest;
                seqs = refl;
              })
      ]

  announce_commit-Keeps :
      (r : Replica) (idx : MsgId) → Kept P r.cert_store → Keeps P r (announce_commit r idx).0
  unfolding announce_commit emit
  announce_commit-Keeps r idx all =
      let (t, rest) = get_cert-Kept P r.cert_store idx (c.fresh idx) all in
      let cert = (get_cert r.cert_store idx).0 in
      let after =
        insert-Kept P idx (record cert { sent_commit = true }) (get_cert r.cert_store idx).1
          (c.mark_commit idx cert t) rest in
      elim (Bool-cases (is_validator r)) [
        | inl e ↦ rw e (record { certs = after; seqs = refl })
        | inr e ↦ rw e (record { certs = after; seqs = refl })
      ]

  maybe_send_commit-Keeps :
      (r r' : Replica) (idx : MsgId)
      → maybe_send_commit r idx ≡ some r'
      → Kept P r.cert_store
      → Keeps P r r'
  unfolding maybe_send_commit send_commit
  maybe_send_commit-Keeps r r' idx h all =
      let (t, rest) = get_cert-Kept P r.cert_store idx (c.fresh idx) all in
      let (cert, certs) = get_cert r.cert_store idx in
      let m = record r { cert_store = certs } in
      elim (Bool-cases (has_bit r.status skip_in_progress)) [
        | inl e ↦ same_Keeps P r r r' (ground arith) (record { certs = all; seqs = refl })
        | inr e ↦
            elim (Bool-cases (
              prepared m.nodes m.faults m.cert_store idx
              && (not (not (is_primary m m.self_id) && not cert.sent_prepare)
                  && not cert.sent_commit))) [
                    | inl k ↦
                        let (sent, commit) = announce_commit m idx in
                        let before = announce_commit-Keeps m idx rest in
                        let after =
                          recv_commit-Keeps P c sent r' commit (ground arith) before.certs in
                        record { certs = after.certs; seqs = after.seqs ∙ before.seqs }
                    | inr k ↦
                        same_Keeps P r m r' (ground arith) (record { certs = rest; seqs = refl })
                  ]
      ]

  pub recv_prepare-Keeps :
      (r r' : Replica) (p : Prepare)
      → recv_prepare r p ≡ some r'
      → Kept P r.cert_store
      → Keeps P r r'
  unfolding recv_prepare cache_prepare
  recv_prepare-Keeps r r' p h all = elim (Bool-cases (is_prepare_legal r p)) [
    | inr e ↦
        let certs : r.cert_store ≡ r'.cert_store = ground arith in
        record { certs = subst (Kept P) certs all; seqs = ground arith }
    | inl e ↦
        let (cert, certs) = get_cert r.cert_store (prepare_key p) in
        elim (Option-cases (lookup (prepare_id p) cert.prepare)) [
          | inl k ↦
              let stored = store_prepare-Keeps r p all in
              then_Keeps P r (store_prepare r p) r' stored (
                maybe_send_commit-Keeps (store_prepare r p) r' (prepare_key p)
                  (rw (recv_prepare, e, k) at h) stored.certs)
          | inr (q, k) ↦
              same_Keeps P r (record r { cert_store = certs }) r' (ground arith)
                (record {
                  certs =
                      (get_cert-Kept P r.cert_store (prepare_key p) (c.fresh (prepare_key p))
                        all).1;
                  seqs = refl;
                })
        ]
  ]

  announce_prepare-Keeps :
      (r : Replica) (idx : MsgId) → Kept P r.cert_store → Keeps P r (announce_prepare r idx).0
  unfolding announce_prepare emit
  announce_prepare-Keeps r idx all =
      let (t, rest) = get_cert-Kept P r.cert_store idx (c.fresh idx) all in
      let cert = (get_cert r.cert_store idx).0 in
      let after =
        insert-Kept P idx (record cert { sent_prepare = true }) (get_cert r.cert_store idx).1
          (c.mark_prepare idx cert t) rest in
      elim (Bool-cases (is_validator r)) [
        | inl e ↦ rw e (record { certs = after; seqs = refl })
        | inr e ↦ rw e (record { certs = after; seqs = refl })
      ]

  pub send_prepare-Keeps :
      (r r' : Replica) (idx : MsgId)
      → send_prepare r idx ≡ some r'
      → Kept P r.cert_store
      → Keeps P r r'
  unfolding send_prepare
  send_prepare-Keeps r r' idx h all =
      let (sent, prep) = announce_prepare r idx in
      let before = announce_prepare-Keeps r idx all in
      then_Keeps P r sent r' before (recv_prepare-Keeps sent r' prep h before.certs)
