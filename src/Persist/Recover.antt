-- ===== src/Persist/Recover.antt =====
-- persist.go: restoreCert, which builds the certs of a restarted replica and its P and Q lists from
-- what restoreQSet, restorePSet, restoreCSet, restoreQList and restorePList return.
use go_hpc_rbft.Base.{
  ℕ, true, ◌&&◌, List, [], ◌∷◌, Option, none, some, String, if◌then◌else◌, leb, ◌==◌, nat_eq,
  string_eq,
}
use go_hpc_rbft.Base.Maps.{lookup, insert}
use go_hpc_rbft.Messages.{PrePrepare, Prepare, Commit, VcPq}
use go_hpc_rbft.Certs.{
  MsgId, Qidx, MsgCert, CertStore, msg_id_eq, vote_id_eq, prepare_id, commit_id, get_cert,
}
use go_hpc_rbft.Votes.{Replica}
use go_hpc_rbft.Votes.Propose.{is_config_batch}
use go_hpc_rbft.Persist.{Entry}
use go_hpc_rbft.Persist.Read.{
  RestoreError, restore_q_set, restore_p_set, restore_c_set, restore_q_list, restore_p_list,
}

-- A change to the cert of a msgID, which getCert makes when there is none.
unfoldable pub change_cert : MsgId → (MsgCert → MsgCert) → CertStore → CertStore
unfolding get_cert
change_cert idx change certs =
    let (cert, certs') = get_cert certs idx in insert idx (change cert) certs'

unfoldable pub put_proposal : Replica → MsgId → PrePrepare → MsgCert → MsgCert
unfolding is_config_batch
put_proposal r idx q cert = elim (lookup idx.d r.batch_store) [
  | none ↦ record cert { pre_prepare = some q }
  | some batch ↦ record cert { pre_prepare = some q; is_config = is_config_batch r batch.seq_no }
]

unfoldable pub put_prepares : Replica → MsgId → List Prepare → MsgCert → MsgCert
unfolding prepare_id
put_prepares r idx [] cert = cert
put_prepares r idx (p ∷ ps) cert = put_prepares r idx ps (record cert {
  prepare = insert (prepare_id p) p cert.prepare;
  sent_prepare =
      if p.replica_id == r.self_id && leb idx.n r.last_exec then true else cert.sent_prepare;
})

unfoldable pub put_commits : Replica → MsgId → List Commit → MsgCert → MsgCert
unfolding commit_id
put_commits r idx [] cert = cert
put_commits r idx (c ∷ cs) cert = put_commits r idx cs (record cert {
  commit = insert (commit_id c) c cert.commit;
  sent_commit =
      if c.replica_id == r.self_id && leb idx.n r.last_exec then true else cert.sent_commit;
})

-- The loop over a restored set.
unfoldable pub put_all :
    {A : Type 0} → (MsgId → A → MsgCert → MsgCert) → List (MsgId × A) → CertStore → CertStore
unfolding change_cert
put_all put [] certs = certs
put_all put ((idx, a) ∷ set) certs = put_all put set (change_cert idx (put idx a) certs)

unfoldable pub mark_executed : ℕ → CertStore → CertStore
mark_executed last_exec [] = []
mark_executed last_exec ((idx, cert) ∷ certs) =
    (idx, if leb idx.n last_exec then record cert { sent_execute = true } else cert)
    ∷ mark_executed last_exec certs

-- A list that could not be restored leaves the old one.
unfoldable pub restored_or : {M : Type 0} → M × Option RestoreError → M → M
restored_or (m, none) old = m
restored_or (m, some _) old = old

-- What ReadStateSet returns for the five prefixes.
pub record Stored : Type 0 where
  pub q_set : Option (List Entry)
  pub p_set : Option (List Entry)
  pub c_set : Option (List Entry)
  pub q_list : Option (List Entry)
  pub p_list : Option (List Entry)

pub record Unmarshallers : Type 0 where
  pub pre_prepare : String → Option PrePrepare
  pub pset : String → Option (List Prepare)
  pub cset : String → Option (List Commit)
  pub vc_pq : String → Option VcPq

pub record Restored : Type 0 where
  pub replica : Replica
  pub qlist : List (Qidx × VcPq)
  pub plist : List (ℕ × VcPq)

-- The errors of the three sets are not looked at.
unfoldable pub restore_cert : Unmarshallers → Stored → Restored → Restored
unfolding put_proposal put_prepares put_commits put_all mark_executed restored_or
restore_cert u s w =
    let r = w.replica in
    let certs₁ = put_all (put_proposal r) (restore_q_set u.pre_prepare s.q_set).0 r.cert_store in
    let certs₂ = put_all (put_prepares r) (restore_p_set u.pset s.p_set).0 certs₁ in
    let certs₃ = put_all (put_commits r) (restore_c_set u.cset s.c_set).0 certs₂ in
    record {
      replica = record r { cert_store = mark_executed r.last_exec certs₃ };
      qlist = restored_or (restore_q_list u.vc_pq s.q_list) w.qlist;
      plist = restored_or (restore_p_list u.vc_pq s.p_list) w.plist;
    }
