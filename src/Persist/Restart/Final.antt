-- ===== src/Persist/Restart/Final.antt =====
-- restoreCert of persist.go after the persisting functions of the same file.
use mathlib.Core.Option.{some-injective}
use go_hpc_rbft.Base.{
  ℕ, ◌≡◌, refl, sym, ap, ◌∙◌, inl, inr, true, false, List, [], ◌∷◌, Option, none, some, String, All,
  leb, if◌then◌else◌, Bool-cases, arith,
}
use go_hpc_rbft.Base.Maps.{IsMap, lookup, lookup_first, lookup_rest}
use go_hpc_rbft.Messages.{PrePrepare, Prepare, Commit}
use go_hpc_rbft.Certs.{MsgId, MsgCert, CertStore, msg_id_eq}
use go_hpc_rbft.Votes.{Replica}
use go_hpc_rbft.Votes.Tally.{Tallied}
use go_hpc_rbft.Persist.{Entry, persist_q_set, persist_p_set, persist_c_set}
use go_hpc_rbft.Persist.Read.{restore_q_set, restore_p_set, restore_c_set}
use go_hpc_rbft.Persist.Certs.{
  part_of, stores, Sound, ForItsKey, proposal, prepare_votes, commit_votes,
  restore_q_set-persist_q_set, restore_votes-persist_votes,
}
use go_hpc_rbft.Persist.Recover.{
  Stored, Unmarshallers, Restored, put_all, put_proposal, put_prepares, put_commits, mark_executed,
  restore_cert,
}
use go_hpc_rbft.Persist.Restart.Whole.{SameVotes, with_commits, lookup-with_commits}

-- The cert after the last loop of restoreCert.
abbrev marked : ℕ → ℕ → MsgCert → MsgCert
marked last_exec n cert = if leb n last_exec then record cert { sent_execute = true } else cert

lookup-mark_executed :
    (last_exec : ℕ) (j : MsgId) (certs : CertStore) (c : MsgCert)
    → lookup j certs ≡ some c
    → lookup j (mark_executed last_exec certs) ≡ some (marked last_exec j.n c)
unfolding mark_executed
lookup-mark_executed last_exec j [] c found = absurd (unfold lookup in ground (arith, found))
lookup-mark_executed last_exec j ((idx, d) ∷ certs) c found =
    elim (Bool-cases (msg_id_eq.beq idx j)) [
      | inl hit ↦
          let same : idx ≡ j = (msg_id_eq.beq_iff idx j).0 hit in
          let head : some d ≡ some c = sym (lookup_first idx j d certs hit) ∙ found in
          lookup_first idx j (marked last_exec idx.n d) (mark_executed last_exec certs) hit
          ∙ ap (λ (i : MsgId). some (marked last_exec i.n d)) same
          ∙ ap (λ (e : MsgCert). some (marked last_exec j.n e)) (some-injective d c head)
      | inr miss ↦
          lookup_rest idx j (marked last_exec idx.n d) (mark_executed last_exec certs) miss
          ∙ lookup-mark_executed last_exec j certs c (sym (lookup_rest idx j d certs miss) ∙ found)
    ]

marked_lem :
    (last_exec n : ℕ) (cert c : MsgCert)
    → SameVotes cert c
    → c.sent_execute ≡ false
    → SameVotes cert (marked last_exec n c)
      × ((marked last_exec n c).sent_execute ≡ leb n last_exec)
marked_lem last_exec n cert c votes fresh = elim (Bool-cases (leb n last_exec)) [
  | inl done ↦ rw done (votes, refl)
  | inr open_ ↦ rw open_ (votes, fresh)
]

-- How a replica marshals what it stores.
pub record Marshallers : Type 0 where
  pub pre_prepare : PrePrepare → Option String
  pub pset : List Prepare → Option String
  pub cset : List Commit → Option String

-- What is stored when the three persisting functions have been called for each cert.
abbrev pub stored_certs :
    Marshallers → CertStore → Option (List Entry) → Option (List Entry) → Stored
stored_certs m certs q_list p_list = record {
  q_set = some (stores (λ x. persist_q_set m.pre_prepare (proposal x.1)) certs);
  p_set = some (stores (λ x. (persist_p_set m.pset certs x.0).1) certs);
  c_set = some (stores (λ x. (persist_c_set m.cset certs x.0).1) certs);
  q_list = q_list;
  p_list = p_list;
}

-- What restoreCert leaves, when the three sets are those of the certs.
unfoldable left_by :
    Replica
    → List (MsgId × PrePrepare)
    → List (MsgId × List Prepare)
    → List (MsgId × List Commit)
    → CertStore
    → CertStore
left_by r q p c certs =
    mark_executed r.last_exec
      (put_all (put_commits r) c (put_all (put_prepares r) p (put_all (put_proposal r) q certs)))

restored_certs :
    (u : Unmarshallers) (s : Stored) (w : Restored) (certs : CertStore) (keyed : IsMap certs)
    → w.replica.cert_store ≡ []
    → restore_q_set u.pre_prepare s.q_set ≡ (part_of proposal certs, none)
    → restore_p_set u.pset s.p_set ≡ (part_of prepare_votes certs, none)
    → restore_c_set u.cset s.c_set ≡ (part_of commit_votes certs, none)
    → (restore_cert u s w).replica.cert_store
      ≡ mark_executed w.replica.last_exec (with_commits w.replica certs keyed)
unfolding restore_cert with_commits left_by
restored_certs u s w certs keyed empty q p c =
    λ i. left_by w.replica (q i).0 (p i).0 (c i).0 (empty i)

-- Let the certs of a replica have different msgIDs, their votes in order, and each pre-prepare in the
-- cert of its own msgID; let what is stored of them be marshalled to bytes that unmarshal to it, with
-- views and numbers below 2^63 and no dot in a digest. When persistQSet, persistPSet and persistCSet
-- have been called for each cert and the replica restarts without certs, restoreCert gives each cert
-- its pre-prepare, prepares and commits back, also above lastExec, and marks it as executed exactly when its number is
-- not above lastExec.
pub restore_cert-SameVotes :
    (m : Marshallers) (u : Unmarshallers) (certs : CertStore) (q_list p_list : Option (List Entry))
    (w : Restored)
    → w.replica.cert_store ≡ []
    → IsMap certs
    → Tallied certs
    → All ForItsKey certs
    → All (Sound proposal m.pre_prepare u.pre_prepare) certs
    → All (Sound prepare_votes m.pset u.pset) certs
    → All (Sound commit_votes m.cset u.cset) certs
    → (j : MsgId) (cert : MsgCert) → lookup j certs ≡ some cert
    → (cert' : MsgCert) × ((lookup j
            (restore_cert u (stored_certs m certs q_list p_list) w).replica.cert_store
          ≡ some cert')
        × (SameVotes cert cert' × (cert'.sent_execute ≡ leb j.n w.replica.last_exec)))
restore_cert-SameVotes m u certs q_list p_list w empty keyed tallied own qs ps cs j cert found =
    let r = w.replica in
    let q = restore_q_set-persist_q_set m.pre_prepare u.pre_prepare certs keyed own qs in
    let (p, c) = restore_votes-persist_votes certs m.pset u.pset m.cset u.cset keyed ps cs in
    let (cert', (at_j, (votes, fresh))) =
      lookup-with_commits r certs keyed j cert found (tallied j cert found) in
    (
      marked r.last_exec j.n cert',
      (
        ap (λ (s : CertStore). lookup j s)
              (restored_certs u (stored_certs m certs q_list p_list) w certs keyed empty q p c)
            ∙ lookup-mark_executed r.last_exec j (with_commits r certs keyed) cert' at_j,
        marked_lem r.last_exec j.n cert cert' votes fresh,
      ),
    )
