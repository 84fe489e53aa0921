-- ===== src/ViewChange/Basis.antt =====
-- How a replica builds the basis of its view change message and how another one checks it: calcPSet,
-- calcQSet, getVcBasis and gatherPQC (helper.go), correctViewChange (viewchange_mgr.go). Writes to
-- the database and the validator infos of the basis are left out.
pub mod Sets
pub mod Unique
pub mod Reported
pub mod Correct
use go_hpc_rbft.Base.{
  ℕ, Bool, true, false, not, ◌&&◌, ◌||◌, List, [], ◌∷◌, ◌++◌, Option, none, some, String,
  if◌then◌else◌, ltb, leb, nat_eq,
}
use go_hpc_rbft.Base.Maps.{lookup, insert, delete, delete_if}
use go_hpc_rbft.Messages.{VcPq, VcBasis, Checkpoint, SignedCheckpoint, height, get_execute_state}
use go_hpc_rbft.Certs.{
  MsgId, Qidx, MsgCert, CertStore, pre_prepared, prepared, clean_committed_cert_cache, msg_id_eq,
  qidx_eq,
}

-- The VcPq entry of a cert.
unfoldable pub entry_of : MsgId → VcPq
entry_of idx = record { sequence_number = idx.n; batch_digest = idx.d; view = idx.v }

-- `q, ok := m[k]; ok && q.View > v`
unfoldable pub higher : Option VcPq → ℕ → Bool
higher none v = false
higher (some q) v = ltb v q.view

-- `for idx := range certStore` of calcQSet, `certs` being the whole store.
unfoldable pub calc_q_loop : CertStore → CertStore → List (Qidx × VcPq) → List (Qidx × VcPq)
unfolding entry_of higher
calc_q_loop certs [] qset = qset
calc_q_loop certs ((idx, _) ∷ rest) qset =
    let qi : Qidx = record { d = idx.d; n = idx.n } in
    calc_q_loop certs rest (
      if not (pre_prepared certs idx)
      then qset
      else if higher (lookup qi qset) idx.v
      then qset
      else insert qi (entry_of idx) qset)

unfoldable pub calc_q_set : CertStore → List (Qidx × VcPq) → List (Qidx × VcPq)
calc_q_set certs qlist = calc_q_loop certs certs qlist

module _ (nodes f : ℕ) where
  unfoldable pub calc_p_loop : CertStore → CertStore → List (ℕ × VcPq) → List (ℕ × VcPq)
  unfolding entry_of higher
  calc_p_loop certs [] pset = pset
  calc_p_loop certs ((idx, _) ∷ rest) pset = calc_p_loop certs rest (
      if not (prepared nodes f certs idx)
      then pset
      else if higher (lookup idx.n pset) idx.v
      then pset
      else insert idx.n (entry_of idx) pset)

  unfoldable pub calc_p_set : CertStore → List (ℕ × VcPq) → List (ℕ × VcPq)
  calc_p_set certs plist = calc_p_loop certs certs plist

-- The entries of a list that are not below h.
unfoldable pub gather {ℓ} : {K : Type ℓ} → ℕ → List (K × VcPq) → List VcPq
gather h [] = []
gather h ((_, p) ∷ list) =
    let rest = gather h list in if ltb p.sequence_number h then rest else p ∷ rest

unfoldable pub gather_checkpoints : List (ℕ × SignedCheckpoint) → List (Option SignedCheckpoint)
gather_checkpoints [] = []
gather_checkpoints ((_, c) ∷ rest) = some c ∷ gather_checkpoints rest

-- What getVcBasis reads and writes.
pub record Vault : Type 0 where
  pub self_id : ℕ
  pub view : ℕ
  pub h : ℕ
  pub nodes : ℕ
  pub faults : ℕ
  pub committed_block_cache_number : ℕ
  pub cert_store : CertStore
  pub seq_map : List (ℕ × String)
  pub committed_cert_cache : CertStore
  pub plist : List (ℕ × VcPq)
  pub qlist : List (Qidx × VcPq)
  pub local_checkpoints : List (ℕ × SignedCheckpoint)

-- `for idx, cert := range certStore`: the certs of lower views move to the cache.
unfoldable pub drop_seqs : ℕ → CertStore → List (ℕ × String) → List (ℕ × String)
drop_seqs view [] seqs = seqs
drop_seqs view ((idx, _) ∷ certs) seqs =
    drop_seqs view certs (if ltb idx.v view then delete idx.n seqs else seqs)

unfoldable pub keep_certs : ℕ → CertStore → CertStore → CertStore
keep_certs view [] cache = cache
keep_certs view ((idx, cert) ∷ certs) cache =
    keep_certs view certs (if ltb idx.v view then insert idx cert cache else cache)

unfoldable pub get_vc_basis : Vault → VcBasis × Vault
unfolding calc_p_set calc_q_set gather_checkpoints gather drop_seqs keep_certs
get_vc_basis s =
    let plist = calc_p_set s.nodes s.faults s.cert_store s.plist in
    let qlist = calc_q_set s.cert_store s.qlist in
    (
      record {
        replica_id = s.self_id;
        view = s.view;
        h = s.h;
        pset = gather s.h plist;
        qset = gather s.h qlist;
        cset = gather_checkpoints s.local_checkpoints;
      },
      record s {
        plist = plist;
        qlist = qlist;
        cert_store = delete_if (λ (idx : MsgId) cert. ltb idx.v s.view) s.cert_store;
        seq_map = drop_seqs s.view s.cert_store s.seq_map;
        committed_cert_cache =
            clean_committed_cert_cache s.committed_block_cache_number s.h
              (keep_certs s.view s.cert_store s.committed_cert_cache);
      },
    )

-- The loop over the P and Q sets.
unfoldable pub correct_entries : ℕ → ℕ → List VcPq → Bool
correct_entries view h [] = true
correct_entries view h (p ∷ ps) =
    let rest = correct_entries view h ps in
    if not (ltb p.view view && ltb h p.sequence_number) then false else rest

-- c.GetCheckpoint() of a nil SignedCheckpoint is nil.
unfoldable pub checkpoint_of : Option SignedCheckpoint → Option Checkpoint
checkpoint_of none = none
checkpoint_of (some c) = c.checkpoint

-- The loop over the C set. `none` is a panic: the log line of the failing branch reads
-- `c.GetCheckpoint().GetExecuteState().Digest`, which has no nil check.
unfoldable pub correct_checkpoints : ℕ → List (Option SignedCheckpoint) → Option Bool
unfolding checkpoint_of get_execute_state
correct_checkpoints h [] = some true
correct_checkpoints h (c ∷ cs) =
    let rest = correct_checkpoints h cs in
    if not (leb h (height (checkpoint_of c)))
    then elim (get_execute_state (checkpoint_of c)) [ none ↦ none | some _ ↦ some false ]
    else rest

unfoldable pub correct_view_change : VcBasis → Option Bool
unfolding correct_entries correct_checkpoints
correct_view_change b =
    if not (correct_entries b.view b.h (b.pset ++ b.qset))
    then some false
    else correct_checkpoints b.h b.cset
