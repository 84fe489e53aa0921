-- ===== src/Votes/Ordered.antt =====
-- commitPendingBlocks executes committed requests in the order of their numbers, and ends.
use go_hpc_rbft.Base.{
  ℕ, zero, suc, ◌≡◌, ap, sym, subst, ◌∙◌, inl, inr, Bool, true, List, [], ◌∷◌, some, arith,
  Option-cases, nat_eq, string_eq, All,
}
use go_hpc_rbft.Base.Words.{◌+ᵤ◌}
use go_hpc_rbft.Base.Maps.{lookup, insert, lookup-insert}
use go_hpc_rbft.Certs.{
  MsgId, MsgCert, CertStore, pre_prepared, prepared, committed, msg_id_eq, msg_id_beq_iff,
}
use go_hpc_rbft.Votes.{Replica}
use go_hpc_rbft.Votes.Pending.{find_next_commit_batch, commit_batch, commit_loop}
use go_hpc_rbft.Votes.Loop.{
  executed, Round, commit_batch-Round, Ready, find_next_commit_batch-Ready,
}

-- `ids` carries on from `last`, each number one more than the one before.
abbrev pub Consecutive : ℕ → List MsgId → Type 0
Consecutive last [] = Unit
Consecutive last (idx ∷ ids) = (idx.n ≡ last +ᵤ 1) × Consecutive idx.n ids

abbrev pub last_of : ℕ → List MsgId → ℕ
last_of last [] = last
last_of last (idx ∷ ids) = last_of idx.n ids

-- The numbers of `ids`, the last one first, in front of `acc`.
abbrev pub reverse_onto : List MsgId → List ℕ → List ℕ
reverse_onto [] acc = acc
reverse_onto (idx ∷ ids) acc = reverse_onto ids (idx.n ∷ acc)

-- Marking a cert as executed changes no vote.
committed-sent_execute :
    (nodes f : ℕ) (certs : CertStore) (idx j : MsgId) (cert : MsgCert)
    → lookup idx certs ≡ some cert
    → committed nodes f (insert idx (record cert { sent_execute = true }) certs) j
      ≡ committed nodes f certs j
unfolding committed prepared pre_prepared
committed-sent_execute nodes f certs idx j cert e =
    ground
      (arith, msg_id_beq_iff idx j, lookup-insert idx j (record cert { sent_execute = true }) certs)

-- What a run of the loop has done.
pub record Run (r : Replica) (r' : Replica) : Type 0 where
  pub ids : List MsgId
  pub consecutive : Consecutive r.last_exec ids
  pub quorums : All (λ (idx : MsgId). committed r.nodes r.faults r.cert_store idx ≡ true) ids
  pub calls : executed r'.outbox ≡ reverse_onto ids (executed r.outbox)
  pub reaches : r'.last_exec ≡ last_of r.last_exec ids

All-transport :
    (p q : MsgId → Bool) (ids : List MsgId)
    → ((idx : MsgId) → p idx ≡ q idx)
    → All (λ idx. p idx ≡ true) ids
    → All (λ idx. q idx ≡ true) ids
All-transport p q [] h a = tt
All-transport p q (idx ∷ ids) h (e, a) = (sym (h idx) ∙ e, All-transport p q ids h a)

extend :
    (r m r' : Replica) (idx : MsgId) (cert : MsgCert)
    → Ready r idx cert
    → Round r idx cert m
    → Run m r'
    → Run r r'
extend r m r' idx cert ready round run = record {
  ids = idx ∷ run.ids;
  consecutive = (ready.next, subst (λ n. Consecutive n run.ids) round.reaches run.consecutive);
  quorums = (
    ready.quorum,
    All-transport (committed m.nodes m.faults m.cert_store)
        (committed r.nodes r.faults r.cert_store) run.ids
        (λ j.
          rw (round.size, round.bound, round.certs)
            (committed-sent_execute r.nodes r.faults r.cert_store idx j cert ready.stored))
        run.quorums,
  );
  calls = run.calls ∙ ap (reverse_onto run.ids) round.calls;
  reaches = run.reaches ∙ ap (λ n. last_of n run.ids) round.reaches;
}

-- When the loop of commitPendingBlocks ends without a panic, it has called Execute for requests that
-- have a quorum of commits, with numbers that carry on from lastExec one by one, and lastExec is the
-- last of them.
pub commit_loop-Run : (fuel : ℕ) (r r' : Replica) → commit_loop fuel r ≡ some r' → Run r r'
unfolding commit_loop
commit_loop-Run zero r r' h = cc
commit_loop-Run (suc fuel) r r' h = elim (Option-cases (find_next_commit_batch r)) [
  | inl e ↦
      let same : r ≡ r' = ground arith in
      record {
        ids = [];
        consecutive = tt;
        quorums = tt;
        calls = ap (λ (x : Replica). executed x.outbox) (sym same);
        reaches = ap (λ (x : Replica). x.last_exec) (sym same);
      }
  | inr ((idx, cert), e) ↦ elim (Option-cases (commit_batch r idx cert)) [
    | inl k ↦ absurd (ground arith)
    | inr (m, k) ↦
        extend r m r' idx cert (find_next_commit_batch-Ready r idx cert e).0
          (commit_batch-Round r idx cert m k)
          (commit_loop-Run fuel m r' (rw (commit_loop, e, k) at h))
  ]
]
