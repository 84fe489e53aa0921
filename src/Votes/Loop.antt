-- ===== src/Votes/Loop.antt =====
-- What one round of commitPendingBlocks does.
use go_hpc_rbft.Base.{
  ℕ, ◌≡◌, ap, sym, ◌∙◌, inl, inr, Bool, true, false, List, [], ◌∷◌, some, String, arith, str_eq,
  Bool-cases, Option-cases, nat_eq, string_eq, In,
}
use go_hpc_rbft.Base.Words.{◌+ᵤ◌}
use go_hpc_rbft.Base.Maps.{lookup, insert, delete}
use go_hpc_rbft.Messages.{Commit, PrePrepare}
use go_hpc_rbft.Certs.{MsgId, MsgCert, committed, msg_id_eq}
use go_hpc_rbft.Votes.{
  Replica, Effect, emit, execute, persist_c_set, stop_new_view_timer, broadcast_prepare,
  broadcast_commit, persist_p_set, soft_start_new_view_timer, soft_restart_batch_timer,
  null_req_timer_reset, send_view_change, persist_q_set, persist_batch, fetch_missing_request,
  stop_null_request_timer, soft_start_high_watermark_timer, stop_sync_state_timers,
}
use go_hpc_rbft.Votes.Pending.{
  filter_executable_txs, has_batch, executable, find_loop, find_next_commit_batch,
  after_commit_block, finish_batch, before_execute, mark_config, commit_batch,
}

-- The heights that Execute was called for, the newest first.
abbrev pub executed : List Effect → List ℕ
executed [] = []
executed (execute txs n timestamp proposer ∷ es) = n ∷ executed es
executed (broadcast_prepare _ ∷ es) = executed es
executed (broadcast_commit _ ∷ es) = executed es
executed (persist_p_set _ _ ∷ es) = executed es
executed (persist_c_set _ _ ∷ es) = executed es
executed (stop_new_view_timer ∷ es) = executed es
executed (soft_start_new_view_timer ∷ es) = executed es
executed (soft_restart_batch_timer ∷ es) = executed es
executed (null_req_timer_reset ∷ es) = executed es
executed (send_view_change ∷ es) = executed es
executed (persist_q_set _ ∷ es) = executed es
executed (persist_batch _ ∷ es) = executed es
executed (fetch_missing_request _ _ ∷ es) = executed es
executed (stop_null_request_timer ∷ es) = executed es
executed (soft_start_high_watermark_timer ∷ es) = executed es
executed (stop_sync_state_timers ∷ es) = executed es

-- The commits that were broadcast, the newest first.
abbrev pub commits_sent : List Effect → List Commit
commits_sent [] = []
commits_sent (broadcast_commit c ∷ es) = c ∷ commits_sent es
commits_sent (execute _ _ _ _ ∷ es) = commits_sent es
commits_sent (broadcast_prepare _ ∷ es) = commits_sent es
commits_sent (persist_p_set _ _ ∷ es) = commits_sent es
commits_sent (persist_c_set _ _ ∷ es) = commits_sent es
commits_sent (stop_new_view_timer ∷ es) = commits_sent es
commits_sent (soft_start_new_view_timer ∷ es) = commits_sent es
commits_sent (soft_restart_batch_timer ∷ es) = commits_sent es
commits_sent (null_req_timer_reset ∷ es) = commits_sent es
commits_sent (send_view_change ∷ es) = commits_sent es
commits_sent (persist_q_set _ ∷ es) = commits_sent es
commits_sent (persist_batch _ ∷ es) = commits_sent es
commits_sent (fetch_missing_request _ _ ∷ es) = commits_sent es
commits_sent (stop_null_request_timer ∷ es) = commits_sent es
commits_sent (soft_start_high_watermark_timer ∷ es) = commits_sent es
commits_sent (stop_sync_state_timers ∷ es) = commits_sent es

-- What a round changes and what it leaves.
pub record Round (r : Replica) (idx : MsgId) (cert : MsgCert) (m : Replica) : Type 0 where
  pub calls : executed m.outbox ≡ idx.n ∷ executed r.outbox
  pub reaches : m.last_exec ≡ idx.n
  pub certs : m.cert_store ≡ insert idx (record cert { sent_execute = true }) r.cert_store
  pub pending : m.committed_cert ≡ delete idx r.committed_cert
  pub batches : m.batch_store ≡ r.batch_store
  pub period : m.checkpoint_period ≡ r.checkpoint_period
  pub size : m.nodes ≡ r.nodes
  pub bound : m.faults ≡ r.faults
  pub seqs : m.seq_map ≡ r.seq_map
  pub silent : commits_sent m.outbox ≡ commits_sent r.outbox

finish_batch-Round :
    (r : Replica) (idx : MsgId) (cert : MsgCert) (txs : List (String × Bool))
    (timestamp proposer : ℕ) (m : Replica)
    → finish_batch r idx cert txs timestamp proposer ≡ some m
    → Round r idx cert m
unfolding finish_batch after_commit_block emit
finish_batch-Round r idx cert txs timestamp proposer m h = record {
  calls = ground arith;
  reaches = ground arith;
  certs = ground arith;
  pending = ground arith;
  batches = ground arith;
  period = ground arith;
  size = ground arith;
  bound = ground arith;
  seqs = ground arith;
  silent = ground arith;
}

-- Nothing that a round reports has changed.
pub record Alike (r ready : Replica) : Type 0 where
  pub calls : executed ready.outbox ≡ executed r.outbox
  pub certs : ready.cert_store ≡ r.cert_store
  pub pending : ready.committed_cert ≡ r.committed_cert
  pub batches : ready.batch_store ≡ r.batch_store
  pub period : ready.checkpoint_period ≡ r.checkpoint_period
  pub size : ready.nodes ≡ r.nodes
  pub bound : ready.faults ≡ r.faults
  pub seqs : ready.seq_map ≡ r.seq_map
  pub silent : commits_sent ready.outbox ≡ commits_sent r.outbox

ready_Round :
    (r ready : Replica) (idx : MsgId) (cert : MsgCert) (m : Replica)
    → Alike r ready
    → Round ready idx cert m
    → Round r idx cert m
ready_Round r ready idx cert m a round = record {
  calls = round.calls ∙ ap (◌∷◌ idx.n) a.calls;
  reaches = round.reaches;
  certs = round.certs ∙ ap (insert idx (record cert { sent_execute = true })) a.certs;
  pending = round.pending ∙ ap (delete idx) a.pending;
  batches = round.batches ∙ a.batches;
  period = round.period ∙ a.period;
  size = round.size ∙ a.size;
  bound = round.bound ∙ a.bound;
  seqs = round.seqs ∙ a.seqs;
  silent = round.silent ∙ a.silent;
}

pub before_execute-Alike :
    (r : Replica) (idx : MsgId) (cert : MsgCert) → Alike r (before_execute r idx cert)
unfolding before_execute emit
before_execute-Alike r idx cert = record {
  calls = ground arith;
  certs = ground arith;
  pending = ground arith;
  batches = ground arith;
  period = ground arith;
  size = ground arith;
  bound = ground arith;
  seqs = ground arith;
  silent = ground arith;
}

pub mark_config-Alike :
    (r ready : Replica) (idx : MsgId) (cert : MsgCert)
    → Alike r ready
    → Alike r (mark_config ready idx cert)
unfolding mark_config
mark_config-Alike r ready idx cert a = elim (Bool-cases cert.is_config) [
  | inl e ↦ rw e (record {
    calls = a.calls;
    certs = a.certs;
    pending = a.pending;
    batches = a.batches;
    period = a.period;
    size = a.size;
    bound = a.bound;
    seqs = a.seqs;
    silent = a.silent;
  })
  | inr e ↦ rw e a
]

pub commit_batch-Round :
    (r : Replica) (idx : MsgId) (cert : MsgCert) (m : Replica)
    → commit_batch r idx cert ≡ some m
    → Round r idx cert m
unfolding commit_batch
commit_batch-Round r idx cert m h =
    let ready = before_execute r idx cert in
    let configured = mark_config ready idx cert in
    let a = before_execute-Alike r idx cert in
    let b = mark_config-Alike r ready idx cert a in
    elim (Option-cases cert.pre_prepare) [
      | inl e ↦
          ready_Round r ready idx cert m a
            (finish_batch-Round ready idx cert [] 0 0 m (ground arith))
      | inr (p, e) ↦ elim (Option-cases p.hash_batch) [
        | inl lacks ↦ absurd (ground arith)
        | inr (hashes, has) ↦ elim (Bool-cases (str_eq idx.d "")) [
          | inl k ↦
              ready_Round r ready idx cert m a
                (finish_batch-Round ready idx cert [] 0 hashes.proposer m (ground arith))
          | inr k ↦
              elim (Option-cases
                (filter_executable_txs configured idx.d hashes.de_duplicate_request_hash_list)) [
                  | inl g ↦ absurd (ground arith)
                  | inr (txs, g) ↦ ready_Round r configured idx cert m b (
                      finish_batch-Round configured idx cert txs hashes.timestamp hashes.proposer m
                        (ground arith))
                ]
        ]
      ]
    ]

-- findNextCommitBatch returns a pending id, and its cert with everything that it tested.
pub record Ready (r : Replica) (idx : MsgId) (cert : MsgCert) : Type 0 where
  pub stored : lookup idx r.cert_store ≡ some cert
  pub proposed : (p : PrePrepare) × (cert.pre_prepare ≡ some p)
  pub fresh : cert.sent_execute ≡ false
  pub next : idx.n ≡ r.last_exec +ᵤ 1
  pub quorum : committed r.nodes r.faults r.cert_store idx ≡ true
  pub batch : has_batch r idx.d ≡ true

executable-Ready :
    (r : Replica) (idx : MsgId) (cert : MsgCert) → executable r idx ≡ some cert → Ready r idx cert
unfolding executable
executable-Ready r idx cert h = elim (Option-cases (lookup idx r.cert_store)) [
  | inl e ↦ absurd (ground arith)
  | inr (c, e) ↦ elim (Option-cases c.pre_prepare) [
    | inl k ↦ absurd (ground arith)
    | inr (p, k) ↦
        let same : c ≡ cert = ground arith in
        record {
          stored = e ∙ ap some same;
          proposed = (p, ground arith);
          fresh = ground arith;
          next = ground arith;
          quorum = ground arith;
          batch = ground arith;
        }
  ]
]

find_loop-Ready :
    (r : Replica) (list : List (MsgId × String)) (idx : MsgId) (cert : MsgCert)
    → find_loop r list ≡ some (idx, cert)
    → Ready r idx cert × ((d : String) × In (idx, d) list)
unfolding find_loop
find_loop-Ready r [] idx cert h = cc
find_loop-Ready r ((j, d) ∷ rest) idx cert h = elim (Option-cases (executable r j)) [
  | inl e ↦
      let (ready, (d', i)) = find_loop-Ready r rest idx cert (ground arith) in (ready, (d', inr i))
  | inr (c, e) ↦
      let same : j ≡ idx = ground arith in
      let mine : c ≡ cert = ground arith in
      (
        executable-Ready r idx cert (ap (executable r) (sym same) ∙ e ∙ ap some mine),
        (d, inl (ap (λ (k : MsgId). (k, d)) (sym same))),
      )
]

pub find_next_commit_batch-Ready :
    (r : Replica) (idx : MsgId) (cert : MsgCert)
    → find_next_commit_batch r ≡ some (idx, cert)
    → Ready r idx cert × ((d : String) × In (idx, d) r.committed_cert)
unfolding find_next_commit_batch
find_next_commit_batch-Ready r idx cert h =
    find_loop-Ready r r.committed_cert idx cert (ground arith)
