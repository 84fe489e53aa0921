-- ===== src/Votes/Batched.antt =====
-- recvPrePrepare and its callees of rbft_impl.go: the pre-prepares that a replica stores have a hash
-- batch, which the Go code reads without a test for nil.
use go_hpc_rbft.Base.{
  ℕ, ◌≡◌, sym, subst, inl, inr, ◌⊎◌, Bool, true, false, not, ◌&&◌, List, some, String, arith,
  Bool-cases, Option-cases, ◌==◌, str_eq, nat_eq, string_eq,
}
use go_hpc_rbft.Base.Maps.{lookup, insert}
use go_hpc_rbft.Messages.{HashBatch, PrePrepare}
use go_hpc_rbft.Certs.{MsgId, MsgCert, CertStore, get_cert, new_cert, msg_id_eq}
use go_hpc_rbft.Status.{has_bit, skip_in_progress}
use go_hpc_rbft.Votes.{Replica, emit, is_primary}
use go_hpc_rbft.Votes.Kept.{Closed, Kept, insert-Kept, get_cert-Kept}
use go_hpc_rbft.Votes.Kept.Prepares.{send_prepare-Keeps}
use go_hpc_rbft.Votes.Propose.{
  pre_prepare_key, is_pre_prepare_legal, cache_pre_prepare, exit_sync_state, order_config,
  fetch_missing_txs, PoolAnswer, pool_error, missing_txs, pool_txs, take_batch,
  find_next_prepare_batch, matches_seq_map, warn_high_watermark, right_digest, accept_pre_prepare,
  recv_pre_prepare, is_config_batch,
}

-- The cert's pre-prepare, if it has one, has a hash batch.
abbrev pub HasBatch : MsgId → MsgCert → Type 0
HasBatch idx cert =
    (p : PrePrepare) → cert.pre_prepare ≡ some p → (b : HashBatch) × (p.hash_batch ≡ some b)

-- So it is with every cert of the store.
abbrev pub Batched : CertStore → Type 0
Batched certs = Kept HasBatch certs

pub HasBatch-Closed : Closed HasBatch
unfolding new_cert
HasBatch-Closed = record {
  fresh = λ idx p e. cc;
  add_prepare = λ p cert b. b;
  add_commit = λ c cert b. b;
  mark_prepare = λ idx cert b. b;
  mark_commit = λ idx cert b. b;
  mark_execute = λ idx cert b. b;
}

same_Batched : (m r' : Replica) → m ≡ r' → Batched m.cert_store → Batched r'.cert_store
same_Batched m r' e all = subst (λ (x : Replica). Batched x.cert_store) e all

get_cert-Batched :
    (r : Replica) (idx : MsgId)
    → Batched r.cert_store
    → HasBatch idx (get_cert r.cert_store idx).0 × Batched (get_cert r.cert_store idx).1
get_cert-Batched r idx all = get_cert-Kept HasBatch r.cert_store idx (HasBatch-Closed.fresh idx) all

order_config-Batched :
    (r : Replica) (idx : MsgId) (seq_no : ℕ)
    → Batched r.cert_store
    → Batched (order_config r idx seq_no).cert_store
unfolding order_config
order_config-Batched r idx seq_no all =
    let (mine, rest) = get_cert-Batched r idx all in
    let (cert, certs) = get_cert r.cert_store idx in
    elim (Bool-cases (is_config_batch r seq_no)) [
      | inl e ↦ rw e (insert-Kept HasBatch idx (record cert { is_config = true }) certs mine rest)
      | inr e ↦ rw e all
    ]

accept_pre_prepare-Batched :
    (r : Replica) (p : PrePrepare) (b : HashBatch)
    → p.hash_batch ≡ some b
    → Batched r.cert_store
    → Batched (accept_pre_prepare r p).cert_store
unfolding accept_pre_prepare exit_sync_state emit
accept_pre_prepare-Batched r p b has all =
    let key = pre_prepare_key p in
    let (cert, certs) = get_cert r.cert_store key in
    let same_certs : (accept_pre_prepare r p).cert_store
        ≡ insert key (record cert { pre_prepare = some p }) certs =
      ground arith in
    subst Batched (sym same_certs) (
      insert-Kept HasBatch key (record cert { pre_prepare = some p }) certs
        (λ q e. (b, cc (has, e))) (get_cert-Batched r key all).1)

take_batch-Batched :
    (r r' : Replica) (idx : MsgId) (p : PrePrepare) (b : HashBatch) (answer : PoolAnswer)
    → take_batch r idx p b answer ≡ some r'
    → Batched r.cert_store
    → Batched r'.cert_store
unfolding take_batch fetch_missing_txs emit
take_batch-Batched r r' idx p b pool_error h all =
    let certs : r.cert_store ≡ r'.cert_store = ground arith in subst Batched certs all
take_batch-Batched r r' idx p b missing_txs h all =
    let certs : r.cert_store ≡ r'.cert_store = ground arith in subst Batched certs all
take_batch-Batched r r' idx p b (pool_txs txs locals) h all =
    (send_prepare-Keeps HasBatch HasBatch-Closed _ r' idx h
      (order_config-Batched _ idx p.sequence_number all)).certs

module _ (bytes : String → List ℕ) (md5_hex : List ℕ → String)
    (get_requests_by_hash_list : String → ℕ → List String → List String → PoolAnswer) where
  find_next_prepare_batch-Batched :
      (r r' : Replica) (idx : MsgId)
      → find_next_prepare_batch bytes md5_hex get_requests_by_hash_list r idx ≡ some r'
      → Batched r.cert_store
      → Batched r'.cert_store
  unfolding find_next_prepare_batch
  find_next_prepare_batch-Batched r r' idx h all =
      let (mine, rest) = get_cert-Batched r idx all in
      let (cert, certs) = get_cert r.cert_store idx in
      let m = record r { cert_store = certs } in
      let sends = send_prepare-Keeps HasBatch HasBatch-Closed in
      elim (Bool-cases (idx.v == r.view)) [
        | inr e ↦ same_Batched r r' (ground arith) all
        | inl e ↦ elim (Option-cases cert.pre_prepare) [
          | inl k ↦ same_Batched m r' (ground arith) rest
          | inr (p, k) ↦ elim (Bool-cases (has_bit r.status skip_in_progress)) [
            | inl g ↦ same_Batched m r' (ground arith) rest
            | inr g ↦ elim (Bool-cases (str_eq idx.d "")) [
              | inl f ↦ (sends m r' idx (ground arith) rest).certs
              | inr f ↦ elim (Option-cases (lookup idx.d r.batch_store)) [
                | inl missing ↦
                    let (b, has) = mine p k in
                    take_batch-Batched m r' idx p b
                      (get_requests_by_hash_list idx.d b.timestamp b.request_hash_list
                        b.de_duplicate_request_hash_list)
                      (ground arith) rest
                | inr (batch, there) ↦
                    (sends (order_config m idx batch.seq_no) r' idx (ground arith)
                      (order_config-Batched m idx batch.seq_no rest)).certs
              ]
            ]
          ]
        ]
      ]

  -- The digest check of a pre-prepare with a hash batch has a result.
  right_digest-some :
      (p : PrePrepare) (b : HashBatch)
      → p.hash_batch ≡ some b
      → (right : Bool) × (right_digest bytes md5_hex get_requests_by_hash_list p ≡ some right)
  unfolding right_digest
  right_digest-some p b has =
      elim (Option-cases (right_digest bytes md5_hex get_requests_by_hash_list p)) [
        | inl e ↦ absurd (ground arith)
        | inr (right, e) ↦ (right, e)
      ]

  -- When recvPrePrepare returns, every pre-prepare in a cert still has a hash batch, if it was so
  -- before; and the message was not legal, or its digest differed from the one that seqMap has for
  -- its number, or it had a hash batch: any other message without a hash batch makes it panic.
  pub recv_pre_prepare-Batched :
      (r r' : Replica) (p : PrePrepare)
      → recv_pre_prepare bytes md5_hex get_requests_by_hash_list r p ≡ some r'
      → Batched r.cert_store
      → Batched r'.cert_store
        × (((is_pre_prepare_legal r p && matches_seq_map r p) ≡ false)
            ⊎ ((b : HashBatch) × (p.hash_batch ≡ some b)))
  unfolding recv_pre_prepare cache_pre_prepare emit warn_high_watermark right_digest
  recv_pre_prepare-Batched r r' p h all =
      let warned = warn_high_watermark r p in
      let done = accept_pre_prepare warned p in
      let unchanged : r.cert_store ≡ r'.cert_store → Batched r'.cert_store =
        λ certs. subst Batched certs all in
      elim (Bool-cases (is_pre_prepare_legal r p && matches_seq_map r p)) [
        | inr e ↦ (unchanged (ground arith), inl e)
        | inl e ↦ elim (Option-cases p.hash_batch) [
          | inl lacks ↦ absurd (ground arith)
          | inr (b, has) ↦
              let (right, is_right) = right_digest-some p b has in
              let before : r.cert_store ≡ warned.cert_store = ground arith in
              let accepted = accept_pre_prepare-Batched warned p b has (subst Batched before all) in
              (
                elim (Bool-cases right) [
                  | inr wrong ↦ unchanged (ground arith)
                  | inl good ↦
                      elim (Bool-cases (
                        not (is_primary done done.self_id)
                        && not (get_cert done.cert_store (pre_prepare_key p)).0.sent_prepare)) [
                          | inl k ↦
                              find_next_prepare_batch-Batched done r' (pre_prepare_key p)
                                (ground arith) accepted
                          | inr k ↦ same_Batched done r' (ground arith) accepted
                        ]
                ],
                inr (b, has),
              )
        ]
      ]
