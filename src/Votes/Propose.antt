-- ===== src/Votes/Propose.antt =====
-- recvPrePrepare (rbft_impl.go), isPrePrepareLegal (store_mgr.go), findNextPrepareBatch and
-- isConfigBatch (batch_mgr.go), calculateMD5Hash (helper.go), exitSyncState (recovery_mgr.go). Three
-- things are parameters: the bytes of a text, the MD5 digest in hex, and what the request pool
-- answers to GetRequestsByHashList.
use go_hpc_rbft.Base.{
  ℕ, zero, suc, ◌/◌, ◌%◌, Bool, true, false, not, ◌&&◌, List, [], ◌∷◌, ◌++◌, Option, none, some,
  String, if◌then◌else◌, ltb, leb, ◌==◌, str_eq, nat_eq, string_eq,
}
use go_hpc_rbft.Base.Words.{◌+ᵤ◌, ◌-ᵤ◌}
use go_hpc_rbft.Base.Maps.{lookup, insert}
use go_hpc_rbft.Messages.{HashBatch, PrePrepare}
use go_hpc_rbft.Certs.{MsgId, get_cert, pre_prepared, msg_id_eq}
use go_hpc_rbft.Status.{
  has_bit, atomic_has_bit, off, atomic_on, skip_in_progress, in_view_change, in_conf_change,
  in_sync_state, need_sync_state,
}
use go_hpc_rbft.Votes.{
  RequestBatch, Replica, emit, is_primary, in_wv, beyond_range, caches, get_high_view_cache,
  persist_q_set, persist_batch, fetch_missing_request, stop_null_request_timer,
  soft_start_high_watermark_timer, soft_start_new_view_timer, stop_sync_state_timers,
  send_view_change,
}
use go_hpc_rbft.Votes.Phases.{send_prepare}

abbrev pub pre_prepare_key : PrePrepare → MsgId
pre_prepare_key p = record { v = p.view; n = p.sequence_number; d = p.batch_digest }

unfoldable pub is_config_batch : Replica → ℕ → Bool
is_config_batch r seq_no = seq_no == (r.start_block +ᵤ r.epoch_period -ᵤ 1)

unfoldable pub is_pre_prepare_legal : Replica → PrePrepare → Bool
is_pre_prepare_legal r p =
    if atomic_has_bit r.status in_view_change
    then false
    else if atomic_has_bit r.status in_conf_change && leb p.sequence_number r.config_batch_in_order
    then false
    else if not (in_wv r p.view p.sequence_number)
    then false
    else if not (is_primary r p.replica_id)
    then false
    else if is_primary r r.self_id
    then false
    else if leb p.sequence_number r.last_exec && pre_prepared r.cert_store (pre_prepare_key p)
    then false
    else true

unfoldable pub cache_pre_prepare : Replica → PrePrepare → Replica
unfolding get_high_view_cache
cache_pre_prepare r p =
    let c = get_high_view_cache r p.view in
    record r {
      high_view_cache =
          insert p.view (record c { pre_prepares = c.pre_prepares ++ (p ∷ []) }) r.high_view_cache;
    }

unfoldable pub exit_sync_state : Replica → Replica
unfolding emit
exit_sync_state r =
    emit stop_sync_state_timers
      (record r { status = off (off r.status (in_sync_state ∷ [])) (need_sync_state ∷ []) })

-- `atomicOn(InConfChange); cert.isConfig = true; configBatchInOrder = n` for a config batch.
unfoldable pub order_config : Replica → MsgId → ℕ → Replica
unfolding get_cert is_config_batch
order_config r idx seq_no =
    let (cert, certs) = get_cert r.cert_store idx in
    if is_config_batch r seq_no
    then record r {
      status = atomic_on r.status (in_conf_change ∷ []);
      cert_store = insert idx (record cert { is_config = true }) certs;
      config_batch_in_order = idx.n;
    }
    else r

-- fetchMissingTxs: a batch that is being fetched is not fetched again.
unfoldable pub fetch_missing_txs : Replica → PrePrepare → Replica
unfolding emit
fetch_missing_txs r p = elim (lookup p.batch_digest r.missing_batches_in_fetching) [
  | some _ ↦ r
  | none ↦ emit (fetch_missing_request (pre_prepare_key p) p.replica_id) (record r {
    missing_batches_in_fetching =
        insert p.batch_digest (pre_prepare_key p) r.missing_batches_in_fetching;
  })
]

-- binary.LittleEndian.PutUint64 on `n` bytes.
unfoldable pub little_endian : ℕ → ℕ → List ℕ
little_endian zero t = []
little_endian (suc n) t = t % 256 ∷ little_endian n (t / 256)

-- The error, the missing transactions, or the transactions and whether each is local.
pub data PoolAnswer : Type 0 where
  pool_error missing_txs : PoolAnswer
  pool_txs : List String → List Bool → PoolAnswer

-- From the answer of the request pool on; `hashes` is the hash batch of the pre-prepare.
unfoldable pub take_batch : Replica → MsgId → PrePrepare → HashBatch → PoolAnswer → Option Replica
unfolding fetch_missing_txs order_config emit
take_batch r idx p hashes pool_error = some (emit send_view_change r)
take_batch r idx p hashes missing_txs = some (fetch_missing_txs r p)
take_batch r idx p hashes (pool_txs txs locals) =
    let batch : RequestBatch = record {
      request_hash_list = hashes.request_hash_list;
      request_list = txs;
      timestamp = hashes.timestamp;
      seq_no = p.sequence_number;
      local_list = locals;
      batch_hash = idx.d;
      proposer = hashes.proposer;
    } in
    let stored = record r {
      outstanding_req_batches = insert idx.d batch r.outstanding_req_batches;
      batch_store = insert idx.d batch r.batch_store;
    } in
    send_prepare (order_config (emit (persist_batch idx.d) stored) idx batch.seq_no) idx

-- The digest that the number has already, if any, is the one of the message.
unfoldable pub matches_seq_map : Replica → PrePrepare → Bool
matches_seq_map r p = elim (lookup p.sequence_number r.seq_map) [
  | none ↦ true
  | some d ↦ str_eq d p.batch_digest
]

-- A pre-prepare above the high watermark starts its timer.
unfoldable pub warn_high_watermark : Replica → PrePrepare → Replica
unfolding emit
warn_high_watermark r p =
    if beyond_range r p.sequence_number then emit soft_start_high_watermark_timer r else r

-- From stopping the null request timer to persistQSet.
unfoldable pub accept_pre_prepare : Replica → PrePrepare → Replica
unfolding get_cert exit_sync_state emit
accept_pre_prepare r p =
    let fresh = ltb r.last_exec p.sequence_number in
    let quiet = if fresh then emit stop_null_request_timer r else r in
    let (cert, certs) = get_cert quiet.cert_store (pre_prepare_key p) in
    let stored = record quiet {
      cert_store = insert (pre_prepare_key p) (record cert { pre_prepare = some p }) certs;
      seq_map = insert p.sequence_number p.batch_digest quiet.seq_map;
    } in
    let timed =
      if not (has_bit stored.status skip_in_progress) && fresh
      then exit_sync_state (emit soft_start_new_view_timer stored)
      else stored in
    emit (persist_q_set p) timed

module _ (bytes : String → List ℕ) (md5_hex : List ℕ → String)
    (get_requests_by_hash_list : String → ℕ → List String → List String → PoolAnswer) where
  unfoldable pub write_hashes : List String → List ℕ
  write_hashes [] = []
  write_hashes (hash ∷ list) = bytes hash ++ write_hashes list

  unfoldable pub calculate_md5_hash : List String → ℕ → String
  unfolding write_hashes little_endian
  calculate_md5_hash list timestamp = md5_hex (
      if ltb 0 timestamp then write_hashes list ++ little_endian 8 timestamp else write_hashes list)

  unfoldable pub find_next_prepare_batch : Replica → MsgId → Option Replica
  unfolding get_cert order_config take_batch
  find_next_prepare_batch r idx =
      let (cert, certs) = get_cert r.cert_store idx in
      let r' = record r { cert_store = certs } in
      if not (idx.v == r.view) then some r else elim cert.pre_prepare [
        | none ↦ some r'
        | some p ↦
            if has_bit r'.status skip_in_progress
            then some r'
            else if str_eq idx.d ""
            then send_prepare r' idx
            else elim (lookup idx.d r'.batch_store) [
              | some batch ↦ send_prepare (order_config r' idx batch.seq_no) idx
              | none ↦ elim p.hash_batch [
                | none ↦ none
                | some b ↦ take_batch r' idx p b (
                    get_requests_by_hash_list idx.d b.timestamp b.request_hash_list
                      b.de_duplicate_request_hash_list)
              ]
            ]
      ]

  -- An empty digest is of an empty batch, any other one is the hash of the batch. `none` is the panic
  -- on a pre-prepare without a hash batch.
  unfoldable pub right_digest : PrePrepare → Option Bool
  unfolding calculate_md5_hash
  right_digest p = elim p.hash_batch [
    | none ↦ none
    | some b ↦ some (
        if str_eq p.batch_digest ""
        then elim b.request_hash_list [ [] ↦ true | _ ∷ _ ↦ false ]
        else str_eq (calculate_md5_hash b.request_hash_list b.timestamp) p.batch_digest)
  ]

  unfoldable pub recv_pre_prepare : Replica → PrePrepare → Option Replica
  unfolding is_pre_prepare_legal caches cache_pre_prepare matches_seq_map right_digest
      warn_high_watermark accept_pre_prepare get_cert
  recv_pre_prepare r p =
      if not (is_pre_prepare_legal r p)
      then some (if caches r p.view p.sequence_number then cache_pre_prepare r p else r)
      else if not (matches_seq_map r p)
      then some (emit send_view_change r)
      else let warned = warn_high_watermark r p in
        elim (right_digest p) [
          | none ↦ none
          | some right ↦
              if not right
              then some (emit send_view_change warned)
              else let done = accept_pre_prepare warned p in
                if not (is_primary done done.self_id)
                  && not (get_cert done.cert_store (pre_prepare_key p)).0.sent_prepare
                then find_next_prepare_batch done (pre_prepare_key p)
                else some done
        ]
