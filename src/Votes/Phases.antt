-- ===== src/Votes/Phases.antt =====
-- sendCommit, maybeSendCommit, recvPrepare, recvCommit and sendPrepare (rbft_impl.go).
use go_hpc_rbft.Base.{
  suc, true, not, ◌&&◌, [], ◌∷◌, ◌++◌, map, Option, none, some, length, if◌then◌else◌, ◌==◌, nat_eq,
}
use go_hpc_rbft.Base.Maps.{lookup, insert}
use go_hpc_rbft.Messages.{Prepare, Commit}
use go_hpc_rbft.Certs.{
  MsgId, VoteId, prepare_id, commit_id, get_cert, prepared, committed, msg_id_eq, vote_id_eq,
}
use go_hpc_rbft.Status.{has_bit, skip_in_progress, wait_checkpoint_batch_execute}
use go_hpc_rbft.Votes.{
  Replica, emit, is_primary, is_validator, caches, get_high_view_cache, is_prepare_legal,
  is_commit_legal, broadcast_prepare, broadcast_commit, persist_p_set, send_view_change,
}
use go_hpc_rbft.Votes.Pending.{commit_pending_blocks}

abbrev pub prepare_key : Prepare → MsgId
prepare_key p = record { v = p.view; n = p.sequence_number; d = p.batch_digest }

abbrev pub commit_key : Commit → MsgId
commit_key c = record { v = c.view; n = c.sequence_number; d = c.batch_digest }

unfoldable pub cache_prepare : Replica → Prepare → Replica
unfolding get_high_view_cache
cache_prepare r p =
    let c = get_high_view_cache r p.view in
    record r {
      high_view_cache =
          insert p.view (record c { prepares = c.prepares ++ (p ∷ []) }) r.high_view_cache;
    }

unfoldable pub cache_commit : Replica → Commit → Replica
unfolding get_high_view_cache
cache_commit r m =
    let c = get_high_view_cache r m.view in
    record r {
      high_view_cache =
          insert m.view (record c { commits = c.commits ++ (m ∷ []) }) r.high_view_cache;
    }

-- `cert.commit[commitID] = commit`
unfoldable pub store_commit : Replica → Commit → Replica
unfolding get_cert commit_id is_validator
store_commit r c =
    let (cert, certs) = get_cert r.cert_store (commit_key c) in
    if not (is_validator r) && c.replica_id == r.self_id
    then record r { cert_store = certs }
    else let voted = record cert { commit = insert (commit_id c) c cert.commit } in
      record r { cert_store = insert (commit_key c) voted certs }

-- "reset last new view timeout after commit one block successfully"
unfoldable pub after_commit : Replica → Commit → Replica
unfolding emit
after_commit r c =
    let settled = record r { last_new_view_timeout = r.new_view_timeout } in
    if not (has_bit r.status wait_checkpoint_batch_execute)
    then (if c.sequence_number == r.view_change_seq_no
        then emit send_view_change settled
        else settled)
    else r

-- The branch of recvCommit for a cert that is committed and not yet executed. Each round takes an
-- entry out of committedCert, so one more round than there are entries is enough.
unfoldable pub commit_cert : Replica → Commit → Option Replica
unfolding commit_pending_blocks after_commit
commit_cert r c =
    let r' = record r { committed_cert = insert (commit_key c) c.batch_digest r.committed_cert } in
    elim (commit_pending_blocks (suc (length r'.committed_cert)) r') [
      | none ↦ none
      | some done ↦ some (after_commit done c)
    ]

unfoldable pub recv_commit : Replica → Commit → Option Replica
unfolding is_commit_legal caches cache_commit store_commit commit_cert get_cert
recv_commit r c =
    if not (is_commit_legal r c)
    then some (if caches r c.view c.sequence_number then cache_commit r c else r)
    else let cert = (get_cert r.cert_store (commit_key c)).0 in
      let r' = store_commit r c in
      if committed r'.nodes r'.faults r'.cert_store (commit_key c)
        && (not cert.sent_execute && cert.sent_commit)
      then commit_cert r' c
      else some r'

-- What sendCommit does before it hands its commit to recvCommit.
unfoldable pub announce_commit : Replica → MsgId → Replica × Commit
unfolding get_cert emit is_validator
announce_commit r idx =
    let (cert, certs) = get_cert r.cert_store idx in
    let commit : Commit = record {
      replica_id = r.self_id;
      view = idx.v;
      sequence_number = idx.n;
      batch_digest = idx.d;
    } in
    let stored = record r { cert_store = insert idx (record cert { sent_commit = true }) certs } in
    let persisted =
      emit (persist_p_set idx (map (λ (e : VoteId × Prepare). e.1) cert.prepare)) stored in
    ((if is_validator r then emit (broadcast_commit commit) persisted else persisted), commit)

unfoldable pub send_commit : Replica → MsgId → Option Replica
unfolding announce_commit recv_commit
send_commit r idx = let (r', commit) = announce_commit r idx in recv_commit r' commit

unfoldable pub maybe_send_commit : Replica → MsgId → Option Replica
unfolding get_cert is_primary send_commit
maybe_send_commit r idx =
    if has_bit r.status skip_in_progress
    then some r
    else let (cert, certs) = get_cert r.cert_store idx in
      let r' = record r { cert_store = certs } in
      if not (prepared r'.nodes r'.faults r'.cert_store idx)
      then some r'
      else if not (is_primary r' r'.self_id) && not cert.sent_prepare
      then some r'
      else if cert.sent_commit
      then some r'
      else send_commit r' idx

-- `cert.prepare[prepID] = prep`
unfoldable pub store_prepare : Replica → Prepare → Replica
unfolding get_cert prepare_id is_validator
store_prepare r p =
    let (cert, certs) = get_cert r.cert_store (prepare_key p) in
    if not (is_validator r) && p.replica_id == r.self_id
    then record r { cert_store = certs }
    else let voted = record cert { prepare = insert (prepare_id p) p cert.prepare } in
      record r { cert_store = insert (prepare_key p) voted certs }

unfoldable pub recv_prepare : Replica → Prepare → Option Replica
unfolding is_prepare_legal caches cache_prepare get_cert store_prepare maybe_send_commit prepare_id
recv_prepare r p =
    if not (is_prepare_legal r p)
    then some (if caches r p.view p.sequence_number then cache_prepare r p else r)
    else let (cert, certs) = get_cert r.cert_store (prepare_key p) in
      elim (lookup (prepare_id p) cert.prepare) [
        | some _ ↦ some (record r { cert_store = certs })
        | none ↦ maybe_send_commit (store_prepare r p) (prepare_key p)
      ]

-- What sendPrepare does before it hands its prepare to recvPrepare.
unfoldable pub announce_prepare : Replica → MsgId → Replica × Prepare
unfolding get_cert emit is_validator
announce_prepare r idx =
    let (cert, certs) = get_cert r.cert_store idx in
    let prep : Prepare = record {
      replica_id = r.self_id;
      view = idx.v;
      sequence_number = idx.n;
      batch_digest = idx.d;
    } in
    let stored = record r { cert_store = insert idx (record cert { sent_prepare = true }) certs } in
    ((if is_validator r then emit (broadcast_prepare prep) stored else stored), prep)

unfoldable pub send_prepare : Replica → MsgId → Option Replica
unfolding announce_prepare recv_prepare
send_prepare r idx = let (r', prep) = announce_prepare r idx in recv_prepare r' prep
