-- ===== src/Votes/Pending.antt =====
-- commitPendingBlocks, findNextCommitBatch, filterExecutableTxs, afterCommitBlock (rbft_impl.go) and
-- startTimerIfOutstandingRequests (helper.go).
use go_hpc_rbft.Base.{
  ℕ, zero, suc, ◌%◌, Bool, true, false, not, ◌||◌, List, [], ◌∷◌, map, Option, none, some, String,
  if◌then◌else◌, ltb, ◌==◌, str_eq, any, nat_eq, string_eq,
}
use go_hpc_rbft.Base.Words.{◌+ᵤ◌}
use go_hpc_rbft.Base.Maps.{lookup, insert, delete}
use go_hpc_rbft.Messages.{Commit}
use go_hpc_rbft.Certs.{MsgId, MsgCert, VoteId, committed, msg_id_eq}
use go_hpc_rbft.Status.{has_bit, on, skip_in_progress, wait_checkpoint_batch_execute}
use go_hpc_rbft.Votes.{
  Replica, emit, is_primary, execute, persist_c_set, stop_new_view_timer, soft_start_new_view_timer,
  soft_restart_batch_timer, null_req_timer_reset,
}

-- `none` is a read of localList out of range.
unfoldable pub filter_txs : List String → List String → List Bool → Option (List (String × Bool))
filter_txs dups [] locals = some []
filter_txs dups (tx ∷ txs) [] =
    let rest = filter_txs dups txs [] in if any (λ d. str_eq d tx) dups then rest else none
filter_txs dups (tx ∷ txs) (b ∷ bs) =
    let rest = filter_txs dups txs bs in
    if any (λ d. str_eq d tx) dups
    then rest
    else elim rest [ none ↦ none | some out ↦ some ((tx, b) ∷ out) ]

-- `none` is also a batch that is not in the store.
unfoldable pub filter_executable_txs :
    Replica → String → List String → Option (List (String × Bool))
unfolding filter_txs
filter_executable_txs r digest dups = elim (lookup digest r.batch_store) [
  | none ↦ none
  | some b ↦ filter_txs dups b.request_list b.local_list
]

unfoldable pub has_batch : Replica → String → Bool
has_batch r d = str_eq d "" || elim (lookup d r.batch_store) [ none ↦ false | some _ ↦ true ]

-- The tests of findNextCommitBatch on one committed id.
unfoldable pub executable : Replica → MsgId → Option MsgCert
unfolding has_batch
executable r idx = elim (lookup idx r.cert_store) [
  | none ↦ none
  | some cert ↦ elim cert.pre_prepare [
    | none ↦ none
    | some _ ↦
        if cert.sent_execute
        then none
        else if not (idx.n == r.last_exec +ᵤ 1)
        then none
        else if has_bit r.status skip_in_progress
        then none
        else if not (committed r.nodes r.faults r.cert_store idx)
        then none
        else if not (has_batch r idx.d)
        then none
        else some cert
  ]
]

-- `for idx = range committedCert`
unfoldable pub find_loop : Replica → List (MsgId × String) → Option (MsgId × MsgCert)
unfolding executable
find_loop r [] = none
find_loop r ((idx, _) ∷ rest) =
    let next = find_loop r rest in
    elim (executable r idx) [ none ↦ next | some cert ↦ some (idx, cert) ]

unfoldable pub find_next_commit_batch : Replica → Option (MsgId × MsgCert)
unfolding find_loop
find_next_commit_batch r =
    if has_bit r.status wait_checkpoint_batch_execute then none else find_loop r r.committed_cert

-- `none` is a division by a zero CheckpointPeriod.
unfoldable pub after_commit_block : Replica → MsgId → Bool → Option Replica
after_commit_block r idx is_config =
    let done = record r { last_exec = idx.n; committed_cert = delete idx r.committed_cert } in
    let wait = record done { status = on done.status (wait_checkpoint_batch_execute ∷ []) } in
    if is_config
    then some wait
    else if r.checkpoint_period == 0
    then none
    else if idx.n % r.checkpoint_period == 0
    then some wait
    else some done

-- From the call of Execute on; `txs` and `timestamp` are what it passes.
unfoldable pub finish_batch :
    Replica → MsgId → MsgCert → List (String × Bool) → ℕ → ℕ → Option Replica
unfolding after_commit_block emit
finish_batch r idx cert txs timestamp proposer =
    let sent = emit (execute txs idx.n timestamp proposer) r in
    let closed = record sent {
      outstanding_req_batches = delete idx.d sent.outstanding_req_batches;
      cert_store = insert idx (record cert { sent_execute = true }) sent.cert_store;
    } in
    after_commit_block closed idx cert.is_config

-- persistCSet, stopNewViewTimer and, on the primary, softRestartBatchTimer.
unfoldable pub before_execute : Replica → MsgId → MsgCert → Replica
unfolding is_primary emit
before_execute r idx cert =
    let persisted = emit (persist_c_set idx (map (λ (e : VoteId × Commit). e.1) cert.commit)) r in
    let stopped = emit stop_new_view_timer persisted in
    if is_primary stopped stopped.self_id then emit soft_restart_batch_timer stopped else stopped

-- `if cert.isConfig { setConfigBatchToExecute(idx.n) }`
unfoldable pub mark_config : Replica → MsgId → MsgCert → Replica
mark_config r idx cert = if cert.is_config then record r { config_batch_to_execute = idx.n } else r

-- The body of the loop; `none` is a panic, also the one on a pre-prepare without a hash batch.
unfoldable pub commit_batch : Replica → MsgId → MsgCert → Option Replica
unfolding before_execute mark_config finish_batch filter_executable_txs
commit_batch r idx cert =
    let ready = before_execute r idx cert in
    elim cert.pre_prepare [
      | none ↦ if str_eq idx.d "" then finish_batch ready idx cert [] 0 0 else none
      | some p ↦ elim p.hash_batch [
        | none ↦ none
        | some b ↦
            if str_eq idx.d ""
            then finish_batch ready idx cert [] 0 b.proposer
            else let configured = mark_config ready idx cert in
              elim (filter_executable_txs configured idx.d b.de_duplicate_request_hash_list) [
                | none ↦ none
                | some txs ↦ finish_batch configured idx cert txs b.timestamp b.proposer
              ]
      ]
    ]

-- `none` is a panic, or that the fuel has run out.
unfoldable pub commit_loop : ℕ → Replica → Option Replica
unfolding find_next_commit_batch commit_batch
commit_loop zero r = none
commit_loop (suc fuel) r = elim (find_next_commit_batch r) [
  | none ↦ some r
  | some (idx, cert) ↦ elim (commit_batch r idx cert) [
    | none ↦ none
    | some r' ↦ commit_loop fuel r'
  ]
]

unfoldable pub start_timer_if_outstanding_requests : Replica → Replica
unfolding emit
start_timer_if_outstanding_requests r =
    if has_bit r.status skip_in_progress then r else elim r.outstanding_req_batches [
      | _ ∷ _ ↦ emit soft_start_new_view_timer r
      | [] ↦ if ltb 0 r.null_request_timeout then emit null_req_timer_reset r else r
    ]

unfoldable pub commit_pending_blocks : ℕ → Replica → Option Replica
unfolding commit_loop start_timer_if_outstanding_requests
commit_pending_blocks fuel r = elim (commit_loop fuel r) [
  | none ↦ none
  | some r' ↦
      if not (has_bit r'.status wait_checkpoint_batch_execute)
      then some (start_timer_if_outstanding_requests r')
      else some r'
]
