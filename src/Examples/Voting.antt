-- ===== src/Examples/Voting.antt =====
-- Certificates, votes and view change bases at concrete inputs.
use go_hpc_rbft.Base.{
  List, ℕ, ◌≤◌, ◌<◌, ◌≡◌, ◌↔◌, refl, subst, ◌⊎◌, inl, inr, true, false, ◌&&◌, [], ◌∷◌, Option, none,
  some, String, arith, All, In, length, ◌==◌, eq_iff, string_eq, nat_eq,
}
use go_hpc_rbft.Base.Maps.{lookup, insert, delete}
use go_hpc_rbft.Messages.{HashBatch, PrePrepare, Prepare, Commit, VcPq, VcBasis, get_execute_state}
use go_hpc_rbft.Certs.{
  new_cert, MsgId, MsgCert, CertStore, VoteId, prepare_id, commit_id, pre_prepared, prepared,
  committed, msg_id_eq, vote_id_eq,
}
use go_hpc_rbft.Quorum.{common_case_quorum}
use go_hpc_rbft.Status.{has_bit, word_has, position, atomic_has_bit, off, clear_bit, word_clear}
use go_hpc_rbft.ViewChange.Assign.Selection.{holds}
use go_hpc_rbft.ViewChange.Basis.{Vault, entry_of, get_vc_basis, correct_view_change, checkpoint_of}
use go_hpc_rbft.ViewChange.Basis.Sets.{Source}
use go_hpc_rbft.ViewChange.Basis.Reported.{get_vc_basis-prepared, get_vc_basis-holds}
use go_hpc_rbft.ViewChange.Basis.Correct.{
  GoodEntry, GoodCheckpoint, correct_view_change-accepts, correct_view_change-panics,
  correct_view_change-get_vc_basis,
}
use go_hpc_rbft.Votes.{RequestBatch, Replica, in_wv, in_v, in_w, is_primary, beyond_range}
use go_hpc_rbft.Votes.Batched.{Batched, recv_pre_prepare-Batched}
use go_hpc_rbft.Votes.Pending.{commit_loop, commit_pending_blocks}
use go_hpc_rbft.Votes.Ordered.{Run, commit_loop-Run}
use go_hpc_rbft.Votes.Ends.{commit_pending_blocks-ends}
use go_hpc_rbft.Votes.Phases.{store_prepare, commit_key, recv_prepare}
use go_hpc_rbft.Votes.Kept.{insert-Kept}
use go_hpc_rbft.Votes.Tally.{Tally, Tallied}
use go_hpc_rbft.Votes.Tallied.{recv_prepare-Tallied}
use go_hpc_rbft.Votes.Propose.{
  PoolAnswer, missing_txs, recv_pre_prepare, find_next_prepare_batch, is_pre_prepare_legal,
  matches_seq_map,
}
use go_hpc_rbft.Votes.Bound.{OneDigest, recv_pre_prepare-OneDigest}
use go_hpc_rbft.Votes.Loop.{commits_sent}
use go_hpc_rbft.Votes.Guard.{Committed, recv_prepare-commits}
use go_hpc_rbft.Votes.Agree.{FromValidators, committed-agree}

abbrev block : MsgId
block = record { v = 0; n = 1; d = "a" }

abbrev hashes_of_block : HashBatch
hashes_of_block = record {
  request_hash_list = "t" ∷ [];
  de_duplicate_request_hash_list = [];
  timestamp = 7;
  proposer = 1;
}

abbrev proposal : PrePrepare
proposal = record {
  replica_id = 1;
  view = 0;
  sequence_number = 1;
  batch_digest = "a";
  hash_batch = some hashes_of_block;
}

abbrev prepare_of : ℕ → Prepare
prepare_of i = record { replica_id = i; view = 0; sequence_number = 1; batch_digest = "a" }

abbrev commit_of : ℕ → Commit
commit_of i = record { replica_id = i; view = 0; sequence_number = 1; batch_digest = "a" }

abbrev vote : ℕ → VoteId
vote i = record { replica = i; view = 0; seq = 1; digest = "a" }

-- Two prepares, three commits, of a quorum of three among four.
abbrev full_cert : MsgCert
full_cert = record {
  pre_prepare = some proposal;
  sent_prepare = true;
  prepare = (vote 2, prepare_of 2) ∷ (vote 3, prepare_of 3) ∷ [];
  sent_commit = true;
  commit = (vote 1, commit_of 1) ∷ (vote 2, commit_of 2) ∷ (vote 3, commit_of 3) ∷ [];
  sent_execute = false;
  is_config = false;
}

abbrev full_store : CertStore
full_store = (block, full_cert) ∷ []

abbrev vault : Vault
vault = record {
  self_id = 2;
  view = 1;
  h = 0;
  nodes = 4;
  faults = 1;
  committed_block_cache_number = 10;
  cert_store = full_store;
  seq_map = (1, "a") ∷ [];
  committed_cert_cache = [];
  plist = [];
  qlist = [];
  local_checkpoints = [];
}

block-prepared : prepared 4 1 full_store block ≡ true
unfolding prepared pre_prepared lookup common_case_quorum
block-prepared = refl

block-committed : committed 4 1 full_store block ≡ true
unfolding committed prepared pre_prepared lookup common_case_quorum
block-committed = refl

get_vc_basis-prepared_example :
    (e : VcPq) × In e (get_vc_basis vault).0.pset
    × (e.sequence_number ≡ 1)
    × (0 ≤ e.view)
    × Source 4 1 full_store [] 1 e
get_vc_basis-prepared_example =
    get_vc_basis-prepared vault block (λ n e h. unfold lookup in cc) block-prepared (omega arith)

only_block :
    (j : MsgId) → prepared 4 1 full_store j ≡ true → j.n ≡ block.n → (j.v < block.v) ⊎ (j ≡ block)
unfolding prepared pre_prepared lookup
only_block j h e = ground (arith, eq_iff "a" j.d)

get_vc_basis-holds_example :
    (holds 1 "a" 0 (get_vc_basis vault).0.pset ≡ true)
    × ((other : VcPq)
        → In other (get_vc_basis vault).0.pset
        → other.sequence_number ≡ 1
        → other ≡ entry_of block)
get_vc_basis-holds_example =
    get_vc_basis-holds vault block (λ n e h. unfold lookup in cc) tt block-prepared (omega arith)
      only_block (λ e h. unfold lookup in cc)

abbrev small_basis : VcBasis
small_basis = record { replica_id = 2; view = 1; h = 5; pset = []; qset = []; cset = none ∷ [] }

correct_view_change-accepts_example :
    (correct_view_change small_basis ≡ some true)
    ↔ (All (GoodEntry 1 5) [] × All (GoodCheckpoint 5) (none ∷ []))
correct_view_change-accepts_example = correct_view_change-accepts small_basis

correct_view_change-panics_example : correct_view_change small_basis ≡ none
unfolding checkpoint_of get_execute_state
correct_view_change-panics_example =
    correct_view_change-panics small_basis [] none [] tt refl tt (omega arith) refl

pre_prepared_below :
    (idx : MsgId) → pre_prepared full_store idx ≡ true → GoodEntry 1 0 (entry_of idx)
unfolding pre_prepared lookup entry_of
pre_prepared_below idx h = (ground arith, ground arith)

correct_view_change-get_vc_basis_example : correct_view_change (get_vc_basis vault).0 ≡ some true
correct_view_change-get_vc_basis_example =
    correct_view_change-get_vc_basis vault pre_prepared_below tt tt tt

abbrev batch : RequestBatch
batch = record {
  request_hash_list = "t" ∷ [];
  request_list = "t" ∷ [];
  timestamp = 7;
  seq_no = 1;
  local_list = true ∷ [];
  batch_hash = "a";
  proposer = 1;
}

abbrev pub replica : Replica
replica = record {
  self_id = 2;
  primary_id = 1;
  view = 0;
  h = 0;
  l = 40;
  start_block = 1;
  epoch_period = 100;
  checkpoint_period = 10;
  nodes = 4;
  faults = 1;
  is_wrf = false;
  validators = 1 ∷ 2 ∷ 3 ∷ 4 ∷ [];
  status = record { status = 0; atomic_status = 0 };
  last_exec = 0;
  cert_store = full_store;
  seq_map = (1, "a") ∷ [];
  missing_batches_in_fetching = [];
  committed_cert = (block, "a") ∷ [];
  batch_store = ("a", batch) ∷ [];
  outstanding_req_batches = ("a", batch) ∷ [];
  high_view_cache = [];
  config_batch_in_order = 0;
  config_batch_to_execute = 0;
  view_change_seq_no = 50;
  last_new_view_timeout = 0;
  new_view_timeout = 8;
  null_request_timeout = 0;
  outbox = [];
}

complete_batches :
    (d : String) (b : RequestBatch)
    → lookup d replica.batch_store ≡ some b
    → length b.request_list ≤ length b.local_list
unfolding lookup
complete_batches d b h = ground arith

replica-Batched : Batched replica.cert_store
unfolding lookup
replica-Batched idx cert h p e = (hashes_of_block, ground (arith, h, e))

commit_pending_blocks-ends_example : (r' : Replica) × (commit_pending_blocks 2 replica ≡ some r')
commit_pending_blocks-ends_example =
    commit_pending_blocks-ends replica replica-Batched complete_batches (λ e. omega (arith, e))

-- What a handler that returns leaves.
abbrev outcome : Option Replica → Replica
outcome none = replica
outcome (some r) = r

executes_block : commit_loop 2 replica ≡ some (outcome (commit_loop 2 replica))
unfolding commit_loop has_bit word_has position lookup committed prepared pre_prepared
    common_case_quorum delete
executes_block = refl

commit_loop-Run_example : Run replica (outcome (commit_loop 2 replica))
commit_loop-Run_example = commit_loop-Run 2 replica (outcome (commit_loop 2 replica)) executes_block

full_cert-Tally : Tally block full_cert
unfolding prepare_id commit_id lookup
full_cert-Tally = record {
  prepares = ((refl, refl), ((refl, refl), tt));
  commits = ((refl, refl), ((refl, refl), ((refl, refl), tt)));
  prepares_apart = (refl, (refl, tt));
  commits_apart = (refl, (refl, (refl, tt)));
}

full_store-Tallied : Tallied full_store
unfolding insert
full_store-Tallied =
    insert-Kept Tally block full_cert [] full_cert-Tally (λ idx cert h. unfold lookup in cc)

fourth_prepare :
    recv_prepare replica (prepare_of 4) ≡ some (outcome (recv_prepare replica (prepare_of 4)))
unfolding recv_prepare in_wv in_v in_w lookup has_bit word_has position prepared pre_prepared insert
    common_case_quorum
fourth_prepare = refl

recv_prepare-Tallied_example : Tallied (outcome (recv_prepare replica (prepare_of 4))).cert_store
recv_prepare-Tallied_example =
    recv_prepare-Tallied replica (outcome (recv_prepare replica (prepare_of 4))) (prepare_of 4)
      fourth_prepare full_store-Tallied

validators_only : FromValidators (1 ∷ 2 ∷ 3 ∷ 4 ∷ []) full_store
unfolding lookup
validators_only idx cert h =
    let mine : full_cert ≡ cert = ground arith in
    subst
      (λ (c : MsgCert). All (λ (e : VoteId × Commit). In e.0.replica (1 ∷ 2 ∷ 3 ∷ 4 ∷ [])) c.commit)
      mine (inl refl, (inr (inl refl), (inr (inr (inl refl)), tt)))

committed-agree_example : block.d ≡ "a"
committed-agree_example =
    committed-agree (1 ∷ 2 ∷ 3 ∷ 4 ∷ []) (λ x. x == 4) 1 full_store full_store block block
      (omega arith) full_store-Tallied full_store-Tallied validators_only validators_only
      (λ x a b c. refl) block-committed block-committed

-- A second block, whose transactions the pool does not have.
abbrev second : PrePrepare
second = record {
  replica_id = 1;
  view = 0;
  sequence_number = 2;
  batch_digest = "b";
  hash_batch = some (record {
    request_hash_list = "u" ∷ [];
    de_duplicate_request_hash_list = [];
    timestamp = 9;
    proposer = 1;
  });
}

abbrev no_bytes : String → List ℕ
no_bytes s = []

abbrev constant_md5 : List ℕ → String
constant_md5 bs = "b"

abbrev empty_pool : String → ℕ → List String → List String → PoolAnswer
empty_pool d t txs dups = missing_txs

accepts_second :
    recv_pre_prepare no_bytes constant_md5 empty_pool replica second
    ≡ some (outcome (recv_pre_prepare no_bytes constant_md5 empty_pool replica second))
unfolding recv_pre_prepare atomic_has_bit word_has position in_wv in_v in_w is_primary lookup
    has_bit beyond_range insert new_cert find_next_prepare_batch off clear_bit word_clear
accepts_second = refl

replica-OneDigest : OneDigest replica
unfolding lookup
replica-OneDigest idx cert h p e = ground (arith, eq_iff "a" idx.d)

recv_pre_prepare-OneDigest_example :
    OneDigest (outcome (recv_pre_prepare no_bytes constant_md5 empty_pool replica second))
    × ((a b : MsgId)
        → pre_prepared
            (outcome (recv_pre_prepare no_bytes constant_md5 empty_pool replica second)).cert_store
            a
          ≡ true
        → pre_prepared
            (outcome (recv_pre_prepare no_bytes constant_md5 empty_pool replica second)).cert_store
            b
          ≡ true
        → a.n ≡ b.n
        → a.d ≡ b.d)
recv_pre_prepare-OneDigest_example =
    recv_pre_prepare-OneDigest no_bytes constant_md5 empty_pool replica
      (outcome (recv_pre_prepare no_bytes constant_md5 empty_pool replica second)) second
      accepts_second replica-OneDigest

recv_pre_prepare-Batched_example :
    Batched (outcome (recv_pre_prepare no_bytes constant_md5 empty_pool replica second)).cert_store
    × (((is_pre_prepare_legal replica second && matches_seq_map replica second) ≡ false)
        ⊎ ((b : HashBatch) × (second.hash_batch ≡ some b)))
recv_pre_prepare-Batched_example =
    recv_pre_prepare-Batched no_bytes constant_md5 empty_pool replica
      (outcome (recv_pre_prepare no_bytes constant_md5 empty_pool replica second)) second
      accepts_second replica-Batched

-- Without its hash batch the second pre-prepare makes recvPrePrepare panic.
lacks_hash_batch :
    recv_pre_prepare no_bytes constant_md5 empty_pool replica (record second { hash_batch = none })
    ≡ none
unfolding recv_pre_prepare atomic_has_bit word_has position in_wv in_v in_w is_primary lookup
    has_bit beyond_range
lacks_hash_batch = refl

-- A replica that has not yet committed to the block, nor received a commit for it.
abbrev undecided : Replica
undecided = record replica {
  cert_store = (block, record full_cert { sent_commit = false; commit = [] }) ∷ [];
}

commits_block :
    recv_prepare undecided (prepare_of 4) ≡ some (outcome (recv_prepare undecided (prepare_of 4)))
unfolding recv_prepare in_wv in_v in_w lookup has_bit word_has position prepared pre_prepared insert
    common_case_quorum is_primary committed
commits_block = refl

recv_prepare-commits_example :
    (commits_sent (outcome (recv_prepare undecided (prepare_of 4))).outbox ≡ [])
    ⊎ ((c : Commit) × (commits_sent (outcome (recv_prepare undecided (prepare_of 4))).outbox
          ≡ c ∷ [])
        × (commit_key c ≡ block)
        × (c.replica_id ≡ 2)
        × Committed
            (store_prepare undecided (prepare_of 4))
            (outcome (recv_prepare undecided (prepare_of 4)))
            block)
recv_prepare-commits_example =
    recv_prepare-commits undecided (outcome (recv_prepare undecided (prepare_of 4))) (prepare_of 4)
      commits_block
