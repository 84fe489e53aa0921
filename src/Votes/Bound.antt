-- ===== src/Votes/Bound.antt =====
-- A replica accepts at most one digest for a sequence number.
use go_hpc_rbft.Base.{
  ℕ, ◌≡◌, ap, sym, subst, ◌∙◌, inl, inr, true, not, ◌&&◌, List, some, String, arith, Bool-cases,
  Option-cases, ◌==◌, ==_iff, str_eq, eq_iff, nat_eq, string_eq,
}
use go_hpc_rbft.Base.Maps.{lookup, insert, lookup-insert, lookup-insert_self}
use go_hpc_rbft.Messages.{HashBatch, PrePrepare}
use go_hpc_rbft.Certs.{MsgId, MsgCert, get_cert, new_cert, pre_prepared, msg_id_eq}
use go_hpc_rbft.Status.{has_bit, skip_in_progress}
use go_hpc_rbft.Votes.{Replica, emit, is_primary, beyond_range}
use go_hpc_rbft.Votes.Phases.{send_prepare}
use go_hpc_rbft.Votes.Kept.{Closed, Kept, insert-Kept, get_cert-Kept}
use go_hpc_rbft.Votes.Kept.Prepares.{send_prepare-Keeps}
use go_hpc_rbft.Votes.Propose.{
  pre_prepare_key, is_pre_prepare_legal, cache_pre_prepare, exit_sync_state, order_config,
  fetch_missing_txs, PoolAnswer, pool_error, missing_txs, pool_txs, take_batch,
  find_next_prepare_batch, matches_seq_map, warn_high_watermark, right_digest, accept_pre_prepare,
  recv_pre_prepare, is_config_batch,
}

-- A cert with a pre-prepare is for the digest that the map has for its number.
abbrev pub Bounded : List (ℕ × String) → MsgId → MsgCert → Type 0
Bounded seqs idx cert =
    (p : PrePrepare) → cert.pre_prepare ≡ some p → lookup idx.n seqs ≡ some idx.d

-- So it is with every cert of the replica.
abbrev pub OneDigest : Replica → Type 0
OneDigest r = Kept (Bounded r.seq_map) r.cert_store

Bounded-Closed : (seqs : List (ℕ × String)) → Closed (Bounded seqs)
unfolding new_cert
Bounded-Closed seqs = record {
  fresh = λ idx p e. cc;
  add_prepare = λ p cert b. b;
  add_commit = λ c cert b. b;
  mark_prepare = λ idx cert b. b;
  mark_commit = λ idx cert b. b;
  mark_execute = λ idx cert b. b;
}

send_prepare-OneDigest :
    (r r' : Replica) (idx : MsgId) → send_prepare r idx ≡ some r' → OneDigest r → OneDigest r'
send_prepare-OneDigest r r' idx h all =
    let k = send_prepare-Keeps (Bounded r.seq_map) (Bounded-Closed r.seq_map) r r' idx h all in
    subst (λ seqs. Kept (Bounded seqs) r'.cert_store) (sym k.seqs) k.certs

get_cert-OneDigest :
    (r : Replica) (idx : MsgId)
    → OneDigest r
    → Bounded r.seq_map idx (get_cert r.cert_store idx).0
      × Kept (Bounded r.seq_map) (get_cert r.cert_store idx).1
get_cert-OneDigest r idx all =
    get_cert-Kept (Bounded r.seq_map) r.cert_store idx ((Bounded-Closed r.seq_map).fresh idx) all

order_config-OneDigest :
    (r : Replica) (idx : MsgId) (seq_no : ℕ) → OneDigest r → OneDigest (order_config r idx seq_no)
unfolding order_config
order_config-OneDigest r idx seq_no all =
    let (mine, rest) = get_cert-OneDigest r idx all in
    let (cert, certs) = get_cert r.cert_store idx in
    elim (Bool-cases (is_config_batch r seq_no)) [
      | inl e ↦
          rw e
            (insert-Kept (Bounded r.seq_map) idx (record cert { is_config = true }) certs mine rest)
      | inr e ↦ rw e all
    ]

-- A map that gains the digest that it has, or a new number, keeps every binding.
Bounded-insert :
    (seqs : List (ℕ × String)) (n : ℕ) (d : String) (idx : MsgId) (cert : MsgCert)
    → ((d' : String) → lookup n seqs ≡ some d' → d' ≡ d)
    → Bounded seqs idx cert
    → Bounded (insert n d seqs) idx cert
Bounded-insert seqs n d idx cert agrees b p e = elim (Bool-cases (n == idx.n)) [
  | inl here ↦
      let at : n ≡ idx.n = (==_iff n idx.n).0 here in
      let old : lookup n seqs ≡ some idx.d = ap (λ k. lookup k seqs) at ∙ b p e in
      let same : idx.d ≡ d = agrees idx.d old in ground (arith, lookup-insert n idx.n d seqs, same)
  | inr there ↦ ground (arith, lookup-insert n idx.n d seqs, b p e)
]

accept_pre_prepare-OneDigest :
    (r : Replica) (p : PrePrepare)
    → matches_seq_map r p ≡ true
    → OneDigest r
    → OneDigest (accept_pre_prepare r p)
unfolding accept_pre_prepare exit_sync_state emit matches_seq_map
accept_pre_prepare-OneDigest r p matches all =
    let done = accept_pre_prepare r p in
    let key = pre_prepare_key p in
    let (cert, certs) = get_cert r.cert_store key in
    let seqs = insert p.sequence_number p.batch_digest r.seq_map in
    let kept = get_cert-OneDigest r key all in
    let agrees : (d' : String)
        → lookup p.sequence_number r.seq_map ≡ some d'
        → d' ≡ p.batch_digest =
      λ d' e. ground (arith, eq_iff d' p.batch_digest) in
    let rest : Kept (Bounded seqs) certs = λ j c h.
      Bounded-insert r.seq_map p.sequence_number p.batch_digest j c agrees (kept.1 j c h) in
    let same_seqs : done.seq_map ≡ seqs = ground arith in
    let same_certs : done.cert_store ≡ insert key (record cert { pre_prepare = some p }) certs =
      ground arith in
    subst (λ s. Kept (Bounded s) done.cert_store) (sym same_seqs)
      (subst (Kept (Bounded seqs)) (sym same_certs) (
        insert-Kept (Bounded seqs) key (record cert { pre_prepare = some p }) certs
          (λ q e. lookup-insert_self p.sequence_number p.batch_digest r.seq_map) rest))

same_OneDigest : (m r' : Replica) → m ≡ r' → OneDigest m → OneDigest r'
same_OneDigest m r' e all = subst OneDigest e all

-- A pre-prepared cert is for the digest of its number.
pre_prepared-digest :
    (r : Replica) (a : MsgId)
    → OneDigest r
    → pre_prepared r.cert_store a ≡ true
    → lookup a.n r.seq_map ≡ some a.d
unfolding pre_prepared
pre_prepared-digest r a all h = elim (Option-cases (lookup a r.cert_store)) [
  | inl e ↦ absurd (ground arith)
  | inr (cert, e) ↦ elim (Option-cases cert.pre_prepare) [
    | inl k ↦ absurd (ground arith)
    | inr (p, k) ↦ all a cert e p k
  ]
]

one_digest :
    (r : Replica)
    → OneDigest r
    → (a b : MsgId) → pre_prepared r.cert_store a ≡ true
    → pre_prepared r.cert_store b ≡ true
    → a.n ≡ b.n
    → a.d ≡ b.d
one_digest r all a b ha hb same =
    let at_a = pre_prepared-digest r a all ha in
    let at_b = pre_prepared-digest r b all hb in
    let meet = sym at_a ∙ ap (λ k. lookup k r.seq_map) same ∙ at_b in ground arith

warn-OneDigest : (r : Replica) (p : PrePrepare) → OneDigest r → OneDigest (warn_high_watermark r p)
unfolding warn_high_watermark emit
warn-OneDigest r p all = elim (Bool-cases (beyond_range r p.sequence_number)) [
  | inl e ↦ rw e all
  | inr e ↦ rw e all
]

warn-matches :
    (r : Replica) (p : PrePrepare)
    → matches_seq_map r p ≡ true
    → matches_seq_map (warn_high_watermark r p) p ≡ true
unfolding warn_high_watermark emit matches_seq_map
warn-matches r p h = elim (Bool-cases (beyond_range r p.sequence_number)) [
  | inl e ↦ rw e h
  | inr e ↦ rw e h
]

take_batch-OneDigest :
    (r r' : Replica) (idx : MsgId) (p : PrePrepare) (b : HashBatch) (answer : PoolAnswer)
    → take_batch r idx p b answer ≡ some r'
    → OneDigest r
    → OneDigest r'
unfolding take_batch fetch_missing_txs emit
take_batch-OneDigest r r' idx p b pool_error h all =
    let certs : r.cert_store ≡ r'.cert_store = ground arith in
    let seqs : r.seq_map ≡ r'.seq_map = ground arith in
    subst (λ s. Kept (Bounded s) r'.cert_store) seqs (subst (Kept (Bounded r.seq_map)) certs all)
take_batch-OneDigest r r' idx p b missing_txs h all =
    let certs : r.cert_store ≡ r'.cert_store = ground arith in
    let seqs : r.seq_map ≡ r'.seq_map = ground arith in
    subst (λ s. Kept (Bounded s) r'.cert_store) seqs (subst (Kept (Bounded r.seq_map)) certs all)
take_batch-OneDigest r r' idx p b (pool_txs txs locals) h all =
    send_prepare-OneDigest _ r' idx h (order_config-OneDigest _ idx p.sequence_number all)

module _ (bytes : String → List ℕ) (md5_hex : List ℕ → String)
    (get_requests_by_hash_list : String → ℕ → List String → List String → PoolAnswer) where
  find_next_prepare_batch-OneDigest :
      (r r' : Replica) (idx : MsgId)
      → find_next_prepare_batch bytes md5_hex get_requests_by_hash_list r idx ≡ some r'
      → OneDigest r
      → OneDigest r'
  unfolding find_next_prepare_batch
  find_next_prepare_batch-OneDigest r r' idx h all =
      let (mine, rest) = get_cert-OneDigest r idx all in
      let (cert, certs) = get_cert r.cert_store idx in
      let m = record r { cert_store = certs } in
      let answer = λ (b : HashBatch).
        get_requests_by_hash_list idx.d b.timestamp b.request_hash_list
          b.de_duplicate_request_hash_list in
      elim (Bool-cases (idx.v == r.view)) [
        | inr e ↦ same_OneDigest r r' (ground arith) all
        | inl e ↦ elim (Option-cases cert.pre_prepare) [
          | inl k ↦ same_OneDigest m r' (ground arith) rest
          | inr (p, k) ↦ elim (Bool-cases (has_bit r.status skip_in_progress)) [
            | inl g ↦ same_OneDigest m r' (ground arith) rest
            | inr g ↦ elim (Bool-cases (str_eq idx.d "")) [
              | inl f ↦ send_prepare-OneDigest m r' idx (ground arith) rest
              | inr f ↦ elim (Option-cases (lookup idx.d r.batch_store)) [
                | inl b ↦ elim (Option-cases p.hash_batch) [
                  | inl lacks ↦ absurd (ground arith)
                  | inr (hashes, has) ↦
                      take_batch-OneDigest m r' idx p hashes (answer hashes) (ground arith) rest
                ]
                | inr (batch, b) ↦
                    send_prepare-OneDigest (order_config m idx batch.seq_no) r' idx (ground arith)
                      (order_config-OneDigest m idx batch.seq_no rest)
              ]
            ]
          ]
        ]
      ]

  recv_pre_prepare-keeps :
      (r r' : Replica) (p : PrePrepare)
      → recv_pre_prepare bytes md5_hex get_requests_by_hash_list r p ≡ some r'
      → OneDigest r
      → OneDigest r'
  unfolding recv_pre_prepare cache_pre_prepare emit
  recv_pre_prepare-keeps r r' p h all =
      let warned = warn_high_watermark r p in
      let done = accept_pre_prepare warned p in
      let unchanged : r.cert_store ≡ r'.cert_store → r.seq_map ≡ r'.seq_map → OneDigest r' =
        λ certs seqs.
          subst (λ s. Kept (Bounded s) r'.cert_store) seqs
            (subst (Kept (Bounded r.seq_map)) certs all) in
      elim (Bool-cases (is_pre_prepare_legal r p && matches_seq_map r p)) [
        | inr e ↦ unchanged (ground arith) (ground arith)
        | inl e ↦ elim (Option-cases (right_digest bytes md5_hex get_requests_by_hash_list p)) [
          | inl lacks ↦ absurd (ground arith)
          | inr (right, is_right) ↦ elim (Bool-cases right) [
            | inr wrong ↦ unchanged (ground arith) (ground arith)
            | inl good ↦
                let accepted =
                  accept_pre_prepare-OneDigest warned p (warn-matches r p (ground arith))
                    (warn-OneDigest r p all) in
                elim (Bool-cases (
                  not (is_primary done done.self_id)
                  && not (get_cert done.cert_store (pre_prepare_key p)).0.sent_prepare)) [
                    | inl k ↦
                        find_next_prepare_batch-OneDigest done r' (pre_prepare_key p) (ground arith)
                          accepted
                    | inr k ↦ same_OneDigest done r' (ground arith) accepted
                  ]
          ]
        ]
      ]

  -- When recvPrePrepare returns, each cert with a pre-prepare is still for the one digest that seqMap
  -- has for its number, so any two requests of one number that are pre-prepared have the same digest.
  pub recv_pre_prepare-OneDigest :
      (r r' : Replica) (p : PrePrepare)
      → recv_pre_prepare bytes md5_hex get_requests_by_hash_list r p ≡ some r'
      → OneDigest r
      → OneDigest r'
        × ((a b : MsgId)
            → pre_prepared r'.cert_store a ≡ true
            → pre_prepared r'.cert_store b ≡ true
            → a.n ≡ b.n
            → a.d ≡ b.d)
  unfolding recv_pre_prepare
  recv_pre_prepare-OneDigest r r' p h all =
      let kept = recv_pre_prepare-keeps r r' p h all in (kept, one_digest r' kept)
