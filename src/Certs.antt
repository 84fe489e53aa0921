-- ===== src/Certs.antt =====
-- The certificates of requests: msgID, qidx and msgCert (components.go), the functions of
-- store_mgr.go on them, and prePrepared, prepared and committed (helper.go). A cert is looked up
-- in the map and written back, where the source changes it through a pointer. Times, which only
-- the metrics read, and the tracing context are left out.
use go_hpc_rbft.Base.{
  ℕ, ◌-◌, ◌≡◌, ◌↔◌, Bool, true, false, not, ◌&&◌, List, [], ◌∷◌, Option, none, some, String, arith,
  eq_iff, if◌then◌else◌, ltb, leb, ◌==◌, str_eq, Eq, nat_eq, string_eq, length,
}
use go_hpc_rbft.Base.Maps.{lookup, insert, delete_if}
use go_hpc_rbft.Messages.{PrePrepare, Prepare, Commit}
use go_hpc_rbft.Quorum.{common_case_quorum}

pub record MsgId : Type 0 where
  pub v : ℕ
  pub n : ℕ
  pub d : String

pub record Qidx : Type 0 where
  pub d : String
  pub n : ℕ

-- The text of `Prepare.ID` and `Commit.ID`, as the four values that it prints: the digest comes
-- last, so different values print differently.
pub record VoteId : Type 0 where
  pub replica : ℕ
  pub view : ℕ
  pub seq : ℕ
  pub digest : String

unfoldable pub prepare_id : Prepare → VoteId
prepare_id x = record {
  replica = x.replica_id;
  view = x.view;
  seq = x.sequence_number;
  digest = x.batch_digest;
}

unfoldable pub commit_id : Commit → VoteId
commit_id x = record {
  replica = x.replica_id;
  view = x.view;
  seq = x.sequence_number;
  digest = x.batch_digest;
}

abbrev msg_id_beq : MsgId → MsgId → Bool
msg_id_beq a b = a.v == b.v && (a.n == b.n && str_eq a.d b.d)

pub msg_id_beq_iff : (a b : MsgId) → (msg_id_beq a b ≡ true) ↔ (a ≡ b)
msg_id_beq_iff a b = ground (arith, eq_iff a.d b.d)

instance abbrev pub msg_id_eq : Eq MsgId
msg_id_eq = record { beq = msg_id_beq; beq_iff = msg_id_beq_iff }

abbrev qidx_beq : Qidx → Qidx → Bool
qidx_beq a b = str_eq a.d b.d && a.n == b.n

pub qidx_beq_iff : (a b : Qidx) → (qidx_beq a b ≡ true) ↔ (a ≡ b)
qidx_beq_iff a b = ground (arith, eq_iff a.d b.d)

instance abbrev pub qidx_eq : Eq Qidx
qidx_eq = record { beq = qidx_beq; beq_iff = qidx_beq_iff }

abbrev vote_id_beq : VoteId → VoteId → Bool
vote_id_beq a b =
    a.replica == b.replica && (a.view == b.view && (a.seq == b.seq && str_eq a.digest b.digest))

pub vote_id_beq_iff : (a b : VoteId) → (vote_id_beq a b ≡ true) ↔ (a ≡ b)
vote_id_beq_iff a b = ground (arith, eq_iff a.digest b.digest)

instance abbrev pub vote_id_eq : Eq VoteId
vote_id_eq = record { beq = vote_id_beq; beq_iff = vote_id_beq_iff }

pub record MsgCert : Type 0 where
  pub pre_prepare : Option PrePrepare
  pub sent_prepare : Bool
  pub prepare : List (VoteId × Prepare)
  pub sent_commit : Bool
  pub commit : List (VoteId × Commit)
  pub sent_execute : Bool
  pub is_config : Bool

abbrev pub CertStore : Type 0
CertStore = List (MsgId × MsgCert)

unfoldable pub new_cert : MsgCert
new_cert = record {
  pre_prepare = none;
  sent_prepare = false;
  prepare = [];
  sent_commit = false;
  commit = [];
  sent_execute = false;
  is_config = false;
}

-- getCert: the cert, and the store with a new one added when there was none.
unfoldable pub get_cert : CertStore → MsgId → MsgCert × CertStore
get_cert certs idx = elim (lookup idx certs) [
  | some cert ↦ (cert, certs)
  | none ↦ (new_cert, insert idx new_cert certs)
]

unfoldable pub existed_digest : CertStore → ℕ → ℕ → String → Bool
existed_digest [] v n d = false
existed_digest ((_, cert) ∷ certs) v n d =
    let rest = existed_digest certs v n d in
    elim cert.pre_prepare [
      | none ↦ rest
      | some p ↦
          if p.view == v
            && not (p.sequence_number == n)
            && str_eq p.batch_digest d
            && not (str_eq d "")
          then true
          else rest
    ]

unfoldable pub pre_prepared : CertStore → MsgId → Bool
pre_prepared certs idx = elim (lookup idx certs) [
  | none ↦ false
  | some cert ↦ elim cert.pre_prepare [
    | none ↦ false
    | some p ↦ p.view == idx.v && (p.sequence_number == idx.n && str_eq p.batch_digest idx.d)
  ]
]

module _ (nodes f : ℕ) where
  -- The quorum is at least 1, so `commonCaseQuorum() - 1` does not go below 0.
  unfoldable pub prepared : CertStore → MsgId → Bool
  prepared certs idx = pre_prepared certs idx && elim (lookup idx certs) [
    | none ↦ false
    | some cert ↦ leb (common_case_quorum nodes f - 1) (length cert.prepare)
  ]

  unfoldable pub committed : CertStore → MsgId → Bool
  committed certs idx = prepared certs idx && elim (lookup idx certs) [
    | none ↦ false
    | some cert ↦ leb (common_case_quorum nodes f) (length cert.commit)
  ]

-- `limit` is config.CommittedBlockCacheNumber.
unfoldable pub clean_committed_cert_cache : ℕ → ℕ → CertStore → CertStore
clean_committed_cert_cache limit min_height cache =
    let need_clean_height = if ltb limit min_height then min_height - limit else 0 in
    delete_if (λ (idx : MsgId) cert. ltb idx.n need_clean_height) cache
