-- ===== src/Votes/Agree.antt =====
-- A committed request has the commits of a quorum of different replicas, so two replicas cannot
-- commit different requests in one view.
use go_hpc_rbft.Base.{
  ℕ, ◌+◌, ◌≤◌, ◌≡◌, refl, ap, subst, ◌∙◌, inl, inr, Bool, true, false, ◌||◌, List, [], ◌∷◌, Option,
  none, some, arith, Option-cases, All, In, ◌==◌, ==_iff, length, count, any, eq_iff,
}
use go_hpc_rbft.Base.Maps.{lookup, IsMap}
use go_hpc_rbft.Messages.{Commit}
use go_hpc_rbft.Quorum.{common_case_quorum}
use go_hpc_rbft.Quorum.Intersection.{common_case_quorum-intersect}
use go_hpc_rbft.Certs.{
  MsgId, MsgCert, VoteId, CertStore, commit_id, committed, msg_id_eq, vote_id_eq,
}
use go_hpc_rbft.Votes.Phases.{commit_key}
use go_hpc_rbft.Votes.Tally.{Tallied}

abbrev pub from_replica : ℕ → List (VoteId × Commit) → Bool
from_replica x m = any (λ e. e.0.replica == x) m

-- Every vote is by one of the validators and for the request.
abbrev Cast : List ℕ → MsgId → List (VoteId × Commit) → Type 0
Cast vs idx m =
    All (λ e. In e.0.replica vs × (e.0.view ≡ idx.v) × (e.0.seq ≡ idx.n) × (e.0.digest ≡ idx.d)) m

count_or :
    (p q : ℕ → Bool) (vs : List ℕ)
    → ((x : ℕ) → p x ≡ true → q x ≡ false)
    → count p vs + count q vs ≤ count (λ x. p x || q x) vs
count_or p q [] h = omega arith
count_or p q (x ∷ vs) h = ground (arith, h x, count_or p q vs h)

count_one : (k : ℕ) (vs : List ℕ) → In k vs → 1 ≤ count (λ x. k == x) vs
count_one k [] i = absurd i
count_one k (x ∷ vs) (inl e) = ground (arith, e)
count_one k (x ∷ vs) (inr i) = ground (arith, count_one k vs i)

-- A replica that stands in no key of the votes for the request has not voted.
not_from :
    (idx : MsgId) (vs : List ℕ) (k : VoteId) (m : List (VoteId × Commit))
    → (k.view ≡ idx.v) × (k.seq ≡ idx.n) × (k.digest ≡ idx.d)
    → Cast vs idx m
    → lookup k m ≡ none
    → from_replica k.replica m ≡ false
unfolding lookup
not_from idx vs k [] mine cast e = refl
not_from idx vs k ((j, c) ∷ m) (kv, kn, kd) ((i, jv, jn, jd), cast) e =
    ground (arith, not_from idx vs k m (kv, kn, kd) cast, eq_iff j.digest k.digest)

voters :
    (idx : MsgId) (vs : List ℕ) (m : List (VoteId × Commit))
    → IsMap m
    → Cast vs idx m
    → length m ≤ count (λ x. from_replica x m) vs
voters idx vs [] a cast = omega arith
voters idx vs ((k, c) ∷ m) (fresh, a) ((i, kv, kn, kd), cast) =
    let apart =
      count_or (λ x. k.replica == x) (λ x. from_replica x m) vs
        (λ x e.
          subst (λ y. from_replica y m ≡ false) ((==_iff k.replica x).0 e)
            (not_from idx vs k m (kv, kn, kd) cast fresh)) in
    omega (arith, apart, count_one k.replica vs i, voters idx vs m a cast)

-- The cert for `idx` holds a commit of replica `x`.
abbrev pub by_cert : Option MsgCert → ℕ → Bool
by_cert none x = false
by_cert (some cert) x = from_replica x cert.commit

abbrev pub committed_by : CertStore → MsgId → ℕ → Bool
committed_by certs idx x = by_cert (lookup idx certs) x

-- The commits of a store come from validators.
abbrev pub FromValidators : List ℕ → CertStore → Type 0
FromValidators vs certs =
    (idx : MsgId) (cert : MsgCert)
    → lookup idx certs ≡ some cert
    → All (λ (e : VoteId × Commit). In e.0.replica vs) cert.commit

Cast-of_tally :
    (vs : List ℕ) (idx : MsgId) (m : List (VoteId × Commit))
    → All (λ (e : VoteId × Commit). (e.0 ≡ commit_id e.1) × (commit_key e.1 ≡ idx)) m
    → All (λ (e : VoteId × Commit). In e.0.replica vs) m
    → Cast vs idx m
unfolding commit_id
Cast-of_tally vs idx [] t i = tt
Cast-of_tally vs idx ((k, c) ∷ m) ((own, mine), t) (i, is) = (
  (
    i,
    ap (λ (x : VoteId). x.view) own ∙ ap (λ (x : MsgId). x.v) mine,
    ap (λ (x : VoteId). x.seq) own ∙ ap (λ (x : MsgId). x.n) mine,
    ap (λ (x : VoteId). x.digest) own ∙ ap (λ (x : MsgId). x.d) mine,
  ),
  Cast-of_tally vs idx m t is,
)

-- A committed request has the commits of a quorum of the validators.
committed-quorum :
    (vs : List ℕ) (f : ℕ) (certs : CertStore) (idx : MsgId)
    → Tallied certs
    → FromValidators vs certs
    → committed (length vs) f certs idx ≡ true
    → common_case_quorum (length vs) f ≤ count (committed_by certs idx) vs
unfolding committed
committed-quorum vs f certs idx all senders h = elim (Option-cases (lookup idx certs)) [
  | inl e ↦ absurd (ground arith)
  | inr (cert, e) ↦
      let t = all idx cert e in
      let many =
        voters idx vs cert.commit t.commits_apart
          (Cast-of_tally vs idx cert.commit t.commits (senders idx cert e)) in
      let enough : common_case_quorum (length vs) f ≤ length cert.commit = ground arith in
      let same : count (committed_by certs idx) vs ≡ count (λ x. from_replica x cert.commit) vs =
        ap (λ (o : Option MsgCert). count (λ x. by_cert o x) vs) e in
      omega (arith, many, enough, same)
]

-- Let at most f of the validators be faulty, let the commits that two replicas have stored come
-- from validators and be in order, and let no correct validator be found with commits for two
-- digests. Then two requests that the two replicas have committed have the same digest.
pub committed-agree :
    (vs : List ℕ) (faulty : ℕ → Bool) (f : ℕ) (certs certs' : CertStore) (a b : MsgId)
    → count faulty vs ≤ f
    → Tallied certs
    → Tallied certs'
    → FromValidators vs certs
    → FromValidators vs certs'
    → ((x : ℕ)
        → faulty x ≡ false
        → committed_by certs a x ≡ true
        → committed_by certs' b x ≡ true
        → a.d ≡ b.d)
    → committed (length vs) f certs a ≡ true
    → committed (length vs) f certs' b ≡ true
    → a.d ≡ b.d
committed-agree vs faulty f certs certs' a b few ta tb sa sb once ca cb =
    let (x, member, first, second, correct) =
      common_case_quorum-intersect vs faulty f (committed_by certs a) (committed_by certs' b) few
        (committed-quorum vs f certs a ta sa ca) (committed-quorum vs f certs' b tb sb cb) in
    once x correct first second
