-- ===== src/Votes/Tally.antt =====
-- The votes of a cert are for the cert's own request, and from different replicas.
use go_hpc_rbft.Base.{◌≡◌, refl, inl, inr, List, [], ◌∷◌, Bool-cases, All, Eq}
use go_hpc_rbft.Base.Maps.{insert, IsMap, insert-IsMap}
use go_hpc_rbft.Messages.{Prepare, Commit}
use go_hpc_rbft.Certs.{
  VoteId, MsgId, MsgCert, CertStore, prepare_id, commit_id, new_cert, msg_id_eq, vote_id_eq,
}
use go_hpc_rbft.Votes.Kept.{Closed, Kept}
use go_hpc_rbft.Votes.Phases.{prepare_key, commit_key}

module _ {K V : Type 0} ⦃e : Eq K⦄ where
  pub insert-All :
      (P : K × V → Type 0) (k : K) (v : V) (m : List (K × V))
      → P (k, v)
      → All P m
      → All P (insert k v m)
  unfolding insert
  insert-All P k v [] p a = (p, tt)
  insert-All P k v ((j, w) ∷ m) p (q, a) = elim (Bool-cases (e.beq j k)) [
    | inl hit ↦ rw hit (p, a)
    | inr miss ↦ rw miss (q, insert-All P k v m p a)
  ]

-- The votes of a cert.
pub record Tally (idx : MsgId) (cert : MsgCert) : Type 0 where
  pub prepares : All (λ e. (e.0 ≡ prepare_id e.1) × (prepare_key e.1 ≡ idx)) cert.prepare
  pub commits : All (λ e. (e.0 ≡ commit_id e.1) × (commit_key e.1 ≡ idx)) cert.commit
  pub prepares_apart : IsMap cert.prepare
  pub commits_apart : IsMap cert.commit

abbrev pub Tallied : CertStore → Type 0
Tallied certs = Kept Tally certs

pub Tally-Closed : Closed Tally
unfolding new_cert
Tally-Closed = record {
  fresh = λ idx. record { prepares = tt; commits = tt; prepares_apart = tt; commits_apart = tt };
  add_prepare = λ p cert t. record {
    prepares =
        insert-All
          (λ (e : VoteId × Prepare). (e.0 ≡ prepare_id e.1) × (prepare_key e.1 ≡ prepare_key p))
          (prepare_id p) p cert.prepare (refl, refl) t.prepares;
    commits = t.commits;
    prepares_apart = insert-IsMap (prepare_id p) p cert.prepare t.prepares_apart;
    commits_apart = t.commits_apart;
  };
  add_commit = λ c cert t. record {
    prepares = t.prepares;
    commits =
        insert-All
          (λ (e : VoteId × Commit). (e.0 ≡ commit_id e.1) × (commit_key e.1 ≡ commit_key c))
          (commit_id c) c cert.commit (refl, refl) t.commits;
    prepares_apart = t.prepares_apart;
    commits_apart = insert-IsMap (commit_id c) c cert.commit t.commits_apart;
  };
  mark_prepare = λ idx cert t. record {
    prepares = t.prepares;
    commits = t.commits;
    prepares_apart = t.prepares_apart;
    commits_apart = t.commits_apart;
  };
  mark_commit = λ idx cert t. record {
    prepares = t.prepares;
    commits = t.commits;
    prepares_apart = t.prepares_apart;
    commits_apart = t.commits_apart;
  };
  mark_execute = λ idx cert t. record {
    prepares = t.prepares;
    commits = t.commits;
    prepares_apart = t.prepares_apart;
    commits_apart = t.commits_apart;
  };
}
