-- ===== src/Persist/Restart/Whole.antt =====
-- The certs that restoreCert of persist.go builds from the stored certs.
use go_hpc_rbft.Base.{
  ◌≡◌, refl, sym, ap, subst, ◌∙◌, inl, inr, false, List, [], ◌++◌, Option, none, some, Option-cases,
  All-map, string_eq,
}
use go_hpc_rbft.Base.Maps.{IsMap, lookup}
use go_hpc_rbft.Messages.{PrePrepare, Prepare, Commit}
use go_hpc_rbft.Certs.{VoteId, MsgId, MsgCert, CertStore, msg_id_eq, vote_id_eq, new_cert}
use go_hpc_rbft.Votes.{Replica}
use go_hpc_rbft.Votes.Tally.{Tally}
use go_hpc_rbft.Persist.{values}
use go_hpc_rbft.Persist.Certs.{part_of, part_of-IsMap, proposal, prepare_votes, commit_votes}
use go_hpc_rbft.Persist.Recover.{put_proposal, put_prepares, put_commits, put_all}
use go_hpc_rbft.Persist.Restart.{cert_at, lookup-put_all, after_set}
use go_hpc_rbft.Persist.Restart.Votes.{put_prepares-values, put_commits-values, lookup-part_of}

-- A restored cert has the votes of the cert.
abbrev pub SameVotes : MsgCert → MsgCert → Type 0
SameVotes cert cert' =
    (cert'.pre_prepare ≡ cert.pre_prepare)
    × ((cert'.prepare ≡ cert.prepare) × (cert'.commit ≡ cert.commit))

-- A cert with a proposal and no votes.
abbrev Started : Option PrePrepare → MsgCert → Type 0
Started p cert =
    (cert.pre_prepare ≡ p)
    × ((cert.prepare ≡ []) × ((cert.commit ≡ []) × (cert.sent_execute ≡ false)))

module _ (r : Replica) (j : MsgId) where
  put_proposal-Started : (q : PrePrepare) → Started (some q) (put_proposal r j q new_cert)
  unfolding put_proposal new_cert
  put_proposal-Started q = elim (Option-cases (lookup j.d r.batch_store)) [
    | inl e ↦ rw (put_proposal, e) (refl, (refl, (refl, refl)))
    | inr (b, e) ↦ rw (put_proposal, e) (refl, (refl, (refl, refl)))
  ]

  cert_at-none : (s : CertStore) → lookup j s ≡ none → cert_at j s ≡ new_cert
  unfolding cert_at
  cert_at-none s e = rw (cert_at, e) refl

  cert_at-some : (s : CertStore) (c : MsgCert) → lookup j s ≡ some c → cert_at j s ≡ c
  unfolding cert_at
  cert_at-some s c e = rw (cert_at, e) refl

  first-Started :
      (o : Option PrePrepare) (s : CertStore)
      → lookup j s ≡ after_set (put_proposal r) j o []
      → Started o (cert_at j s)
  unfolding after_set
  first-Started none s e =
      let missing : lookup {V = MsgCert} j [] ≡ none = unfold lookup in refl in
      subst (Started none) (sym (cert_at-none s (e ∙ missing)))
        (unfold new_cert in (refl, (refl, (refl, refl))))
  first-Started (some q) s e =
      let missing : lookup {V = MsgCert} j [] ≡ none = unfold lookup in refl in
      subst (Started (some q))
        (sym (
          cert_at-some s (put_proposal r j q new_cert)
            (e ∙ ap (λ c. some (put_proposal r j q c)) (cert_at-none [] missing))))
        (put_proposal-Started q)

module _ (r : Replica) (certs : CertStore) (keyed : IsMap certs) where
  unfoldable with_proposals : CertStore
  with_proposals = put_all (put_proposal r) (part_of proposal certs) []

  unfoldable with_prepares : CertStore
  with_prepares = put_all (put_prepares r) (part_of prepare_votes certs) with_proposals

  unfoldable pub with_commits : CertStore
  unfolding with_proposals with_prepares
  with_commits = put_all (put_commits r) (part_of commit_votes certs) with_prepares

  module _ (j : MsgId) (cert : MsgCert) (found : lookup j certs ≡ some cert) where
    after-part_of :
        {A : Type 0} (f : MsgCert → Option A) (put : MsgId → A → MsgCert → MsgCert) (s : CertStore)
        → lookup j (put_all put (part_of f certs) s) ≡ after_set put j (f cert) s
    after-part_of f put s =
        lookup-put_all put j (part_of f certs) s (part_of-IsMap f certs keyed)
        ∙ ap (λ o. after_set put j o s) (lookup-part_of f j cert certs keyed found)

    proposed : Started cert.pre_prepare (cert_at j with_proposals)
    unfolding with_proposals
    proposed =
        first-Started r j cert.pre_prepare with_proposals
          (after-part_of proposal (put_proposal r) [])

    -- A started cert takes the votes of the cert.
    put_votes :
        (c : MsgCert)
        → Started cert.pre_prepare c
        → Tally j cert
        → SameVotes cert
            (put_commits r j (values cert.commit) (put_prepares r j (values cert.prepare) c))
          × ((put_commits r j
                (values cert.commit)
                (put_prepares r j (values cert.prepare) c)).sent_execute
              ≡ false)
    put_votes c (p, (no_prepares, (no_commits, fresh))) t =
        let c' = put_prepares r j (values cert.prepare) c in
        let (has_prepares, (same_commits, (same_p, same_x))) =
          put_prepares-values r j cert.prepare c
            (subst (λ (l : List (VoteId × Prepare)). IsMap (l ++ cert.prepare)) (sym no_prepares)
              t.prepares_apart)
            (All-map cert.prepare (λ e h. h.0) t.prepares) in
        let (has_commits, (same_prepares, (same_p', same_x'))) =
          put_commits-values r j cert.commit c'
            (subst (λ (l : List (VoteId × Commit)). IsMap (l ++ cert.commit))
              (sym (same_commits ∙ no_commits)) t.commits_apart)
            (All-map cert.commit (λ e h. h.0) t.commits) in
        (
          (
            same_p' ∙ same_p ∙ p,
            (
              same_prepares
                  ∙ has_prepares
                  ∙ ap (λ (l : List (VoteId × Prepare)). l ++ cert.prepare) no_prepares,
              has_commits
                  ∙ ap (λ (l : List (VoteId × Commit)). l ++ cert.commit)
                      (same_commits ∙ no_commits),
            ),
          ),
          same_x' ∙ same_x ∙ fresh,
        )

    at_prepares :
        cert_at j with_prepares ≡ put_prepares r j (values cert.prepare) (cert_at j with_proposals)
    unfolding with_prepares after_set
    at_prepares =
        cert_at-some r j with_prepares
          (put_prepares r j (values cert.prepare) (cert_at j with_proposals))
          (after-part_of prepare_votes (put_prepares r) with_proposals)

    pub lookup-with_commits :
        Tally j cert
        → (c : MsgCert) × ((lookup j with_commits ≡ some c)
            × (SameVotes cert c × (c.sent_execute ≡ false)))
    unfolding with_commits after_set
    lookup-with_commits t = (
      put_commits r j (values cert.commit)
          (put_prepares r j (values cert.prepare) (cert_at j with_proposals)),
      (
        after-part_of commit_votes (put_commits r) with_prepares
            ∙ ap (λ c. some (put_commits r j (values cert.commit) c)) at_prepares,
        put_votes (cert_at j with_proposals) proposed t,
      ),
    )
