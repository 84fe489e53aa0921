-- ===== src/Persist/Restart/Votes.antt =====
-- A restarted replica has the votes that it had stored.
use mathlib.Core.List.{append_assoc, append-nil}
use go_hpc_rbft.Base.{
  ◌≡◌, refl, sym, ap, subst, ◌∙◌, inl, inr, true, List, [], ◌∷◌, ◌++◌, Option, none, some, All,
  arith, leb, if◌then◌else◌, Bool-cases, Option-cases, ◌==◌, ◌&&◌,
}
use go_hpc_rbft.Base.Maps.{
  IsMap, lookup, insert, insert_new, lookup_before, lookup_first, lookup_rest,
}
use go_hpc_rbft.Messages.{Prepare, Commit}
use go_hpc_rbft.Certs.{
  VoteId, MsgId, MsgCert, CertStore, msg_id_eq, vote_id_eq, prepare_id, commit_id,
}
use go_hpc_rbft.Votes.{Replica}
use go_hpc_rbft.Persist.{values}
use mathlib.Core.Option.{some-injective}
use go_hpc_rbft.Persist.Certs.{part_of, part_of_with, part_of_without, part_of-lookup}
use go_hpc_rbft.Persist.Recover.{put_prepares, put_commits}

-- What the loops over votes leave as it is.
abbrev pub SameRest : MsgCert → MsgCert → Type 0
SameRest cert cert' =
    (cert'.pre_prepare ≡ cert.pre_prepare) × (cert'.sent_execute ≡ cert.sent_execute)

module _ (r : Replica) (idx : MsgId) where
  pub put_prepares-values :
      (m : List (VoteId × Prepare)) (cert : MsgCert)
      → IsMap (cert.prepare ++ m)
      → All (λ (e : VoteId × Prepare). e.0 ≡ prepare_id e.1) m
      → ((put_prepares r idx (values m) cert).prepare ≡ cert.prepare ++ m)
        × (((put_prepares r idx (values m) cert).commit ≡ cert.commit)
            × SameRest cert (put_prepares r idx (values m) cert))
  unfolding put_prepares values
  put_prepares-values [] cert h own = (rw append-nil refl, (refl, (refl, refl)))
  put_prepares-values ((k, p) ∷ m) cert h (mine, own) =
      let new : insert (prepare_id p) p cert.prepare ≡ cert.prepare ++ (k, p) ∷ [] =
        ap (λ i. insert i p cert.prepare) (sym mine)
        ∙ insert_new k p cert.prepare (lookup_before k p cert.prepare m h) in
      let assoc = append_assoc cert.prepare ((k, p) ∷ []) m in
      let later =
        put_prepares-values m
          (record cert {
            prepare = insert (prepare_id p) p cert.prepare;
            sent_prepare =
                if p.replica_id == r.self_id && leb idx.n r.last_exec
                then true
                else cert.sent_prepare;
          })
          (subst IsMap (sym assoc ∙ ap (λ l. l ++ m) (sym new)) h) own in
      (later.0 ∙ ap (λ l. l ++ m) new ∙ assoc, later.1)

  pub put_commits-values :
      (m : List (VoteId × Commit)) (cert : MsgCert)
      → IsMap (cert.commit ++ m)
      → All (λ (e : VoteId × Commit). e.0 ≡ commit_id e.1) m
      → ((put_commits r idx (values m) cert).commit ≡ cert.commit ++ m)
        × (((put_commits r idx (values m) cert).prepare ≡ cert.prepare)
            × SameRest cert (put_commits r idx (values m) cert))
  unfolding put_commits values
  put_commits-values [] cert h own = (rw append-nil refl, (refl, (refl, refl)))
  put_commits-values ((k, c) ∷ m) cert h (mine, own) =
      let new : insert (commit_id c) c cert.commit ≡ cert.commit ++ (k, c) ∷ [] =
        ap (λ i. insert i c cert.commit) (sym mine)
        ∙ insert_new k c cert.commit (lookup_before k c cert.commit m h) in
      let assoc = append_assoc cert.commit ((k, c) ∷ []) m in
      let later =
        put_commits-values m
          (record cert {
            commit = insert (commit_id c) c cert.commit;
            sent_commit =
                if c.replica_id == r.self_id && leb idx.n r.last_exec
                then true
                else cert.sent_commit;
          })
          (subst IsMap (sym assoc ∙ ap (λ l. l ++ m) (sym new)) h) own in
      (later.0 ∙ ap (λ l. l ++ m) new ∙ assoc, later.1)

-- The part of a cert stands under its msgID.
pub lookup-part_of :
    {A : Type 0} (f : MsgCert → Option A) (j : MsgId) (cert : MsgCert) (certs : CertStore)
    → IsMap certs
    → lookup j certs ≡ some cert
    → lookup j (part_of f certs) ≡ f cert
lookup-part_of f j cert [] h found = absurd (unfold lookup in ground (arith, found))
lookup-part_of f j cert ((idx, c) ∷ certs) (new, h) found =
    elim (Bool-cases (msg_id_eq.beq idx j)) [
      | inl hit ↦
          let same : idx ≡ j = (msg_id_eq.beq_iff idx j).0 hit in
          let head : c ≡ cert =
            some-injective c cert (sym (lookup_first idx j c certs hit) ∙ found) in
          let gone : lookup j certs ≡ none = ap (λ i. lookup i certs) (sym same) ∙ new in
          elim (Option-cases (f c)) [
            | inl e ↦
                rw (part_of_without f idx c certs e)
                  (part_of-lookup f j certs gone ∙ sym e ∙ ap f head)
            | inr (a, e) ↦
                rw (part_of_with f idx c certs a e)
                  (lookup_first idx j a (part_of f certs) hit ∙ sym e ∙ ap f head)
          ]
      | inr miss ↦
          let later =
            lookup-part_of f j cert certs h (sym (lookup_rest idx j c certs miss) ∙ found) in
          elim (Option-cases (f c)) [
            | inl e ↦ rw (part_of_without f idx c certs e) later
            | inr (a, e) ↦
                rw (part_of_with f idx c certs a e)
                  (lookup_rest idx j a (part_of f certs) miss ∙ later)
          ]
    ]
