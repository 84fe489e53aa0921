-- ===== src/Persist/Restart.antt =====
-- What restoreCert of persist.go makes of the stored votes of a replica.
pub mod Votes
pub mod Whole
pub mod Final
use go_hpc_rbft.Base.{
  ℕ, ◌≡◌, refl, sym, ap, subst, ◌∙◌, inl, inr, Bool, true, false, List, [], ◌∷◌, ◌++◌, Option, none,
  some, All, In, arith, leb, if◌then◌else◌, Bool-cases, Option-cases, Eq,
}
use mathlib.Core.List.{append_assoc, append-nil}
use go_hpc_rbft.Base.Maps.{
  IsMap, lookup, insert, lookup-insert, insert_new, lookup_before, lookup-In, lookup_first,
  lookup_rest,
}
use go_hpc_rbft.Messages.{PrePrepare, Prepare, Commit}
use go_hpc_rbft.Certs.{
  VoteId, MsgId, MsgCert, CertStore, msg_id_eq, vote_id_eq, new_cert, get_cert, prepare_id,
  commit_id,
}
use go_hpc_rbft.Votes.{Replica}
use go_hpc_rbft.Persist.Recover.{
  change_cert, put_proposal, put_prepares, put_commits, put_all, mark_executed,
}

-- The cert that getCert returns.
unfoldable pub cert_at : MsgId → CertStore → MsgCert
cert_at idx certs = elim (lookup idx certs) [ none ↦ new_cert | some cert ↦ cert ]

get_cert_new :
    (idx : MsgId) (certs : CertStore)
    → lookup idx certs ≡ none
    → get_cert certs idx ≡ (new_cert, insert idx new_cert certs)
unfolding get_cert
get_cert_new idx certs x = rw (get_cert, x) refl

get_cert_old :
    (idx : MsgId) (cert : MsgCert) (certs : CertStore)
    → lookup idx certs ≡ some cert
    → get_cert certs idx ≡ (cert, certs)
unfolding get_cert
get_cert_old idx cert certs x = rw (get_cert, x) refl

inserted_twice :
    (idx j : MsgId) (v w : MsgCert) (certs : CertStore)
    → lookup j (insert idx v (insert idx w certs))
      ≡ (if msg_id_eq.beq idx j then some v else lookup j certs)
inserted_twice idx j v w certs =
    let outer = lookup-insert idx j v (insert idx w certs) in
    let inner = lookup-insert idx j w certs in ground (arith, outer, inner)

lookup-change_cert :
    (idx j : MsgId) (change : MsgCert → MsgCert) (certs : CertStore)
    → lookup j (change_cert idx change certs)
      ≡ (if msg_id_eq.beq idx j then some (change (cert_at idx certs)) else lookup j certs)
unfolding change_cert cert_at
lookup-change_cert idx j change certs = elim (Option-cases (lookup idx certs)) [
  | inl x ↦
      rw (cert_at, x, get_cert_new idx certs x)
        (inserted_twice idx j (change new_cert) new_cert certs)
  | inr (cert, x) ↦
      rw (cert_at, x, get_cert_old idx cert certs x) (lookup-insert idx j (change cert) certs)
]

module _ {A : Type 0} (put : MsgId → A → MsgCert → MsgCert) (j : MsgId) where
  -- What a loop over a restored set leaves at a msgID.
  unfoldable pub after_set : Option A → CertStore → Option MsgCert
  after_set none certs = lookup j certs
  after_set (some a) certs = some (put j a (cert_at j certs))

  after_set_same :
      (o : Option A) (certs certs' : CertStore)
      → lookup j certs' ≡ lookup j certs
      → after_set o certs' ≡ after_set o certs
  unfolding after_set cert_at
  after_set_same none certs certs' h = h
  after_set_same (some a) certs certs' h = rw (cert_at, h) refl

  put_at_key :
      (idx : MsgId) (a : A) (set : List (MsgId × A)) (certs : CertStore)
      → lookup idx set ≡ none
      → msg_id_eq.beq idx j ≡ true
      → after_set (lookup j set) (change_cert idx (put idx a) certs)
        ≡ some (put j a (cert_at j certs))
  unfolding after_set
  put_at_key idx a set certs new hit =
      let same : idx ≡ j = (msg_id_eq.beq_iff idx j).0 hit in
      ap (λ o. after_set o (change_cert idx (put idx a) certs))
        (ap (λ i. lookup i set) (sym same) ∙ new)
      ∙ lookup-change_cert idx j (put idx a) certs
      ∙ rw hit (ap (λ i. some (put i a (cert_at i certs))) same)

  pub lookup-put_all :
      (set : List (MsgId × A)) (certs : CertStore)
      → IsMap set
      → lookup j (put_all put set certs) ≡ after_set (lookup j set) certs
  unfolding put_all after_set
  lookup-put_all [] certs h = unfold lookup in refl
  lookup-put_all ((idx, a) ∷ set) certs (new, h) =
      let changed = change_cert idx (put idx a) certs in
      let later = lookup-put_all set changed h in
      elim (Bool-cases (msg_id_eq.beq idx j)) [
        | inl hit ↦ rw (lookup_first idx j a set hit) (later ∙ put_at_key idx a set certs new hit)
        | inr miss ↦ rw (lookup_rest idx j a set miss) (
            later
            ∙ after_set_same (lookup j set) certs changed
                (lookup-change_cert idx j (put idx a) certs ∙ rw miss refl))
      ]
