-- ===== src/ViewChange/Basis/Reported.antt =====
-- What a replica has prepared is in the P set of its view change message.
use go_hpc_rbft.Base.{
  ℕ, ◌≤◌, ◌<◌, ◌≡◌, ap, sym, ◌∙◌, ◌⊎◌, inl, inr, true, List, [], ◌∷◌, some, String, arith, In, ltb,
  eq_iff, nat_eq, Bool-cases, Option-cases,
}
use go_hpc_rbft.Base.Maps.{lookup, lookup-In, IsMap}
use go_hpc_rbft.Messages.{VcPq}
use go_hpc_rbft.Certs.{MsgId, MsgCert, CertStore, pre_prepared, prepared, msg_id_eq}
use go_hpc_rbft.ViewChange.Assign.Selection.{holds}
use go_hpc_rbft.ViewChange.Basis.{entry_of, calc_p_set, gather, Vault, get_vc_basis}
use go_hpc_rbft.ViewChange.Basis.Sets.{Source, loop-Covers, loop-Source}
use go_hpc_rbft.ViewChange.Basis.Unique.{Keyed, one_entry}

prepared-In :
    (nodes f : ℕ) (certs : CertStore) (idx : MsgId)
    → prepared nodes f certs idx ≡ true
    → (cert : MsgCert) × In (idx, cert) certs
unfolding prepared pre_prepared
prepared-In nodes f certs idx h = elim (Option-cases (lookup idx certs)) [
  | inl e ↦ absurd (ground arith)
  | inr (cert, e) ↦ (cert, lookup-In idx certs cert e)
]

gather-In :
    (h : ℕ) (list : List (ℕ × VcPq)) (k : ℕ) (e : VcPq)
    → In (k, e) list
    → h ≤ e.sequence_number
    → In e (gather h list)
unfolding gather
gather-In h [] k e i le = absurd i
gather-In h ((j, p) ∷ list) k e (inl same) le =
    let eq : e ≡ p = ap (λ (x : ℕ × VcPq). x.1) same in
    elim (Bool-cases (ltb p.sequence_number h)) [
      | inl low ↦ absurd (ground arith)
      | inr ok ↦ rw ok (inl eq)
    ]
gather-In h ((j, p) ∷ list) k e (inr i) le = elim (Bool-cases (ltb p.sequence_number h)) [
  | inl low ↦ rw low (gather-In h list k e i le)
  | inr ok ↦ rw ok (inr (gather-In h list k e i le))
]

holds_of_In :
    (n : ℕ) (d : String) (v : ℕ) (pset : List VcPq) (e : VcPq)
    → In e pset
    → e.sequence_number ≡ n
    → e.batch_digest ≡ d
    → e.view ≡ v
    → holds n d v pset ≡ true
holds_of_In n d v [] e i a b c = absurd i
holds_of_In n d v (p ∷ pset) e (inl same) a b c = ground (arith, same, eq_iff p.batch_digest d)
holds_of_In n d v (p ∷ pset) e (inr i) a b c = ground (arith, holds_of_In n d v pset e i a b c)

-- Every request that is prepared at or above H, by a replica whose P list is keyed by number, has
-- in the P set of the replica's view change message an entry of its number, of the same view or a
-- higher one, that is from the replica's previous P list or of another prepared request.
pub get_vc_basis-prepared :
    (s : Vault) (idx : MsgId)
    → Keyed s.plist
    → prepared s.nodes s.faults s.cert_store idx ≡ true
    → s.h ≤ idx.n
    → (e : VcPq) × In e (get_vc_basis s).0.pset
      × (e.sequence_number ≡ idx.n)
      × (idx.v ≤ e.view)
      × Source s.nodes s.faults s.cert_store s.plist idx.n e
unfolding get_vc_basis calc_p_set entry_of
get_vc_basis-prepared s idx keyed p above =
    let (cert, i) = prepared-In s.nodes s.faults s.cert_store idx p in
    let c = loop-Covers s.nodes s.faults s.cert_store s.cert_store s.plist idx cert i p in
    let from =
      loop-Source s.nodes s.faults s.cert_store s.cert_store s.plist idx.n c.entry c.found in
    let numbered : c.entry.sequence_number ≡ idx.n = elim from [
      | inl old ↦ keyed idx.n c.entry old
      | inr (j, q, at_n, eq) ↦ ap (λ (x : VcPq). x.sequence_number) eq ∙ at_n
    ] in
    (
      c.entry,
      gather-In s.h (calc_p_set s.nodes s.faults s.cert_store s.plist) idx.n c.entry
          (lookup-In idx.n _ c.entry c.found) (omega arith),
      numbered,
      c.not_below,
      from,
    )

-- Let a replica's P list be keyed by number and have no number twice, let the replica have prepared a
-- request at or above H, and let every other request that it has prepared for this number, and its
-- previous P list's entry for it, be of a lower view. Then the P set of its view change message holds
-- this request, with its number, digest and view, and every entry of it for this number is this one.
pub get_vc_basis-holds :
    (s : Vault) (idx : MsgId)
    → Keyed s.plist
    → IsMap s.plist
    → prepared s.nodes s.faults s.cert_store idx ≡ true
    → s.h ≤ idx.n
    → ((j : MsgId)
        → prepared s.nodes s.faults s.cert_store j ≡ true
        → j.n ≡ idx.n
        → (j.v < idx.v) ⊎ (j ≡ idx))
    → ((e : VcPq) → lookup idx.n s.plist ≡ some e → e.view < idx.v)
    → (holds idx.n idx.d idx.v (get_vc_basis s).0.pset ≡ true)
      × ((other : VcPq)
          → In other (get_vc_basis s).0.pset
          → other.sequence_number ≡ idx.n
          → other ≡ entry_of idx)
get_vc_basis-holds s idx keyed distinct p above top old =
    let (e, i, numbered, le, from) = get_vc_basis-prepared s idx keyed p above in
    let mine : e ≡ entry_of idx = elim from [
      | inl before ↦ absurd (omega (arith, old e before))
      | inr (j, q, at_n, eq) ↦ elim (top j q at_n) [
        | inl low ↦ absurd (unfold entry_of in omega (arith, ap (λ (x : VcPq). x.view) eq))
        | inr same ↦ eq ∙ ap entry_of same
      ]
    ] in
    (
      holds_of_In idx.n idx.d idx.v (get_vc_basis s).0.pset e i numbered
          (unfold entry_of in ap (λ (x : VcPq). x.batch_digest) mine)
          (unfold entry_of in ap (λ (x : VcPq). x.view) mine),
      λ other there at_n. one_entry s keyed distinct other e there i (at_n ∙ sym numbered) ∙ mine,
    )
