-- ===== src/ViewChange/Basis/Unique.antt =====
-- The P set of a basis has one entry for a number, as calcPSet's map and the previous P list have.
use go_hpc_rbft.Base.{ℕ, ◌≡◌, ap, ◌∙◌, inl, inr, List, [], ◌∷◌, some, In, ltb, nat_eq, Bool-cases}
use go_hpc_rbft.Base.Maps.{lookup, IsMap, insert-IsMap, In-lookup}
use go_hpc_rbft.Messages.{VcPq}
use go_hpc_rbft.Certs.{CertStore, prepared}
use go_hpc_rbft.ViewChange.Basis.{
  entry_of, higher, calc_p_loop, calc_p_set, gather, Vault, get_vc_basis,
}
use go_hpc_rbft.ViewChange.Basis.Sets.{step, loop-Source}

-- The key of a P list entry is its number.
abbrev pub Keyed : List (ℕ × VcPq) → Type 0
Keyed plist = (n : ℕ) (e : VcPq) → lookup n plist ≡ some e → e.sequence_number ≡ n

module _ (nodes f : ℕ) (certs : CertStore) where
  calc_p_loop-IsMap :
      (rest : CertStore) (pset : List (ℕ × VcPq))
      → IsMap pset
      → IsMap (calc_p_loop nodes f certs rest pset)
  unfolding calc_p_loop
  calc_p_loop-IsMap [] pset h = h
  calc_p_loop-IsMap ((idx, _) ∷ rest) pset h =
      let kept : IsMap (step nodes f certs idx pset) =
        elim (Bool-cases (prepared nodes f certs idx)) [
          | inr e ↦ rw e h
          | inl e ↦ elim (Bool-cases (higher (lookup idx.n pset) idx.v)) [
            | inl k ↦ rw (e, k) h
            | inr k ↦ rw (e, k) (insert-IsMap idx.n (entry_of idx) pset h)
          ]
        ] in
      calc_p_loop-IsMap rest (step nodes f certs idx pset) kept

  calc_p_set-Keyed :
      (plist : List (ℕ × VcPq)) → Keyed plist → Keyed (calc_p_set nodes f certs plist)
  unfolding calc_p_set entry_of
  calc_p_set-Keyed plist keyed n e found = elim (loop-Source nodes f certs certs plist n e found) [
    | inl old ↦ keyed n e old
    | inr (j, q, at_n, eq) ↦ ap (λ (x : VcPq). x.sequence_number) eq ∙ at_n
  ]

gathered :
    (h : ℕ) (list : List (ℕ × VcPq)) (e : VcPq) → In e (gather h list) → (k : ℕ) × In (k, e) list
unfolding gather
gathered h [] e i = absurd i
gathered h ((j, p) ∷ list) e i = elim (Bool-cases (ltb p.sequence_number h)) [
  | inl low ↦ let (k, there) = gathered h list e (rw low at i) in (k, inr there)
  | inr ok ↦ elim (rw ok at i) [
    | inl same ↦ (j, inl (ap (λ (x : VcPq). (j, x)) same))
    | inr later ↦ let (k, there) = gathered h list e later in (k, inr there)
  ]
]

module _ (s : Vault) (keyed : Keyed s.plist) (distinct : IsMap s.plist) where
  lookup-calc_p_set :
      (e : VcPq)
      → In e (get_vc_basis s).0.pset
      → lookup e.sequence_number (calc_p_set s.nodes s.faults s.cert_store s.plist) ≡ some e
  unfolding get_vc_basis
  lookup-calc_p_set e i =
      let pset = calc_p_set s.nodes s.faults s.cert_store s.plist in
      let (k, there) = gathered s.h pset e i in
      let is_map : IsMap pset =
        unfold calc_p_set in
        calc_p_loop-IsMap s.nodes s.faults s.cert_store s.cert_store s.plist distinct in
      let found = In-lookup k e pset is_map there in
      let number = calc_p_set-Keyed s.nodes s.faults s.cert_store s.plist keyed k e found in
      ap (λ n. lookup n pset) number ∙ found

  -- Two entries of the P set for the same number are equal.
  pub one_entry :
      (d e : VcPq)
      → In d (get_vc_basis s).0.pset
      → In e (get_vc_basis s).0.pset
      → d.sequence_number ≡ e.sequence_number
      → d ≡ e
  one_entry d e i j same = cc (
    lookup-calc_p_set d i,
    lookup-calc_p_set e j,
    ap (λ n. lookup n (calc_p_set s.nodes s.faults s.cert_store s.plist)) same,
  )
