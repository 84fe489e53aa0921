-- ===== src/ViewChange/Basis/Sets.antt =====
-- Where the entries of calcPSet and calcQSet come from.
use go_hpc_rbft.Base.{
  ℕ, ◌≤◌, ◌≡◌, refl, ap, subst, ◌⊎◌, inl, inr, true, false, not, List, [], ◌∷◌, Option, none, some,
  arith, In, if◌then◌else◌, ◌==◌, nat_eq, Bool-cases,
}
use go_hpc_rbft.Base.Maps.{lookup, insert, lookup-insert, lookup-insert_self}
use go_hpc_rbft.Messages.{VcPq}
use go_hpc_rbft.Certs.{MsgId, MsgCert, CertStore, prepared}
use go_hpc_rbft.ViewChange.Basis.{entry_of, higher, calc_p_loop}

-- The P set's entry for `n` stands at view `v` or above.
pub record Covers (pset : List (ℕ × VcPq)) (n v : ℕ) : Type 0 where
  pub entry : VcPq
  pub found : lookup n pset ≡ some entry
  pub not_below : v ≤ entry.view

not_higher : (o : Option VcPq) (e : VcPq) (v : ℕ) → higher o v ≡ false → o ≡ some e → e.view ≤ v
unfolding higher
not_higher none e v h eq = cc
not_higher (some q) e v h eq = ground arith

is_higher : (o : Option VcPq) (v : ℕ) → higher o v ≡ true → (e : VcPq) × (o ≡ some e) × (v ≤ e.view)
unfolding higher
is_higher none v h = cc
is_higher (some q) v h = (q, refl, ground arith)

module _ (nodes f : ℕ) (certs : CertStore) where
  -- One round of the loop.
  abbrev pub step : MsgId → List (ℕ × VcPq) → List (ℕ × VcPq)
  step idx pset =
      if not (prepared nodes f certs idx)
      then pset
      else if higher (lookup idx.n pset) idx.v
      then pset
      else insert idx.n (entry_of idx) pset

  step-keeps :
      (idx : MsgId) (pset : List (ℕ × VcPq)) (n v : ℕ)
      → Covers pset n v
      → Covers (step idx pset) n v
  unfolding entry_of higher
  step-keeps idx pset n v c = elim (Bool-cases (prepared nodes f certs idx)) [
    | inr e ↦ rw e c
    | inl e ↦ elim (Bool-cases (higher (lookup idx.n pset) idx.v)) [
      | inl k ↦ rw (e, k) c
      | inr k ↦
          rw (e, k)
            (elim (Bool-cases (idx.n == n)) [
              | inl here ↦ record {
                entry = entry_of idx;
                found = ground (arith, lookup-insert idx.n n (entry_of idx) pset);
                not_below = omega (
                  arith,
                  c.not_below,
                  not_higher (lookup idx.n pset) c.entry idx.v k (ground (arith, c.found)),
                );
              }
              | inr there ↦ record {
                entry = c.entry;
                found = ground (arith, lookup-insert idx.n n (entry_of idx) pset, c.found);
                not_below = c.not_below;
              }
            ])
    ]
  ]

  step-Covers :
      (idx : MsgId) (pset : List (ℕ × VcPq))
      → prepared nodes f certs idx ≡ true
      → Covers (step idx pset) idx.n idx.v
  unfolding entry_of
  step-Covers idx pset e = elim (Bool-cases (higher (lookup idx.n pset) idx.v)) [
    | inl k ↦
        let (q, found, le) = is_higher (lookup idx.n pset) idx.v k in
        rw (e, k) (record { entry = q; found = found; not_below = le })
    | inr k ↦
        rw (e, k)
          (record {
            entry = entry_of idx;
            found = lookup-insert_self idx.n (entry_of idx) pset;
            not_below = omega arith;
          })
  ]

  -- An entry comes from the previous list or from a prepared cert.
  abbrev pub Source : List (ℕ × VcPq) → ℕ → VcPq → Type 0
  Source pset n e =
      (lookup n pset ≡ some e)
      ⊎ ((idx : MsgId) × (prepared nodes f certs idx ≡ true) × (idx.n ≡ n) × (e ≡ entry_of idx))

  step-Source :
      (idx : MsgId) (pset : List (ℕ × VcPq)) (n : ℕ) (e : VcPq)
      → lookup n (step idx pset) ≡ some e
      → Source pset n e
  step-Source idx pset n e h = elim (Bool-cases (prepared nodes f certs idx)) [
    | inr out ↦ inl (rw out at h)
    | inl p ↦ elim (Bool-cases (higher (lookup idx.n pset) idx.v)) [
      | inl k ↦ inl (rw (p, k) at h)
      | inr k ↦ elim (Bool-cases (idx.n == n)) [
        | inl here ↦
            inr (idx, p, ground arith, ground (arith, lookup-insert idx.n n (entry_of idx) pset, h))
        | inr there ↦ inl (ground (arith, lookup-insert idx.n n (entry_of idx) pset, h))
      ]
    ]
  ]

  loop-keeps :
      (rest : CertStore) (pset : List (ℕ × VcPq)) (n v : ℕ)
      → Covers pset n v
      → Covers (calc_p_loop nodes f certs rest pset) n v
  unfolding calc_p_loop
  loop-keeps [] pset n v c = c
  loop-keeps ((idx, _) ∷ rest) pset n v c =
      loop-keeps rest (step idx pset) n v (step-keeps idx pset n v c)

  pub loop-Covers :
      (rest : CertStore) (pset : List (ℕ × VcPq)) (idx : MsgId) (cert : MsgCert)
      → In (idx, cert) rest
      → prepared nodes f certs idx ≡ true
      → Covers (calc_p_loop nodes f certs rest pset) idx.n idx.v
  unfolding calc_p_loop
  loop-Covers [] pset idx cert i p = absurd i
  loop-Covers ((j, _) ∷ rest) pset idx cert (inl e) p =
      let same : idx ≡ j = ap (λ (x : MsgId × MsgCert). x.0) e in
      loop-keeps rest (step j pset) idx.n idx.v
        (subst (λ (k : MsgId). Covers (step k pset) idx.n idx.v) same (step-Covers idx pset p))
  loop-Covers ((j, _) ∷ rest) pset idx cert (inr i) p = loop-Covers rest (step j pset) idx cert i p

  pub loop-Source :
      (rest : CertStore) (pset : List (ℕ × VcPq)) (n : ℕ) (e : VcPq)
      → lookup n (calc_p_loop nodes f certs rest pset) ≡ some e
      → Source pset n e
  unfolding calc_p_loop
  loop-Source [] pset n e h = inl h
  loop-Source ((j, _) ∷ rest) pset n e h = elim (loop-Source rest (step j pset) n e h) [
    | inl before ↦ step-Source j pset n e before
    | inr cert ↦ inr cert
  ]
