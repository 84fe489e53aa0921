-- ===== src/Chain/Paths.antt =====
-- The way to a view does not matter: what setView installs comes from the last stable view.
use go_hpc_rbft.Base.{
  ℕ, zero, suc, ◌+◌, ◌-◌, ◌≤◌, ◌≡◌, refl, inl, inr, Bool, false, ◌&&◌, List, some, arith, ltb, ◌==◌,
  Bool-cases, Option-cases,
}
use go_hpc_rbft.Chain.{
  ValidatorInfo, ChainConfig, cal_primary_id_by_view, punish_abnormal_node, punish_loop,
  punish_abnormal_nodes, recover_abnormal_nodes, update_primary_id, unstable_infos, set_view,
}

-- The configuration with other values of what setView writes.
unfoldable pub moved : ChainConfig → List (ℕ × ValidatorInfo) → ℕ → ℕ → ChainConfig
moved c infos view primary = record c {
  validator_dynamic_info_map = infos;
  view = view;
  primary_id = primary;
}

module _ (hash : List ℕ → ℕ) (c : ChainConfig) (d : List (ℕ × ValidatorInfo)) (w p : ℕ) where
  punish_abnormal_node-moved :
      (v : ℕ) (infos : List (ℕ × ValidatorInfo))
      → punish_abnormal_node hash (moved c d w p) v infos ≡ punish_abnormal_node hash c v infos
  unfolding punish_abnormal_node moved
  punish_abnormal_node-moved v infos = refl

  punish_loop-moved :
      (r : Bool) (view rounds v : ℕ) (infos : List (ℕ × ValidatorInfo))
      → punish_loop hash r (moved c d w p) view rounds v infos
        ≡ punish_loop hash r c view rounds v infos
  unfolding punish_loop
  punish_loop-moved r view zero v infos = refl
  punish_loop-moved r view (suc rounds) v infos = elim (Bool-cases (v == view - 1 && r)) [
    | inl skip ↦ rw (punish_loop, skip) (punish_loop-moved r view rounds (v + 1) infos)
    | inr punish ↦ elim (Option-cases (punish_abnormal_node hash c v infos)) [
      | inl e ↦ rw (punish_loop, punish, punish_abnormal_node-moved v infos, e) refl
      | inr (next, e) ↦
          rw (punish_loop, punish, punish_abnormal_node-moved v infos, e)
            (punish_loop-moved r view rounds (v + 1) next)
    ]
  ]

  module _ (view : ℕ) (h : c.view ≤ view) (k : w ≤ view) where
    punish_abnormal_nodes-moved :
        (r : Bool) (infos : List (ℕ × ValidatorInfo))
        → punish_abnormal_nodes hash r view (moved c d w p) infos
          ≡ punish_abnormal_nodes hash r view c infos
    unfolding punish_abnormal_nodes moved
    punish_abnormal_nodes-moved r infos =
        let no : ltb view c.view ≡ false = ground arith in
        let no' : ltb view w ≡ false = ground arith in
        let loop = punish_loop-moved r view (view - c.last_stable_view) c.last_stable_view infos in
        rw (no, no', loop) refl

    recover_abnormal_nodes-moved :
        (infos : List (ℕ × ValidatorInfo))
        → recover_abnormal_nodes view (moved c d w p) infos ≡ recover_abnormal_nodes view c infos
    unfolding recover_abnormal_nodes moved
    recover_abnormal_nodes-moved infos =
        let no : ltb view c.view ≡ false = ground arith in
        let no' : ltb view w ≡ false = ground arith in rw (no, no') refl

    unstable_infos-moved :
        (r : Bool) → unstable_infos hash r view (moved c d w p) ≡ unstable_infos hash r view c
    unfolding unstable_infos moved
    unstable_infos-moved r =
        let start = c.last_stable_validator_dynamic_info_map in
        elim (Option-cases (punish_abnormal_nodes hash r view c start)) [
          | inl e ↦ rw (unstable_infos, punish_abnormal_nodes-moved r start, e) refl
          | inr (infos, e) ↦
              rw
                (
                  unstable_infos,
                  punish_abnormal_nodes-moved r start,
                  e,
                  recover_abnormal_nodes-moved infos,
                )
                refl
        ]

    set_view-moved : (r : Bool) → set_view hash r view (moved c d w p) ≡ set_view hash r view c
    unfolding set_view
    set_view-moved r = elim (Option-cases (unstable_infos hash r view c)) [
      | inl e ↦ rw (set_view, unstable_infos-moved r, e) refl
      | inr (infos, e) ↦
          rw (set_view, unstable_infos-moved r, e) (unfold moved update_primary_id in refl)
    ]

pub set_view-inverse :
    (hash : List ℕ → ℕ) (r : Bool) (v : ℕ) (c c₁ : ChainConfig)
    → set_view hash r v c ≡ some c₁
    → (d : List (ℕ × ValidatorInfo)) × (p : ℕ) × (c₁ ≡ moved c d v p)
unfolding set_view moved
set_view-inverse hash r v c c₁ e = elim (Option-cases (unstable_infos hash r v c)) [
  | inl x ↦ absurd (ground (arith, e, x))
  | inr (infos, x) ↦ elim (Option-cases (cal_primary_id_by_view hash c v infos)) [
    | inl y ↦ absurd (ground (arith, e, x, y))
    | inr (p, y) ↦ (infos, p, ground (arith, e, x, y))
  ]
]

-- Let a replica have set view v₁, by setView or setViewWithRecovery, and let v₂ be neither below v₁ nor
-- below the view before. Then setting v₂ now has the same result as setting it at once: validator infos,
-- view and primary, or a panic, depend on the last stable view alone.
pub set_view-set_view :
    (hash : List ℕ → ℕ) (r₁ r₂ : Bool) (v₁ v₂ : ℕ) (c c₁ : ChainConfig)
    → set_view hash r₁ v₁ c ≡ some c₁
    → v₁ ≤ v₂
    → c.view ≤ v₂
    → set_view hash r₂ v₂ c₁ ≡ set_view hash r₂ v₂ c
set_view-set_view hash r₁ r₂ v₁ v₂ c c₁ e le le' =
    let (d, p, same) = set_view-inverse hash r₁ v₁ c c₁ e in
    rw same (set_view-moved hash c d v₁ p v₂ le' le r₂)
