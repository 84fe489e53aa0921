-- ===== src/Chain/Total.antt =====
-- Under the weighted election, setting a view does not panic.
use go_hpc_rbft.Base.{
  ℕ, zero, suc, ◌+◌, ◌-◌, ◌*◌, ◌^◌, ◌≤◌, ◌<◌, ◌≡◌, ◌≢◌, refl, sym, ap, subst, ◌∙◌, inl, inr, Bool,
  true, false, not, ◌&&◌, ◌||◌, List, [], ◌∷◌, map, some, arith, ltb, ◌==◌, ==_iff, nat_eq, length,
  any, All, Bool-cases,
}
use go_hpc_rbft.Base.Maps.{lookup, insert}
use go_hpc_rbft.Tracker.{recent_processor}
use go_hpc_rbft.Chain.{
  ValidatorInfo, ElectionType, ChainConfig, check_validator, cal_primary_id_by_view, reduce,
  punish_abnormal_node, punish_loop, punish_abnormal_nodes, recover_info, recover_abnormal_nodes,
  update_primary_id, unstable_infos, set_view,
}
use go_hpc_rbft.Chain.Candidates.{
  ids, HasFree, length-ids, Weighs, cal_primary_id_by_view-candidate,
}

-- The validator has its full power in ValidatorSet.
abbrev pub IsFull : ℕ → List (ℕ × ℕ) → ℕ → Type 0
IsFull bound full id = (p : ℕ) × (lookup id full ≡ some p) × (0 < p) × (p ≤ bound)

-- A weighted election with positive powers, none above `bound`, whose sum is an int64, and a
-- validator that made no recent block.
pub record IsSound (bound : ℕ) (c : ChainConfig) : Type 0 where
  pub weighted : c.epoch_info.proposer_election_type ≢ ElectionType.abnormal_rotation
  pub not_active : (0 < c.epoch_info.not_active_weight) × (c.epoch_info.not_active_weight ≤ bound)
  pub full : All (IsFull bound c.validator_set) (ids c.last_stable_validator_dynamic_info_map)
  pub weighs : Weighs bound c.last_stable_validator_dynamic_info_map
  pub small : length c.last_stable_validator_dynamic_info_map * bound < 2 ^ 63
  pub free : HasFree c.tracker c.last_stable_validator_dynamic_info_map

ids-insert :
    (id : ℕ) (info old : ValidatorInfo) (infos : List (ℕ × ValidatorInfo))
    → lookup id infos ≡ some old
    → ids (insert id info infos) ≡ ids infos
unfolding lookup insert
ids-insert id info old [] h = absurd (ground (arith, h))
ids-insert id info old ((j, x) ∷ infos) h = elim (Bool-cases (j == id)) [
  | inl hit ↦ rw hit (ap (λ n. n ∷ ids infos) (sym ((==_iff j id).0 hit)))
  | inr miss ↦ rw miss (ap (λ l. j ∷ l) (ids-insert id info old infos (ground (arith, h, miss))))
]

Weighs-insert :
    (bound id : ℕ) (info : ValidatorInfo) (infos : List (ℕ × ValidatorInfo))
    → Weighs bound infos
    → 0 < info.consensus_voting_power
    → info.consensus_voting_power ≤ bound
    → Weighs bound (insert id info infos)
unfolding insert
Weighs-insert bound id info [] w pos le = (pos, le, tt)
Weighs-insert bound id info ((j, x) ∷ infos) (p, l, w) pos le = elim (Bool-cases (j == id)) [
  | inl hit ↦ rw hit (pos, le, w)
  | inr miss ↦ rw miss (p, l, Weighs-insert bound id info infos w pos le)
]

module _ (hash : List ℕ → ℕ) (bound : ℕ) (c : ChainConfig) (sound : IsSound bound c) where
  -- The validators of the last stable view, with powers in the bounds.
  record Kept (infos : List (ℕ × ValidatorInfo)) : Type 0 where
    same : ids infos ≡ ids c.last_stable_validator_dynamic_info_map
    weighs : Weighs bound infos

  primary :
      (v : ℕ) (infos : List (ℕ × ValidatorInfo)) (c' : ChainConfig)
      → c'.epoch_info ≡ c.epoch_info
      → c'.tracker ≡ c.tracker
      → Kept infos
      → (id : ℕ) × (info : ValidatorInfo) × (cal_primary_id_by_view hash c' v infos ≡ some id)
        × (lookup id infos ≡ some info)
        × (recent_processor c'.tracker id ≡ false)
  primary v infos c' same_epoch same_tracker k =
      let len : length infos ≡ length c.last_stable_validator_dynamic_info_map = omega (
        arith,
        length-ids infos,
        ap length k.same,
        length-ids c.last_stable_validator_dynamic_info_map,
      ) in
      cal_primary_id_by_view-candidate hash c' v bound infos
        (subst (λ e. e.proposer_election_type ≢ ElectionType.abnormal_rotation) (sym same_epoch)
          sound.weighted)
        k.weighs (subst (λ n. n * bound < 2 ^ 63) (sym len) sound.small)
        (ap (λ t. any (λ id. not (recent_processor t id)) (ids infos)) same_tracker
          ∙ ap (any (λ id. not (recent_processor c.tracker id))) k.same
          ∙ sound.free)

  punish_abnormal_node-Kept :
      (v : ℕ) (infos : List (ℕ × ValidatorInfo))
      → Kept infos
      → (next : List (ℕ × ValidatorInfo)) × (punish_abnormal_node hash c v infos ≡ some next)
        × Kept next
  unfolding punish_abnormal_node
  punish_abnormal_node-Kept v infos k =
      let (id, info, e, found, _) = primary v infos c refl refl k in
      let weight = c.epoch_info.not_active_weight in
      elim (Bool-cases
        (info.consensus_voting_power_reduced && info.consensus_voting_power_reduce_view == v)) [
          | inl already ↦ (infos, rw (punish_abnormal_node, e, found, already) refl, k)
          | inr punish ↦ (
            insert id (reduce weight v info) infos,
            rw (punish_abnormal_node, e, found, punish) refl,
            record {
              same = ids-insert id (reduce weight v info) info infos found ∙ k.same;
              weighs =
                  unfold reduce in
                  Weighs-insert bound id (reduce weight v info) infos k.weighs sound.not_active.0
                    sound.not_active.1;
            },
          )
        ]

  punish_loop-Kept :
      (r : Bool) (view rounds v : ℕ) (infos : List (ℕ × ValidatorInfo))
      → Kept infos
      → (next : List (ℕ × ValidatorInfo)) × (punish_loop hash r c view rounds v infos ≡ some next)
        × Kept next
  unfolding punish_loop
  punish_loop-Kept r view zero v infos k = (infos, refl, k)
  punish_loop-Kept r view (suc rounds) v infos k = elim (Bool-cases (v == view - 1 && r)) [
    | inl skip ↦
        let (next, e, k') = punish_loop-Kept r view rounds (v + 1) infos k in
        (next, rw (punish_loop, skip) e, k')
    | inr punish ↦
        let (one, e₁, k₁) = punish_abnormal_node-Kept v infos k in
        let (next, e, k') = punish_loop-Kept r view rounds (v + 1) one k₁ in
        (next, rw (punish_loop, punish, e₁) e, k')
  ]

  punish_abnormal_nodes-Kept :
      (r : Bool) (view : ℕ) (infos : List (ℕ × ValidatorInfo))
      → Kept infos
      → (next : List (ℕ × ValidatorInfo)) × (punish_abnormal_nodes hash r view c infos ≡ some next)
        × Kept next
  unfolding punish_abnormal_nodes
  punish_abnormal_nodes-Kept r view infos k =
      elim (Bool-cases (view == 0 || (view == c.last_stable_view || ltb view c.view))) [
        | inl early ↦ (infos, rw early refl, k)
        | inr late ↦
            let (next, e, k') =
              punish_loop-Kept r view (view - c.last_stable_view) c.last_stable_view infos k in
            (next, rw late e, k')
      ]

  recover_map :
      (view : ℕ) (infos : List (ℕ × ValidatorInfo))
      → All (IsFull bound c.validator_set) (ids infos)
      → Weighs bound infos
      → (ids (map (λ (x : ℕ × ValidatorInfo). (x.0, recover_info c view x.0 x.1)) infos)
          ≡ ids infos)
        × Weighs bound (map (λ (x : ℕ × ValidatorInfo). (x.0, recover_info c view x.0 x.1)) infos)
  unfolding recover_info
  recover_map view [] f w = (refl, tt)
  recover_map view ((id, info) ∷ infos) ((p, found, pos, le), f) (wp, wl, w) =
      let (same, ws) = recover_map view infos f w in
      (ap (λ l. id ∷ l) same, (ground (arith, found, pos, le), ground (arith, found, pos, le), ws))

  recover_abnormal_nodes-Kept :
      (view : ℕ) (infos : List (ℕ × ValidatorInfo))
      → Kept infos
      → Kept (recover_abnormal_nodes view c infos)
  unfolding recover_abnormal_nodes
  recover_abnormal_nodes-Kept view infos k = elim (Bool-cases (view == 0 || ltb view c.view)) [
    | inl early ↦ rw early k
    | inr late ↦
        let full = subst (λ l. All (IsFull bound c.validator_set) l) (sym k.same) sound.full in
        let (same, w) = recover_map view infos full k.weighs in
        rw late (record { same = same ∙ k.same; weighs = w })
  ]

  unstable_infos-Kept :
      (r : Bool) (view : ℕ)
      → (infos : List (ℕ × ValidatorInfo)) × (unstable_infos hash r view c ≡ some infos)
        × Kept infos
  unfolding unstable_infos
  unstable_infos-Kept r view =
      let start = c.last_stable_validator_dynamic_info_map in
      let (infos, e, k) =
        punish_abnormal_nodes-Kept r view start (record { same = refl; weighs = sound.weighs }) in
      (
        recover_abnormal_nodes view c infos,
        rw (unstable_infos, e) refl,
        recover_abnormal_nodes-Kept view infos k,
      )

set_view-steps :
    (hash : List ℕ → ℕ) (r : Bool) (view : ℕ) (c : ChainConfig) (infos : List (ℕ × ValidatorInfo))
    (id : ℕ)
    → unstable_infos hash r view c ≡ some infos
    → cal_primary_id_by_view hash
        (record c { validator_dynamic_info_map = infos; view = view })
        view
        infos
      ≡ some id
    → set_view hash r view c
      ≡ some (record c { validator_dynamic_info_map = infos; view = view; primary_id = id })
unfolding set_view
set_view-steps hash r view c infos id e p = rw (set_view, e, update_primary_id, p) refl

-- Under a sound configuration, setView and setViewWithRecovery do not panic: the view is set, the
-- validators are those of the last stable view, and the primary is one of them and made none of the
-- recent blocks.
pub set_view-primary :
    (hash : List ℕ → ℕ) (bound : ℕ) (c : ChainConfig) (r : Bool) (view : ℕ)
    → IsSound bound c
    → (c' : ChainConfig) × (set_view hash r view c ≡ some c')
      × (c'.view ≡ view)
      × (ids c'.validator_dynamic_info_map ≡ ids c.last_stable_validator_dynamic_info_map)
      × (check_validator c' c'.primary_id ≡ true)
      × (recent_processor c'.tracker c'.primary_id ≡ false)
unfolding check_validator
set_view-primary hash bound c r view sound =
    let (infos, e, k) = unstable_infos-Kept hash bound c sound r view in
    let next : ChainConfig = record c { validator_dynamic_info_map = infos; view = view } in
    let (id, info, p, found, fresh) = primary hash bound c sound view infos next refl refl k in
    (
      record next { primary_id = id },
      set_view-steps hash r view c infos id e p,
      refl,
      k.same,
      rw (check_validator, found) refl,
      fresh,
    )
