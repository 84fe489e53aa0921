-- ===== src/Persist/View/Same.antt =====
-- A replica restarts in the view that it persisted.
use go_hpc_rbft.Base.{
  ℕ, ◌≡◌, ◌≢◌, refl, sym, ap, ◌∙◌, Bool, false, true, List, [], ◌∷◌, Option, some, String, arith,
  All, map, ltb, ◌==◌, nat_eq, Option-cases, Bool-cases, inl, inr, ◌||◌,
}
use go_hpc_rbft.Base.Maps.{insert}
use go_hpc_rbft.Chain.{
  ValidatorInfo, ChainConfig, set_last_stable_view, set_view, update_primary_id, unstable_infos,
  punish_abnormal_nodes, recover_abnormal_nodes, recover_info,
}
use go_hpc_rbft.Chain.Paths.{moved, set_view-inverse}
use go_hpc_rbft.Persist.View.{
  NewView, PersistOutcome, slice_to_map, install_infos, install_view, persist_new_view,
  restore_view,
}

-- The info of the validator is not due to get its power back in view v.
abbrev pub IsSettled : ChainConfig → ℕ → ValidatorInfo → Type 0
IsSettled c v info = recover_info c v info.id info ≡ info

module _ (c : ChainConfig) (v : ℕ) where
  abbrev SettledAt : ℕ × ValidatorInfo → Type 0
  SettledAt (id, info) = recover_info c v id info ≡ info

  insert-All :
      (info : ValidatorInfo) (m : List (ℕ × ValidatorInfo))
      → IsSettled c v info
      → All SettledAt m
      → All SettledAt (insert info.id info m)
  unfolding insert
  insert-All info [] h hs = (h, tt)
  insert-All info ((j, w) ∷ m) h (k, hs) = elim (Bool-cases (j == info.id)) [
    | inl hit ↦ rw hit (h, hs)
    | inr miss ↦ rw miss (k, insert-All info m h hs)
  ]

  slice_to_map-All :
      (infos : List ValidatorInfo) (m : List (ℕ × ValidatorInfo))
      → All (IsSettled c v) infos
      → All SettledAt m
      → All SettledAt (slice_to_map infos m)
  unfolding slice_to_map
  slice_to_map-All [] m h k = k
  slice_to_map-All (info ∷ infos) m (h, hs) k =
      slice_to_map-All infos (insert info.id info m) hs (insert-All info m h k)

  map-settled :
      (m : List (ℕ × ValidatorInfo))
      → All SettledAt m
      → map (λ (x : ℕ × ValidatorInfo). (x.0, recover_info c v x.0 x.1)) m ≡ m
  map-settled [] h = refl
  map-settled ((id, info) ∷ m) (h, hs) = cc (h, map-settled m hs)

  recover_settled :
      (m : List (ℕ × ValidatorInfo)) → All SettledAt m → recover_abnormal_nodes v c m ≡ m
  unfolding recover_abnormal_nodes
  recover_settled m h = elim (Bool-cases (v == 0 || ltb v c.view)) [
    | inl skip ↦ rw skip refl
    | inr go ↦ rw go (map-settled m h)
  ]

-- The configuration of a replica that restarts: of what setView writes nothing is left.
abbrev pub restarted :
    ChainConfig → List (ℕ × ValidatorInfo) → List (ℕ × ValidatorInfo) → ℕ → ChainConfig
restarted c infos stable_infos primary = record c {
  validator_dynamic_info_map = infos;
  last_stable_validator_dynamic_info_map = stable_infos;
  last_stable_view = 0;
  view = 0;
  primary_id = primary;
}

-- The configuration in the view of the message.
abbrev in_new_view : NewView → ChainConfig → ℕ → ChainConfig
in_new_view nv c primary = record c {
  validator_dynamic_info_map = slice_to_map nv.validator_dynamic_info [];
  last_stable_validator_dynamic_info_map = slice_to_map nv.validator_dynamic_info [];
  last_stable_view = nv.view;
  view = nv.view;
  primary_id = primary;
}

module _ (hash : List ℕ → ℕ) (nv : NewView) (c : ChainConfig) where
  same_primary :
      (p q : ℕ)
      → update_primary_id hash (in_new_view nv c p) ≡ update_primary_id hash (in_new_view nv c q)
  unfolding update_primary_id
  same_primary p q = refl

  -- The restarted replica, when the infos of the message are installed.
  unfoldable reinstalled : List (ℕ × ValidatorInfo) → List (ℕ × ValidatorInfo) → ℕ → ChainConfig
  unfolding set_last_stable_view install_infos
  reinstalled d e p = set_last_stable_view nv.view (install_infos nv (restarted c d e p))

  module _ (d e : List (ℕ × ValidatorInfo)) (p : ℕ) where
    recover-reinstalled :
        All (IsSettled c nv.view) nv.validator_dynamic_info
        → recover_abnormal_nodes nv.view
            (reinstalled d e p)
            (slice_to_map nv.validator_dynamic_info [])
          ≡ slice_to_map nv.validator_dynamic_info []
    unfolding reinstalled recover_info
    recover-reinstalled settled =
        let again = reinstalled d e p in
        recover_settled again nv.view (slice_to_map nv.validator_dynamic_info [])
          (slice_to_map-All again nv.view nv.validator_dynamic_info [] settled tt)

    unstable_infos-reinstalled :
        All (IsSettled c nv.view) nv.validator_dynamic_info
        → unstable_infos hash false nv.view (reinstalled d e p)
          ≡ some (slice_to_map nv.validator_dynamic_info [])
    unfolding unstable_infos punish_abnormal_nodes reinstalled
    unstable_infos-reinstalled settled =
        let stable : (nv.view == 0 || (nv.view == nv.view || ltb nv.view 0)) ≡ true =
          ground arith in
        rw (unstable_infos, stable) (ap some (recover-reinstalled settled))

    set_view-reinstalled :
        All (IsSettled c nv.view) nv.validator_dynamic_info
        → set_view hash false nv.view (reinstalled d e p)
          ≡ update_primary_id hash (in_new_view nv c p)
    unfolding set_view reinstalled
    set_view-reinstalled settled = rw (set_view, unstable_infos-reinstalled settled) refl

  install_view-inverse :
      (marshal : NewView → Option String) (r : Bool) (c' : ChainConfig)
      → nv.view ≢ 0
      → install_view hash marshal r nv c ≡ some c'
      → (q : ℕ) × (update_primary_id hash (in_new_view nv c q) ≡ some c')
  unfolding install_view moved install_infos set_last_stable_view
  install_view-inverse marshal r c' ne h =
      let start = set_last_stable_view nv.view c in
      let later : (nv.view == 0) ≡ false = ground (arith, ne) in
      elim (Option-cases (set_view hash r nv.view start)) [
        | inl x ↦ absurd (ground (arith, h, x))
        | inr (c₁, x) ↦
            let (d, q, same) = set_view-inverse hash r nv.view start c₁ x in
            let h' : update_primary_id hash (install_infos nv c₁) ≡ some c' =
              rw (install_view, x, later) at h in
            (q, ap (λ k. update_primary_id hash (install_infos nv k)) (sym same) ∙ h')
      ]

  persist_new_view-inverse :
      (marshal : NewView → Option String) (r : Bool) (c' : ChainConfig) (raw : String)
      → persist_new_view hash marshal r nv c ≡ PersistOutcome.persisted raw c'
      → install_view hash marshal r nv c ≡ some c'
  unfolding persist_new_view
  persist_new_view-inverse marshal r c' raw h = elim (Option-cases (marshal nv)) [
    | inl x ↦ absurd (ground (arith, h, x))
    | inr (raw', x) ↦ elim (Option-cases (install_view hash marshal r nv c)) [
      | inl y ↦ absurd (ground (arith, h, x, y))
      | inr (c₁, y) ↦ ground (arith, h, x, y)
    ]
  ]

-- Let persistNewView return without a panic for a message of a view above 0, whose bytes unmarshal
-- to the message, and in which no validator is due to get its power back in this view. When the
-- replica restarts later, with nothing left of what setView writes, restoreView gives it the same
-- configuration as before: validator infos, last stable infos and view, view and primary.
pub restore_view-persist_new_view :
    (hash : List ℕ → ℕ) (marshal : NewView → Option String) (unmarshal : String → Option NewView)
    (r : Bool) (nv : NewView) (c c' : ChainConfig) (raw : String) (d e : List (ℕ × ValidatorInfo))
    (p : ℕ)
    → persist_new_view hash marshal r nv c ≡ PersistOutcome.persisted raw c'
    → unmarshal raw ≡ some nv
    → nv.view ≢ 0
    → All (IsSettled c nv.view) nv.validator_dynamic_info
    → restore_view hash unmarshal (some raw) (restarted c d e p) ≡ some (nv, c')
unfolding restore_view reinstalled
restore_view-persist_new_view hash marshal unmarshal r nv c c' raw d e p h back ne settled =
    let later : (nv.view == 0) ≡ false = ground (arith, ne) in
    let installed = persist_new_view-inverse hash nv c marshal r c' raw h in
    let (q, primary) = install_view-inverse hash nv c marshal r c' ne installed in
    let again =
      set_view-reinstalled hash nv c d e p settled ∙ same_primary hash nv c p q ∙ primary in
    rw (restore_view, back, later, again) refl
