-- ===== src/Persist/View.antt =====
-- persist.go: persistNewView and restoreView. The generated marshalling is a parameter. The fields
-- of a NewView that these functions only pass on are one text.
pub mod Same
use go_hpc_rbft.Base.{
  ℕ, Bool, true, false, List, [], ◌∷◌, Option, none, some, String, if◌then◌else◌, ◌==◌, nat_eq,
}
use go_hpc_rbft.Base.Maps.{insert}
use go_hpc_rbft.Chain.{
  ValidatorInfo, ChainConfig, set_last_stable_view, set_view, update_primary_id,
}

pub record NewView : Type 0 where
  pub view : ℕ
  pub validator_dynamic_info : List ValidatorInfo
  pub passed_on : String

-- lo.SliceToMap by id.
unfoldable pub slice_to_map :
    List ValidatorInfo → List (ℕ × ValidatorInfo) → List (ℕ × ValidatorInfo)
slice_to_map [] m = m
slice_to_map (v ∷ vs) m = slice_to_map vs (insert v.id v m)

-- Both maps take the infos of the message.
unfoldable pub install_infos : NewView → ChainConfig → ChainConfig
unfolding slice_to_map
install_infos nv c = record c {
  validator_dynamic_info_map = slice_to_map nv.validator_dynamic_info [];
  last_stable_validator_dynamic_info_map = slice_to_map nv.validator_dynamic_info [];
}

-- The ways in which persistNewView ends: it stops the node when the message cannot be marshalled,
-- it panics in setView or updatePrimaryID, or it stores the bytes and sets the view.
pub data PersistOutcome : Type 0 where
  stopped panicked : PersistOutcome
  persisted : String → ChainConfig → PersistOutcome

unfoldable pub initial_new_view : NewView
initial_new_view = record { view = 0; validator_dynamic_info = []; passed_on = "" }

module _ (hash : List ℕ → ℕ) (marshal : NewView → Option String) where
  unfoldable pub install_view : Bool → NewView → ChainConfig → Option ChainConfig
  install_view is_recovery nv c =
      elim (set_view hash is_recovery nv.view (set_last_stable_view nv.view c)) [
        | none ↦ none
        | some c' ↦ if nv.view == 0 then some c' else update_primary_id hash (install_infos nv c')
      ]

  unfoldable pub persist_new_view : Bool → NewView → ChainConfig → PersistOutcome
  persist_new_view is_recovery nv c = elim (marshal nv) [
    | none ↦ PersistOutcome.stopped
    | some raw ↦ elim (install_view is_recovery nv c) [
      | none ↦ PersistOutcome.panicked
      | some c' ↦ PersistOutcome.persisted raw c'
    ]
  ]

module _ (hash : List ℕ → ℕ) (unmarshal : String → Option NewView) where
  -- View 0, when no view is stored.
  unfoldable pub restore_initial : ChainConfig → Option (NewView × ChainConfig)
  restore_initial c = elim (set_view hash false 0 (set_last_stable_view 0 c)) [
    | none ↦ none
    | some c' ↦ some (initial_new_view, c')
  ]

  -- The argument is what ReadState returns, none for an error. `none` is a panic; the message is
  -- the new latestNewView.
  unfoldable pub restore_view : Option String → ChainConfig → Option (NewView × ChainConfig)
  restore_view none c = restore_initial c
  restore_view (some raw) c = elim (unmarshal raw) [
    | none ↦ restore_initial c
    | some nv ↦
        if nv.view == 0
        then restore_initial c
        else elim (set_view hash false nv.view
            (set_last_stable_view nv.view (install_infos nv c))) [
              | none ↦ none
              | some c' ↦ some (nv, c')
            ]
  ]
