-- ===== src/Wrf.antt =====
-- chain_config.go: wrfSelectNodeByVotingPower, the weighted choice of a proposer. `hash seed` is
-- the integer that big.Int reads from the SHA-256 digest of the seed; SHA-256 is a parameter. A
-- voting power is the uint64 pattern of its int64.
pub mod Order
pub mod Bands
use go_hpc_rbft.Base.{
  ℕ, ◌+◌, ◌-◌, ◌%◌, ◌^◌, Bool, List, [], ◌∷◌, Option, none, some, if◌then◌else◌, ltb, ◌==◌,
  get_elem?,
}
use go_hpc_rbft.Base.Words.{word, ◌+ᵤ◌}
use go_hpc_rbft.Search.{binary_search}

-- The fields of ValidatorInfo that the choice fills in.
pub record Weighted : Type 0 where
  pub id : ℕ
  pub power : ℕ

-- sort.Slice by ID.
unfoldable pub insert_by_id : Weighted → List Weighted → List Weighted
insert_by_id w [] = w ∷ []
insert_by_id w (x ∷ xs) = if ltb w.id x.id then w ∷ x ∷ xs else x ∷ insert_by_id w xs

unfoldable pub sort_by_id : List Weighted → List Weighted
unfolding insert_by_id
sort_by_id [] = []
sort_by_id (x ∷ xs) = insert_by_id x (sort_by_id xs)

-- `totalVotingPower += power; return totalVotingPower`, from a running total.
unfoldable pub cumulative : ℕ → List Weighted → List ℕ
cumulative total [] = []
cumulative total (x ∷ xs) = (total +ᵤ x.power) ∷ cumulative (total +ᵤ x.power) xs

unfoldable pub total_power : ℕ → List Weighted → ℕ
total_power total [] = total
total_power total (x ∷ xs) = total_power (total +ᵤ x.power) xs

-- `seed.Mod(seed, big.NewInt(int64(total)))`: Mod is Euclidean and panics at 0.
unfoldable pub big_mod : ℕ → ℕ → Option ℕ
big_mod seed total =
    if total == 0
    then none
    else if ltb total (2 ^ 63)
    then some (seed % total)
    else some (seed % (word - total))

-- `none` is a panic.
unfoldable pub pick : List Weighted → ℕ → Option ℕ
unfolding cumulative
pick node_set selected = elim (binary_search (cumulative 0 node_set) selected) [
  | none ↦ none
  | some i ↦ elim (get_elem? node_set i) [ none ↦ none | some w ↦ some w.id ]
]

module _ (hash : List ℕ → ℕ) where
  unfoldable pub wrf_select_node_by_voting_power : List ℕ → List Weighted → Option ℕ
  unfolding sort_by_id total_power big_mod pick
  wrf_select_node_by_voting_power seed nodes =
      let node_set = sort_by_id nodes in
      elim (big_mod (hash seed) (total_power 0 node_set)) [
        | none ↦ none
        | some selected ↦ pick node_set selected
      ]
