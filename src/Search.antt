-- ===== src/Search.antt =====
-- chain_config.go: binarySearch.
pub mod Splits
use go_hpc_rbft.Base.{
  ℕ, zero, suc, ◌+◌, ◌-◌, ◌/◌, Bool, true, false, List, Option, none, some, get_elem?, ltb, ◌==◌,
  length,
}

-- The loop on `left` and `right`. `right` may fall to -1, so `stop` is right + 1: `left <= right`
-- is `left < stop`, `right = mid - 1` is `stop = mid`, and `right - left` is `stop - 1 - left`.
-- `none` is a read out of range, or that the fuel has run out.
unfoldable pub search_loop : List ℕ → ℕ → ℕ → ℕ → ℕ → Option ℕ
search_loop nums target zero left stop = none
search_loop nums target (suc fuel) left stop = elim (ltb left stop) [
  | false ↦ some left
  | true ↦
      let mid = left + (stop - 1 - left) / 2 in
      elim (get_elem? nums mid) [
        | none ↦ none
        | some v ↦ elim (v == target) [
          | true ↦ some mid
          | false ↦ elim (ltb v target) [
            | true ↦ search_loop nums target fuel (mid + 1) stop
            | false ↦ search_loop nums target fuel left mid
          ]
        ]
      ]
]

-- A round shortens the range, so one more round than there are numbers is enough.
unfoldable pub binary_search : List ℕ → ℕ → Option ℕ
unfolding search_loop
binary_search nums target = search_loop nums target (length nums + 1) 0 (length nums)
