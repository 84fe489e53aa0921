-- ===== src/Examples/Nodes.antt =====
-- Status words, the search and the choice of a proposer at concrete inputs.
use mathlib.Core.List.{Permᴰ}
use go_hpc_rbft.Base.{
  ℕ, zero, suc, ◌+◌, ◌%◌, ◌<◌, ◌≡◌, refl, ◌↔◌, true, not, ◌&&◌, ◌||◌, List, [], ◌∷◌, ◌++◌, some,
  arith, get_elem?, ◌≤◌,
}
use go_hpc_rbft.Search.{binary_search}
use go_hpc_rbft.Search.Splits.{IsSorted, Splits, binary_search-Splits}
use go_hpc_rbft.Wrf.{Weighted, insert_by_id, sort_by_id, wrf_select_node_by_voting_power}
use go_hpc_rbft.Wrf.Order.{wrf_select_node_by_voting_power-Perm}
use go_hpc_rbft.Wrf.Bands.{
  Chosen, wrf_select_node_by_voting_power-Chosen, wrf_select_node_by_voting_power-last_unit,
}
use go_hpc_rbft.Base.Words.{word}
use go_hpc_rbft.Tracker.Refill.{reset_recent_block_num-recent_processor}
use go_hpc_rbft.Tracker.{
  wanted_block, old_block, reset_recent_block_num, BlockMeta, BlockProcessorTracker, clear_tracker,
  add_blocks, recent_processor,
}
use go_hpc_rbft.Tracker.Window.{newest, add_blocks-recent_processor}
use go_hpc_rbft.Status.{
  StatusManager, in_view_change, pending, skip_in_progress, normal, byzantine, position, word_has,
  bit, atomic_has_bit, has_bit, on, off, atomic_on, atomic_off, is_normal, maybe_set_normal,
}
use go_hpc_rbft.Status.Modes.{
  listed, off-on, is_normal-maybe_set_normal, maybe_set_normal_in_transfer,
}
use go_hpc_rbft.Status.Cas.{replay, cas_loop, cas_loop_linearizable}

two_sums : List ℕ
two_sums = 2 ∷ 5 ∷ []

two_sums-IsSorted : IsSorted two_sums
unfolding two_sums
two_sums-IsSorted zero zero a b h e f = ground arith
two_sums-IsSorted zero (suc zero) a b h e f = ground arith
two_sums-IsSorted zero (suc (suc j)) a b h e f = ground arith
two_sums-IsSorted (suc zero) zero a b h e f = ground arith
two_sums-IsSorted (suc zero) (suc zero) a b h e f = ground arith
two_sums-IsSorted (suc zero) (suc (suc j)) a b h e f = ground arith
two_sums-IsSorted (suc (suc i)) j a b h e f = ground arith

binary_search-Splits_example : (r : ℕ) × (binary_search two_sums 3 ≡ some r) × Splits two_sums 3 r
binary_search-Splits_example = binary_search-Splits two_sums 3 two_sums-IsSorted

-- A hash that always reads as 4.
abbrev constant_hash : List ℕ → ℕ
constant_hash seed = 4

abbrev voter : ℕ → ℕ → Weighted
voter i p = record { id = i; power = p }

wrf_select_node_by_voting_power-Perm_example :
    wrf_select_node_by_voting_power constant_hash [] (voter 2 3 ∷ voter 1 2 ∷ [])
    ≡ wrf_select_node_by_voting_power constant_hash [] (voter 1 2 ∷ voter 2 3 ∷ [])
wrf_select_node_by_voting_power-Perm_example =
    wrf_select_node_by_voting_power-Perm constant_hash [] ∣ Permᴰ.swap refl refl ∣₁
      (((λ e. omega (arith, e)), tt), (tt, tt))

wrf_select_node_by_voting_power-Chosen_example :
    Chosen
      (sort_by_id (voter 2 3 ∷ voter 1 2 ∷ []))
      (constant_hash [] % 5)
      (wrf_select_node_by_voting_power constant_hash [] (voter 2 3 ∷ voter 1 2 ∷ []))
wrf_select_node_by_voting_power-Chosen_example =
    wrf_select_node_by_voting_power-Chosen constant_hash [] (voter 2 3 ∷ voter 1 2 ∷ [])
      (omega arith, (omega arith, tt)) (omega arith) (omega arith)

sorted_voters : sort_by_id (voter 2 1 ∷ voter 1 2 ∷ []) ≡ (voter 1 2 ∷ []) ++ (voter 2 1 ∷ [])
unfolding sort_by_id insert_by_id
sorted_voters = refl

wrf_select_node_by_voting_power-last_unit_example :
    (i : ℕ) × (v : Weighted) × (i < 1)
    × (get_elem? (sort_by_id (voter 2 1 ∷ voter 1 2 ∷ [])) i ≡ some v)
    × (wrf_select_node_by_voting_power constant_hash [] (voter 2 1 ∷ voter 1 2 ∷ []) ≡ some v.id)
wrf_select_node_by_voting_power-last_unit_example =
    wrf_select_node_by_voting_power-last_unit constant_hash [] (voter 2 1 ∷ voter 1 2 ∷ [])
      (voter 1 2 ∷ []) (voter 2 1) (omega arith, (omega arith, tt)) (omega arith) sorted_voters
      (omega arith) refl

-- Pending in the atomic word, Normal in the other.
abbrev starting : StatusManager
starting = record { status = 2; atomic_status = 64 }

abbrev quiet : StatusManager
quiet = record { status = 0; atomic_status = 0 }

off-on_example :
    (has_bit (off (on starting (byzantine ∷ [])) (normal ∷ [])) byzantine ≡ (
      not (listed (normal ∷ []) byzantine)
      && (listed (byzantine ∷ []) byzantine || has_bit starting byzantine)))
    × (atomic_has_bit (atomic_off (atomic_on starting (byzantine ∷ [])) (normal ∷ [])) byzantine ≡ (
        not (listed (normal ∷ []) byzantine)
        && (listed (byzantine ∷ []) byzantine || atomic_has_bit starting byzantine)))
    × ((off (on starting (byzantine ∷ [])) (normal ∷ [])).atomic_status ≡ 64)
    × ((atomic_off (atomic_on starting (byzantine ∷ [])) (normal ∷ [])).status ≡ 2)
    × (atomic_has_bit (on starting (byzantine ∷ [])) byzantine ≡ atomic_has_bit starting byzantine)
off-on_example = off-on starting (byzantine ∷ []) (normal ∷ []) byzantine

is_normal-maybe_set_normal_example : is_normal (maybe_set_normal starting) ≡ (
    is_normal starting
    || not (
        atomic_has_bit starting in_view_change
        || (atomic_has_bit starting pending || atomic_has_bit starting skip_in_progress)))
is_normal-maybe_set_normal_example = is_normal-maybe_set_normal starting

maybe_set_normal_in_transfer_example :
    (is_normal (maybe_set_normal (on quiet (skip_in_progress ∷ []))) ≡ true)
    × (has_bit (maybe_set_normal (on quiet (skip_in_progress ∷ []))) skip_in_progress ≡ true)
unfolding atomic_has_bit word_has position bit
maybe_set_normal_in_transfer_example = maybe_set_normal_in_transfer quiet refl refl refl

cas_loop_linearizable_example :
    (before : List (ℕ → ℕ)) × (after : List (ℕ → ℕ)) × (before ++ after ≡ (λ w. w + 2) ∷ [])
    × (cas_loop (λ w. w + 1) ((λ w. w + 2) ∷ []) 0 ≡ replay after (replay before 0 + 1))
cas_loop_linearizable_example = cas_loop_linearizable (λ w. w + 1) ((λ w. w + 2) ∷ []) 0

abbrev empty_tracker : BlockProcessorTracker
empty_tracker = record {
  block_processors = [];
  recent_block_num = 0;
  next_idx = 0;
  block_processor_id_set = [];
  start_block_num = 0;
  end_block_num = 0;
}

abbrev three_blocks : List BlockMeta
three_blocks =
    record { processor_node_id = 1; block_num = 5 }
    ∷ record { processor_node_id = 2; block_num = 6 }
    ∷ record { processor_node_id = 3; block_num = 7 }
    ∷ []

add_blocks-recent_processor_example :
    (t' : BlockProcessorTracker) × (add_blocks (clear_tracker empty_tracker 2) three_blocks
      ≡ some t')
    × ((id : ℕ)
        → (recent_processor t' id ≡ true) ↔ (
            (i : ℕ) × (b : BlockMeta) × (i < 2)
            × (get_elem? (newest three_blocks []) i ≡ some b)
            × (b.processor_node_id ≡ id)))
add_blocks-recent_processor_example =
    add_blocks-recent_processor empty_tracker 2 three_blocks (omega arith) (ground (arith, word))

abbrev block_in_turn : ℕ → BlockMeta
block_in_turn n = record { processor_node_id = n % 4; block_num = n }

stored_block : (n : ℕ) → wanted_block (λ m. some (block_in_turn m)) [] n ≡ some (block_in_turn n)
unfolding wanted_block old_block
stored_block n = refl

reset_recent_block_num-recent_processor_example :
    (t' : BlockProcessorTracker) × (reset_recent_block_num
        (λ m. some (block_in_turn m))
        empty_tracker
        1
        9
        3
      ≡ some t')
    × ((id : ℕ)
        → (recent_processor t' id ≡ true) ↔ (
            (n : ℕ) × (1 ≤ n) × (n ≤ 9) × (9 < n + 3) × ((block_in_turn n).processor_node_id ≡ id)))
reset_recent_block_num-recent_processor_example =
    reset_recent_block_num-recent_processor block_in_turn (λ m. some (block_in_turn m))
      empty_tracker 1 9 3 (omega arith) (ground (arith, word)) (ground (arith, word))
      (λ n low high lt. stored_block n)
