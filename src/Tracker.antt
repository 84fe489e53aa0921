-- ===== src/Tracker.antt =====
-- chain_config.go: BlockProcessorTracker, the ring of the blocks made most recently, whose proposers
-- are excluded from the choice of the next one. The set of ids is a list without repetitions.
pub mod Recent
pub mod Window
pub mod Refill
use go_hpc_rbft.Base.{
  ℕ, ◌+◌, ◌%◌, Bool, true, false, not, ◌&&◌, List, [], ◌∷◌, Option, none, some, if◌then◌else◌, ltb,
  leb, ◌-◌, suc, zero, ◌==◌, length, set, replicate, any,
}
use go_hpc_rbft.Base.Words.{◌+ᵤ◌, ◌-ᵤ◌}

-- types.BlockMeta, as far as the tracker reads it.
pub record BlockMeta : Type 0 where
  pub processor_node_id : ℕ
  pub block_num : ℕ

pub record BlockProcessorTracker : Type 0 where
  pub block_processors : List (Option BlockMeta)
  pub recent_block_num : ℕ
  pub next_idx : ℕ
  pub block_processor_id_set : List ℕ
  pub start_block_num : ℕ
  pub end_block_num : ℕ

-- The loop that fills the new set.
unfoldable pub collect_ids : List (Option BlockMeta) → List ℕ
collect_ids [] = []
collect_ids (none ∷ items) = collect_ids items
collect_ids (some b ∷ items) =
    let rest = collect_ids items in
    if any (λ id. id == b.processor_node_id) rest then rest else b.processor_node_id ∷ rest

-- The fields that ResetRecentBlockNum sets before it adds blocks again.
unfoldable pub clear_tracker : BlockProcessorTracker → ℕ → BlockProcessorTracker
clear_tracker t recent = record t {
  block_processors = replicate recent none;
  recent_block_num = recent;
  next_idx = 0;
  block_processor_id_set = [];
  start_block_num = 0;
  end_block_num = 0;
}

-- `none` is a write out of range or a division by zero.
unfoldable pub add_block : BlockProcessorTracker → BlockMeta → Option BlockProcessorTracker
unfolding collect_ids
add_block t b =
    let processors = set t.block_processors t.next_idx (some b) in
    let ending = t.end_block_num +ᵤ 1 in
    let first = t.start_block_num == 0 && t.end_block_num == 0 in
    if not (ltb t.next_idx (length t.block_processors))
    then none
    else if t.recent_block_num == 0
    then none
    else some (record t {
      block_processors = processors;
      block_processor_id_set = collect_ids processors;
      next_idx = (t.next_idx +ᵤ 1) % t.recent_block_num;
      start_block_num =
          if first
          then b.block_num
          else if (ending -ᵤ t.start_block_num) == t.recent_block_num
          then t.start_block_num +ᵤ 1
          else t.start_block_num;
      end_block_num = if first then b.block_num else ending;
    })

-- AddBlock for each block, the first one first.
unfoldable pub add_blocks : BlockProcessorTracker → List BlockMeta → Option BlockProcessorTracker
unfolding add_block
add_blocks t [] = some t
add_blocks t (b ∷ bs) = elim (add_block t b) [ none ↦ none | some t' ↦ add_blocks t' bs ]

-- GetRecentProcessorSet as it is asked by wrfCalPrimaryIDByView.
unfoldable pub recent_processor : BlockProcessorTracker → ℕ → Bool
recent_processor t id = any (λ x. x == id) t.block_processor_id_set

-- oldBlockProcessors[n]: the loop that fills the map keeps the last block of a number.
unfoldable pub old_block : List (Option BlockMeta) → ℕ → Option BlockMeta
old_block [] n = none
old_block (none ∷ items) n = old_block items n
old_block (some b ∷ items) n = elim (old_block items n) [
  | none ↦ if b.block_num == n then some b else none
  | some later ↦ some later
]

-- The block that is added for the number: the old one, or what getBlockFunc returns.
unfoldable pub wanted_block :
    (ℕ → Option BlockMeta) → List (Option BlockMeta) → ℕ → Option BlockMeta
wanted_block get_block olds n = elim (old_block olds n) [ none ↦ get_block n | some b ↦ some b ]

-- The loop over the numbers. `none` is a panic, or that the fuel is used up.
unfoldable pub refill :
    ℕ
    → (ℕ → Option BlockMeta)
    → List (Option BlockMeta)
    → ℕ
    → ℕ
    → BlockProcessorTracker
    → Option BlockProcessorTracker
unfolding add_block wanted_block
refill zero get_block olds i last t = none
refill (suc fuel) get_block olds i last t = elim (leb i last) [
  | false ↦ some t
  | true ↦ elim (wanted_block get_block olds i) [
    | none ↦ none
    | some b ↦ elim (add_block t b) [
      | none ↦ none
      | some t' ↦ refill fuel get_block olds (i +ᵤ 1) last t'
    ]
  ]
]

-- The number that the loop starts from.
unfoldable pub first_recent : ℕ → ℕ → ℕ → ℕ
first_recent epoch_start last recent =
    if ltb ((epoch_start +ᵤ recent) -ᵤ 1) last then (last -ᵤ recent) +ᵤ 1 else epoch_start

-- The fuel is one turn for each number and one for the last test.
unfoldable pub reset_recent_block_num :
    (ℕ → Option BlockMeta) → BlockProcessorTracker → ℕ → ℕ → ℕ → Option BlockProcessorTracker
unfolding clear_tracker refill first_recent
reset_recent_block_num get_block t epoch_start last recent =
    let start = first_recent epoch_start last recent in
    if leb start last
    then refill (last - start + 2) get_block t.block_processors start last (clear_tracker t recent)
    else some (clear_tracker t recent)
