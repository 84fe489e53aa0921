-- ===== src/Tracker/Recent.antt =====
-- The tracker holds exactly the last blocks, as many as its ring has places.
use native.Mathlib.Nat.{mod-eq_of_lt, mod_self}
use go_hpc_rbft.Base.{
  ℕ, zero, suc, ◌+◌, ◌-◌, ◌%◌, ◌<◌, ◌≡◌, ◌≢◌, refl, ap, sym, ◌∙◌, inl, inr, List, [], ◌∷◌, Option,
  none, some, arith, if◌then◌else◌, ltb, ◌==◌, ==_iff, length, set, replicate, get_elem?,
  Bool-cases, Option-cases, length-set, get_elem?-set_self, get_elem?-set_ne, get_elem?-replicate,
  length-replicate,
}
use go_hpc_rbft.Base.Words.{word, ◌+ᵤ◌}
use go_hpc_rbft.Tracker.{BlockMeta, BlockProcessorTracker, collect_ids, clear_tracker, add_block}

-- Where the i-th newest block stands, when the next one goes to `next`.
abbrev pub slot : ℕ → ℕ → ℕ → ℕ
slot size next i = if ltb i next then next - 1 - i else next + size - 1 - i

wrap :
    (next size : ℕ)
    → next < size
    → size < word
    → (next +ᵤ 1) % size ≡ (if suc next == size then 0 else suc next)
wrap next size lt small =
    let exact : next +ᵤ 1 ≡ suc next = omega arith in
    ap (λ n. n % size) exact ∙ elim (Bool-cases (suc next == size)) [
      | inl e ↦ rw e (ap (λ n. n % size) ((==_iff (suc next) size).0 e) ∙ mod_self size)
      | inr e ↦ rw e (mod-eq_of_lt (ground arith))
    ]

pub slot_lt : (size next i : ℕ) → next < size → i < size → slot size next i < size
slot_lt size next i h k = ground arith

pub slot_twice : (size next j : ℕ) → next < size → j < size → slot size next (slot size next j) ≡ j
slot_twice size next j h k = ground arith

-- The ring with the blocks `bs`, the newest first: a place holds one of the last blocks, or none
-- while there are fewer.
pub record Ring (size : ℕ) (bs : List BlockMeta) (t : BlockProcessorTracker) : Type 0 where
  pub sized : length t.block_processors ≡ size
  pub recent : t.recent_block_num ≡ size
  pub inside : t.next_idx < size
  pub held :
      (i : ℕ)
      → i < size
      → get_elem? t.block_processors (slot size t.next_idx i) ≡ some (get_elem? bs i)
  pub ids : t.block_processor_id_set ≡ collect_ids t.block_processors

collect_ids-replicate : (n : ℕ) → collect_ids (replicate n none) ≡ []
unfolding collect_ids
collect_ids-replicate zero = refl
collect_ids-replicate (suc n) = collect_ids-replicate n

pub clear_tracker-Ring :
    (t : BlockProcessorTracker) (size : ℕ) → 0 < size → Ring size [] (clear_tracker t size)
unfolding clear_tracker
clear_tracker-Ring t size pos = record {
  sized = length-replicate size none;
  recent = refl;
  inside = pos;
  held = λ i h. get_elem?-replicate size (slot size 0 i) none (slot_lt size 0 i pos h);
  ids = sym (collect_ids-replicate size);
}

module _ (size : ℕ) (small : size < word) where
  shifted :
      (items : List (Option BlockMeta)) (next i : ℕ) (b : BlockMeta) (bs : List BlockMeta)
      → length items ≡ size
      → next < size
      → ((j : ℕ) → j < size → get_elem? items (slot size next j) ≡ some (get_elem? bs j))
      → i < size
      → get_elem? (set items next (some b)) (slot size (if suc next == size then 0 else suc next) i)
        ≡ some (get_elem? (b ∷ bs) i)
  shifted items next zero b bs len lt held h =
      let here : slot size (if suc next == size then 0 else suc next) 0 ≡ next = ground arith in
      ap (get_elem? (set items next (some b))) here
      ∙ get_elem?-set_self items next (some b) (omega arith)
  shifted items next (suc i) b bs len lt held h =
      let there : slot size (if suc next == size then 0 else suc next) (suc i) ≡ slot size next i =
        ground arith in
      let other : next ≢ slot size next i = λ e. ground (arith, e) in
      ap (get_elem? (set items next (some b))) there
      ∙ get_elem?-set_ne items next (slot size next i) (some b) other
      ∙ held i (omega arith)

  pub add_block-Ring :
      (t : BlockProcessorTracker) (b : BlockMeta) (bs : List BlockMeta)
      → Ring size bs t
      → (t' : BlockProcessorTracker) × (add_block t b ≡ some t') × Ring size (b ∷ bs) t'
  unfolding add_block
  add_block-Ring t b bs ring = elim (Option-cases (add_block t b)) [
    | inl e ↦ absurd (ground (arith, ring.sized, ring.recent, ring.inside))
    | inr (t', e) ↦
        let items : t'.block_processors ≡ set t.block_processors t.next_idx (some b) =
          ground arith in
        let recent : t'.recent_block_num ≡ t.recent_block_num = ground arith in
        let ids : t'.block_processor_id_set
            ≡ collect_ids (set t.block_processors t.next_idx (some b)) =
          ground arith in
        let next : t'.next_idx ≡ (t.next_idx +ᵤ 1) % t.recent_block_num = ground arith in
        let next' =
          next
          ∙ ap (λ n. (t.next_idx +ᵤ 1) % n) ring.recent
          ∙ wrap t.next_idx size ring.inside small in
        (
          t',
          e,
          record {
            sized =
                ap length items ∙ length-set t.block_processors t.next_idx (some b) ∙ ring.sized;
            recent = recent ∙ ring.recent;
            inside = ground (arith, next', ring.inside);
            held = λ i h.
                rw (items, next')
                  (shifted t.block_processors t.next_idx i b bs ring.sized ring.inside ring.held h);
            ids = ids ∙ ap collect_ids (sym items);
          },
        )
  ]
