-- ===== src/Tracker/Window.antt =====
-- AddBlock again and again, and GetRecentProcessorSet after it: the recent proposers.
use go_hpc_rbft.Base.{
  ℕ, zero, suc, ◌<◌, ◌≡◌, ◌↔◌, refl, ap, sym, ◌∙◌, inl, inr, true, List, [], ◌∷◌, Option, none,
  some, arith, ◌==◌, ==_iff, any, get_elem?, Bool-cases, subst, get_elem?-lt,
}
use go_hpc_rbft.Base.Words.{word}
use go_hpc_rbft.Tracker.{
  BlockMeta, BlockProcessorTracker, collect_ids, clear_tracker, add_blocks, recent_processor,
}
use go_hpc_rbft.Tracker.Recent.{Ring, slot, slot_lt, slot_twice, clear_tracker-Ring, add_block-Ring}

-- The blocks in the order of the newest first, before what came earlier.
abbrev pub newest : List BlockMeta → List BlockMeta → List BlockMeta
newest [] before = before
newest (b ∷ bs) before = newest bs (b ∷ before)

abbrev Proposed : List (Option BlockMeta) → ℕ → Type 0
Proposed items id =
    (j : ℕ) × (b : BlockMeta) × (get_elem? items j ≡ some (some b)) × (b.processor_node_id ≡ id)

Proposed-later :
    (o : Option BlockMeta) (items : List (Option BlockMeta)) (id : ℕ)
    → Proposed items id
    → Proposed (o ∷ items) id
Proposed-later o items id (j, b, at, same) = (suc j, b, at, same)

collect_ids_sound :
    (items : List (Option BlockMeta)) (id : ℕ)
    → any (λ x. x == id) (collect_ids items) ≡ true
    → Proposed items id
unfolding collect_ids
collect_ids_sound [] id h = absurd (ground (arith, h))
collect_ids_sound (none ∷ items) id h = Proposed-later none items id (collect_ids_sound items id h)
collect_ids_sound (some b ∷ items) id h = elim (Bool-cases (b.processor_node_id == id)) [
  | inl same ↦ (0, b, refl, (==_iff b.processor_node_id id).0 same)
  | inr other ↦
      Proposed-later (some b) items id (collect_ids_sound items id (ground (arith, h, other)))
]

collect_ids_complete :
    (items : List (Option BlockMeta)) (j : ℕ) (b : BlockMeta)
    → get_elem? items j ≡ some (some b)
    → any (λ x. x == b.processor_node_id) (collect_ids items) ≡ true
unfolding collect_ids
collect_ids_complete [] j b h = absurd (ground (arith, h))
collect_ids_complete (none ∷ items) zero b h = absurd (ground (arith, h))
collect_ids_complete (none ∷ items) (suc j) b h = collect_ids_complete items j b h
collect_ids_complete (some c ∷ items) zero b h =
    let same : c.processor_node_id ≡ b.processor_node_id = ground (arith, h) in
    elim (Bool-cases (any (λ x. x == b.processor_node_id) (collect_ids items))) [
      | inl e ↦ rw (same, e) e
      | inr e ↦ rw (same, e) (rw ((==_iff b.processor_node_id b.processor_node_id).1 refl) refl)
    ]
collect_ids_complete (some c ∷ items) (suc j) b h =
    let rest = collect_ids_complete items j b h in ground (arith, rest)

add_blocks-Ring :
    (size : ℕ) (small : size < word) (bs : List BlockMeta) (t : BlockProcessorTracker)
    (before : List BlockMeta)
    → Ring size before t
    → (t' : BlockProcessorTracker) × (add_blocks t bs ≡ some t') × Ring size (newest bs before) t'
unfolding add_blocks
add_blocks-Ring size small [] t before ring = (t, refl, ring)
add_blocks-Ring size small (b ∷ bs) t before ring =
    let (t₁, e, ring₁) = add_block-Ring size small t b before ring in
    let (t', e', ring') = add_blocks-Ring size small bs t₁ (b ∷ before) ring₁ in
    (t', rw (add_blocks, e) e', ring')

pub recent_processor-Ring :
    (size : ℕ) (bs : List BlockMeta) (t : BlockProcessorTracker) (id : ℕ)
    → Ring size bs t
    → (recent_processor t id ≡ true) ↔ (
        (i : ℕ) × (b : BlockMeta) × (i < size)
        × (get_elem? bs i ≡ some b)
        × (b.processor_node_id ≡ id))
unfolding recent_processor
recent_processor-Ring size bs t id ring = (
  λ h.
      let (j, b, at, same) =
        collect_ids_sound t.block_processors id (ap (any (λ x. x == id)) (sym ring.ids) ∙ h) in
      let inside : j < size =
        omega (arith, get_elem?-lt t.block_processors j (some b) at, ring.sized) in
      let i = slot size t.next_idx j in
      let lt = slot_lt size t.next_idx j ring.inside inside in
      let there =
        sym (ring.held i lt)
        ∙ ap (get_elem? t.block_processors) (slot_twice size t.next_idx j ring.inside inside)
        ∙ at in
      let found : get_elem? bs i ≡ some b = ground (arith, there) in (i, b, lt, found, same),
  λ (i, b, lt, at, same).
      ap (any (λ x. x == id)) ring.ids
      ∙ subst (λ n. any (λ x. x == n) (collect_ids t.block_processors) ≡ true) same
          (collect_ids_complete t.block_processors (slot size t.next_idx i) b
            (ring.held i lt ∙ ap some at)),
)

-- Let the tracker be emptied for a ring of `size` places, `size` being above 0 and below `word`. Then
-- AddBlock succeeds on every block of every list, and afterwards the set of recent proposers has
-- exactly the ids of the nodes that made one of the last `size` blocks of the list.
pub add_blocks-recent_processor :
    (t : BlockProcessorTracker) (size : ℕ) (bs : List BlockMeta)
    → 0 < size
    → size < word
    → (t' : BlockProcessorTracker) × (add_blocks (clear_tracker t size) bs ≡ some t')
      × ((id : ℕ)
          → (recent_processor t' id ≡ true) ↔ (
              (i : ℕ) × (b : BlockMeta) × (i < size)
              × (get_elem? (newest bs []) i ≡ some b)
              × (b.processor_node_id ≡ id)))
add_blocks-recent_processor t size bs pos small =
    let (t', e, ring) =
      add_blocks-Ring size small bs (clear_tracker t size) [] (clear_tracker-Ring t size pos) in
    (t', e, λ id. recent_processor-Ring size (newest bs []) t' id ring)
