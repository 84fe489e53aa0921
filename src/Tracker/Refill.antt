-- ===== src/Tracker/Refill.antt =====
-- ResetRecentBlockNum: the tracker holds the blocks of the epoch among the last ones.
use go_hpc_rbft.Base.{
  ℕ, zero, suc, ◌+◌, ◌-◌, ◌≤◌, ◌<◌, ◌≡◌, ◌↔◌, refl, ap, sym, ◌∙◌, inl, inr, true, List, [], ◌∷◌,
  Option, some, arith, ltb, leb, subst, get_elem?, Bool-cases,
}
use go_hpc_rbft.Base.Words.{word, ◌+ᵤ◌, ◌-ᵤ◌}
use go_hpc_rbft.Tracker.{
  BlockMeta, BlockProcessorTracker, clear_tracker, add_block, recent_processor, wanted_block,
  refill, first_recent, reset_recent_block_num,
}
use go_hpc_rbft.Tracker.Recent.{Ring, clear_tracker-Ring, add_block-Ring}
use go_hpc_rbft.Tracker.Window.{recent_processor-Ring}

refill_step :
    (fuel : ℕ) (get_block : ℕ → Option BlockMeta) (olds : List (Option BlockMeta)) (i last : ℕ)
    (b : BlockMeta) (t t' : BlockProcessorTracker)
    → leb i last ≡ true
    → wanted_block get_block olds i ≡ some b
    → add_block t b ≡ some t'
    → refill (suc fuel) get_block olds i last t ≡ refill fuel get_block olds (i +ᵤ 1) last t'
unfolding refill
refill_step fuel get_block olds i last b t t' e w a = rw (refill, e, w, a) refl

module _ (block : ℕ → BlockMeta) (start : ℕ) where
  -- The blocks from `start` on, so many of them, the newest first.
  abbrev pub backwards : ℕ → List BlockMeta
  backwards zero = []
  backwards (suc k) = block (start + k) ∷ backwards k

  backwards_inside :
      (k i : ℕ) (b : BlockMeta)
      → get_elem? (backwards k) i ≡ some b
      → (i < k) × (block (start + (k - 1 - i)) ≡ b)
  backwards_inside zero i b h = absurd (ground (arith, h))
  backwards_inside (suc k) zero b h = (omega arith, ground (arith, h))
  backwards_inside (suc k) (suc i) b h =
      let (lt, e) = backwards_inside k i b h in
      (omega (arith, lt), ap (λ n. block (start + n)) (omega (arith, lt)) ∙ e)

  backwards_at : (k i : ℕ) → i < k → get_elem? (backwards k) i ≡ some (block (start + (k - 1 - i)))
  backwards_at zero i h = absurd (omega (arith, h))
  backwards_at (suc k) zero h = ap (λ n. some (block (start + n))) (omega arith)
  backwards_at (suc k) (suc i) h =
      backwards_at k i (omega arith) ∙ ap (λ n. some (block (start + n))) (omega arith)

  backwards_window :
      (last recent id : ℕ)
      → ((i : ℕ) × (b : BlockMeta) × (i < recent)
          × (get_elem? (backwards (suc last - start)) i ≡ some b)
          × (b.processor_node_id ≡ id))
        ↔ ((n : ℕ) × (start ≤ n)
            × (n ≤ last)
            × (last < n + recent)
            × ((block n).processor_node_id ≡ id))
  backwards_window last recent id = (
    λ (i, b, lt, at, same).
        let (inside, e) = backwards_inside (suc last - start) i b at in
        (
          start + (suc last - start - 1 - i),
          omega arith,
          omega (arith, inside),
          omega (arith, inside),
          ap (λ x. x.processor_node_id) e ∙ same,
        ),
    λ (n, low, high, lt, same).
        let at = backwards_at (suc last - start) (last - n) (omega arith) in
        let place : start + (suc last - start - 1 - (last - n)) ≡ n = omega arith in
        (last - n, block n, omega arith, at ∙ ap (λ m. some (block m)) place, same),
  )

  module _ (size last : ℕ) (small : size < word) (bound : suc last < word)
      (get_block : ℕ → Option BlockMeta) (olds : List (Option BlockMeta))
      (there : (n : ℕ)
        → start ≤ n
        → n ≤ last
        → wanted_block get_block olds n ≡ some (block n)) where
    refill-Ring :
        (fuel k : ℕ) (t : BlockProcessorTracker)
        → fuel + (start + k) ≡ last + 2
        → start + k ≤ suc last
        → Ring size (backwards k) t
        → (t' : BlockProcessorTracker) × (refill fuel get_block olds (start + k) last t ≡ some t')
          × Ring size (backwards (suc last - start)) t'
    unfolding refill
    refill-Ring zero k t enough le ring = absurd (omega arith)
    refill-Ring (suc fuel) k t enough le ring = elim (Bool-cases (leb (start + k) last)) [
      | inl e ↦
          let (t₁, e₁, ring₁) =
            add_block-Ring size small t (block (start + k)) (backwards k) ring in
          let next : (start + k) +ᵤ 1 ≡ start + suc k = ground (arith, e) in
          let (t', e', ring') =
            refill-Ring fuel (suc k) t₁ (omega arith) (ground (arith, e)) ring₁ in
          let step =
            refill_step fuel get_block olds (start + k) last (block (start + k)) t t₁ e
              (there (start + k) (omega arith) (ground (arith, e))) e₁ in
          (t', step ∙ ap (λ n. refill fuel get_block olds n last t₁) next ∙ e', ring')
      | inr e ↦
          let done : k ≡ suc last - start = ground (arith, e) in
          (t, rw (refill, e) refl, subst (λ n. Ring size (backwards n) t) done ring)
    ]

first_recent_lem :
    (epoch_start last recent : ℕ)
    → 0 < recent
    → epoch_start + recent < word
    → suc last < word
    → (epoch_start ≤ first_recent epoch_start last recent)
      × ((n : ℕ)
          → n ≤ last
          → first_recent epoch_start last recent ≤ n ↔ ((epoch_start ≤ n) × (last < n + recent)))
unfolding first_recent
first_recent_lem epoch_start last recent pos small bound =
    let over : (epoch_start +ᵤ recent) -ᵤ 1 ≡ epoch_start + recent - 1 = omega arith in
    elim (Bool-cases (ltb (epoch_start + recent - 1) last)) [
      | inl e ↦
          let from : (last -ᵤ recent) +ᵤ 1 ≡ last + 1 - recent = ground (arith, e) in
          rw (over, e, from)
            (
              ground (arith, e),
              λ n h. (λ le. (ground (arith, e), ground (arith, e)), λ (le, lt). ground (arith, e)),
            )
      | inr e ↦ rw (over, e) (omega arith, λ n h. (λ le. (le, ground (arith, e)), λ (le, lt). le))
    ]

-- Let the ring size be above 0, and neither the last number plus 1 nor the first number of the epoch
-- plus the ring size reach 2 ^ 64; let the old ring or getBlockFunc give a block for each number of the
-- epoch among the last ones, as many as the ring has places. Then ResetRecentBlockNum succeeds, and
-- the set of recent proposers has exactly the ids of the nodes that made one of these blocks.
pub reset_recent_block_num-recent_processor :
    (block : ℕ → BlockMeta) (get_block : ℕ → Option BlockMeta) (t : BlockProcessorTracker)
    (epoch_start last recent : ℕ)
    → 0 < recent
    → suc last < word
    → epoch_start + recent < word
    → ((n : ℕ)
        → epoch_start ≤ n
        → n ≤ last
        → last < n + recent
        → wanted_block get_block t.block_processors n ≡ some (block n))
    → (t' : BlockProcessorTracker) × (reset_recent_block_num get_block t epoch_start last recent
        ≡ some t')
      × ((id : ℕ)
          → (recent_processor t' id ≡ true) ↔ (
              (n : ℕ) × (epoch_start ≤ n)
              × (n ≤ last)
              × (last < n + recent)
              × ((block n).processor_node_id ≡ id)))
unfolding reset_recent_block_num
reset_recent_block_num-recent_processor block get_block t epoch_start last recent pos bound small
      there =
    let start = first_recent epoch_start last recent in
    let (low, window) = first_recent_lem epoch_start last recent pos small bound in
    let given : (n : ℕ)
        → start ≤ n
        → n ≤ last
        → wanted_block get_block t.block_processors n ≡ some (block n) =
      λ n le le'. let (a, b) = (window n le').0 le in there n a le' b in
    let cleared = clear_tracker-Ring t recent pos in
    elim (Bool-cases (leb start last)) [
      | inl e ↦
          let origin : start + 0 ≡ start = omega arith in
          let (t', e', ring) =
            refill-Ring block start recent last (omega arith) bound get_block t.block_processors
              given (last - start + 2) 0 (clear_tracker t recent) (ground (arith, e))
              (ground (arith, e)) cleared in
          (
            t',
            rw e (
                ap
                  (λ n.
                    refill (last - start + 2) get_block t.block_processors n last
                      (clear_tracker t recent))
                  (sym origin)
                ∙ e'),
            λ id.
                let (to, back) =
                  recent_processor-Ring recent (backwards block start (suc last - start)) t' id
                    ring in
                let (to', back') = backwards_window block start last recent id in
                (
                  λ h.
                      let (n, le, le', lt, same) = to' (to h) in
                      (n, ((window n le').0 le).0, le', lt, same),
                  λ (n, le, le', lt, same).
                      back (back' (n, (window n le').1 (le, lt), le', lt, same)),
                ),
          )
      | inr e ↦ (
        clear_tracker t recent,
        rw e refl,
        λ id. (
          λ h. absurd (
              ground
                (arith, (recent_processor-Ring recent [] (clear_tracker t recent) id cleared).0 h)),
          λ (n, le, le', lt, same). absurd (ground (arith, e, (window n le').1 (le, lt), le')),
        ),
      )
    ]
