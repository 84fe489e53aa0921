-- ===== src/Chain/Interval.antt =====
-- ChainConfig.ResetRecentBlockNum leaves a validator that may propose.
use go_hpc_rbft.Base.{
  ℕ, zero, suc, ◌+◌, ◌-◌, ◌*◌, ◌≤◌, ◌<◌, ◌≡◌, ◌≢◌, refl, sym, ap, subst, ◌∙◌, inl, inr, true, false,
  not, List, [], ◌∷◌, Option, none, some, arith, if◌then◌else◌, leb, ◌==◌, length, length-set,
  length-replicate, set, any, All, Bool-cases, Option-cases,
}
use go_hpc_rbft.Base.Words.{word, ◌*ᵤ◌, ◌-ᵤ◌, ◌+ᵤ◌}
use go_hpc_rbft.Tracker.{
  BlockMeta, BlockProcessorTracker, collect_ids, clear_tracker, add_block, recent_processor,
  wanted_block, refill, first_recent, reset_recent_block_num,
}
use go_hpc_rbft.Chain.{ChainConfig, recent_block_number, reset_tracker}
use go_hpc_rbft.Chain.Candidates.{ids, HasFree, length-ids}

abbrev pub Distinct : List ℕ → Type 0
Distinct [] = Unit
Distinct (x ∷ xs) = All (λ y. x ≢ y) xs × Distinct xs

without : ℕ → List ℕ → List ℕ
without x [] = []
without x (y ∷ ys) = let rest = without x ys in if y == x then rest else y ∷ rest

without_le : (x : ℕ) (ys : List ℕ) → length (without x ys) ≤ length ys
unfolding without
without_le x [] = omega arith
without_le x (y ∷ ys) = ground (arith, without_le x ys)

without_lt : (x : ℕ) (ys : List ℕ) → any (λ y. y == x) ys ≡ true → length (without x ys) < length ys
unfolding without
without_lt x [] h = absurd (ground (arith, h))
without_lt x (y ∷ ys) h = ground (arith, h, without_le x ys, without_lt x ys)

any-without :
    (x z : ℕ) (ys : List ℕ)
    → x ≢ z
    → any (λ y. y == z) ys ≡ true
    → any (λ y. y == z) (without x ys) ≡ true
unfolding without
any-without x z [] ne h = h
any-without x z (y ∷ ys) ne h = ground (arith, ne, h, any-without x z ys ne)

-- The pigeonhole principle.
pigeonhole :
    (xs ys : List ℕ)
    → Distinct xs
    → All (λ x. any (λ y. y == x) ys ≡ true) xs
    → length xs ≤ length ys
pigeonhole [] ys d h = omega arith
pigeonhole (x ∷ xs) ys (new, d) (here, h) =
    omega (arith, pigeonhole xs (without x ys) d (kept x ys xs new h), without_lt x ys here)
  where
    kept :
        (x : ℕ) (ys xs : List ℕ)
        → All (λ y. x ≢ y) xs
        → All (λ z. any (λ y. y == z) ys ≡ true) xs
        → All (λ z. any (λ y. y == z) (without x ys) ≡ true) xs
    kept x ys [] new h = tt
    kept x ys (z ∷ zs) (n, new) (i, h) = (any-without x z ys n i, kept x ys zs new h)

collect_ids-length : (items : List (Option BlockMeta)) → length (collect_ids items) ≤ length items
unfolding collect_ids
collect_ids-length [] = omega arith
collect_ids-length (none ∷ items) = omega (arith, collect_ids-length items)
collect_ids-length (some b ∷ items) = ground (arith, collect_ids-length items)

-- The ring has `size` places and as many ids at most.
record Fits (size : ℕ) (t : BlockProcessorTracker) : Type 0 where
  places : length t.block_processors ≡ size
  few : length t.block_processor_id_set ≤ size

clear_tracker-Fits : (t : BlockProcessorTracker) (size : ℕ) → Fits size (clear_tracker t size)
unfolding clear_tracker
clear_tracker-Fits t size = record { places = length-replicate size none; few = omega arith }

add_block-Fits :
    (size : ℕ) (t t' : BlockProcessorTracker) (b : BlockMeta)
    → Fits size t
    → add_block t b ≡ some t'
    → Fits size t'
unfolding add_block
add_block-Fits size t t' b fits e =
    let items : t'.block_processors ≡ set t.block_processors t.next_idx (some b) =
      ground (arith, e) in
    let set_ids : t'.block_processor_id_set
        ≡ collect_ids (set t.block_processors t.next_idx (some b)) =
      ground (arith, e) in
    let len = length-set t.block_processors t.next_idx (some b) in
    record {
      places = ap length items ∙ len ∙ fits.places;
      few = omega (
        arith,
        ap length set_ids,
        collect_ids-length (set t.block_processors t.next_idx (some b)),
        len,
        fits.places,
      );
    }

refill-Fits :
    (size fuel : ℕ) (get_block : ℕ → Option BlockMeta) (olds : List (Option BlockMeta)) (i last : ℕ)
    (t t' : BlockProcessorTracker)
    → Fits size t
    → refill fuel get_block olds i last t ≡ some t'
    → Fits size t'
unfolding refill
refill-Fits size zero get_block olds i last t t' fits e = absurd (ground (arith, e))
refill-Fits size (suc fuel) get_block olds i last t t' fits e = elim (Bool-cases (leb i last)) [
  | inr done ↦
      let same : some t ≡ some t' = sym (rw (refill, done) refl) ∙ e in
      subst (Fits size) (ground (arith, same)) fits
  | inl more ↦ elim (Option-cases (wanted_block get_block olds i)) [
    | inl gone ↦ absurd (ground (arith, rw (refill, more, gone) at e))
    | inr (b, block) ↦ elim (Option-cases (add_block t b)) [
      | inl gone ↦ absurd (ground (arith, rw (refill, more, block, gone) at e))
      | inr (t₁, e₁) ↦
          refill-Fits size fuel get_block olds (i +ᵤ 1) last t₁ t'
            (add_block-Fits size t t₁ b fits e₁) (rw (refill, more, block, e₁) at e)
    ]
  ]
]

less_one : (n : ℕ) → 1 ≤ n → n < word → n -ᵤ 1 ≡ n - 1
less_one n h k = omega arith

recent_block_number_bounds :
    (n p : ℕ)
    → 2 ≤ n
    → n * 100 < word
    → p ≤ 100
    → (0 < recent_block_number n p) × (recent_block_number n p < n)
unfolding recent_block_number
recent_block_number_bounds n p two small le =
    let most : n * p ≤ n * 100 = grind arith in
    let exact : n *ᵤ p ≡ n * p = omega arith in rw exact (ground (arith, most, less_one n))

reset_recent_block_num-Fits :
    (get_block : ℕ → Option BlockMeta) (t t' : BlockProcessorTracker) (epoch_start last recent : ℕ)
    → reset_recent_block_num get_block t epoch_start last recent ≡ some t'
    → Fits recent t'
unfolding reset_recent_block_num
reset_recent_block_num-Fits get_block t t' epoch_start last recent e =
    let start = first_recent epoch_start last recent in
    elim (Bool-cases (leb start last)) [
      | inl more ↦
          refill-Fits recent (last - start + 2) get_block t.block_processors start last
            (clear_tracker t recent) t' (clear_tracker-Fits t recent) (rw more at e)
      | inr done ↦
          let same : some (clear_tracker t recent) ≡ some t' = rw done at e in
          subst (Fits recent) (ground (arith, same)) (clear_tracker-Fits t recent)
    ]

recent_everywhere :
    (t : BlockProcessorTracker) (xs : List ℕ)
    → any (λ id. not (recent_processor t id)) xs ≡ false
    → All (λ x. any (λ y. y == x) t.block_processor_id_set ≡ true) xs
recent_everywhere t [] h = tt
recent_everywhere t (x ∷ xs) h =
    let here : recent_processor t x ≡ true = ground (arith, h) in
    (unfold recent_processor in here, recent_everywhere t xs (ground (arith, h)))

-- Let there be at least two validators, with distinct ids, and let the percentage
-- AgainProposeIntervalBlockInValidatorsNumPercentage be at most 100. Whenever ResetRecentBlockNum
-- returns, some validator is not excluded as a recent proposer.
pub reset_tracker-HasFree :
    (get_block : ℕ → Option BlockMeta) (c c' : ChainConfig) (last : ℕ)
    → Distinct (ids c.validator_dynamic_info_map)
    → 2 ≤ length (ids c.validator_dynamic_info_map)
    → length (ids c.validator_dynamic_info_map) * 100 < word
    → c.epoch_info.again_propose_percentage ≤ 100
    → reset_tracker get_block c last ≡ some c'
    → HasFree c'.tracker c.validator_dynamic_info_map
unfolding reset_tracker
reset_tracker-HasFree get_block c c' last distinct two small percentage e =
    let n = length c.validator_dynamic_info_map in
    let recent = recent_block_number n c.epoch_info.again_propose_percentage in
    let len = length-ids c.validator_dynamic_info_map in
    elim (Option-cases
      (reset_recent_block_num get_block c.tracker c.epoch_info.start_block last recent)) [
        | inl gone ↦ absurd (ground (arith, e, gone))
        | inr (t, r) ↦
            let tracker : c'.tracker ≡ t = ground (arith, e, r) in
            let fits =
              reset_recent_block_num-Fits get_block c.tracker t c.epoch_info.start_block last recent
                r in
            let bounds =
              recent_block_number_bounds n c.epoch_info.again_propose_percentage (omega arith)
                (omega arith) percentage in
            elim (Bool-cases
              (any (λ id. not (recent_processor t id)) (ids c.validator_dynamic_info_map))) [
                | inl free ↦
                    ap
                      (λ x.
                        any (λ id. not (recent_processor x id)) (ids c.validator_dynamic_info_map))
                      tracker
                    ∙ free
                | inr none_free ↦ absurd (
                    omega (
                      arith,
                      pigeonhole (ids c.validator_dynamic_info_map) t.block_processor_id_set
                          distinct
                          (recent_everywhere t (ids c.validator_dynamic_info_map) none_free),
                      fits.few,
                      bounds,
                      len,
                    ))
              ]
      ]
