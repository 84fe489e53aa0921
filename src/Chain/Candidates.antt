-- ===== src/Chain/Candidates.antt =====
-- Under the weighted election the primary is one of the validators that made no recent block.
use go_hpc_rbft.Base.{
  ℕ, suc, ◌*◌, ◌^◌, ◌≤◌, ◌<◌, ◌≡◌, ◌≢◌, refl, ap, ◌∙◌, inl, inr, true, false, not, List, [], ◌∷◌,
  ◌++◌, some, arith, ltb, length, any, In, get_elem?-In, nat_eq, Bool-cases,
}
use go_hpc_rbft.Base.Maps.{lookup, lookup_cons, lookup_head}
use go_hpc_rbft.Tracker.{BlockProcessorTracker, recent_processor}
use go_hpc_rbft.Wrf.{Weighted, insert_by_id, sort_by_id}
use go_hpc_rbft.Wrf.Bands.{sum_power, Positive, wrf_select_node_by_voting_power-Chosen}
use go_hpc_rbft.Chain.{
  ValidatorInfo, ElectionType, ChainConfig, candidates, big_endian, wrf_cal_primary_id_by_view,
  cal_primary_id_by_view,
}

abbrev pub ids : List (ℕ × ValidatorInfo) → List ℕ
ids [] = []
ids ((id, _) ∷ infos) = id ∷ ids infos

pub length-ids : (infos : List (ℕ × ValidatorInfo)) → length (ids infos) ≡ length infos
length-ids [] = refl
length-ids (x ∷ infos) = ap suc (length-ids infos)

-- Some node of the map made no recent block.
abbrev pub HasFree : BlockProcessorTracker → List (ℕ × ValidatorInfo) → Type 0
HasFree t infos = any (λ id. not (recent_processor t id)) (ids infos) ≡ true

-- Every power is positive and at most `bound`.
abbrev pub Weighs : ℕ → List (ℕ × ValidatorInfo) → Type 0
Weighs bound [] = Unit
Weighs bound ((_, info) ∷ infos) =
    (0 < info.consensus_voting_power) × (info.consensus_voting_power ≤ bound) × Weighs bound infos

candidates-Positive :
    (t : BlockProcessorTracker) (bound : ℕ) (infos : List (ℕ × ValidatorInfo))
    → Weighs bound infos
    → Positive (candidates t infos)
unfolding candidates
candidates-Positive t bound [] w = tt
candidates-Positive t bound ((id, info) ∷ infos) (pos, le, w) =
    let rest = candidates-Positive t bound infos w in
    elim (Bool-cases (recent_processor t id)) [ inl e ↦ rw e rest | inr e ↦ rw e (pos, rest) ]

candidates-sum :
    (t : BlockProcessorTracker) (bound : ℕ) (infos : List (ℕ × ValidatorInfo))
    → Weighs bound infos
    → sum_power (candidates t infos) ≤ length infos * bound
unfolding candidates
candidates-sum t bound [] w = omega arith
candidates-sum t bound ((id, info) ∷ infos) (pos, le, w) =
    let rest = candidates-sum t bound infos w in
    elim (Bool-cases (recent_processor t id)) [
      | inl e ↦ rw e (grind arith)
      | inr e ↦ rw e (grind arith)
    ]

candidates-pos :
    (t : BlockProcessorTracker) (bound : ℕ) (infos : List (ℕ × ValidatorInfo))
    → Weighs bound infos
    → HasFree t infos
    → 0 < sum_power (candidates t infos)
unfolding candidates
candidates-pos t bound [] w free = absurd (ground (arith, free))
candidates-pos t bound ((id, info) ∷ infos) (pos, le, w) free =
    elim (Bool-cases (recent_processor t id)) [
      | inl e ↦ rw e (candidates-pos t bound infos w (ground (arith, e, free)))
      | inr e ↦ rw e (omega arith)
    ]

candidates-In :
    (t : BlockProcessorTracker) (w : Weighted) (infos : List (ℕ × ValidatorInfo))
    → In w (candidates t infos)
    → (info : ValidatorInfo) × (lookup w.id infos ≡ some info) × (recent_processor t w.id ≡ false)
unfolding candidates
candidates-In t w [] i = absurd i
candidates-In t w ((id, info) ∷ infos) i =
    let later : In w (candidates t infos)
        → (v : ValidatorInfo) × (lookup w.id ((id, info) ∷ infos) ≡ some v)
          × (recent_processor t w.id ≡ false) =
      λ i'.
        let (old, found, free) = candidates-In t w infos i' in
        let (v, first) = lookup_cons w.id id info old infos found in (v, first, free) in
    elim (Bool-cases (recent_processor t id)) [
      | inl e ↦ later (rw e at i)
      | inr e ↦ elim (rw e at i) [
        | inr i' ↦ later i'
        | inl same ↦
            let at_id : w.id ≡ id = ap (λ (x : Weighted). x.id) same in
            (info, rw at_id (lookup_head id info infos), rw at_id e)
      ]
    ]

insert_by_id-In : (w x : Weighted) (xs : List Weighted) → In w (insert_by_id x xs) → In w (x ∷ xs)
unfolding insert_by_id
insert_by_id-In w x [] i = i
insert_by_id-In w x (y ∷ ys) i = elim (Bool-cases (ltb x.id y.id)) [
  | inl e ↦ rw e at i
  | inr e ↦
      let i' = rw e at i in
      elim i' [
        | inl same ↦ inr (inl same)
        | inr later ↦ elim (insert_by_id-In w x ys later) [
          | inl same ↦ inl same
          | inr l ↦ inr (inr l)
        ]
      ]
]

sort_by_id-In : (w : Weighted) (xs : List Weighted) → In w (sort_by_id xs) → In w xs
unfolding sort_by_id
sort_by_id-In w [] i = i
sort_by_id-In w (x ∷ xs) i = elim (insert_by_id-In w x (sort_by_id xs) i) [
  | inl same ↦ inl same
  | inr later ↦ inr (sort_by_id-In w xs later)
]

cal_primary-wrf :
    (hash : List ℕ → ℕ) (c : ChainConfig) (v : ℕ) (infos : List (ℕ × ValidatorInfo))
    → c.epoch_info.proposer_election_type ≢ ElectionType.abnormal_rotation
    → cal_primary_id_by_view hash c v infos ≡ wrf_cal_primary_id_by_view hash c v infos
unfolding cal_primary_id_by_view
cal_primary-wrf hash c v infos h = ground (arith, h)

-- The weighted choice does not panic, and falls on a validator that made no recent block.
pub cal_primary_id_by_view-candidate :
    (hash : List ℕ → ℕ) (c : ChainConfig) (v bound : ℕ) (infos : List (ℕ × ValidatorInfo))
    → c.epoch_info.proposer_election_type ≢ ElectionType.abnormal_rotation
    → Weighs bound infos
    → length infos * bound < 2 ^ 63
    → HasFree c.tracker infos
    → (id : ℕ) × (info : ValidatorInfo) × (cal_primary_id_by_view hash c v infos ≡ some id)
      × (lookup id infos ≡ some info)
      × (recent_processor c.tracker id ≡ false)
cal_primary_id_by_view-candidate hash c v bound infos weighted w small free =
    let nodes = candidates c.tracker infos in
    let seed =
      c.last_checkpoint_exec_block_hash ++ (big_endian c.epoch_info.epoch ++ big_endian v) in
    let chosen =
      wrf_select_node_by_voting_power-Chosen hash seed nodes
        (candidates-Positive c.tracker bound infos w) (candidates-pos c.tracker bound infos w free)
        (omega (arith, candidates-sum c.tracker bound infos w)) in
    let (info, found, fresh) = candidates-In c.tracker chosen.validator infos (
      sort_by_id-In chosen.validator nodes
        (get_elem?-In (sort_by_id nodes) chosen.place chosen.validator chosen.stands)) in
    let by_wrf : wrf_cal_primary_id_by_view hash c v infos ≡ some chosen.validator.id =
      unfold wrf_cal_primary_id_by_view in chosen.result in
    (chosen.validator.id, info, cal_primary-wrf hash c v infos weighted ∙ by_wrf, found, fresh)
