-- ===== src/ViewChange/Initial/Collected.antt =====
-- What the map of checkpoints holds: for each state the checkpoints of the replicas that have it.
use go_hpc_rbft.Base.{
  ℕ, ◌+◌, ◌<◌, ◌≡◌, refl, sym, ap, ◌∙◌, inl, inr, Bool, true, false, not, ◌&&◌, ◌||◌, List, [], ◌∷◌,
  ◌++◌, Option, none, some, arith, if◌then◌else◌, length, length-append, count, any, In, Bool-cases,
  Option-cases, subst,
}
use go_hpc_rbft.Base.Maps.{lookup, lookup-In, IsMap, insert-IsMap, In-lookup}
use go_hpc_rbft.Base.Groups.{
  listed, append_to, listed-append_to, listed-some, listed-none, listed-nil,
}
use go_hpc_rbft.Messages.{SignedCheckpoint, VcBasis}
use go_hpc_rbft.ViewChange.Initial.{
  CheckpointState, state_eq, state_beq_iff, Checkpoints, state_of, collect_cset, collect,
}

-- A C set has a checkpoint of the state.
unfoldable pub in_cset : CheckpointState → List (Option SignedCheckpoint) → Bool
in_cset cs [] = false
in_cset cs (c ∷ rest) = elim (state_of c) [
  | none ↦ in_cset cs rest
  | some s ↦ state_eq.beq s cs || in_cset cs rest
]

-- How many of the messages have a checkpoint of the state.
abbrev pub backers : CheckpointState → List VcBasis → ℕ
backers cs set = count (λ b. in_cset cs b.cset) set

unfoldable pub seen_in : CheckpointState → List CheckpointState → Bool
seen_in cs seen = any (λ s. state_eq.beq s cs) seen

module _ (c : SignedCheckpoint) (l : List (Option SignedCheckpoint)) where
  in_cset-none :
      (k : CheckpointState) → state_of (some c) ≡ none → in_cset k (some c ∷ l) ≡ in_cset k l
  unfolding in_cset
  in_cset-none k e = rw (in_cset, e) refl

  in_cset-some :
      (k cs : CheckpointState)
      → state_of (some c) ≡ some cs
      → in_cset k (some c ∷ l) ≡ (state_eq.beq cs k || in_cset k l)
  unfolding in_cset
  in_cset-some k cs e = rw (in_cset, e) refl

  module _ (seen : List CheckpointState) (m : Checkpoints) where
    pub collect_cset-none :
        state_of (some c) ≡ none → collect_cset (some c ∷ l) seen m ≡ collect_cset l seen m
    unfolding collect_cset
    collect_cset-none e = rw (collect_cset, e) refl

    pub collect_cset-old :
        (cs : CheckpointState)
        → state_of (some c) ≡ some cs
        → seen_in cs seen ≡ true
        → collect_cset (some c ∷ l) seen m ≡ collect_cset l seen m
    unfolding seen_in collect_cset
    collect_cset-old cs e old = rw (collect_cset, e, old) refl

    pub collect_cset-new :
        (cs : CheckpointState)
        → state_of (some c) ≡ some cs
        → seen_in cs seen ≡ false
        → collect_cset (some c ∷ l) seen m ≡ collect_cset l (cs ∷ seen) (append_to cs c m)
    unfolding seen_in collect_cset
    collect_cset-new cs e new = rw (collect_cset, e, new) refl

-- What one C set adds to the list of a state.
added : CheckpointState → List (Option SignedCheckpoint) → List CheckpointState → ℕ
added k l seen = if not (seen_in k seen) && in_cset k l then 1 else 0

length-append_to :
    (k cs : CheckpointState) (c : SignedCheckpoint) (m : Checkpoints)
    → length (listed k (append_to cs c m))
      ≡ length (listed k m) + (if state_eq.beq cs k then 1 else 0)
length-append_to k cs c m = elim (Bool-cases (state_eq.beq cs k)) [
  | inl e ↦
      let same = (state_beq_iff cs k).0 e in
      rw (listed-append_to k cs c m, e, same) (length-append (listed k m) (c ∷ []))
  | inr e ↦ rw (listed-append_to k cs c m, e) (omega arith)
]

added-old :
    (k cs : CheckpointState) (c : SignedCheckpoint) (l : List (Option SignedCheckpoint))
    (seen : List CheckpointState)
    → state_of (some c) ≡ some cs
    → seen_in cs seen ≡ true
    → added k (some c ∷ l) seen ≡ added k l seen
unfolding added
added-old k cs c l seen e old = elim (Bool-cases (state_eq.beq cs k)) [
  | inl hit ↦
      let same : seen_in k seen ≡ true =
        subst (λ s. seen_in s seen ≡ true) ((state_beq_iff cs k).0 hit) old in
      rw same refl
  | inr miss ↦ rw (in_cset-some c l k cs e, miss) refl
]

added-new :
    (k cs : CheckpointState) (c : SignedCheckpoint) (l : List (Option SignedCheckpoint))
    (seen : List CheckpointState)
    → state_of (some c) ≡ some cs
    → seen_in cs seen ≡ false
    → added k (some c ∷ l) seen ≡ (if state_eq.beq cs k then 1 else 0) + added k l (cs ∷ seen)
unfolding added
added-new k cs c l seen e new =
    let next : seen_in k (cs ∷ seen) ≡ (state_eq.beq cs k || seen_in k seen) =
      unfold seen_in in refl in
    elim (Bool-cases (state_eq.beq cs k)) [
      | inl hit ↦
          let same : seen_in k seen ≡ false =
            subst (λ s. seen_in s seen ≡ false) ((state_beq_iff cs k).0 hit) new in
          rw (in_cset-some c l k cs e, next, hit, same) refl
      | inr miss ↦ rw (in_cset-some c l k cs e, next, miss) (omega arith)
    ]

collect_cset-length :
    (k : CheckpointState) (l : List (Option SignedCheckpoint)) (seen : List CheckpointState)
    (m : Checkpoints)
    → length (listed k (collect_cset l seen m)) ≡ length (listed k m) + added k l seen
collect_cset-length k [] seen m = unfold collect_cset in_cset added seen_in in ground arith
collect_cset-length k (none ∷ l) seen m =
    let step : collect_cset (none ∷ l) seen m ≡ collect_cset l seen m =
      unfold collect_cset in refl in
    let same : added k (none ∷ l) seen ≡ added k l seen = unfold added in_cset state_of in refl in
    rw (step, same) (collect_cset-length k l seen m)
collect_cset-length k (some c ∷ l) seen m = elim (Option-cases (state_of (some c))) [
  | inl e ↦
      let same : added k (some c ∷ l) seen ≡ added k l seen =
        unfold added in rw (in_cset-none c l k e) refl in
      rw (collect_cset-none c l seen m e, same) (collect_cset-length k l seen m)
  | inr (cs, e) ↦ elim (Bool-cases (seen_in cs seen)) [
    | inl old ↦
        ap (λ x. length (listed k x)) (collect_cset-old c l seen m cs e old)
        ∙ collect_cset-length k l seen m
        ∙ ap (λ n. length (listed k m) + n) (sym (added-old k cs c l seen e old))
    | inr new ↦
        ap (λ x. length (listed k x)) (collect_cset-new c l seen m cs e new)
        ∙ omega (
          arith,
          collect_cset-length k l (cs ∷ seen) (append_to cs c m),
          length-append_to k cs c m,
          added-new k cs c l seen e new,
        )
  ]
]

collect-length :
    (k : CheckpointState) (set : List VcBasis) (m : Checkpoints)
    → length (listed k (collect set m)) ≡ length (listed k m) + backers k set
unfolding collect
collect-length k [] m = omega arith
collect-length k (b ∷ set) m =
    let here : added k b.cset [] ≡ (if in_cset k b.cset then 1 else 0) =
      unfold added seen_in in refl in
    omega (
      arith,
      collect-length k set (collect_cset b.cset [] m),
      collect_cset-length k b.cset [] m,
      here,
    )

collect_cset-IsMap :
    (l : List (Option SignedCheckpoint)) (seen : List CheckpointState) (m : Checkpoints)
    → IsMap m
    → IsMap (collect_cset l seen m)
collect_cset-IsMap [] seen m h = unfold collect_cset in h
collect_cset-IsMap (none ∷ l) seen m h =
    let step : collect_cset (none ∷ l) seen m ≡ collect_cset l seen m =
      unfold collect_cset in refl in
    rw step (collect_cset-IsMap l seen m h)
collect_cset-IsMap (some c ∷ l) seen m h = elim (Option-cases (state_of (some c))) [
  | inl e ↦ rw (collect_cset-none c l seen m e) (collect_cset-IsMap l seen m h)
  | inr (cs, e) ↦ elim (Bool-cases (seen_in cs seen)) [
    | inl old ↦ rw (collect_cset-old c l seen m cs e old) (collect_cset-IsMap l seen m h)
    | inr new ↦
        let grown : IsMap (append_to cs c m) =
          unfold append_to in insert-IsMap cs (listed cs m ++ c ∷ []) m h in
        rw (collect_cset-new c l seen m cs e new)
          (collect_cset-IsMap l (cs ∷ seen) (append_to cs c m) grown)
  ]
]

pub collect-IsMap : (set : List VcBasis) (m : Checkpoints) → IsMap m → IsMap (collect set m)
unfolding collect
collect-IsMap [] m h = h
collect-IsMap (b ∷ set) m h =
    collect-IsMap set (collect_cset b.cset [] m) (collect_cset-IsMap b.cset [] m h)

-- An entry of the map has the checkpoints of its backers.
pub collected-length :
    (cs : CheckpointState) (signed : List SignedCheckpoint) (set : List VcBasis)
    → In (cs, signed) (collect set [])
    → length signed ≡ backers cs set
collected-length cs signed set i =
    let found = In-lookup cs signed (collect set []) (collect-IsMap set [] tt) i in
    ap length (sym (listed-some cs signed (collect set []) found))
    ∙ collect-length cs set []
    ∙ ap (λ l. length l + backers cs set) (listed-nil {V = SignedCheckpoint} cs)
    ∙ omega arith

-- A state with a backer has an entry.
pub collected_there :
    (cs : CheckpointState) (set : List VcBasis)
    → 0 < backers cs set
    → (signed : List SignedCheckpoint) × In (cs, signed) (collect set [])
collected_there cs set pos = elim (Option-cases (lookup cs (collect set []))) [
  | inl e ↦
      let nothing : length (listed cs (collect set [])) ≡ 0 =
        ap length (listed-none cs (collect set []) e) in
      let start : length (listed cs []) ≡ 0 = ap length (listed-nil {V = SignedCheckpoint} cs) in
      absurd (omega (arith, collect-length cs set []))
  | inr (signed, e) ↦ (signed, lookup-In cs (collect set []) signed e)
]
