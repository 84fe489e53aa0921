-- ===== src/ViewChange/Initial/Held.antt =====
-- Which checkpoints the map of selectInitialCheckpoint lists for a state: of each message its first
-- one of the state.
use mathlib.Core.List.{append_assoc, append-nil}
use go_hpc_rbft.Base.{
  ◌≡◌, refl, sym, ap, ◌∙◌, inl, inr, true, false, ◌||◌, List, [], ◌∷◌, ◌++◌, Option, none, some,
  if◌then◌else◌, In, Bool-cases, Option-cases, subst,
}
use go_hpc_rbft.Base.Maps.{In-lookup}
use go_hpc_rbft.Base.Groups.{listed, append_to, listed-append_to, listed-some, listed-nil}
use go_hpc_rbft.Messages.{SignedCheckpoint, VcBasis}
use go_hpc_rbft.ViewChange.Initial.{
  CheckpointState, state_eq, state_beq_iff, Checkpoints, state_of, collect_cset, collect,
}
use go_hpc_rbft.ViewChange.Initial.Collected.{
  seen_in, collect_cset-none, collect_cset-old, collect_cset-new, collect-IsMap,
}

-- The first checkpoint of the state in a C set, if any.
unfoldable pub first_of : CheckpointState → List (Option SignedCheckpoint) → List SignedCheckpoint
first_of k [] = []
first_of k (none ∷ l) = first_of k l
first_of k (some c ∷ l) =
    let later = first_of k l in
    elim (state_of (some c)) [
      | none ↦ later
      | some cs ↦ if state_eq.beq cs k then c ∷ [] else later
    ]

-- Of each message its first checkpoint of the state, in the order of the messages.
unfoldable pub held : CheckpointState → List VcBasis → List SignedCheckpoint
unfolding first_of
held k [] = []
held k (b ∷ set) = first_of k b.cset ++ held k set

module _ (k : CheckpointState) (c : SignedCheckpoint) (l : List (Option SignedCheckpoint)) where
  first_of-none : state_of (some c) ≡ none → first_of k (some c ∷ l) ≡ first_of k l
  unfolding first_of
  first_of-none e = rw (first_of, e) refl

  first_of-some :
      (cs : CheckpointState)
      → state_of (some c) ≡ some cs
      → first_of k (some c ∷ l) ≡ (if state_eq.beq cs k then c ∷ [] else first_of k l)
  unfolding first_of
  first_of-some cs e = rw (first_of, e) refl

-- What one C set adds to the list of a state.
fresh :
    CheckpointState → List (Option SignedCheckpoint) → List CheckpointState → List SignedCheckpoint
fresh k l seen = if seen_in k seen then [] else first_of k l

fresh-old :
    (k cs : CheckpointState) (c : SignedCheckpoint) (l : List (Option SignedCheckpoint))
    (seen : List CheckpointState)
    → state_of (some c) ≡ some cs
    → seen_in cs seen ≡ true
    → fresh k (some c ∷ l) seen ≡ fresh k l seen
unfolding fresh
fresh-old k cs c l seen e old = elim (Bool-cases (state_eq.beq cs k)) [
  | inl hit ↦
      let same : seen_in k seen ≡ true =
        subst (λ s. seen_in s seen ≡ true) ((state_beq_iff cs k).0 hit) old in
      rw same refl
  | inr miss ↦ rw (first_of-some k c l cs e, miss) refl
]

listed-fresh :
    (k cs : CheckpointState) (c : SignedCheckpoint) (l : List (Option SignedCheckpoint))
    (seen : List CheckpointState) (m : Checkpoints)
    → state_of (some c) ≡ some cs
    → seen_in cs seen ≡ false
    → listed k (append_to cs c m) ++ fresh k l (cs ∷ seen) ≡ listed k m ++ fresh k (some c ∷ l) seen
unfolding fresh
listed-fresh k cs c l seen m e new =
    let next : seen_in k (cs ∷ seen) ≡ (state_eq.beq cs k || seen_in k seen) =
      unfold seen_in in refl in
    elim (Bool-cases (state_eq.beq cs k)) [
      | inl hit ↦
          let eq = (state_beq_iff cs k).0 hit in
          let same : seen_in k seen ≡ false = subst (λ s. seen_in s seen ≡ false) eq new in
          rw (listed-append_to k cs c m, first_of-some k c l cs e, next, hit, same)
            (append-nil (listed cs m ++ c ∷ []) ∙ ap (λ s. listed s m ++ c ∷ []) eq)
      | inr miss ↦ rw (listed-append_to k cs c m, first_of-some k c l cs e, next, miss) refl
    ]

collect_cset-listed :
    (k : CheckpointState) (l : List (Option SignedCheckpoint)) (seen : List CheckpointState)
    (m : Checkpoints)
    → listed k (collect_cset l seen m) ≡ listed k m ++ fresh k l seen
collect_cset-listed k [] seen m =
    let nothing : fresh k [] seen ≡ [] = elim (Bool-cases (seen_in k seen)) [
      | inl e ↦ unfold fresh first_of in rw e refl
      | inr e ↦ unfold fresh first_of in rw e refl
    ] in
    unfold collect_cset in rw nothing (sym (append-nil (listed k m)))
collect_cset-listed k (none ∷ l) seen m =
    let step : collect_cset (none ∷ l) seen m ≡ collect_cset l seen m =
      unfold collect_cset in refl in
    let skip : fresh k (none ∷ l) seen ≡ fresh k l seen = unfold fresh first_of in refl in
    rw (step, skip) (collect_cset-listed k l seen m)
collect_cset-listed k (some c ∷ l) seen m = elim (Option-cases (state_of (some c))) [
  | inl e ↦
      let skip : fresh k (some c ∷ l) seen ≡ fresh k l seen =
        unfold fresh in rw (first_of-none k c l e) refl in
      rw (collect_cset-none c l seen m e, skip) (collect_cset-listed k l seen m)
  | inr (cs, e) ↦ elim (Bool-cases (seen_in cs seen)) [
    | inl old ↦
        rw (collect_cset-old c l seen m cs e old, fresh-old k cs c l seen e old)
          (collect_cset-listed k l seen m)
    | inr new ↦
        ap (λ x. listed k x) (collect_cset-new c l seen m cs e new)
        ∙ collect_cset-listed k l (cs ∷ seen) (append_to cs c m)
        ∙ listed-fresh k cs c l seen m e new
  ]
]

collect-listed :
    (k : CheckpointState) (set : List VcBasis) (m : Checkpoints)
    → listed k (collect set m) ≡ listed k m ++ held k set
unfolding collect held
collect-listed k [] m = sym (append-nil (listed k m))
collect-listed k (b ∷ set) m =
    let here : fresh k b.cset [] ≡ first_of k b.cset = unfold fresh seen_in in refl in
    collect-listed k set (collect_cset b.cset [] m)
    ∙ ap (λ l. l ++ held k set) (collect_cset-listed k b.cset [] m ∙ ap (λ l. listed k m ++ l) here)
    ∙ append_assoc (listed k m) (first_of k b.cset) (held k set)

-- An entry of the map has of each message its first checkpoint of the state.
pub collected-held :
    (cs : CheckpointState) (signed : List SignedCheckpoint) (set : List VcBasis)
    → In (cs, signed) (collect set [])
    → signed ≡ held cs set
collected-held cs signed set i =
    let found = In-lookup cs signed (collect set []) (collect-IsMap set [] tt) i in
    sym (listed-some cs signed (collect set []) found)
    ∙ collect-listed cs set []
    ∙ ap (λ l. l ++ held cs set) (listed-nil {V = SignedCheckpoint} cs)
