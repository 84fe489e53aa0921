-- ===== src/ViewChange/Initial/Verified.antt =====
-- Where all signatures in the messages are valid, so are those that the map of checkpoints lists.
use go_hpc_rbft.Base.{
  ◌≡◌, refl, subst, inl, inr, Bool, true, List, [], ◌∷◌, Option, none, some, arith, length,
  length-append, count, count-append, All, In, Bool-cases, Option-cases,
}
use go_hpc_rbft.Base.Maps.{In-lookup}
use go_hpc_rbft.Base.Groups.{listed, append_to, listed-append_to, listed-some, listed-nil}
use go_hpc_rbft.Messages.{SignedCheckpoint, VcBasis}
use go_hpc_rbft.ViewChange.Initial.{
  CheckpointState, state_eq, Checkpoints, state_of, collect_cset, collect,
}
use go_hpc_rbft.ViewChange.Initial.Collected.{
  seen_in, collect_cset-none, collect_cset-old, collect_cset-new, collect-IsMap,
}

abbrev pub IsVerified : (SignedCheckpoint → Bool) → Option SignedCheckpoint → Type 0
IsVerified verified none = Unit
IsVerified verified (some c) = verified c ≡ true

module _ (verified : SignedCheckpoint → Bool) where
  abbrev ListsVerified : Checkpoints → Type 0
  ListsVerified m = (k : CheckpointState) → count verified (listed k m) ≡ length (listed k m)

  append_to-verified :
      (cs : CheckpointState) (c : SignedCheckpoint) (m : Checkpoints)
      → verified c ≡ true
      → ListsVerified m
      → ListsVerified (append_to cs c m)
  append_to-verified cs c m valid h k = elim (Bool-cases (state_eq.beq cs k)) [
    | inl e ↦
        rw (listed-append_to k cs c m, e)
          (ground (
            arith,
            count-append verified (listed cs m) (c ∷ []),
            length-append (listed cs m) (c ∷ []),
            valid,
            h cs,
          ))
    | inr e ↦ rw (listed-append_to k cs c m, e) (h k)
  ]

  collect_cset-verified :
      (l : List (Option SignedCheckpoint)) (seen : List CheckpointState) (m : Checkpoints)
      → All (IsVerified verified) l
      → ListsVerified m
      → ListsVerified (collect_cset l seen m)
  collect_cset-verified [] seen m v h = unfold collect_cset in h
  collect_cset-verified (none ∷ l) seen m (_, v) h =
      let step : collect_cset (none ∷ l) seen m ≡ collect_cset l seen m =
        unfold collect_cset in refl in
      rw step (collect_cset-verified l seen m v h)
  collect_cset-verified (some c ∷ l) seen m (valid, v) h = elim (Option-cases (state_of (some c))) [
    | inl e ↦ rw (collect_cset-none c l seen m e) (collect_cset-verified l seen m v h)
    | inr (cs, e) ↦ elim (Bool-cases (seen_in cs seen)) [
      | inl old ↦ rw (collect_cset-old c l seen m cs e old) (collect_cset-verified l seen m v h)
      | inr new ↦ rw (collect_cset-new c l seen m cs e new) (
          collect_cset-verified l (cs ∷ seen) (append_to cs c m) v
            (append_to-verified cs c m valid h))
    ]
  ]

  collect-verified :
      (set : List VcBasis) (m : Checkpoints)
      → All (λ (b : VcBasis). All (IsVerified verified) b.cset) set
      → ListsVerified m
      → ListsVerified (collect set m)
  unfolding collect
  collect-verified [] m v h = h
  collect-verified (b ∷ set) m (here, v) h =
      collect-verified set (collect_cset b.cset [] m) v (collect_cset-verified b.cset [] m here h)

  pub collected-verified :
      (cs : CheckpointState) (signed : List SignedCheckpoint) (set : List VcBasis)
      → All (λ (b : VcBasis). All (IsVerified verified) b.cset) set
      → In (cs, signed) (collect set [])
      → count verified signed ≡ length signed
  collected-verified cs signed set v i =
      let nothing : ListsVerified [] = λ k. rw (listed-nil {V = SignedCheckpoint} k) refl in
      let found = In-lookup cs signed (collect set []) (collect-IsMap set [] tt) i in
      subst (λ l. count verified l ≡ length l) (listed-some cs signed (collect set []) found)
        (collect-verified set [] v nothing cs)
