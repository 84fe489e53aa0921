-- ===== src/ViewChange/Initial/Chosen.antt =====
-- What selectInitialCheckpoint selects.
use go_hpc_rbft.Base.{
  ℕ, ◌≤◌, ◌<◌, ◌≡◌, ◌↔◌, refl, ap, subst, ◌∙◌, ◌⊎◌, inl, inr, Bool, true, false, List, [], ◌∷◌,
  some, arith, leb, length, count, In, In-length, All, Bool-cases,
}
use go_hpc_rbft.Messages.{SignedCheckpoint, VcBasis}
use go_hpc_rbft.Quorum.{common_case_quorum, one_correct_quorum}
use go_hpc_rbft.ViewChange.Initial.{
  CheckpointState, state_eq, Checkpoints, collect, is_candidate, Initial, choose,
  select_initial_checkpoint,
}
use go_hpc_rbft.ViewChange.Initial.Collected.{backers, collected-length, collected_there}
use go_hpc_rbft.ViewChange.Initial.Held.{held, collected-held}
use go_hpc_rbft.ViewChange.Initial.Verified.{IsVerified, collected-verified}

-- A weak certificate, a quorum for a config checkpoint, and a quorum of low watermarks not above it.
pub record Eligible (nodes f : ℕ) (set : List VcBasis) (cs : CheckpointState) : Type 0 where
  pub weak : one_correct_quorum nodes f ≤ backers cs set
  pub config : cs.is_config ≡ true → common_case_quorum nodes f ≤ backers cs set
  pub above : common_case_quorum nodes f ≤ count (λ b. leb b.h cs.height) set

module _ (nodes f : ℕ) (set : List VcBasis) where
  record Best (l : Checkpoints) (start out : Initial) : Type 0 where
    from :
        (out ≡ start)
        ⊎ ((out.find ≡ true)
            × In (out.state, out.checkpoint_set) l
            × (is_candidate nodes f set (out.state, out.checkpoint_set) ≡ true))
    rises : start.state.height ≤ out.state.height
    kept : start.find ≡ true → out.find ≡ true
    top :
        (e : CheckpointState × List SignedCheckpoint)
        → In e l
        → is_candidate nodes f set e ≡ true
        → (e.0.height ≤ out.state.height) × (out.find ≡ true)

  choose-Best :
      (l : Checkpoints) (start : Initial)
      → (start.find ≡ true) ⊎ (start.state.height ≡ 0)
      → Best l start (choose nodes f set l start)
  unfolding choose
  choose-Best [] start open_at = record {
    from = inl refl;
    rises = omega arith;
    kept = λ e. e;
    top = λ e i. absurd i;
  }
  choose-Best ((cs, signed) ∷ l) start open_at =
      elim (Bool-cases (is_candidate nodes f set (cs, signed))) [
        | inr e ↦
            let r = choose-Best l start open_at in
            rw e (record {
              from = elim r.from [ inl same ↦ inl same | inr (a, i, c) ↦ inr (a, inr i, c) ];
              rises = r.rises;
              kept = r.kept;
              top = λ x i c. elim i [
                | inl same ↦ absurd (ground (arith, e, same, c))
                | inr later ↦ r.top x later c
              ];
            })
        | inl e ↦ elim (Bool-cases (leb start.state.height cs.height)) [
          | inr low ↦
              let r = choose-Best l start open_at in
              let found : start.find ≡ true = elim open_at [
                | inl y ↦ y
                | inr z ↦ absurd (ground (arith, z, low))
              ] in
              rw (e, low)
                (record {
                  from = elim r.from [ inl same ↦ inl same | inr (a, i, c) ↦ inr (a, inr i, c) ];
                  rises = r.rises;
                  kept = r.kept;
                  top = λ x i c. elim i [
                    | inl same ↦ (ground (arith, same, low, r.rises), r.kept found)
                    | inr later ↦ r.top x later c
                  ];
                })
          | inl high ↦
              let next : Initial = record { state = cs; checkpoint_set = signed; find = true } in
              let r = choose-Best l next (inl refl) in
              rw (e, high)
                (record {
                  from = inr (elim r.from [
                    | inl same ↦ (
                      r.kept refl,
                      inl (ap (λ (x : Initial). (x.state, x.checkpoint_set)) same),
                      ap (λ (x : Initial). is_candidate nodes f set (x.state, x.checkpoint_set))
                            same
                          ∙ e,
                    )
                    | inr (a, i, c) ↦ (a, inr i, c)
                  ]);
                  rises = ground (arith, high, r.rises);
                  kept = λ _. r.kept refl;
                  top = λ x i c. elim i [
                    | inl same ↦ (ground (arith, same, r.rises), r.kept refl)
                    | inr later ↦ r.top x later c
                  ];
                })
        ]
      ]

Eligible-backed :
    {nodes f : ℕ} (cs : CheckpointState) (set : List VcBasis)
    → Eligible nodes f set cs
    → 0 < backers cs set
unfolding one_correct_quorum
Eligible-backed cs set e = omega (arith, e.weak)

is_candidate_iff :
    (nodes f : ℕ) (set : List VcBasis) (cs : CheckpointState) (signed : List SignedCheckpoint)
    → length signed ≡ backers cs set
    → (is_candidate nodes f set (cs, signed) ≡ true) ↔ Eligible nodes f set cs
unfolding is_candidate
is_candidate_iff nodes f set cs signed len = (
  λ h. record {
    weak = ground (arith, h, len);
    config = λ c. ground (arith, h, len, c);
    above = ground (arith, h);
  },
  λ e. elim (Bool-cases cs.is_config) [
    | inl c ↦ ground (arith, e.weak, e.config c, e.above, len)
    | inr n ↦ ground (arith, e.weak, e.above, len)
  ],
)

module _ (order : Checkpoints → Checkpoints) (verified : SignedCheckpoint → Bool) (nodes f : ℕ)
    (visits : (m : Checkpoints) (e : CheckpointState × List SignedCheckpoint)
      → In e (order m) ↔ In e m) where
  abbrev none_yet : Initial
  none_yet = record {
    state = record { height = 0; digest = ""; is_config = false };
    checkpoint_set = [];
    find = false;
  }

  best_of : List VcBasis → Initial
  best_of set = choose nodes f set (order (collect set [])) none_yet

  best_of-Best :
      (set : List VcBasis) → Best nodes f set (order (collect set [])) none_yet (best_of set)
  unfolding best_of
  best_of-Best set = choose-Best nodes f set (order (collect set [])) none_yet (inr refl)

  selected :
      (set : List VcBasis) (cs : CheckpointState) (signed : List SignedCheckpoint)
      → select_initial_checkpoint order verified nodes f set ≡ some (cs, signed)
      → (best_of set ≡ record { state = cs; checkpoint_set = signed; find = true })
        × (one_correct_quorum nodes f ≤ count verified signed)
  unfolding select_initial_checkpoint best_of
  selected set cs signed h = ground arith

  -- Let `order` visit each entry of the map. If selectInitialCheckpoint finds a checkpoint, then f + 1
  -- messages of S have it, a quorum of them if it is a config checkpoint, the low watermarks of a
  -- quorum are below its height or equal to it, and no state with these three properties is higher.
  -- The set returned is, message by message in the order of S, the first checkpoint of this state in
  -- the message's C set, so one from each message that has the state; f + 1 of these have a valid
  -- signature.
  pub select_initial_checkpoint-highest :
      (set : List VcBasis) (cs : CheckpointState) (signed : List SignedCheckpoint)
      → select_initial_checkpoint order verified nodes f set ≡ some (cs, signed)
      → Eligible nodes f set cs
        × ((other : CheckpointState) → Eligible nodes f set other → other.height ≤ cs.height)
        × (signed ≡ held cs set)
        × (length signed ≡ backers cs set)
        × (one_correct_quorum nodes f ≤ count verified signed)
  select_initial_checkpoint-highest set cs signed h =
      let (e, valid) = selected set cs signed h in
      let b : Best nodes f set (order (collect set [])) none_yet
          (record { state = cs; checkpoint_set = signed; find = true }) =
        subst (λ x. Best nodes f set (order (collect set [])) none_yet x) e (best_of-Best set) in
      elim b.from [
        | inl same ↦ absurd (ground (arith, same))
        | inr (a, i, c) ↦
            let member = (visits (collect set []) (cs, signed)).0 i in
            let len = collected-length cs signed set member in
            (
              (is_candidate_iff nodes f set cs signed len).0 c,
              λ other el.
                  let (others, j) = collected_there other set (Eligible-backed other set el) in
                  let len' = collected-length other others set j in
                  let c' = (is_candidate_iff nodes f set other others len').1 el in
                  (b.top (other, others) ((visits (collect set []) (other, others)).1 j) c').0,
              collected-held cs signed set member,
              len,
              valid,
            )
      ]

  found :
      (set : List VcBasis)
      → (best_of set).find ≡ true
      → 0 < length (collect set [])
      → one_correct_quorum nodes f ≤ count verified (best_of set).checkpoint_set
      → select_initial_checkpoint order verified nodes f set
        ≡ some ((best_of set).state, (best_of set).checkpoint_set)
  unfolding select_initial_checkpoint best_of
  found set a b c = ground arith

  -- Let `order` visit each entry of the map, and let the signatures of all checkpoints in the
  -- messages S be valid. If some state has a weak certificate, a quorum if it is a config checkpoint,
  -- and a quorum of low watermarks below its height or equal to it, then selectInitialCheckpoint finds a checkpoint.
  pub select_initial_checkpoint-finds :
      (set : List VcBasis) (other : CheckpointState)
      → All (λ (b : VcBasis). All (IsVerified verified) b.cset) set
      → Eligible nodes f set other
      → (cs : CheckpointState) × (signed : List SignedCheckpoint) × (select_initial_checkpoint order
            verified nodes f set
          ≡ some (cs, signed))
  select_initial_checkpoint-finds set other valid el =
      let b = best_of-Best set in
      let (others, j) = collected_there other set (Eligible-backed other set el) in
      let c' =
        (is_candidate_iff nodes f set other others (collected-length other others set j)).1 el in
      let found_one =
        (b.top (other, others) ((visits (collect set []) (other, others)).1 j) c').1 in
      elim b.from [
        | inl same ↦ absurd (ground (arith, ap (λ (x : Initial). x.find) same, found_one))
        | inr (a, i, c) ↦
            let cs = (best_of set).state in
            let signed = (best_of set).checkpoint_set in
            let member = (visits (collect set []) (cs, signed)).0 i in
            let e =
              (is_candidate_iff nodes f set cs signed (collected-length cs signed set member)).0
                c in
            let enough : one_correct_quorum nodes f ≤ count verified signed = omega (
              arith,
              collected-verified verified cs signed set valid member,
              collected-length cs signed set member,
              e.weak,
            ) in
            (
              cs,
              signed,
              found set found_one (In-length (collect set []) (cs, signed) member) enough,
            )
      ]
