-- ===== src/ViewChange/Assign/Numbering.antt =====
-- The numbers that assignSequenceNumbers hands out, each with its reason.
use go_hpc_rbft.Base.{
  ℕ, zero, suc, ◌+◌, ◌≤◌, ◌<◌, ◌≡◌, ◌≢◌, refl, ap, ◌⊎◌, inl, inr, List, [], ◌∷◌, ◌++◌, map, none,
  String, arith, All, ltb, leb, nat_eq, length, Bool-cases, Option-cases,
}
use go_hpc_rbft.Base.Words.{word, ◌+ᵤ◌}
use go_hpc_rbft.Messages.{VcPq, VcBasis}
use go_hpc_rbft.Quorum.{common_case_quorum}
use go_hpc_rbft.ViewChange.Assign.{
  null_votes, select_request, Outcome, out_of_fuel, unassigned, assigned, assign_loop, prune,
  number_from, Assignment, running, failed, chosen, finish, assign_sequence_numbers,
}
use go_hpc_rbft.ViewChange.Assign.Selection.{Selected, select_request_sound}
use go_hpc_rbft.ViewChange.Assign.Dense.{
  Dense, Numbered, NullAbove, Found, insert-Dense, Dense-append, All-append, length-snoc,
  NullAbove-last, prune-Dense, All-prune, length-prune, Dense-Found,
}

module _ (nodes f : ℕ) (set : List VcBasis) where
  -- Why digest `d` may stand at `n`: a request selected by A1 and A2, or a quorum for a null one.
  abbrev pub Justified : ℕ → String → Type 0
  Justified n d =
      ((em : VcPq) × Selected nodes f set n em × (em.batch_digest ≡ d))
      ⊎ ((d ≡ "") × (common_case_quorum nodes f ≤ null_votes n set))

  -- What holds of msgMap and maxN at the head of the loop, `start` for h + 1.
  record LoopInv (start n : ℕ) (m : List (ℕ × String)) (top : ℕ) : Type 0 where
    dense : Dense start m
    reached : start + length m ≡ n
    justified : All (λ e. Justified e.0 e.1) m
    topped : NullAbove top m

  -- The map grows by the next number.
  grow :
      (start n : ℕ) (m : List (ℕ × String)) (top top' : ℕ) (d : String)
      → LoopInv start n m top
      → Justified n d
      → NullAbove top' (m ++ (n, d) ∷ [])
      → LoopInv start (suc n) (m ++ (n, d) ∷ []) top'
  grow start n m top top' d inv why above = record {
    dense = Dense-append start n d m inv.dense inv.reached;
    reached = omega (arith, inv.reached, length-snoc m (n, d));
    justified = All-append (λ e. Justified e.0 e.1) m (n, d) inv.justified why;
    topped = above;
  }

  grow_selected :
      (start n : ℕ) (m : List (ℕ × String)) (top : ℕ) (d : String)
      → LoopInv start n m top
      → Justified n d
      → LoopInv start (suc n) (m ++ (n, d) ∷ []) n
  grow_selected start n m top d inv why = grow start n m top n d inv why (
      NullAbove-last start n _ (Dense-append start n d m inv.dense inv.reached)
        (omega (arith, inv.reached, length-snoc m (n, d))))

  grow_null :
      (start n : ℕ) (m : List (ℕ × String)) (top : ℕ)
      → LoopInv start n m top
      → Justified n ""
      → LoopInv start (suc n) (m ++ (n, "") ∷ []) top
  grow_null start n m top inv why =
      grow start n m top top "" inv why
        (All-append (λ e. top < e.0 → e.1 ≡ "") m (n, "") inv.topped (λ _. refl))

  -- A sequence number for which no request is selected and no quorum backs a null request.
  abbrev pub Undecided : ℕ → Type 0
  Undecided n =
      (select_request nodes f set n set ≡ none) × (null_votes n set < common_case_quorum nodes f)

  abbrev Ends : ℕ → ℕ → Outcome → Type 0
  Ends start last (assigned m top) = LoopInv start (suc last) m top
  Ends start last unassigned = (n : ℕ) × (start ≤ n) × (n ≤ last) × Undecided n
  Ends start last out_of_fuel = Unit {0}

  assign_loop-Ends :
      (start last fuel n : ℕ) (m : List (ℕ × String)) (top : ℕ)
      → suc last < word
      → n ≤ suc last
      → LoopInv start n m top
      → Ends start last (assign_loop nodes f set fuel last n m top)
  unfolding assign_loop
  assign_loop-Ends start last zero n m top room le inv = tt
  assign_loop-Ends start last (suc fuel) n m top room le inv = elim (Bool-cases (leb n last)) [
    | inr over ↦ let eq : n ≡ suc last = ground arith in rw (assign_loop, over) (rw eq at inv)
    | inl within ↦
        let step : n +ᵤ 1 ≡ suc n = ground arith in
        elim (Option-cases (select_request nodes f set n set)) [
          | inr (em, e) ↦
              rw
                (
                  assign_loop,
                  within,
                  e,
                  step,
                  insert-Dense start n em.batch_digest m inv.dense inv.reached,
                )
                (assign_loop-Ends start last fuel (suc n) _ n room (ground arith) (
                  grow_selected start n m top em.batch_digest inv
                    (inl (em, select_request_sound nodes f set n set em (λ _ i. i) e, refl))))
          | inl e ↦ elim (Bool-cases (ltb (null_votes n set) (common_case_quorum nodes f))) [
            | inl few ↦
                rw (assign_loop, within, e, few)
                  (n, omega (arith, inv.reached), ground arith, (e, ground arith))
            | inr enough ↦
                rw
                  (
                    assign_loop,
                    within,
                    e,
                    enough,
                    step,
                    insert-Dense start n "" m inv.dense inv.reached,
                  )
                  (assign_loop-Ends start last fuel (suc n) _ top room (ground arith)
                    (grow_null start n m top inv (inr (refl, ground arith))))
          ]
        ]
  ]

  -- One round for each number left, and one to see the end.
  assign_loop-ne-out_of_fuel :
      (last fuel n : ℕ) (m : List (ℕ × String)) (top : ℕ)
      → suc last < word
      → n ≤ suc last
      → suc last < n + fuel
      → assign_loop nodes f set fuel last n m top ≢ out_of_fuel
  unfolding assign_loop
  assign_loop-ne-out_of_fuel last zero n m top room le enough = λ e. omega arith
  assign_loop-ne-out_of_fuel last (suc fuel) n m top room le enough =
      elim (Bool-cases (leb n last)) [
        | inr over ↦ ground arith
        | inl within ↦
            let step : n +ᵤ 1 ≡ suc n = ground arith in
            let next = λ (m' : List (ℕ × String)) (top' : ℕ).
              assign_loop-ne-out_of_fuel last fuel (suc n) m' top' room (ground arith)
                (omega arith) in
            elim (Option-cases (select_request nodes f set n set)) [
              | inr (em, e) ↦ rw (assign_loop, within, e, step) (next _ n)
              | inl e ↦ elim (Bool-cases (ltb (null_votes n set) (common_case_quorum nodes f))) [
                | inl few ↦ rw (assign_loop, within, e, few) (λ eq. cc)
                | inr all ↦ rw (assign_loop, within, e, all, step) (next _ top)
              ]
            ]
      ]

to_vc_pq : ℕ × String → VcPq
to_vc_pq e = record { sequence_number = e.0; batch_digest = e.1; view = 0 }

number_from-Found :
    (x : ℕ) (m r : List (ℕ × String))
    → Dense x r
    → All (Found m) r
    → x + length r < word
    → number_from m x r ≡ map to_vc_pq r
unfolding number_from to_vc_pq
number_from-Found x m [] h k room = refl
number_from-Found x m ((j, d) ∷ r) h k room =
    let step : x +ᵤ 1 ≡ suc x = ground arith in
    rw (step, number_from-Found (suc x) m r h.1 k.1 (omega arith)) (ground (arith, h.0, k.0))

map-Numbered : (x : ℕ) (r : List (ℕ × String)) → Dense x r → Numbered x (map to_vc_pq r)
unfolding to_vc_pq
map-Numbered x [] h = tt
map-Numbered x (e ∷ r) h = (h.0, map-Numbered (suc x) r h.1)

All-map :
    (P : ℕ → String → Type 0) (r : List (ℕ × String))
    → All (λ e. P e.0 e.1) r
    → All (λ x. P x.sequence_number x.batch_digest) (map to_vc_pq r)
unfolding to_vc_pq
All-map P [] h = tt
All-map P (e ∷ r) h = (h.0, All-map P r h.1)

length-map-to_vc_pq : (r : List (ℕ × String)) → length (map to_vc_pq r) ≡ length r
length-map-to_vc_pq [] = refl
length-map-to_vc_pq (e ∷ r) = ap suc (length-map-to_vc_pq r)

module _ (nodes f : ℕ) (set : List VcBasis) (l h : ℕ) where
  -- What each result of assignSequenceNumbers tells.
  abbrev pub Explained : Assignment → Type 0
  Explained running = ⊥
  Explained failed = (n : ℕ) × (h < n) × (n ≤ h + l) × Undecided nodes f set n
  Explained (chosen xs) =
      Numbered (h + 1) xs
      × All (λ x. Justified nodes f set x.sequence_number x.batch_digest) xs
      × (length xs ≤ l)

  finish-Explained :
      (o : Outcome)
      → h + l + 1 < word
      → o ≢ out_of_fuel
      → Ends nodes f set (h + 1) (h + l) o
      → Explained (finish h o)
  unfolding finish
  finish-Explained out_of_fuel room ne e = ne refl
  finish-Explained unassigned room ne (n, lo, hi, u) = (n, omega arith, hi, u)
  finish-Explained (assigned m top) room ne inv =
      let kept = prune-Dense (h + 1) top m inv.dense inv.topped in
      let step : h +ᵤ 1 ≡ h + 1 = omega arith in
      rw
        (
          step,
          number_from-Found (h + 1) (prune top m) (prune top m) kept (Dense-Found (h + 1) _ kept)
              (omega (arith, length-prune top m, inv.reached)),
        )
        (
          map-Numbered (h + 1) (prune top m) kept,
          All-map (Justified nodes f set) (prune top m) (All-prune _ top m inv.justified),
          omega (arith, length-map-to_vc_pq (prune top m), length-prune top m, inv.reached),
        )

  -- Below 2^64, and with more fuel than L, assignSequenceNumbers returns: either the new view's
  -- list, at most L requests numbered h + 1, h + 2, … without a gap, each one selected by A1 and A2
  -- or a null request that a quorum backs; or nil, when some number in (h, h+L] has neither.
  pub assign_sequence_numbers_lem :
      (fuel : ℕ)
      → h + l + 1 < word
      → l < fuel
      → Explained (assign_sequence_numbers fuel nodes f l set h)
  unfolding assign_sequence_numbers
  assign_sequence_numbers_lem fuel room enough =
      let last : h +ᵤ l ≡ h + l = omega arith in
      let first : h +ᵤ 1 ≡ h + 1 = omega arith in
      rw (last, first)
        (finish-Explained _ room
          (assign_loop-ne-out_of_fuel nodes f set (h + l) fuel (h + 1) [] (h + 1) (omega arith)
            (omega arith) (omega arith))
          (assign_loop-Ends nodes f set (h + 1) (h + l) fuel (h + 1) [] (h + 1) (omega arith)
            (omega arith)
            (record { dense = tt; reached = omega arith; justified = tt; topped = tt })))
