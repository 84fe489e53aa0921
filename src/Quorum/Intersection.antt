-- ===== src/Quorum/Intersection.antt =====
-- Quorums as votes over the list of validators.
use go_hpc_rbft.Base.{
  ℕ, ◌+◌, ◌≤◌, ◌<◌, ◌≡◌, refl, inl, inr, Bool, true, false, not, ◌&&◌, List, [], ◌∷◌, arith, length,
  count, In, Bool-cases,
}
use go_hpc_rbft.Quorum.{
  fault_bound, common_case_quorum, all_correct_replicas_quorum, one_correct_quorum,
}

module _ {A : Type 0} where
  -- Inclusion and exclusion.
  pub count-and :
      (p q : A → Bool) (xs : List A)
      → count p xs + count q xs ≤ length xs + count (λ x. p x && q x) xs
  count-and p q [] = omega arith
  count-and p q (x ∷ xs) = ground (arith, count-and p q xs)

  pub count-and_not :
      (p b : A → Bool) (xs : List A) → count p xs ≤ count b xs + count (λ x. p x && not (b x)) xs
  count-and_not p b [] = omega arith
  count-and_not p b (x ∷ xs) = ground (arith, count-and_not p b xs)

  pub In-of_count : (p : A → Bool) (xs : List A) → 0 < count p xs → (x : A) × In x xs × (p x ≡ true)
  In-of_count p [] h = absurd (omega arith)
  In-of_count p (x ∷ xs) h = elim (Bool-cases (p x)) [
    | inl e ↦ (x, inl refl, e)
    | inr e ↦ let (y, m, q) = In-of_count p xs (ground arith) in (y, inr m, q)
  ]

module _ {A : Type 0} (vs : List A) (faulty : A → Bool) where
  -- A set of f + 1 validators has a correct member, when at most f are faulty.
  pub one_correct_quorum_correct :
      (f : ℕ) (p : A → Bool)
      → count faulty vs ≤ f
      → one_correct_quorum (length vs) f ≤ count p vs
      → (x : A) × In x vs × (p x ≡ true) × (faulty x ≡ false)
  unfolding one_correct_quorum
  one_correct_quorum_correct f p few enough =
      let (x, m, e) =
        In-of_count (λ x. p x && not (faulty x)) vs (omega (arith, count-and_not p faulty vs)) in
      (x, m, ground arith, ground arith)

  -- Any two quorums of the common case share a correct validator, when at most f are faulty: the
  -- two cannot decide differently unless a correct validator voted in both.
  pub common_case_quorum-intersect :
      (f : ℕ) (p q : A → Bool)
      → count faulty vs ≤ f
      → common_case_quorum (length vs) f ≤ count p vs
      → common_case_quorum (length vs) f ≤ count q vs
      → (x : A) × In x vs × (p x ≡ true) × (q x ≡ true) × (faulty x ≡ false)
  unfolding common_case_quorum
  common_case_quorum-intersect f p q few hp hq =
      let both = λ (x : A). p x && q x in
      let (x, m, e, c) =
        one_correct_quorum_correct f both few
          (unfold one_correct_quorum in omega (arith, count-and p q vs)) in
      (x, m, ground arith, ground arith, c)

-- For f the fault bound of n validators, n at least 1, the n - f correct ones reach the common
-- case quorum by themselves, and a quorum minus f faulty members still has f + 1 correct ones.
pub common_case_quorum-reachable :
    (n : ℕ)
    → 1 ≤ n
    → let f = fault_bound n in
      (common_case_quorum n f ≤ all_correct_replicas_quorum n f)
      × (one_correct_quorum n f + f ≤ common_case_quorum n f)
unfolding fault_bound common_case_quorum all_correct_replicas_quorum one_correct_quorum
common_case_quorum-reachable n h = omega arith
