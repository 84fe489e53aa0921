-- ===== src/ViewChange/Assign/Safety.antt =====
-- Why a request that a quorum has prepared is not lost or replaced by a view change.
use go_hpc_rbft.Base.{
  ℕ, ◌+◌, ◌≤◌, ◌<◌, ◌≡◌, refl, ◌∙◌, ◌⊎◌, inl, inr, Bool, true, false, not, ◌&&◌, List, [], ◌∷◌,
  String, arith, In, All-In, count, length, count_disjoint, Bool-cases, eq_iff, ltb, leb, ◌==◌,
  str_eq, ◌≢◌,
}
use go_hpc_rbft.Base.Words.{word}
use go_hpc_rbft.Messages.{VcPq, VcBasis}
use go_hpc_rbft.Quorum.{common_case_quorum, one_correct_quorum}
use go_hpc_rbft.Quorum.Intersection.{count-and, count-and_not, one_correct_quorum_correct}
use go_hpc_rbft.ViewChange.Assign.{
  no_conflict, supporters, vouches, has_entry, null_votes, chosen, assign_sequence_numbers,
}
use go_hpc_rbft.ViewChange.Assign.Selection.{
  Selected, supporters-le, null_votes-le, vouchers-count, holds, has_entry_of_holds,
  no_conflict-holds,
}
use go_hpc_rbft.ViewChange.Assign.Numbering.{Justified, assign_sequence_numbers_lem}

module _ (n : ℕ) (d : String) (v : ℕ) where
  abbrev holder : VcBasis → Bool
  holder m = holds n d v m.pset

  null_votes-holders : (set : List VcBasis) → null_votes n set + count holder set ≤ length set
  null_votes-holders set =
      let apart =
        count_disjoint (λ (m : VcBasis). not (has_entry n m.pset)) holder set
          λ m none_for_n. ground (arith, has_entry_of_holds n d v m.pset) in
      omega (arith, null_votes-le n set, apart)

  supporters-holders :
      (em : VcPq) (set : List VcBasis)
      → ¬ ((v < em.view) ⊎ (d ≡ em.batch_digest))
      → supporters n em set + count holder set ≤ length set
  supporters-holders em set other =
      let apart =
        count_disjoint (λ (m : VcBasis). no_conflict n em m.pset) holder set
          λ m agrees. elim (Bool-cases (holder m)) [
            | inl held ↦ absurd (other (no_conflict-holds n d v em m.pset held agrees))
            | inr free ↦ free
          ] in
      omega (arith, supporters-le n em set, apart)

  -- With more than |S| - quorum holders of ⟨n, d, v⟩ in S, only d or a request of a higher view
  -- can be justified for n.
  Justified-of_holders :
      (nodes f : ℕ) (set : List VcBasis) (d' : String)
      → length set < common_case_quorum nodes f + count holder set
      → Justified nodes f set n d'
      → (d' ≡ d)
        ⊎ ((em : VcPq) × Selected nodes f set n em × (v < em.view) × (em.batch_digest ≡ d'))
  Justified-of_holders nodes f set d' many (inr (e, backed)) =
      absurd (omega (arith, null_votes-holders set))
  Justified-of_holders nodes f set d' many (inl (em, sel, e)) = elim (Bool-cases (ltb v em.view)) [
    | inl higher ↦ inr (em, sel, ground arith, e)
    | inr low ↦ elim (Bool-cases (str_eq d em.batch_digest)) [
      | inl same ↦ inl (ground (arith, eq_iff d em.batch_digest))
      | inr differs ↦
          let other : ¬ ((v < em.view) ⊎ (d ≡ em.batch_digest)) =
            λ c. ground (arith, eq_iff d em.batch_digest, c) in
          absurd (omega (arith, supporters-holders em set other, sel.supported))
    ]
  ]

vouches-entry :
    (n : ℕ) (em : VcPq) (qset : List VcPq)
    → vouches n em qset ≡ true
    → (q : VcPq) × In q qset
      × (q.sequence_number ≡ n)
      × (em.view ≤ q.view)
      × (q.batch_digest ≡ em.batch_digest)
unfolding vouches
vouches-entry n em [] h = cc
vouches-entry n em (q ∷ qset) h =
    elim (Bool-cases
      (n == q.sequence_number && (leb em.view q.view && str_eq q.batch_digest em.batch_digest))) [
        | inl hit ↦ (
          q,
          inl refl,
          ground arith,
          ground arith,
          ground (arith, eq_iff q.batch_digest em.batch_digest),
        )
        | inr miss ↦
            let (r, member, at_n, later, same) = vouches-entry n em qset (ground arith) in
            (r, inr member, at_n, later, same)
      ]

-- An entry of the new view's list carries its justification.
entry-Justified :
    (nodes f l h fuel : ℕ) (set : List VcBasis) (xs : List VcPq) (x : VcPq)
    → h + l + 1 < word
    → l < fuel
    → assign_sequence_numbers fuel nodes f l set h ≡ chosen xs
    → In x xs
    → Justified nodes f set x.sequence_number x.batch_digest
entry-Justified nodes f l h fuel set xs x room enough e i =
    let all = rw e at (assign_sequence_numbers_lem nodes f set l h fuel room enough) in
    All-In (λ y. Justified nodes f set y.sequence_number y.batch_digest) xs x all.1 i

module _ {A : Type 0} (vs : List A) (faulty prepared sent : A → Bool) (set : List VcBasis) where
  -- Let at most f of the validators be faulty, let a quorum have prepared digest d for number n in
  -- view v, and let the messages S come from distinct validators, those that are correct and have
  -- prepared the request with ⟨n, d, v⟩ in their P sets. Then what assignSequenceNumbers puts at n
  -- is d, or a request that it selected from an entry of a view above v: never a null request, and
  -- never another request of view v or below.
  pub prepared_request_survives :
      (f l h fuel n v : ℕ) (d : String) (xs : List VcPq) (x : VcPq)
      → h + l + 1 < word
      → l < fuel
      → count faulty vs ≤ f
      → common_case_quorum (length vs) f ≤ count prepared vs
      → length set ≡ count sent vs
      → count (λ a. (prepared a && sent a) && not (faulty a)) vs
        ≤ count (λ m. holds n d v m.pset) set
      → assign_sequence_numbers fuel (length vs) f l set h ≡ chosen xs
      → In x xs
      → x.sequence_number ≡ n
      → (x.batch_digest ≡ d)
        ⊎ ((em : VcPq) × Selected (length vs) f set n em
            × (v < em.view)
            × (em.batch_digest ≡ x.batch_digest))
  prepared_request_survives f l h fuel n v d xs x room enough few quorum senders report e i at_n =
      let both = λ (a : A). prepared a && sent a in
      Justified-of_holders n d v (length vs) f set x.batch_digest
        (unfold common_case_quorum in
          omega (arith, count-and prepared sent vs, count-and_not both faulty vs, quorum))
        (rw at_n at (entry-Justified (length vs) f l h fuel set xs x room enough e i))

-- With at most f messages of S from faulty replicas, a request in the new view's list that is not a
-- null request stands, under that number, in the Q set of a replica that is not faulty: a view
-- change makes up no request.
pub assigned_request_was_proposed :
    (nodes f l h fuel : ℕ) (set : List VcBasis) (faulty : VcBasis → Bool) (xs : List VcPq)
    (x : VcPq)
    → h + l + 1 < word
    → l < fuel
    → count faulty set ≤ f
    → assign_sequence_numbers fuel nodes f l set h ≡ chosen xs
    → In x xs
    → x.batch_digest ≢ ""
    → (m : VcBasis) × (q : VcPq) × In m set
      × (faulty m ≡ false)
      × In q m.qset
      × (q.sequence_number ≡ x.sequence_number)
      × (q.batch_digest ≡ x.batch_digest)
assigned_request_was_proposed nodes f l h fuel set faulty xs x room enough few e i real =
    elim (entry-Justified nodes f l h fuel set xs x room enough e i) [
      | inr (null, _) ↦ absurd (real null)
      | inl (em, sel, same) ↦
          let n = x.sequence_number in
          let (m, member, says, correct) =
            one_correct_quorum_correct set faulty f (λ m. vouches n em m.qset) few
              (unfold one_correct_quorum in omega (arith, vouchers-count n em set, sel.vouched)) in
          let (q, q_in, at_n, later, digest) = vouches-entry n em m.qset says in
          (m, q, member, correct, q_in, at_n, digest ∙ same)
    ]
