-- ===== src/ViewChange/Assign/Selection.antt =====
-- What a request has behind it when the loops of assignSequenceNumbers select it.
use go_hpc_rbft.Base.{
  ℕ, ◌≤◌, ◌<◌, ◌≡◌, refl, ap, ◌∙◌, ◌⊎◌, inl, inr, Bool, true, not, ◌&&◌, List, [], ◌∷◌, some,
  String, arith, eq_iff, In, ◌==◌, str_eq, count, any, Option-cases,
}
use go_hpc_rbft.Messages.{VcPq, VcBasis}
use go_hpc_rbft.Quorum.{common_case_quorum, one_correct_quorum}
use go_hpc_rbft.ViewChange.Assign.{
  no_conflict, supporters, vouches, vouchers, has_entry, null_votes, select_entry, select_request,
}

module _ (nodes f : ℕ) (set : List VcBasis) where
  -- `em` stands in some P set for `n`, a quorum supports it (A1), and f + 1 vouch for it (A2).
  pub record Selected (n : ℕ) (em : VcPq) : Type 0 where
    pub source : VcBasis
    pub source_in : In source set
    pub entry_in : In em source.pset
    pub numbered : em.sequence_number ≡ n
    pub supported : common_case_quorum nodes f ≤ supporters n em set
    pub vouched : one_correct_quorum nodes f ≤ vouchers n em set

  select_entry_sound :
      (n : ℕ) (pset : List VcPq) (em : VcPq)
      → select_entry nodes f set n pset ≡ some em
      → In em pset
        × (em.sequence_number ≡ n)
        × (common_case_quorum nodes f ≤ supporters n em set)
        × (one_correct_quorum nodes f ≤ vouchers n em set)
  unfolding select_entry
  select_entry_sound n [] em h = cc
  select_entry_sound n (e ∷ pset) em h = ground (arith, select_entry_sound n pset em)

  pub select_request_sound :
      (n : ℕ) (ms : List VcBasis) (em : VcPq)
      → ((m : VcBasis) → In m ms → In m set)
      → select_request nodes f set n ms ≡ some em
      → Selected n em
  unfolding select_request
  select_request_sound n [] em sub h = cc
  select_request_sound n (m ∷ ms) em sub h =
      elim (Option-cases (select_entry nodes f set n m.pset)) [
        | inl e ↦
            select_request_sound n ms em (λ m' i. sub m' (inr i)) (rw (e, select_request) at h)
        | inr (x, e) ↦
            let hit : x ≡ em = ground arith in
            let (member, numbered, a1, a2) = select_entry_sound n m.pset em (e ∙ ap some hit) in
            record {
              source = m;
              source_in = sub m (inl refl);
              entry_in = member;
              numbered = numbered;
              supported = a1;
              vouched = a2;
            }
      ]

pub supporters-le :
    (n : ℕ) (em : VcPq) (set : List VcBasis)
    → supporters n em set ≤ count (λ m. no_conflict n em m.pset) set
unfolding supporters
supporters-le n em [] = omega arith
supporters-le n em (m ∷ set) = ground (arith, supporters-le n em set)

pub null_votes-le :
    (n : ℕ) (set : List VcBasis) → null_votes n set ≤ count (λ m. not (has_entry n m.pset)) set
unfolding null_votes
null_votes-le n [] = omega arith
null_votes-le n (m ∷ set) = ground (arith, null_votes-le n set)

pub vouchers-count :
    (n : ℕ) (em : VcPq) (set : List VcBasis)
    → vouchers n em set ≡ count (λ m. vouches n em m.qset) set
unfolding vouchers
vouchers-count n em [] = refl
vouchers-count n em (m ∷ set) = ground (arith, vouchers-count n em set)

-- A P set holds the entry ⟨n, d, v⟩.
abbrev pub holds : ℕ → String → ℕ → List VcPq → Bool
holds n d v = any λ e. e.sequence_number == n && (e.view == v && str_eq e.batch_digest d)

pub has_entry_of_holds :
    (n : ℕ) (d : String) (v : ℕ) (pset : List VcPq)
    → holds n d v pset ≡ true
    → has_entry n pset ≡ true
unfolding has_entry
has_entry_of_holds n d v [] h = cc
has_entry_of_holds n d v (e ∷ pset) h = ground (arith, has_entry_of_holds n d v pset)

-- An entry that a P set with ⟨n, d, v⟩ does not speak against has a higher view, or is that one.
pub no_conflict-holds :
    (n : ℕ) (d : String) (v : ℕ) (em : VcPq) (pset : List VcPq)
    → holds n d v pset ≡ true
    → no_conflict n em pset ≡ true
    → (v < em.view) ⊎ (d ≡ em.batch_digest)
unfolding no_conflict
no_conflict-holds n d v em [] h k = cc
no_conflict-holds n d v em (e ∷ pset) h k = ground (
  arith,
  no_conflict-holds n d v em pset,
  eq_iff e.batch_digest d,
  eq_iff e.batch_digest em.batch_digest,
)
