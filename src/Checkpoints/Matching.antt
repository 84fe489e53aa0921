-- ===== src/Checkpoints/Matching.antt =====
-- What compareCheckpointWithWeakSet finds among the checkpoints of one height.
use mathlib.Core.List.{append-nil, append_assoc}
use go_hpc_rbft.Base.{
  ℕ, ◌+◌, ◌≤◌, ◌≡◌, ◌≢◌, ◌↔◌, refl, sym, ap, subst, ◌∙◌, ◌⊎◌, inl, inr, true, ◌&&◌, List, [], ◌∷◌,
  ◌++◌, Option, String, arith, eq_iff, if◌then◌else◌, ltb, ◌==◌, str_eq, string_eq, length,
  length-append, In, Bool-cases,
}
use go_hpc_rbft.Base.Groups.{listed, append_to, listed-append_to}
use go_hpc_rbft.Messages.{Checkpoint, SignedCheckpoint}
use go_hpc_rbft.Checkpoints.{ChkptId, chkpt_eq, tallied, tally}

module _ (hash : Option Checkpoint → String) (wanted : ℕ) where
  -- The checkpoints of the height with the hash, in the order of the visit.
  unfoldable pub of_hash : String → List (ChkptId × SignedCheckpoint) → List SignedCheckpoint
  of_hash k [] = []
  of_hash k ((cp, signed) ∷ rest) =
      let others = of_hash k rest in
      if cp.sequence == wanted && str_eq (hash signed.checkpoint) k then signed ∷ others else others

  -- `correct` has the hashes with at least `weak` checkpoints.
  abbrev pub Marked : ℕ → List (String × List SignedCheckpoint) → List String → Type 0
  Marked weak diff correct = (k : String) → In k correct ↔ (weak ≤ length (listed k diff))

  In-snoc : (k j : String) (l : List String) → In k (l ++ j ∷ []) ↔ (In k l ⊎ (k ≡ j))
  In-snoc k j [] = (
    λ i. elim i [ inl e ↦ inr e | inr x ↦ absurd x ],
    λ i. elim i [ inl x ↦ absurd x | inr e ↦ inl e ],
  )
  In-snoc k j (x ∷ l) =
      let (to, back) = In-snoc k j l in
      (
        λ i. elim i [
          | inl e ↦ inl (inl e)
          | inr r ↦ elim (to r) [ inl r' ↦ inl (inr r') | inr e ↦ inr e ]
        ],
        λ i. elim i [
          | inl (inl e) ↦ inl e
          | inl (inr r) ↦ inr (back (inl r))
          | inr e ↦ inr (back (inr e))
        ],
      )

  length-append_to :
      (j k : String) (s : SignedCheckpoint) (diff : List (String × List SignedCheckpoint))
      → length (listed j (append_to k s diff))
        ≡ length (listed j diff) + (if str_eq k j then 1 else 0)
  length-append_to j k s diff = elim (Bool-cases (str_eq k j)) [
    | inl hit ↦
        let same : k ≡ j = (eq_iff k j).0 hit in
        rw (listed-append_to j k s diff, hit)
          (length-append (listed k diff) (s ∷ []) ∙ ap (λ x. length (listed x diff) + 1) same)
    | inr miss ↦ rw (listed-append_to j k s diff, miss) (omega arith)
  ]

  Marked-step :
      (weak : ℕ) (k : String) (s : SignedCheckpoint) (diff : List (String × List SignedCheckpoint))
      (correct : List String)
      → Marked weak diff correct
      → Marked weak
          (append_to k s diff)
          (if length (listed k (append_to k s diff)) == weak then correct ++ k ∷ [] else correct)
  Marked-step weak k s diff correct m j =
      let now = length-append_to j k s diff in
      let here = length-append_to k k s diff in
      let self : str_eq k k ≡ true = (eq_iff k k).1 refl in
      let (to, back) = m j in
      elim (Bool-cases (str_eq k j)) [
        | inl hit ↦
            let same : k ≡ j = (eq_iff k j).0 hit in
            let old : length (listed k diff) ≡ length (listed j diff) =
              ap (λ x. length (listed x diff)) same in
            elim (Bool-cases (length (listed k (append_to k s diff)) == weak)) [
              | inl e ↦ rw e (
                λ _. ground (arith, now, here, self, hit, old, e),
                λ _. (In-snoc j k correct).1 (inr (sym same)),
              )
              | inr e ↦ rw e (
                λ i. ground (arith, now, hit, to i),
                λ le. back (ground (arith, now, here, self, hit, old, e, le)),
              )
            ]
        | inr miss ↦
            let other : j ≢ k = λ e. ground (arith, miss, self, e, (eq_iff k j).1 (sym e)) in
            elim (Bool-cases (length (listed k (append_to k s diff)) == weak)) [
              | inl e ↦ rw e (
                λ i. elim ((In-snoc j k correct).0 i) [
                  | inl old ↦ ground (arith, now, miss, to old)
                  | inr same ↦ absurd (other same)
                ],
                λ le. (In-snoc j k correct).1 (inl (back (ground (arith, now, miss, le)))),
              )
              | inr e ↦
                  rw e (
                    λ i. ground (arith, now, miss, to i),
                    λ le. back (ground (arith, now, miss, le)),
                  )
            ]
      ]

  grown :
      (j : String) (s : SignedCheckpoint) (cp : ChkptId) (rest : List (ChkptId × SignedCheckpoint))
      (diff : List (String × List SignedCheckpoint))
      → (cp.sequence == wanted) ≡ true
      → listed j (append_to (hash s.checkpoint) s diff) ++ of_hash j rest
        ≡ listed j diff ++ of_hash j ((cp, s) ∷ rest)
  unfolding of_hash
  grown j s cp rest diff same = elim (Bool-cases (str_eq (hash s.checkpoint) j)) [
    | inl hit ↦
        let at : hash s.checkpoint ≡ j = (eq_iff (hash s.checkpoint) j).0 hit in
        rw (listed-append_to j (hash s.checkpoint) s diff, same, hit)
          (append_assoc (listed (hash s.checkpoint) diff) (s ∷ []) (of_hash j rest)
            ∙ ap (λ x. listed x diff ++ s ∷ of_hash j rest) at)
    | inr miss ↦ rw (listed-append_to j (hash s.checkpoint) s diff, same, miss) refl
  ]

  -- What the loop leaves: the checkpoints by hash, and the hashes marked.
  pub tally_lem :
      (weak : ℕ) (entries : List (ChkptId × SignedCheckpoint))
      (diff diff' : List (String × List SignedCheckpoint)) (correct correct' : List String)
      → Marked weak diff correct
      → tally hash weak wanted entries diff correct ≡ tallied diff' correct'
      → ((k : String) → listed k diff' ≡ listed k diff ++ of_hash k entries)
        × Marked weak diff' correct'
  unfolding tally of_hash
  tally_lem weak [] diff diff' correct correct' m e =
      let d : diff ≡ diff' = ground (arith, e) in
      let c : correct ≡ correct' = ground (arith, e) in
      (
        λ k. sym (ap (listed k) d) ∙ sym (append-nil (listed k diff)),
        subst (λ x. Marked weak x correct') d (subst (Marked weak diff) c m),
      )
  tally_lem weak ((cp, s) ∷ rest) diff diff' correct correct' m e =
      let k = hash s.checkpoint in
      elim (Bool-cases (cp.sequence == wanted)) [
        | inr other ↦
            let (lists, marked) =
              tally_lem weak rest diff diff' correct correct' m (rw (tally, other) at e) in
            (λ j. rw other (lists j), marked)
        | inl same ↦ elim (Bool-cases (ltb weak (length (append_to k s diff)))) [
          | inl many ↦ absurd (ground (arith, rw (tally, same, many) at e))
          | inr few ↦
              let (lists, marked) =
                tally_lem weak rest (append_to k s diff) diff'
                  (if length (listed k (append_to k s diff)) == weak
                    then correct ++ k ∷ []
                    else correct)
                  correct' (Marked-step weak k s diff correct m) (rw (tally, same, few) at e) in
              (λ j. lists j ∙ grown j s cp rest diff same, marked)
        ]
      ]
