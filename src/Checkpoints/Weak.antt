-- ===== src/Checkpoints/Weak.antt =====
-- What a checkpoint message leads to: the weak certificate of its height, and the state target.
use go_hpc_rbft.Base.{
  ℕ, ◌≤◌, ◌<◌, ◌≡◌, refl, sym, ap, subst, ◌∙◌, inl, inr, true, List, [], ◌∷◌, ◌++◌, Option, some,
  String, arith, eq_iff, ltb, str_eq, nat_eq, string_eq, length, Bool-cases, Option-cases,
}
use go_hpc_rbft.Base.Groups.{listed, listed-nil}
use go_hpc_rbft.Base.Maps.{lookup, insert}
use go_hpc_rbft.Messages.{Checkpoint, SignedCheckpoint, height, digest}
use go_hpc_rbft.Quorum.{one_correct_quorum}
use go_hpc_rbft.Checkpoints.{
  ChkptId, chkpt_eq, Tally, too_many, tallied, tally, judge, Node, compare_checkpoint_with_weak_set,
}
use go_hpc_rbft.Checkpoints.Matching.{of_hash, Marked, tally_lem}

pub no_marks : (weak : ℕ) → 0 < weak → Marked (λ _. "") 0 weak [] []
no_marks weak pos k = (
  λ i. absurd i,
  λ le. absurd (ground (arith, le, pos, ap length (listed-nil {V = SignedCheckpoint} k))),
)

pub pos : (r : Node) → 0 < one_correct_quorum r.nodes r.faults
unfolding one_correct_quorum
pos r = omega arith

-- The store with the message in it, in the order of the visit.
abbrev pub visited :
    (List (ChkptId × SignedCheckpoint) → List (ChkptId × SignedCheckpoint))
    → SignedCheckpoint
    → Node
    → List (ChkptId × SignedCheckpoint)
visited order signed r = order (
    insert (record { author = signed.author; sequence = height signed.checkpoint }) signed
      r.checkpoint_store)

module _ (hash : Option Checkpoint → String) where
  judged :
      (at : ℕ) (t : Tally) (r r' : Node) (m : SignedCheckpoint) (ms : List SignedCheckpoint)
      → judge hash at t r ≡ ((true, m ∷ ms), r')
      → (diff : List (String × List SignedCheckpoint)) × (k : String) × (t ≡ tallied diff (k ∷ []))
        × (listed k diff ≡ m ∷ ms)
        × ((local : SignedCheckpoint)
            → lookup at r.local_checkpoints ≡ some local
            → digest local.checkpoint ≡ digest m.checkpoint)
  unfolding judge
  judged at too_many r r' m ms e = absurd (ground (arith, e))
  judged at (tallied diff []) r r' m ms e = absurd (ground (arith, e))
  judged at (tallied diff (k ∷ j ∷ l)) r r' m ms e = absurd (ground (arith, e))
  judged at (tallied diff (k ∷ [])) r r' m ms e =
      elim (Option-cases (lookup at r.local_checkpoints)) [
        | inl missing ↦ (
          diff,
          k,
          refl,
          ground (arith, e, missing),
          λ local found. absurd (ground (arith, missing, found)),
        )
        | inr (l, found) ↦
            let e' = rw (judge, found) at e in
            let lists : listed k diff ≡ m ∷ ms = ground (arith, e') in
            (
              diff,
              k,
              refl,
              lists,
              λ local found'.
                  let same : l ≡ local = ground (arith, found, found') in
                  let agrees : str_eq (digest l.checkpoint) (digest m.checkpoint) ≡ true =
                    ground (arith, rw lists at e') in
                  sym (ap (λ (x : SignedCheckpoint). digest x.checkpoint) same)
                  ∙ (eq_iff (digest l.checkpoint) (digest m.checkpoint)).0 agrees,
            )
      ]

  -- If compareCheckpointWithWeakSet calls a checkpoint legal and returns matching checkpoints, then
  -- for some hash k these are all the checkpoints of the message's height and of hash k in the store,
  -- once the message has been put into it, in the order of the visit, and there are at least f + 1; no
  -- other hash has f + 1; and a checkpoint that the node made itself at the height has the digest of
  -- the first of them. The message itself may have a hash other than k.
  pub compare_checkpoint_with_weak_set-matching :
      (order : List (ChkptId × SignedCheckpoint) → List (ChkptId × SignedCheckpoint))
      (signed : SignedCheckpoint) (r r' : Node) (m : SignedCheckpoint) (ms : List SignedCheckpoint)
      → compare_checkpoint_with_weak_set hash order signed r ≡ ((true, m ∷ ms), r')
      → (k : String) × (m ∷ ms ≡ of_hash hash (height signed.checkpoint) k (visited order signed r))
        × (one_correct_quorum r.nodes r.faults ≤ length (m ∷ ms))
        × ((other : String)
            → one_correct_quorum r.nodes r.faults
              ≤ length (of_hash hash (height signed.checkpoint) other (visited order signed r))
            → other ≡ k)
        × ((local : SignedCheckpoint)
            → lookup (height signed.checkpoint) r.local_checkpoints ≡ some local
            → digest local.checkpoint ≡ digest m.checkpoint)
  unfolding compare_checkpoint_with_weak_set
  compare_checkpoint_with_weak_set-matching order signed r r' m ms e =
      let at = height signed.checkpoint in
      let weak = one_correct_quorum r.nodes r.faults in
      let store =
        insert (record { author = signed.author; sequence = at }) signed r.checkpoint_store in
      elim (Bool-cases (ltb r.h at)) [
        | inr low ↦ absurd (ground (arith, e, low))
        | inl high ↦
            let e' = rw high at e in
            let (diff, k, t, lists, local) =
              judged at (tally hash weak at (order store) [] [])
                (record r { checkpoint_store = store }) r' m ms e' in
            let (all, marked) =
              tally_lem hash at weak (order store) [] diff [] (k ∷ []) (no_marks weak (pos r)) t in
            let none_before = λ (j : String). listed-nil {V = SignedCheckpoint} j in
            let each : (j : String) → listed j diff ≡ of_hash hash at j (order store) =
              λ j. all j ∙ ap (λ l. l ++ of_hash hash at j (order store)) (none_before j) in
            (
              k,
              sym lists ∙ each k,
              subst (λ l. weak ≤ length l) lists ((marked k).0 (inl refl)),
              λ other enough.
                  elim ((marked other).1 (subst (λ l. weak ≤ length l) (sym (each other)) enough)) [
                    | inl same ↦ same
                    | inr x ↦ absurd x
                  ],
              local,
            )
      ]
