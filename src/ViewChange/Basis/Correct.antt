-- ===== src/ViewChange/Basis/Correct.antt =====
-- What correctViewChange accepts, when it panics, and that it accepts the basis of getVcBasis.
use go_hpc_rbft.Base.{
  ℕ, ◌≤◌, ◌<◌, ◌≡◌, ◌↔◌, refl, inl, inr, true, List, [], ◌∷◌, ◌++◌, Option, none, some, arith, All,
  ltb, Eq, nat_eq, Bool-cases,
}
use go_hpc_rbft.Base.Maps.{lookup, insert}
use go_hpc_rbft.Messages.{VcPq, VcBasis, SignedCheckpoint, height, get_execute_state, get_height}
use go_hpc_rbft.Certs.{MsgId, Qidx, CertStore, pre_prepared, prepared, qidx_eq}
use go_hpc_rbft.ViewChange.Basis.{
  entry_of, higher, calc_p_loop, calc_p_set, calc_q_loop, calc_q_set, gather, gather_checkpoints,
  Vault, get_vc_basis, correct_entries, correct_checkpoints, checkpoint_of, correct_view_change,
}

abbrev pub GoodEntry : ℕ → ℕ → VcPq → Type 0
GoodEntry view h p = (p.view < view) × (h < p.sequence_number)

abbrev pub GoodCheckpoint : ℕ → Option SignedCheckpoint → Type 0
GoodCheckpoint h c = h ≤ height (checkpoint_of c)

correct_entries_iff :
    (view h : ℕ) (ps : List VcPq) → (correct_entries view h ps ≡ true) ↔ All (GoodEntry view h) ps
unfolding correct_entries
correct_entries_iff view h [] = ((λ e. tt), (λ e. refl))
correct_entries_iff view h (p ∷ ps) = (
  (λ e. ((ground arith, ground arith), (correct_entries_iff view h ps).0 (ground arith))),
  (λ (good, rest). ground (arith, (correct_entries_iff view h ps).1 rest)),
)

correct_checkpoints_iff :
    (h : ℕ) (cs : List (Option SignedCheckpoint))
    → (correct_checkpoints h cs ≡ some true) ↔ All (GoodCheckpoint h) cs
unfolding correct_checkpoints
correct_checkpoints_iff h [] = ((λ e. tt), (λ e. refl))
correct_checkpoints_iff h (c ∷ cs) = (
  (λ e. (ground arith, (correct_checkpoints_iff h cs).0 (ground arith))),
  (λ (good, rest). ground (arith, (correct_checkpoints_iff h cs).1 rest)),
)

-- correctViewChange accepts a basis exactly when every entry of its P and Q sets has a lower view
-- than the basis and a number above its h, and every checkpoint has a height of at least h.
pub correct_view_change-accepts :
    (b : VcBasis)
    → (correct_view_change b ≡ some true)
      ↔ (All (GoodEntry b.view b.h) (b.pset ++ b.qset) × All (GoodCheckpoint b.h) b.cset)
unfolding correct_view_change
correct_view_change-accepts b = (
  (λ e. (
    (correct_entries_iff b.view b.h (b.pset ++ b.qset)).0 (ground arith),
    (correct_checkpoints_iff b.h b.cset).0 (ground arith),
  )),
  (λ (entries, checkpoints). ground (
    arith,
    (correct_entries_iff b.view b.h (b.pset ++ b.qset)).1 entries,
    (correct_checkpoints_iff b.h b.cset).1 checkpoints,
  )),
)

correct_checkpoints-panics :
    (h : ℕ) (before : List (Option SignedCheckpoint)) (c : Option SignedCheckpoint)
    (after : List (Option SignedCheckpoint))
    → All (GoodCheckpoint h) before
    → 0 < h
    → get_execute_state (checkpoint_of c) ≡ none
    → correct_checkpoints h (before ++ (c ∷ after)) ≡ none
unfolding correct_checkpoints height get_height
correct_checkpoints-panics h [] c after good pos empty = ground (arith, empty)
correct_checkpoints-panics h (b ∷ before) c after (good, rest) pos empty =
    ground (arith, correct_checkpoints-panics h before c after rest pos empty)

-- correctViewChange panics on a basis with h above 0, good entries in its P and Q sets, and a
-- checkpoint without execute state before which all are of height h or more.
pub correct_view_change-panics :
    (b : VcBasis) (before : List (Option SignedCheckpoint)) (c : Option SignedCheckpoint)
    (after : List (Option SignedCheckpoint))
    → All (GoodEntry b.view b.h) (b.pset ++ b.qset)
    → b.cset ≡ before ++ (c ∷ after)
    → All (GoodCheckpoint b.h) before
    → 0 < b.h
    → get_execute_state (checkpoint_of c) ≡ none
    → correct_view_change b ≡ none
unfolding correct_view_change
correct_view_change-panics b before c after entries split good pos empty = ground (
  arith,
  (correct_entries_iff b.view b.h (b.pset ++ b.qset)).1 entries,
  split,
  correct_checkpoints-panics b.h before c after good pos empty,
)

All-append : {A : Type 0} (P : A → Type 0) (xs ys : List A) → All P xs → All P ys → All P (xs ++ ys)
All-append P [] ys h k = k
All-append P (x ∷ xs) ys (p, h) k = (p, All-append P xs ys h k)

module _ {K : Type 0} ⦃eq : Eq K⦄ (P : VcPq → Type 0) where
  abbrev Values : List (K × VcPq) → Type 0
  Values [] = Unit
  Values ((_, p) ∷ m) = P p × Values m

  insert-Values : (k : K) (p : VcPq) (m : List (K × VcPq)) → P p → Values m → Values (insert k p m)
  unfolding insert
  insert-Values k p [] good h = (good, tt)
  insert-Values k p ((j, q) ∷ m) good (g, h) = elim (Bool-cases (eq.beq j k)) [
    | inl e ↦ rw e (good, h)
    | inr e ↦ rw e (g, insert-Values k p m good h)
  ]

  gather-Values : (h : ℕ) (m : List (K × VcPq)) → Values m → All P (gather h m)
  unfolding gather
  gather-Values h [] v = tt
  gather-Values h ((j, q) ∷ m) (g, v) = elim (Bool-cases (ltb q.sequence_number h)) [
    | inl e ↦ rw e (gather-Values h m v)
    | inr e ↦ rw e (g, gather-Values h m v)
  ]

module _ (P : VcPq → Type 0) (certs : CertStore) where
  calc_p_loop-Values :
      (nodes f : ℕ) (rest : CertStore) (pset : List (ℕ × VcPq))
      → ((idx : MsgId) → prepared nodes f certs idx ≡ true → P (entry_of idx))
      → Values P pset
      → Values P (calc_p_loop nodes f certs rest pset)
  unfolding calc_p_loop
  calc_p_loop-Values nodes f [] pset good v = v
  calc_p_loop-Values nodes f ((idx, _) ∷ rest) pset good v =
      elim (Bool-cases (prepared nodes f certs idx)) [
        | inr out ↦ rw out (calc_p_loop-Values nodes f rest pset good v)
        | inl p ↦ elim (Bool-cases (higher (lookup idx.n pset) idx.v)) [
          | inl k ↦ rw (p, k) (calc_p_loop-Values nodes f rest pset good v)
          | inr k ↦
              rw (p, k)
                (calc_p_loop-Values nodes f rest (insert idx.n (entry_of idx) pset) good
                  (insert-Values P idx.n (entry_of idx) pset (good idx p) v))
        ]
      ]

  calc_q_loop-Values :
      (rest : CertStore) (qset : List (Qidx × VcPq))
      → ((idx : MsgId) → pre_prepared certs idx ≡ true → P (entry_of idx))
      → Values P qset
      → Values P (calc_q_loop certs rest qset)
  unfolding calc_q_loop
  calc_q_loop-Values [] qset good v = v
  calc_q_loop-Values ((idx, _) ∷ rest) qset good v =
      let qi : Qidx = record { d = idx.d; n = idx.n } in
      elim (Bool-cases (pre_prepared certs idx)) [
        | inr out ↦ rw out (calc_q_loop-Values rest qset good v)
        | inl p ↦ elim (Bool-cases (higher (lookup qi qset) idx.v)) [
          | inl k ↦ rw (p, k) (calc_q_loop-Values rest qset good v)
          | inr k ↦
              rw (p, k)
                (calc_q_loop-Values rest (insert qi (entry_of idx) qset) good
                  (insert-Values P qi (entry_of idx) qset (good idx p) v))
        ]
      ]

abbrev pub GoodCheckpoints : ℕ → List (ℕ × SignedCheckpoint) → Type 0
GoodCheckpoints h [] = Unit
GoodCheckpoints h ((_, c) ∷ cs) = (h ≤ height c.checkpoint) × GoodCheckpoints h cs

gather_checkpoints-Good :
    (h : ℕ) (cs : List (ℕ × SignedCheckpoint))
    → GoodCheckpoints h cs
    → All (GoodCheckpoint h) (gather_checkpoints cs)
unfolding gather_checkpoints checkpoint_of
gather_checkpoints-Good h [] g = tt
gather_checkpoints-Good h ((_, c) ∷ cs) (g, gs) = (g, gather_checkpoints-Good h cs gs)

-- When a replica's pre-prepared certs and its P and Q lists are all of views below its own and of
-- numbers above H, and its local checkpoints are at H or above, other replicas accept its basis.
pub correct_view_change-get_vc_basis :
    (s : Vault)
    → ((idx : MsgId) → pre_prepared s.cert_store idx ≡ true → GoodEntry s.view s.h (entry_of idx))
    → Values (GoodEntry s.view s.h) s.plist
    → Values (GoodEntry s.view s.h) s.qlist
    → GoodCheckpoints s.h s.local_checkpoints
    → correct_view_change (get_vc_basis s).0 ≡ some true
unfolding get_vc_basis calc_p_set calc_q_set
correct_view_change-get_vc_basis s certs ps qs cs =
    let good = GoodEntry s.view s.h in
    let prepared_good : (idx : MsgId)
        → prepared s.nodes s.faults s.cert_store idx ≡ true
        → good (entry_of idx) =
      λ idx p. certs idx (unfold prepared in ground arith) in
    (correct_view_change-accepts (get_vc_basis s).0).1 (
      All-append good (gather s.h (calc_p_set s.nodes s.faults s.cert_store s.plist))
          (gather s.h (calc_q_set s.cert_store s.qlist))
          (gather-Values good s.h _ (
            calc_p_loop-Values good s.cert_store s.nodes s.faults s.cert_store s.plist prepared_good
              ps))
          (gather-Values good s.h _
            (calc_q_loop-Values good s.cert_store s.cert_store s.qlist certs qs)),
      gather_checkpoints-Good s.h s.local_checkpoints cs,
    )
