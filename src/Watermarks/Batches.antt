-- ===== src/Watermarks/Batches.antt =====
-- What moveWatermarks of rbft_impl.go does with the batches and with the node's own checkpoints.
use mathlib.Core.Option.{some-injective}
use go_hpc_rbft.Base.{
  ℕ, ◌≡◌, ◌<◌, refl, sym, ap, ◌∙◌, ◌⊎◌, inl, inr, true, false, List, [], ◌∷◌, Option, none, some,
  String, arith, if◌then◌else◌, leb, ltb, ◌==◌, Bool-cases, string_eq, nat_eq, str_eq, eq_iff,
}
use go_hpc_rbft.Base.Maps.{lookup, delete, lookup-delete, IsMap, lookup_first, lookup_rest}
use go_hpc_rbft.Messages.{Checkpoint, SignedCheckpoint}
use go_hpc_rbft.Votes.{RequestBatch}
use go_hpc_rbft.Watermarks.Cleared.{Frame}
use go_hpc_rbft.Watermarks.{Effect, Cellar, drop_batches, move_checkpoints}

-- A batch above the target stays.
module _ (target : ℕ) where
  batch_step :
      (digest : String) (batch : RequestBatch) (batches : List (String × RequestBatch)) (s : Cellar)
      → (r : Cellar) × ((drop_batches target ((digest, batch) ∷ batches) s
            ≡ drop_batches target batches r)
          × ((Frame s r × ((r.cert_store ≡ s.cert_store) × (r.seq_map ≡ s.seq_map)))
              × ((r.batch_store ≡ s.batch_store)
                  ⊎ ((leb batch.seq_no target ≡ true)
                      × (r.batch_store ≡ delete digest s.batch_store)))))
  unfolding drop_batches
  batch_step digest batch batches s = elim (Bool-cases (leb batch.seq_no target)) [
    | inl low ↦
        let r = record s {
          batch_store = delete digest s.batch_store;
          outbox = Effect.del_batch digest ∷ s.outbox;
        } in
        (
          r,
          (
            ap (λ b. drop_batches target batches (if b then r else s)) low,
            (((refl, refl), (refl, refl)), inr (low, refl)),
          ),
        )
    | inr high ↦ (
      s,
      (
        ap
            (λ b. drop_batches target batches (
              if b
              then record s {
                batch_store = delete digest s.batch_store;
                outbox = Effect.del_batch digest ∷ s.outbox;
              }
              else s))
            high,
        (((refl, refl), (refl, refl)), inl refl),
      ),
    )
  ]

  pub drop_batches-Frame :
      (batches : List (String × RequestBatch)) (s : Cellar)
      → Frame s (drop_batches target batches s)
        × (((drop_batches target batches s).cert_store ≡ s.cert_store)
            × ((drop_batches target batches s).seq_map ≡ s.seq_map))
  unfolding drop_batches
  drop_batches-Frame [] s = ((refl, refl), (refl, refl))
  drop_batches-Frame ((digest, batch) ∷ batches) s =
      let (r, (step, (((q, p), (c, m)), _))) = batch_step digest batch batches s in
      let ((q', p'), (c', m')) = drop_batches-Frame batches r in
      rw step ((q' ∙ q, p' ∙ p), (c' ∙ c, m' ∙ m))

  untouched_batch :
      (batches : List (String × RequestBatch)) (s : Cellar) (d : String)
      → lookup d batches ≡ none
      → lookup d (drop_batches target batches s).batch_store ≡ lookup d s.batch_store
  unfolding drop_batches
  untouched_batch [] s d h = refl
  untouched_batch ((digest, batch) ∷ batches) s d h =
      let (r, (step, (_, change))) = batch_step digest batch batches s in
      elim (Bool-cases (str_eq digest d)) [
        | inl hit ↦ absurd (ground (arith, lookup_first digest d batch batches hit, h))
        | inr miss ↦
            let later =
              untouched_batch batches r d (sym (lookup_rest digest d batch batches miss) ∙ h) in
            rw step (
              later ∙ elim change [
                | inl same ↦ ap (λ m. lookup d m) same
                | inr (low, gone) ↦
                    ap (λ m. lookup d m) gone
                    ∙ lookup-delete digest d s.batch_store
                    ∙ ap (λ b. if b then none else lookup d s.batch_store) miss
              ])
      ]

  pub drop_batches-kept :
      (batches : List (String × RequestBatch)) (s : Cellar) (d : String) (b : RequestBatch)
      → IsMap batches
      → lookup d batches ≡ some b
      → target < b.seq_no
      → lookup d (drop_batches target batches s).batch_store ≡ lookup d s.batch_store
  drop_batches-kept [] s d b keyed found above = absurd (unfold lookup in ground (arith, found))
  drop_batches-kept ((digest, batch) ∷ batches) s d b (new, keyed) found above =
      let (r, (step, (_, change))) = batch_step digest batch batches s in
      elim (Bool-cases (str_eq digest d)) [
        | inl hit ↦
            let same : digest ≡ d = (eq_iff digest d).0 hit in
            let mine : batch ≡ b =
              some-injective batch b (sym (lookup_first digest d batch batches hit) ∙ found) in
            let later = untouched_batch batches r d (ap (λ k. lookup k batches) (sym same) ∙ new) in
            rw step (
              later ∙ elim change [
                | inl kept ↦ ap (λ m. lookup d m) kept
                | inr (low, gone) ↦
                    absurd (ground (arith, above, ap (λ (x : RequestBatch). x.seq_no) mine, low))
              ])
        | inr miss ↦
            let later =
              drop_batches-kept batches r d b keyed
                (sym (lookup_rest digest d batch batches miss) ∙ found) above in
            rw step (
              later ∙ elim change [
                | inl same ↦ ap (λ m. lookup d m) same
                | inr (low, gone) ↦
                    ap (λ m. lookup d m) gone
                    ∙ lookup-delete digest d s.batch_store
                    ∙ ap (λ b. if b then none else lookup d s.batch_store) miss
              ])
      ]

module _ (sign : Option Checkpoint → Option String) (h : ℕ) where
  step_old :
      (n : ℕ) (signed : SignedCheckpoint) (rest : List (ℕ × SignedCheckpoint)) (out : List Effect)
      → ltb n h ≡ true
      → move_checkpoints sign h false ((n, signed) ∷ rest) out
        ≡ move_checkpoints sign h false rest (Effect.del_checkpoint n ∷ out)
  unfolding move_checkpoints
  step_old n signed rest out old = rw (move_checkpoints, old) refl

  step_recent :
      (n : ℕ) (signed : SignedCheckpoint) (rest : List (ℕ × SignedCheckpoint)) (out : List Effect)
      → ltb n h ≡ false
      → move_checkpoints sign h false ((n, signed) ∷ rest) out ≡ (
        (n, signed) ∷ (move_checkpoints sign h false rest out).0,
        (move_checkpoints sign h false rest out).1,
        (move_checkpoints sign h false rest out).2,
      )
  unfolding move_checkpoints
  step_recent n signed rest out recent = rw (move_checkpoints, recent) refl

  -- Without a new epoch every checkpoint of the node below h goes and the others stay.
  pub lookup-move_checkpoints :
      (m : List (ℕ × SignedCheckpoint)) (out : List Effect)
      → ((k : ℕ)
          → lookup k (move_checkpoints sign h false m out).0
            ≡ (if ltb k h then none else lookup k m))
        × ((move_checkpoints sign h false m out).2 ≡ true)
  unfolding move_checkpoints
  lookup-move_checkpoints [] out = ((λ k. unfold lookup in ground arith), refl)
  lookup-move_checkpoints ((n, signed) ∷ rest) out = elim (Bool-cases (ltb n h)) [
    | inl old ↦
        let (at_k, done) = lookup-move_checkpoints rest (Effect.del_checkpoint n ∷ out) in
        rw (step_old n signed rest out old) (
          (λ k. at_k k ∙ elim (Bool-cases (n == k)) [
            | inl hit ↦ ground (arith, old, hit)
            | inr miss ↦
                ap (λ o. if ltb k h then none else o) (sym (lookup_rest n k signed rest miss))
          ]),
          done,
        )
    | inr recent ↦
        let (at_k, done) = lookup-move_checkpoints rest out in
        let kept = (move_checkpoints sign h false rest out).0 in
        rw (step_recent n signed rest out recent) (
          (λ k. elim (Bool-cases (n == k)) [
            | inl hit ↦
                let new : ltb k h ≡ false = ground (arith, recent, hit) in
                lookup_first n k signed kept hit
                ∙ sym (lookup_first n k signed rest hit)
                ∙ sym (ap (λ b. if b then none else lookup k ((n, signed) ∷ rest)) new)
            | inr miss ↦
                lookup_rest n k signed kept miss
                ∙ at_k k
                ∙ ap (λ o. if ltb k h then none else o) (sym (lookup_rest n k signed rest miss))
          ]),
          done,
        )
  ]
