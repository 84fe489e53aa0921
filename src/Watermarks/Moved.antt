-- ===== src/Watermarks/Moved.antt =====
-- The state that moveWatermarks of rbft_impl.go leaves.
use mathlib.Core.Option.{some-injective}
use go_hpc_rbft.Base.{
  ℕ, ◌+◌, ◌≤◌, ◌<◌, ◌≡◌, refl, sym, ap, ◌∙◌, ◌⊎◌, inl, inr, false, List, ◌∷◌, Option, none, some,
  String, arith, if◌then◌else◌, leb, ltb, Option-cases, Bool-cases, ltb→lt, subst, string_eq,
  nat_eq,
}
use go_hpc_rbft.Base.Maps.{lookup, IsMap, delete_if, lookup-delete_if}
use go_hpc_rbft.Messages.{Checkpoint}
use go_hpc_rbft.Certs.{MsgId, Qidx, msg_id_eq, qidx_eq, clean_committed_cert_cache}
use go_hpc_rbft.Checkpoints.{ChkptId, chkpt_eq}
use go_hpc_rbft.Votes.{RequestBatch}
use go_hpc_rbft.Watermarks.Cleared.{drop_certs-Frame, drop_certs-seq_map, lookup-drop_certs}
use go_hpc_rbft.Watermarks.Batches.{drop_batches-Frame, drop_batches-kept, lookup-move_checkpoints}
use go_hpc_rbft.Watermarks.Retained.{clean_target-keeps}
use go_hpc_rbft.Watermarks.{
  Effect, Cellar, drop_certs, drop_batches, finished_batches, move_checkpoints, finish_watermarks,
  clear_to, clean_target, move_watermarks,
}

-- What is left above the new low watermark n, and what is gone.
pub record Moved (n : ℕ) (s s' : Cellar) : Type 0 where
  pub low : s'.h ≡ n
  pub certs :
      (j : MsgId) → lookup j s'.cert_store ≡ (if leb j.n n then none else lookup j s.cert_store)
  pub seqs : (k : ℕ) → n < k → lookup k s'.seq_map ≡ lookup k s.seq_map
  pub plist : (k : ℕ) → lookup k s'.plist ≡ (if leb k n then none else lookup k s.plist)
  pub qlist : (i : Qidx) → lookup i s'.qlist ≡ (if leb i.n n then none else lookup i s.qlist)
  pub checkpoints :
      (c : ChkptId)
      → lookup c s'.checkpoint_store
        ≡ (if leb c.sequence n then none else lookup c s.checkpoint_store)
  pub own_checkpoints :
      (k : ℕ)
      → lookup k s'.local_checkpoints ≡ (if ltb k n then none else lookup k s.local_checkpoints)
  pub batches :
      (d : String) (b : RequestBatch)
      → lookup d s.batch_store ≡ some b
      → 0 < b.seq_no
      → n < b.seq_no + s.committed_block_cache_number
      → lookup d s'.batch_store ≡ some b

module _ (sign : Option Checkpoint → Option String) (n target : ℕ) (s : Cellar) where
  -- The state before the checkpoints.
  unfoldable emptied : Cellar
  unfolding drop_certs drop_batches clean_committed_cert_cache
  emptied =
      let dropped = drop_certs n s.cert_store s in
      drop_batches target s.batch_store (record dropped {
        committed_cert_cache =
            clean_committed_cert_cache s.committed_block_cache_number n
              dropped.committed_cert_cache;
      })

  emptied_batch :
      (d : String) (b : RequestBatch)
      → IsMap s.batch_store
      → lookup d s.batch_store ≡ some b
      → target < b.seq_no
      → lookup d emptied.batch_store ≡ some b
  unfolding emptied
  emptied_batch d b keyed found above =
      let dropped = drop_certs n s.cert_store s in
      drop_batches-kept target s.batch_store
        (record dropped {
          committed_cert_cache =
              clean_committed_cert_cache s.committed_block_cache_number n
                dropped.committed_cert_cache;
        })
        d b keyed found above
      ∙ ap (λ m. lookup d m) (drop_certs-Frame n s.cert_store s).1
      ∙ found

  emptied_seq : (k : ℕ) → n < k → lookup k emptied.seq_map ≡ lookup k s.seq_map
  unfolding emptied
  emptied_seq k above =
      ap (λ m. lookup k m) (drop_batches-Frame target s.batch_store _).1.1
      ∙ drop_certs-seq_map n s.cert_store s k above

  emptied_certs :
      (j : MsgId)
      → lookup j emptied.cert_store ≡ (if leb j.n n then none else lookup j s.cert_store)
  unfolding emptied
  emptied_certs j =
      ap (λ m. lookup j m) (drop_batches-Frame target s.batch_store _).1.0 ∙ lookup-drop_certs n s j

  emptied_lists : (emptied.qlist ≡ s.qlist) × (emptied.plist ≡ s.plist)
  unfolding emptied
  emptied_lists =
      let ((q, p), _) = drop_batches-Frame target s.batch_store _ in
      let ((q', p'), _) = drop_certs-Frame n s.cert_store s in (q ∙ q', p ∙ p')

  -- The effects before those of the checkpoints.
  unfoldable told : List Effect
  unfolding emptied finished_batches
  told =
      Effect.remove_batches (finished_batches n s.last_service_height s.batch_store)
      ∷ emptied.outbox

  unfoldable shelved : Cellar
  unfolding emptied told move_checkpoints
  shelved = record emptied {
    checkpoint_store = delete_if (λ (id : ChkptId) _. leb id.sequence n) s.checkpoint_store;
    local_checkpoints = (move_checkpoints sign n false s.local_checkpoints told).0;
    outbox = (move_checkpoints sign n false s.local_checkpoints told).1;
  }

  clear_to_lem : clear_to sign n false target s ≡ finish_watermarks n shelved
  unfolding clear_to shelved told emptied
  clear_to_lem =
      ap (λ b. if b then finish_watermarks n shelved else shelved)
        (lookup-move_checkpoints sign n s.local_checkpoints told).1

  finished-Moved :
      IsMap s.batch_store
      → (target ≡ 0) ⊎ (target + s.committed_block_cache_number ≤ n)
      → Moved n s (finish_watermarks n shelved)
  unfolding finish_watermarks shelved
  finished-Moved keyed bound =
      let (same_q, same_p) = emptied_lists in
      record {
        low = refl;
        certs = emptied_certs;
        seqs = emptied_seq;
        plist = λ k.
            lookup-delete_if (λ j. leb j n) k emptied.plist
            ∙ ap (λ m. if leb k n then none else lookup k m) same_p;
        qlist = λ i.
            lookup-delete_if (λ (j : Qidx). leb j.n n) i emptied.qlist
            ∙ ap (λ m. if leb i.n n then none else lookup i m) same_q;
        checkpoints =
            λ c. lookup-delete_if (λ (id : ChkptId). leb id.sequence n) c s.checkpoint_store;
        own_checkpoints = (lookup-move_checkpoints sign n s.local_checkpoints told).0;
        batches = λ d b found positive recent.
            emptied_batch d b keyed found (target_below b.seq_no bound positive recent);
      }
    where
      target_below :
          (k : ℕ)
          → (target ≡ 0) ⊎ (target + s.committed_block_cache_number ≤ n)
          → 0 < k
          → n < k + s.committed_block_cache_number
          → target < k
      target_below k (inl zero_) positive recent = omega arith
      target_below k (inr small) positive recent = omega arith

-- Let the batches be stored under different digests. When moveWatermarks moves the low watermark to
-- n, not for a new epoch, and does not panic, then: if n is below the old watermark, nothing changes;
-- otherwise the watermark is n, exactly the certs, P and Q entries and stored checkpoints of numbers
-- above n are left, and the node's own checkpoints from n on; the digests in seqMap of numbers above
-- n are unchanged; and every batch of a number among the last CommittedBlockCacheNumber up to n, or
-- above, is kept.
pub move_watermarks-Moved :
    (sign : Option Checkpoint → Option String) (n : ℕ) (s s' : Cellar)
    → IsMap s.batch_store
    → move_watermarks sign n false s ≡ some s'
    → ((n < s.h) × (s' ≡ s)) ⊎ ((s.h ≤ n) × Moved n s s')
unfolding move_watermarks
move_watermarks-Moved sign n s s' keyed h = elim (Bool-cases (ltb n s.h)) [
  | inl below ↦
      inl (ltb→lt n s.h below, some-injective s' s (sym h ∙ rw (move_watermarks, below) refl))
  | inr above ↦
      elim (Option-cases (clean_target s.checkpoint_period s.committed_block_cache_number n)) [
        | inl panic ↦ absurd (ground (arith, h, above, panic))
        | inr (target, found) ↦
            let result : some (clear_to sign n false target s) ≡ some s' =
              rw (move_watermarks, above, found) at h in
            let same = some-injective (clear_to sign n false target s) s' result in
            inr (
              ground (arith, above),
              subst (Moved n s) (sym (clear_to_lem sign n target s) ∙ same) (
                  finished-Moved sign n target s keyed (
                    clean_target-keeps s.checkpoint_period s.committed_block_cache_number n target
                      found)),
            )
      ]
]
