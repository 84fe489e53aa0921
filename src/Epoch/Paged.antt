-- ===== src/Epoch/Paged.antt =====
-- A node that asks for epoch changes accepts the proof that another node pages for it.
use go_hpc_rbft.Base.{
  ℕ, zero, suc, ◌+◌, ◌-◌, ◌≤◌, ◌<◌, ◌≡◌, refl, sym, ap, ◌∙◌, true, false, List, [], ◌∷◌, Option,
  some, arith, if◌then◌else◌, leb, ltb, ◌==◌, str_eq, eq_iff, length, min,
}
use go_hpc_rbft.Base.Words.{word, ◌+ᵤ◌, ◌-ᵤ◌, -ᵤ_exact}
use go_hpc_rbft.Messages.{Checkpoint, get_epoch, next_epoch}
use go_hpc_rbft.Epoch.{
  QuorumCheckpoint, EpochChange, EpochChangeRequest, EpochChangeProof, EpochManager, ProofOutcome,
  epoch_of, last_change, proof_next_epoch, verify_request, change_of, collect_changes,
  paging_get_epoch_change_proof, process_epoch_change_request, skip_stale,
  verify_epoch_change_proof, process_epoch_change_proof,
}

-- The stored checkpoint of an epoch ends this epoch.
pub record Ends (stored : ℕ → Option QuorumCheckpoint) (epoch : ℕ) : Type 0 where
  pub quorum : QuorumCheckpoint
  pub point : Checkpoint
  pub found : stored epoch ≡ some quorum
  pub has : quorum.checkpoint ≡ some point
  pub own : point.epoch ≡ epoch
  pub updates : point.need_update_epoch ≡ true

-- The changes of the epochs from `epoch` on, one for each round and one more.
record Run (stored : ℕ → Option QuorumCheckpoint) (rounds epoch : ℕ) : Type 0 where
  first : EpochChange
  rest : List EpochChange
  collected : collect_changes stored (suc rounds) epoch ≡ some (first ∷ rest)
  size : length rest ≡ rounds
  starts : epoch_of first ≡ epoch
  last : QuorumCheckpoint
  last_point : Checkpoint
  stops : (c : EpochChange) × ((last_change (first ∷ rest) ≡ some c) × (c.checkpoint ≡ some last))
  last_has : last.checkpoint ≡ some last_point
  reaches : next_epoch last_point ≡ epoch + suc rounds

module _ (stored : ℕ → Option QuorumCheckpoint) where
  collect_step :
      (rounds epoch : ℕ) (q : QuorumCheckpoint) (rest : List EpochChange)
      → stored epoch ≡ some q
      → collect_changes stored rounds (epoch + 1) ≡ some rest
      → collect_changes stored (suc rounds) epoch ≡ some (change_of q ∷ rest)
  unfolding collect_changes
  collect_step rounds epoch q rest found later = rw (collect_changes, found, later) refl

  epoch_of-change_of :
      (q : QuorumCheckpoint) (k : Checkpoint)
      → q.checkpoint ≡ some k
      → epoch_of (change_of q) ≡ k.epoch
  unfolding epoch_of change_of
  epoch_of-change_of q k h = ap get_epoch h ∙ unfold get_epoch in refl

  next_epoch-Ends :
      (epoch : ℕ) (e : Ends stored epoch) → epoch + 1 < word → next_epoch e.point ≡ epoch + 1
  unfolding next_epoch
  next_epoch-Ends epoch e small = rw (e.updates, e.own) (omega arith)

  collect_changes-Run :
      (rounds epoch : ℕ)
      → epoch + suc rounds < word
      → ((e : ℕ) → epoch ≤ e → e < epoch + suc rounds → Ends stored e)
      → Run stored rounds epoch
  unfolding last_change
  collect_changes-Run zero epoch small all_end =
      let e = all_end epoch (omega arith) (omega arith) in
      record {
        first = change_of e.quorum;
        rest = [];
        collected = collect_step 0 epoch e.quorum [] e.found (unfold collect_changes in refl);
        size = refl;
        starts = epoch_of-change_of e.quorum e.point e.has ∙ e.own;
        last = e.quorum;
        last_point = e.point;
        stops = (change_of e.quorum, (refl, unfold change_of in refl));
        last_has = e.has;
        reaches = next_epoch-Ends epoch e (omega arith);
      }
  collect_changes-Run (suc rounds) epoch small all_end =
      let e = all_end epoch (omega arith) (omega arith) in
      let later =
        collect_changes-Run rounds (epoch + 1) (omega arith)
          (λ k ge lt. all_end k (omega arith) (omega arith)) in
      record {
        first = change_of e.quorum;
        rest = later.first ∷ later.rest;
        collected =
            collect_step (suc rounds) epoch e.quorum (later.first ∷ later.rest) e.found
              later.collected;
        size = ap suc later.size;
        starts = epoch_of-change_of e.quorum e.point e.has ∙ e.own;
        last = later.last;
        last_point = later.last_point;
        stops = later.stops;
        last_has = later.last_has;
        reaches = later.reaches ∙ omega arith;
      }

-- How many epochs a page has.
abbrev pub page_size : EpochChangeRequest → ℕ
page_size r = min (r.target_epoch - r.start_epoch) 100

module _ (stored : ℕ → Option QuorumCheckpoint) (em : EpochManager) where
  paging_page :
      (start stop : ℕ) (changes : List EpochChange)
      → start < stop
      → stop < word
      → collect_changes stored (min (stop - start) 100) start ≡ some changes
      → paging_get_epoch_change_proof stored em start stop 100
        ≡ some (record {
          epoch_changes = changes;
          more = if ltb 100 (stop - start) then stop else 0;
          author = em.self_id;
          genesis_block_digest = "";
        })
  unfolding paging_get_epoch_change_proof
  paging_page start stop changes lt small h =
      let exact : stop -ᵤ start ≡ stop - start = -ᵤ_exact stop start (omega arith) small in
      let size : (if ltb 100 (stop -ᵤ start) then start +ᵤ 100 else stop) - start
          ≡ min (stop - start) 100 =
        ground (arith, small, lt) in
      rw (paging_get_epoch_change_proof, size, h)
        (ap
          (λ (d : ℕ). some (record {
            epoch_changes = changes;
            more = if ltb 100 d then stop else 0;
            author = em.self_id;
            genesis_block_digest = "";
          }))
          exact)

  -- The proof that is sent for a request.
  abbrev reply : EpochChangeRequest → List EpochChange → EpochChangeProof
  reply r changes = record {
    epoch_changes = changes;
    more = if ltb 100 (r.target_epoch - r.start_epoch) then r.target_epoch else 0;
    author = em.self_id;
    genesis_block_digest = em.genesis_block_digest;
  }

  replies :
      (r : EpochChangeRequest) (changes : List EpochChange)
      → r.start_epoch < r.target_epoch
      → r.target_epoch ≤ em.epoch
      → r.target_epoch < word
      → collect_changes stored (page_size r) r.start_epoch ≡ some changes
      → process_epoch_change_request stored em r ≡ some (reply r changes, r.author_p2p_node_id)
  unfolding process_epoch_change_request verify_request
  replies r changes lt le small h =
      let legal : leb r.target_epoch r.start_epoch ≡ false = ground (arith, lt) in
      let known : ltb em.epoch r.target_epoch ≡ false = ground (arith, le) in
      rw
        (
          process_epoch_change_request,
          legal,
          known,
          paging_page r.start_epoch r.target_epoch changes lt small h,
        )
        refl

verified :
    (em : EpochManager) (p : EpochChangeProof) (first : EpochChange) (rest : List EpochChange)
    → p.epoch_changes ≡ first ∷ rest
    → epoch_of first ≡ em.epoch
    → verify_epoch_change_proof em p ≡ some (record p { epoch_changes = first ∷ rest })
unfolding verify_epoch_change_proof skip_stale
verified em p first rest list own =
    let recent : leb em.epoch (epoch_of first) ≡ true = ground (arith, own) in
    let same : (epoch_of first == em.epoch) ≡ true = ground (arith, own) in
    rw (verify_epoch_change_proof, list, skip_stale, recent, same) refl

accepted :
    (em : EpochManager) (p : EpochChangeProof) (next : ℕ) (first : EpochChange)
    (rest : List EpochChange)
    → proof_next_epoch p ≡ some next
    → em.epoch < next
    → p.genesis_block_digest ≡ em.genesis_block_digest
    → p.epoch_changes ≡ first ∷ rest
    → epoch_of first ≡ em.epoch
    → process_epoch_change_proof em p
      ≡ ProofOutcome.sync (record p { epoch_changes = first ∷ rest })
unfolding process_epoch_change_proof
accepted em p next first rest reaches later genesis list own =
    let new : leb next em.epoch ≡ false = ground (arith, later) in
    let same : str_eq p.genesis_block_digest em.genesis_block_digest ≡ true =
      (eq_iff p.genesis_block_digest em.genesis_block_digest).1 genesis in
    rw (process_epoch_change_proof, reaches, new, same, verified em p first rest list own) refl

module _ (stored : ℕ → Option QuorumCheckpoint) where
  proof_next_epoch-Run :
      (rounds epoch : ℕ) (run : Run stored rounds epoch) (p : EpochChangeProof)
      → p.epoch_changes ≡ run.first ∷ run.rest
      → proof_next_epoch p ≡ some (epoch + suc rounds)
  unfolding proof_next_epoch
  proof_next_epoch-Run rounds epoch run p list =
      let (c, (stops, has)) = run.stops in
      rw (proof_next_epoch, list, stops, has, run.last_has) (ap some run.reaches)

-- Let a node in an epoch ask another one, of the same genesis block, for the changes from its own
-- epoch to a higher target that the other has reached, and let the other have stored for each of
-- these epochs a checkpoint that ends the epoch. Then the other sends a proof, to the node that asks,
-- of as many changes as there are epochs to the target, but at most 100; the node accepts the proof
-- and syncs to it; and this takes it past each of these epochs, to the target when it is at most 100
-- epochs ahead.
pub process_epoch_change_proof-request :
    (stored : ℕ → Option QuorumCheckpoint) (em asker : EpochManager) (r : EpochChangeRequest)
    → r.start_epoch ≡ asker.epoch
    → em.genesis_block_digest ≡ asker.genesis_block_digest
    → r.start_epoch < r.target_epoch
    → r.target_epoch ≤ em.epoch
    → r.target_epoch < word
    → ((e : ℕ) → r.start_epoch ≤ e → e < r.target_epoch → Ends stored e)
    → (p : EpochChangeProof) × ((process_epoch_change_request stored em r
          ≡ some (p, r.author_p2p_node_id))
        × ((process_epoch_change_proof asker p ≡ ProofOutcome.sync p)
            × ((length p.epoch_changes ≡ page_size r)
                × (proof_next_epoch p ≡ some (r.start_epoch + page_size r)))))
process_epoch_change_proof-request stored em asker r own genesis lt le small all_end =
    let k = page_size r - 1 in
    let size : suc k ≡ page_size r = omega (arith, lt) in
    let run =
      collect_changes-Run stored k r.start_epoch (omega (arith, lt))
        (λ e ge below. all_end e ge (omega (arith, lt))) in
    let changes = run.first ∷ run.rest in
    let p = reply stored em r changes in
    let collected = ap (λ n. collect_changes stored n r.start_epoch) (sym size) ∙ run.collected in
    let next = proof_next_epoch-Run stored k r.start_epoch run p refl in
    (
      p,
      (
        replies stored em r changes lt le small collected,
        (
          accepted asker p (r.start_epoch + suc k) run.first run.rest next (omega arith) genesis
              refl (run.starts ∙ own),
          (ap suc run.size ∙ size, next ∙ ap (λ n. some (r.start_epoch + n)) size),
        ),
      ),
    )
