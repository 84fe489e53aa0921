-- ===== src/Status/Cas.antt =====
-- status_mgr.go: the compare-and-swap loops of atomicSetBit and atomicClearBit, against other
-- goroutines that write the word between the load and the swap.
use go_hpc_rbft.Base.{
  ℕ, ◌≡◌, refl, sym, ap, List, [], ◌∷◌, ◌++◌, Bool-cases, inl, inr, ◌==◌, ==_iff, if◌then◌else◌,
}
use go_hpc_rbft.Status.{word_set, word_clear}

-- What the other goroutines do to the word, in order.
unfoldable pub replay : List (ℕ → ℕ) → ℕ → ℕ
replay [] w = w
replay (g ∷ gs) w = replay gs (g w)

-- `old := Load(&w); if CompareAndSwap(&w, old, update(old)) { break }`, where the next foreign
-- write, if any is left, falls between the load and the swap. The swap succeeds when that write
-- left the value it loaded; what is left of the foreign writes comes after the loop.
unfoldable pub cas_loop : (ℕ → ℕ) → List (ℕ → ℕ) → ℕ → ℕ
cas_loop update [] w = update w
cas_loop update (g ∷ gs) w =
    let retry = cas_loop update gs (g w) in if g w == w then replay gs (update w) else retry

-- The final word is that of some order in which the update is one step among the foreign writes:
-- no foreign write is lost, and the update is made exactly once, whatever the interference.
pub cas_loop_linearizable :
    (update : ℕ → ℕ) (gs : List (ℕ → ℕ)) (w : ℕ)
    → (before : List (ℕ → ℕ)) × (after : List (ℕ → ℕ)) × (before ++ after ≡ gs)
      × (cas_loop update gs w ≡ replay after (update (replay before w)))
unfolding cas_loop replay
cas_loop_linearizable update [] w = ([], [], refl, refl)
cas_loop_linearizable update (g ∷ gs) w = elim (Bool-cases (g w == w)) [
  | inl e ↦ (g ∷ [], gs, refl, rw e (ap (λ x. replay gs (update x)) (sym ((==_iff _ _).0 e))))
  | inr e ↦
      let (before, after, split, eq) = cas_loop_linearizable update gs (g w) in
      (g ∷ before, after, ap (◌∷◌ g) split, rw e eq)
]

-- The two loops of the source.
unfoldable pub atomic_set_bit_loop : ℕ → List (ℕ → ℕ) → ℕ → ℕ
atomic_set_bit_loop p = cas_loop (λ w. word_set w p)

unfoldable pub atomic_clear_bit_loop : ℕ → List (ℕ → ℕ) → ℕ → ℕ
atomic_clear_bit_loop p = cas_loop (λ w. word_clear w p)
