-- ===== src/Search/Splits.antt =====
-- Where binarySearch ends on a sorted slice.
use go_hpc_rbft.Base.{
  ℕ, zero, suc, ◌+◌, ◌-◌, ◌/◌, ◌≤◌, ◌<◌, ◌≡◌, refl, ap, ◌∙◌, inl, inr, true, false, List, Option,
  none, some, arith, get_elem?, get_elem?-some, get_elem?-lt, ltb, ◌==◌, ==_iff, length, Bool-cases,
}
use go_hpc_rbft.Search.{search_loop, binary_search}

abbrev pub IsSorted : List ℕ → Type 0
IsSorted nums =
    (i j a b : ℕ) → i ≤ j → get_elem? nums i ≡ some a → get_elem? nums j ≡ some b → a ≤ b

-- `r` has nothing above the target before it and nothing below it from there on; and if the target
-- occurs, it stands at `r`.
pub record Splits (nums : List ℕ) (target r : ℕ) : Type 0 where
  pub inside : r ≤ length nums
  pub before : (i a : ℕ) → i < r → get_elem? nums i ≡ some a → a ≤ target
  pub after : (i a : ℕ) → r ≤ i → get_elem? nums i ≡ some a → target ≤ a
  pub hit : (i : ℕ) → get_elem? nums i ≡ some target → get_elem? nums r ≡ some target

module _ (nums : List ℕ) (target : ℕ) (sorted : IsSorted nums) where
  record Inv (left stop : ℕ) : Type 0 where
    ordered : left ≤ stop
    bounded : stop ≤ length nums
    below : (i a : ℕ) → i < left → get_elem? nums i ≡ some a → a < target
    above : (i a : ℕ) → stop ≤ i → get_elem? nums i ≡ some a → target < a

  abbrev Finds : Option ℕ → Type 0
  Finds none = ⊥
  Finds (some r) = Splits nums target r

  found : (r : ℕ) → r < length nums → get_elem? nums r ≡ some target → Splits nums target r
  found r lt e = record {
    inside = omega arith;
    before = λ i a h g. sorted i r a target (omega arith) g e;
    after = λ i a h g. sorted r i target a h e g;
    hit = λ i g. e;
  }

  missed : (r : ℕ) → Inv r r → Splits nums target r
  missed r inv = record {
    inside = inv.bounded;
    before = λ i a h g. omega (arith, inv.below i a h g);
    after = λ i a h g. omega (arith, inv.above i a h g);
    hit = λ i g. absurd (elim (Bool-cases (ltb i r)) [
      | inl lt ↦ omega (arith, inv.below i target (ground arith) g)
      | inr ge ↦ omega (arith, inv.above i target (ground arith) g)
    ]);
  }

  go_right :
      (left stop mid v : ℕ)
      → left ≤ mid
      → mid < stop
      → get_elem? nums mid ≡ some v
      → ltb v target ≡ true
      → Inv left stop
      → Inv (mid + 1) stop
  go_right left stop mid v lo hi e low inv = record {
    ordered = omega arith;
    bounded = inv.bounded;
    below = λ i a h g. ground (arith, sorted i mid a v (omega arith) g e);
    above = inv.above;
  }

  go_left :
      (left stop mid v : ℕ)
      → left ≤ mid
      → mid < stop
      → get_elem? nums mid ≡ some v
      → (v == target) ≡ false
      → ltb v target ≡ false
      → Inv left stop
      → Inv left mid
  go_left left stop mid v lo hi e miss high inv = record {
    ordered = lo;
    bounded = omega (arith, inv.bounded);
    below = inv.below;
    above = λ i a h g. ground (arith, sorted mid i v a h e g);
  }

  search_loop-Finds :
      (fuel left stop : ℕ)
      → stop < left + fuel
      → Inv left stop
      → Finds (search_loop nums target fuel left stop)
  unfolding search_loop
  search_loop-Finds zero left stop enough inv = omega (arith, inv.ordered)
  search_loop-Finds (suc fuel) left stop enough inv = elim (Bool-cases (ltb left stop)) [
    | inr done ↦
        rw (search_loop, done)
          (let same : stop ≡ left = ground (arith, inv.ordered) in missed left (rw same at inv))
    | inl more ↦
        let mid = left + (stop - 1 - left) / 2 in
        let lo : left ≤ mid = omega arith in
        let hi : mid < stop = ground arith in
        let (v, e) = get_elem?-some nums mid (omega (arith, inv.bounded)) in
        elim (Bool-cases (v == target)) [
          | inl hit ↦
              rw (search_loop, more, e, hit)
                (found mid (omega (arith, inv.bounded)) (e ∙ ap some ((==_iff v target).0 hit)))
          | inr miss ↦ elim (Bool-cases (ltb v target)) [
            | inl low ↦
                rw (search_loop, more, e, miss, low)
                  (search_loop-Finds fuel (mid + 1) stop (omega arith)
                    (go_right left stop mid v lo hi e low inv))
            | inr high ↦
                rw (search_loop, more, e, miss, high)
                  (search_loop-Finds fuel left mid (omega arith)
                    (go_left left stop mid v lo hi e miss high inv))
          ]
        ]
  ]

  -- On a sorted slice binarySearch returns, never reads out of range, and its result splits the
  -- slice at the target.
  pub binary_search-Splits : (r : ℕ) × (binary_search nums target ≡ some r) × Splits nums target r
  unfolding binary_search
  binary_search-Splits = result (binary_search nums target) refl (
      search_loop-Finds (length nums + 1) 0 (length nums) (omega arith) (record {
        ordered = omega arith;
        bounded = omega arith;
        below = λ i a h g. elim h [ ];
        above = λ i a h g. omega (arith, get_elem?-lt nums i a g);
      }))
    where
      result :
          (o : Option ℕ)
          → binary_search nums target ≡ o
          → Finds o
          → (r : ℕ) × (binary_search nums target ≡ some r) × Splits nums target r
      result none e h = absurd h
      result (some r) e h = (r, e, h)
