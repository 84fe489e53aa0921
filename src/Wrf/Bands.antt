-- ===== src/Wrf/Bands.antt =====
-- Which random numbers choose which validator.
use go_hpc_rbft.Base.{
  ℕ, zero, suc, ◌+◌, ◌%◌, ◌^◌, ◌≤◌, ◌<◌, ◌≡◌, ◌⊎◌, refl, ap, ◌∙◌, inl, inr, List, [], ◌∷◌, ◌++◌,
  Option, some, arith, ltb, All, get_elem?, get_elem?-some, get_elem?-lt, length, length-append,
  subst, Bool-cases,
}
use go_hpc_rbft.Base.Words.{word, ◌+ᵤ◌, +ᵤ_exact}
use go_hpc_rbft.Search.{binary_search}
use go_hpc_rbft.Search.Splits.{IsSorted, Splits, binary_search-Splits}
use go_hpc_rbft.Wrf.{
  Weighted, insert_by_id, sort_by_id, cumulative, total_power, big_mod, pick,
  wrf_select_node_by_voting_power,
}

abbrev pub sum_power : List Weighted → ℕ
sum_power [] = 0
sum_power (x ∷ xs) = x.power + sum_power xs

-- What the first `i` validators weigh together.
abbrev pub power_before : List Weighted → ℕ → ℕ
power_before [] i = 0
power_before (x ∷ xs) zero = 0
power_before (x ∷ xs) (suc i) = x.power + power_before xs i

power_before-sum :
    (xs : List Weighted) (i : ℕ) (w : Weighted)
    → get_elem? xs i ≡ some w
    → power_before xs i + w.power ≤ sum_power xs
power_before-sum [] i w e = ground arith
power_before-sum (x ∷ xs) zero w e = ground arith
power_before-sum (x ∷ xs) (suc i) w e = omega (arith, power_before-sum xs i w e)

power_before_mono : (xs : List Weighted) (i j : ℕ) → i ≤ j → power_before xs i ≤ power_before xs j
power_before_mono [] i j le = omega arith
power_before_mono (x ∷ xs) zero zero le = omega arith
power_before_mono (x ∷ xs) zero (suc j) le = omega arith
power_before_mono (x ∷ xs) (suc i) zero le = absurd (omega arith)
power_before_mono (x ∷ xs) (suc i) (suc j) le =
    omega (arith, power_before_mono xs i j (omega arith))

length-cumulative : (total : ℕ) (xs : List Weighted) → length (cumulative total xs) ≡ length xs
unfolding cumulative
length-cumulative total [] = refl
length-cumulative total (x ∷ xs) = ap suc (length-cumulative (total +ᵤ x.power) xs)

get_elem?-cumulative :
    (total : ℕ) (xs : List Weighted) (i : ℕ) (w : Weighted)
    → total + sum_power xs < word
    → get_elem? xs i ≡ some w
    → get_elem? (cumulative total xs) i ≡ some (total + (power_before xs i + w.power))
unfolding cumulative
get_elem?-cumulative total [] i w h e = ground arith
get_elem?-cumulative total (x ∷ xs) zero w h e = ground arith
get_elem?-cumulative total (x ∷ xs) (suc i) w h e =
    rw (+ᵤ_exact total x.power (omega arith))
      (get_elem?-cumulative (total + x.power) xs i w (omega arith) e ∙ ap some (omega arith))

total_power-sum :
    (total : ℕ) (xs : List Weighted)
    → total + sum_power xs < word
    → total_power total xs ≡ total + sum_power xs
unfolding total_power
total_power-sum total [] h = omega arith
total_power-sum total (x ∷ xs) h =
    rw (+ᵤ_exact total x.power (omega arith))
      (total_power-sum (total + x.power) xs (omega arith) ∙ omega arith)

sum_power-insert :
    (w : Weighted) (xs : List Weighted) → sum_power (insert_by_id w xs) ≡ w.power + sum_power xs
unfolding insert_by_id
sum_power-insert w [] = refl
sum_power-insert w (x ∷ xs) = ground (arith, sum_power-insert w xs)

sum_power-sort : (xs : List Weighted) → sum_power (sort_by_id xs) ≡ sum_power xs
unfolding sort_by_id
sum_power-sort [] = refl
sum_power-sort (x ∷ xs) =
    sum_power-insert x (sort_by_id xs) ∙ ap (λ n. x.power + n) (sum_power-sort xs)

power_before-suc :
    (xs : List Weighted) (i : ℕ) (w : Weighted)
    → get_elem? xs i ≡ some w
    → power_before xs (suc i) ≡ power_before xs i + w.power
power_before-suc [] i w e = ground arith
power_before-suc (x ∷ []) zero w e = ground arith
power_before-suc (x ∷ y ∷ xs) zero w e = ground arith
power_before-suc (x ∷ xs) (suc i) w e = omega (arith, power_before-suc xs i w e)

power_before-zero : (xs : List Weighted) → power_before xs 0 ≡ 0
power_before-zero [] = refl
power_before-zero (x ∷ xs) = refl

power_before-length : (xs : List Weighted) → power_before xs (length xs) ≡ sum_power xs
power_before-length [] = refl
power_before-length (x ∷ xs) = ap (λ n. x.power + n) (power_before-length xs)

abbrev pub Positive : List Weighted → Type 0
Positive xs = All (λ (w : Weighted). 0 < w.power) xs

Positive-get :
    (xs : List Weighted) (i : ℕ) (w : Weighted)
    → Positive xs
    → get_elem? xs i ≡ some w
    → 0 < w.power
Positive-get [] i w p e = ground arith
Positive-get (x ∷ xs) zero w (p, ps) e = ground arith
Positive-get (x ∷ xs) (suc i) w (p, ps) e = Positive-get xs i w ps e

-- The validator at place `i` of the sorted list is chosen by the numbers of its band.
pub record Chosen (xs : List Weighted) (t : ℕ) (o : Option ℕ) : Type 0 where
  pub place : ℕ
  pub validator : Weighted
  pub stands : get_elem? xs place ≡ some validator
  pub result : o ≡ some validator.id
  pub not_above : t ≤ power_before xs place + validator.power
  pub not_below : (place ≡ 0) ⊎ (power_before xs place < t)

module _ (xs : List Weighted) (fits : sum_power xs < word) (positive : Positive xs) where
  cumulative_get :
      (i : ℕ)
      → i < length xs
      → (w : Weighted) × (get_elem? xs i ≡ some w)
        × (get_elem? (cumulative 0 xs) i ≡ some (power_before xs (suc i)))
  cumulative_get i h =
      let (w, e) = get_elem?-some xs i h in
      (
        w,
        e,
        get_elem?-cumulative 0 xs i w (omega arith) e
            ∙ ap some (omega (arith, power_before-suc xs i w e)),
      )

  cumulative-IsSorted : IsSorted (cumulative 0 xs)
  cumulative-IsSorted i j a b le ea eb =
      let lt : j < length xs =
        omega (arith, get_elem?-lt (cumulative 0 xs) j b eb, length-cumulative 0 xs) in
      let (v, ev, cv) = cumulative_get i (omega arith) in
      let (w, ew, cw) = cumulative_get j lt in
      ground (arith, power_before_mono xs (suc i) (suc j) (omega arith))

  module _ (t r : ℕ) (below : t < sum_power xs) (s : Splits (cumulative 0 xs) t r) where
    last_not_above : (n : ℕ) → length xs ≡ suc n → r ≡ suc n → sum_power xs ≤ t
    last_not_above n e f =
        let (w, g, c) = cumulative_get n (omega arith) in
        omega (
          arith,
          s.before n (power_before xs (suc n)) (omega arith) c,
          power_before-length xs,
          ap (power_before xs) e,
        )

    inside : r < length xs
    inside = elim (Bool-cases (ltb r (length xs))) [
      | inl lt ↦ ground arith
      | inr ge ↦ absurd (go (length xs) refl (ground (arith, s.inside, length-cumulative 0 xs)))
    ]
      where
        go : (n : ℕ) → length xs ≡ n → r ≡ n → ⊥
        go zero e f =
            omega (arith, power_before-length xs, ap (power_before xs) e, power_before-zero xs)
        go (suc n) e f = omega (arith, last_not_above n e f)

    band :
        (k : ℕ) (w : Weighted) → r ≡ k → get_elem? xs r ≡ some w → (k ≡ 0) ⊎ (power_before xs k < t)
    band zero w f e = inl refl
    band (suc k) w f e =
        let (v, g, c) = cumulative_get k (omega (arith, inside)) in
        let (u, h, d) = cumulative_get r inside in
        let le = s.before k (power_before xs (suc k)) (omega arith) c in
        let here = ap (λ n. power_before xs n) f in
        inr (ground (arith, s.hit k, power_before-suc xs r w e, Positive-get xs r w positive e))

    pick-Chosen : binary_search (cumulative 0 xs) t ≡ some r → Chosen xs t (pick xs t)
    unfolding pick
    pick-Chosen found =
        let (w, e, c) = cumulative_get r inside in
        record {
          place = r;
          validator = w;
          stands = e;
          result = rw (pick, found, e) refl;
          not_above = omega (
            arith,
            s.after r (power_before xs (suc r)) (omega arith) c,
            power_before-suc xs r w e,
          );
          not_below = band r w refl e;
        }

  pick_lem : (t : ℕ) → t < sum_power xs → Chosen xs t (pick xs t)
  pick_lem t below =
      let (r, found, s) = binary_search-Splits (cumulative 0 xs) t cumulative-IsSorted in
      pick-Chosen t r below s found

insert_by_id-Positive :
    (w : Weighted) (xs : List Weighted) → 0 < w.power → Positive xs → Positive (insert_by_id w xs)
unfolding insert_by_id
insert_by_id-Positive w [] p ps = (p, ps)
insert_by_id-Positive w (x ∷ xs) p (q, qs) = elim (Bool-cases (ltb w.id x.id)) [
  | inl lt ↦ rw (insert_by_id, lt) (p, (q, qs))
  | inr ge ↦ rw (insert_by_id, ge) (q, insert_by_id-Positive w xs p qs)
]

sort_by_id-Positive : (xs : List Weighted) → Positive xs → Positive (sort_by_id xs)
unfolding sort_by_id
sort_by_id-Positive [] p = p
sort_by_id-Positive (x ∷ xs) (p, ps) =
    insert_by_id-Positive x (sort_by_id xs) p (sort_by_id-Positive xs ps)

big_mod-exact :
    (seed total : ℕ) → 0 < total → total < 2 ^ 63 → big_mod seed total ≡ some (seed % total)
unfolding big_mod
big_mod-exact seed total pos small = ground arith

-- With positive voting powers that sum to less than 2^63 a proposer is chosen, and it is the one
-- of the sorted validators in whose band `hash seed % total` falls: above the sum of the powers
-- before it (or it is the first), and at most that sum plus its own power.
pub wrf_select_node_by_voting_power-Chosen :
    (hash : List ℕ → ℕ) (seed : List ℕ) (nodes : List Weighted)
    → Positive nodes
    → 0 < sum_power nodes
    → sum_power nodes < 2 ^ 63
    → Chosen
        (sort_by_id nodes)
        (hash seed % sum_power nodes)
        (wrf_select_node_by_voting_power hash seed nodes)
unfolding wrf_select_node_by_voting_power
wrf_select_node_by_voting_power-Chosen hash seed nodes p pos small =
    let node_set = sort_by_id nodes in
    let total : total_power 0 node_set ≡ sum_power nodes = omega (
      arith,
      total_power-sum 0 node_set (omega (arith, sum_power-sort nodes)),
      sum_power-sort nodes,
    ) in
    rw
      (
        wrf_select_node_by_voting_power,
        total,
        big_mod-exact (hash seed) (sum_power nodes) pos small,
      )
      (pick_lem node_set (omega (arith, sum_power-sort nodes)) (sort_by_id-Positive nodes p)
        (hash seed % sum_power nodes) (omega (arith, sum_power-sort nodes)))

sum_power-snoc :
    (ys : List Weighted) (w : Weighted) → sum_power (ys ++ (w ∷ [])) ≡ sum_power ys + w.power
sum_power-snoc [] w = omega arith
sum_power-snoc (y ∷ ys) w = omega (arith, sum_power-snoc ys w)

power_before-snoc :
    (ys : List Weighted) (w : Weighted) → power_before (ys ++ (w ∷ [])) (length ys) ≡ sum_power ys
power_before-snoc [] w = refl
power_before-snoc (y ∷ ys) w = ap (λ n. y.power + n) (power_before-snoc ys w)

-- Of at least two validators, with positive powers that sum to less than 2^63, the one with the
-- highest id is never chosen when its power is 1, whatever the hash is.
pub wrf_select_node_by_voting_power-last_unit :
    (hash : List ℕ → ℕ) (seed : List ℕ) (nodes ys : List Weighted) (last : Weighted)
    → Positive nodes
    → sum_power nodes < 2 ^ 63
    → sort_by_id nodes ≡ ys ++ (last ∷ [])
    → 0 < length ys
    → last.power ≡ 1
    → (i : ℕ) × (v : Weighted) × (i < length ys)
      × (get_elem? (sort_by_id nodes) i ≡ some v)
      × (wrf_select_node_by_voting_power hash seed nodes ≡ some v.id)
wrf_select_node_by_voting_power-last_unit hash seed nodes ys last p small split more unit =
    let sum = sum_power-snoc ys last in
    let same : sum_power nodes ≡ sum_power ys + 1 =
      omega (arith, sum_power-sort nodes, ap sum_power split, sum) in
    let c = wrf_select_node_by_voting_power-Chosen hash seed nodes p (omega arith) small in
    let inside = get_elem?-lt (sort_by_id nodes) c.place c.validator c.stands in
    let size = ap length split ∙ length-append ys (last ∷ []) in
    (
      c.place,
      c.validator,
      early c.place (omega arith)
          (subst
            (λ (xs : List Weighted).
              (c.place ≡ 0) ⊎ (power_before xs c.place < hash seed % sum_power nodes))
            split c.not_below)
          (omega arith),
      c.stands,
      c.result,
    )
  where
    early :
        (i : ℕ)
        → i ≤ length ys
        → (i ≡ 0) ⊎ (power_before (ys ++ (last ∷ [])) i < hash seed % sum_power nodes)
        → hash seed % sum_power nodes < sum_power ys + 1
        → i < length ys
    early i le (inl e) lt = omega arith
    early i le (inr e) t_lt = elim (Bool-cases (ltb i (length ys))) [
      | inl lt ↦ ground arith
      | inr ge ↦
          let here : i ≡ length ys = ground arith in
          absurd (
            omega (arith, e, ap (power_before (ys ++ (last ∷ []))) here, power_before-snoc ys last))
    ]
