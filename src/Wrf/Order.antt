-- ===== src/Wrf/Order.antt =====
-- The choice does not depend on the order in which Go walks the map of voting powers.
use mathlib.Core.List.{Perm, Permᴰ}
use mathlib.Core.Logic.{∥∥₁_elim}
use go_hpc_rbft.Base.{
  ℕ, ◌≡◌, ◌≢◌, refl, sym, ap, subst, ◌∙◌, List, [], ◌∷◌, Option, none, some, arith, All, All-Perm,
}
use go_hpc_rbft.Wrf.{
  Weighted, total_power, big_mod, pick, insert_by_id, sort_by_id, wrf_select_node_by_voting_power,
}

-- The keys of a map differ.
abbrev pub Distinct : List Weighted → Type 0
Distinct [] = Unit
Distinct (x ∷ xs) = All (λ (y : Weighted). x.id ≢ y.id) xs × Distinct xs

differs_at :
    {a b : Weighted} (l : List Weighted)
    → a ≡ b
    → All (λ (y : Weighted). a.id ≢ y.id) l
    → All (λ (y : Weighted). b.id ≢ y.id) l
differs_at l e h = subst (λ (c : Weighted). All (λ (y : Weighted). c.id ≢ y.id) l) e h

Distinct-Perm : {xs ys : List Weighted} → Permᴰ xs ys → Distinct xs → Distinct ys
Distinct-Perm Permᴰ.nil d = d
Distinct-Perm (Permᴰ.cons {a} {b} {l₁} {l₂} e p) (h, d) =
    (differs_at l₂ e (All-Perm (λ (y : Weighted). a.id ≢ y.id) p h), Distinct-Perm p d)
Distinct-Perm (Permᴰ.swap {a} {b} {l = l} e₁ e₂) ((h, t), (k, d)) = (
  (
    (λ e. h (ap (λ (c : Weighted). c.id) e₁ ∙ sym e ∙ sym (ap (λ (c : Weighted). c.id) e₂))),
    differs_at l e₂ k,
  ),
  (differs_at l e₁ t, d),
)
Distinct-Perm (Permᴰ.trans p q) d = Distinct-Perm q (Distinct-Perm p d)

insert_by_id_comm :
    (a b : Weighted) (xs : List Weighted)
    → a.id ≢ b.id
    → insert_by_id a (insert_by_id b xs) ≡ insert_by_id b (insert_by_id a xs)
unfolding insert_by_id
insert_by_id_comm a b [] ne = ground arith
insert_by_id_comm a b (x ∷ xs) ne = ground (arith, insert_by_id_comm a b xs ne)

sort_by_id-Perm :
    {xs ys : List Weighted} → Permᴰ xs ys → Distinct xs → sort_by_id xs ≡ sort_by_id ys
unfolding sort_by_id
sort_by_id-Perm Permᴰ.nil d = refl
sort_by_id-Perm (Permᴰ.cons e p) (h, d) = rw (e, sort_by_id-Perm p d) refl
sort_by_id-Perm (Permᴰ.swap {a} {b} {l = l} e₁ e₂) ((h, t), (k, d)) =
    rw (sym e₁, sym e₂) (insert_by_id_comm a b (sort_by_id l) h)
sort_by_id-Perm (Permᴰ.trans p q) d = sort_by_id-Perm p d ∙ sort_by_id-Perm q (Distinct-Perm p d)

abbrev select_from : (List ℕ → ℕ) → List ℕ → List Weighted → Option ℕ
select_from hash seed node_set = elim (big_mod (hash seed) (total_power 0 node_set)) [
  | none ↦ none
  | some selected ↦ pick node_set selected
]

select-Permᴰ :
    (hash : List ℕ → ℕ) (seed : List ℕ) {xs ys : List Weighted}
    → Distinct xs
    → Permᴰ xs ys
    → wrf_select_node_by_voting_power hash seed xs ≡ wrf_select_node_by_voting_power hash seed ys
unfolding wrf_select_node_by_voting_power
select-Permᴰ hash seed d p = ap (select_from hash seed) (sort_by_id-Perm p d)

-- The order in which a validator lists the voting powers does not matter: two lists of the same
-- validators with distinct ids choose the same proposer from the same seed.
pub wrf_select_node_by_voting_power-Perm :
    (hash : List ℕ → ℕ) (seed : List ℕ) {xs ys : List Weighted}
    → Perm xs ys
    → Distinct xs
    → wrf_select_node_by_voting_power hash seed xs ≡ wrf_select_node_by_voting_power hash seed ys
wrf_select_node_by_voting_power-Perm hash seed p d = ∥∥₁_elim p (hlevel) (select-Permᴰ hash seed d)
