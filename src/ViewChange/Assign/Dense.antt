-- ===== src/ViewChange/Assign/Dense.antt =====
-- The map of assignSequenceNumbers, whose keys run on without a gap.
use go_hpc_rbft.Base.{
  ℕ, suc, ◌+◌, ◌≤◌, ◌<◌, ◌≡◌, ◌≢◌, refl, ap, inl, inr, ◌&&◌, List, [], ◌∷◌, ◌++◌, some, String,
  arith, eq_iff, All, leb, str_eq, nat_eq, if◌then◌else◌, length, Bool-cases,
}
use go_hpc_rbft.Base.Maps.{lookup, insert, delete_if}
use go_hpc_rbft.Messages.{VcPq}
use go_hpc_rbft.ViewChange.Assign.{prune}

-- The keys of the map, in order, are x, x + 1, ….
abbrev pub Dense : ℕ → List (ℕ × String) → Type 0
Dense x [] = Unit {0}
Dense x (e ∷ m) = (e.0 ≡ x) × Dense (suc x) m

-- The sequence numbers of a list are x, x + 1, ….
abbrev pub Numbered : ℕ → List VcPq → Type 0
Numbered x [] = Unit {0}
Numbered x (e ∷ xs) = (e.sequence_number ≡ x) × Numbered (suc x) xs

pub insert-Dense :
    (x k : ℕ) (d : String) (m : List (ℕ × String))
    → Dense x m
    → x + length m ≡ k
    → insert k d m ≡ m ++ (k, d) ∷ []
unfolding insert
insert-Dense x k d [] h e = refl
insert-Dense x k d ((j, w) ∷ m) h e = ground (arith, insert-Dense (suc x) k d m h.1 (omega arith))

pub Dense-append :
    (x k : ℕ) (d : String) (m : List (ℕ × String))
    → Dense x m
    → x + length m ≡ k
    → Dense x (m ++ (k, d) ∷ [])
Dense-append x k d [] h e = (omega arith, tt)
Dense-append x k d ((j, w) ∷ m) h e = (h.0, Dense-append (suc x) k d m h.1 (omega arith))

pub All-append {ℓ κ} :
    {A : Type ℓ} (P : A → Type κ) (xs : List A) (a : A) → All P xs → P a → All P (xs ++ a ∷ [])
All-append P [] a h p = (p, tt)
All-append P (x ∷ xs) a h p = (h.0, All-append P xs a h.1 p)

pub length-snoc {ℓ} : {A : Type ℓ} (xs : List A) (a : A) → length (xs ++ a ∷ []) ≡ suc (length xs)
length-snoc [] a = refl
length-snoc (x ∷ xs) a = ap suc (length-snoc xs a)

-- Every entry above `top` is a null request.
abbrev pub NullAbove : ℕ → List (ℕ × String) → Type 0
NullAbove top = All λ e. top < e.0 → e.1 ≡ ""

pub NullAbove-last :
    (x n : ℕ) (m : List (ℕ × String)) → Dense x m → x + length m ≤ suc n → NullAbove n m
NullAbove-last x n [] h k = tt
NullAbove-last x n (e ∷ m) h k =
    ((λ above. absurd (omega arith)), NullAbove-last (suc x) n m h.1 (omega arith))

prune-cons :
    (top j : ℕ) (d : String) (m : List (ℕ × String))
    → prune top ((j, d) ∷ m)
      ≡ (if leb top j && str_eq d "" then prune top m else (j, d) ∷ prune top m)
unfolding prune delete_if
prune-cons top j d m = refl

-- Past `top` everything is pruned.
prune_all :
    (x top : ℕ) (m : List (ℕ × String)) → Dense x m → NullAbove top m → top < x → prune top m ≡ []
prune_all x top [] h k lt = unfold prune delete_if in refl
prune_all x top ((j, d) ∷ m) h k lt = ground (
  arith,
  prune-cons top j d m,
  k.0 (omega arith),
  prune_all (suc x) top m h.1 k.1 (omega arith),
  eq_iff d "",
)

pub prune-Dense :
    (x top : ℕ) (m : List (ℕ × String)) → Dense x m → NullAbove top m → Dense x (prune top m)
prune-Dense x top [] h k = unfold prune delete_if in tt
prune-Dense x top ((j, d) ∷ m) h k = elim (Bool-cases (leb top j && str_eq d "")) [
  | inl e ↦ rw (prune-cons top j d m, e, prune_all (suc x) top m h.1 k.1 (ground (arith, h.0))) tt
  | inr e ↦ rw (prune-cons top j d m, e) (h.0, prune-Dense (suc x) top m h.1 k.1)
]

pub All-prune {κ} :
    (P : ℕ × String → Type κ) (top : ℕ) (m : List (ℕ × String)) → All P m → All P (prune top m)
All-prune P top [] h = unfold prune delete_if in tt
All-prune P top ((j, d) ∷ m) h = elim (Bool-cases (leb top j && str_eq d "")) [
  | inl e ↦ rw (prune-cons top j d m, e) (All-prune P top m h.1)
  | inr e ↦ rw (prune-cons top j d m, e) (h.0, All-prune P top m h.1)
]

pub length-prune : (top : ℕ) (m : List (ℕ × String)) → length (prune top m) ≤ length m
length-prune top [] = unfold prune delete_if in omega arith
length-prune top ((j, d) ∷ m) = ground (arith, prune-cons top j d m, length-prune top m)

-- In a dense map every entry is found under its key.
Dense-above : (x y : ℕ) (m : List (ℕ × String)) → Dense y m → x < y → All (λ e. x ≢ e.0) m
Dense-above x y [] h lt = tt
Dense-above x y (e ∷ m) h lt = ((λ eq. omega arith), Dense-above x (suc y) m h.1 (omega arith))

abbrev pub Found : List (ℕ × String) → ℕ × String → Type 0
Found m e = lookup e.0 m ≡ some e.1

Found-cons :
    (j : ℕ) (w : String) (m r : List (ℕ × String))
    → All (λ e. j ≢ e.0) r
    → All (Found m) r
    → All (Found ((j, w) ∷ m)) r
unfolding lookup
Found-cons j w m [] a h = tt
Found-cons j w m ((k, d) ∷ r) a h = (ground (arith, a.0), Found-cons j w m r a.1 h.1)

pub Dense-Found : (x : ℕ) (m : List (ℕ × String)) → Dense x m → All (Found m) m
unfolding lookup
Dense-Found x [] h = tt
Dense-Found x ((j, d) ∷ m) h = (
  ground arith,
  Found-cons j d m m (Dense-above j (suc x) m h.1 (omega arith)) (Dense-Found (suc x) m h.1),
)
