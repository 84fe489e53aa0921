-- ===== src/Base/Maps.antt =====
-- Go's maps as association lists. The order of the list is the order in which `range` visits the
-- entries, so a statement about every list covers every order that Go may choose.
use Prim.Native.Nat.{◌≤◌, ◌<◌}
use mathlib.Core.Path.{◌≡◌, refl, ap, sym}
use mathlib.Core.Logic.{inl, inr}
use mathlib.Core.Bool.{Bool, true, false}
use mathlib.Core.Option.{Option, none, some}
use mathlib.Core.List.{List, [], ◌∷◌, ◌++◌}
use native.Mathlib.Omega.{arith}
use go_hpc_rbft.Base.Tests.{Eq, if◌then◌else◌, Bool-cases}
use go_hpc_rbft.Base.Lists.{length, In}

module _ {ℓ κ} {K : Type ℓ} {V : Type κ} ⦃e : Eq K⦄ where
  -- `v, ok := m[k]`
  unfoldable pub lookup : K → List (K × V) → Option V
  lookup k [] = none
  lookup k ((j, v) ∷ m) = if e.beq j k then some v else lookup k m

  -- `m[k] = v`
  unfoldable pub insert : K → V → List (K × V) → List (K × V)
  insert k v [] = (k, v) ∷ []
  insert k v ((j, w) ∷ m) = if e.beq j k then (k, v) ∷ m else (j, w) ∷ insert k v m

  -- `delete(m, k)`
  unfoldable pub delete : K → List (K × V) → List (K × V)
  delete k [] = []
  delete k ((j, v) ∷ m) = let rest = delete k m in if e.beq j k then rest else (j, v) ∷ rest

  -- `for k, v := range m { if p(k, v) { delete(m, k) } }`
  unfoldable pub delete_if : (K → V → Bool) → List (K × V) → List (K × V)
  delete_if p [] = []
  delete_if p ((j, v) ∷ m) = let rest = delete_if p m in if p j v then rest else (j, v) ∷ rest

  pub lookup-insert :
      (k j : K) (v : V) (m : List (K × V))
      → lookup j (insert k v m) ≡ (if e.beq k j then some v else lookup j m)
  unfolding lookup insert
  lookup-insert k j v [] = refl
  lookup-insert k j v ((i, w) ∷ m) =
      ground (arith, e.beq_iff k j, e.beq_iff i k, e.beq_iff i j, lookup-insert k j v m)

  pub lookup-insert_self : (k : K) (v : V) (m : List (K × V)) → lookup k (insert k v m) ≡ some v
  lookup-insert_self k v m = ground (arith, lookup-insert k k v m, e.beq_iff k k)

  pub lookup-delete :
      (k j : K) (m : List (K × V))
      → lookup j (delete k m) ≡ (if e.beq k j then none else lookup j m)
  unfolding lookup delete
  lookup-delete k j [] = ground arith
  lookup-delete k j ((i, w) ∷ m) =
      ground (arith, e.beq_iff k j, e.beq_iff i k, e.beq_iff i j, lookup-delete k j m)

  module _ (i j : K) (v : V) (m : List (K × V)) where
    pub lookup_first : e.beq i j ≡ true → lookup j ((i, v) ∷ m) ≡ some v
    unfolding lookup
    lookup_first hit = rw hit refl

    pub lookup_rest : e.beq i j ≡ false → lookup j ((i, v) ∷ m) ≡ lookup j m
    unfolding lookup
    lookup_rest miss = rw miss refl

  -- Entries deleted by a test of the key.
  pub lookup-delete_if :
      (p : K → Bool) (k : K) (m : List (K × V))
      → lookup k (delete_if (λ j _. p j) m) ≡ (if p k then none else lookup k m)
  unfolding lookup delete_if
  lookup-delete_if p k [] = ground arith
  lookup-delete_if p k ((j, v) ∷ m) =
      let rest = lookup-delete_if p k m in
      elim (Bool-cases (e.beq j k)) [
        | inl hit ↦ let same : j ≡ k = (e.beq_iff j k).0 hit in ground (arith, hit, rest, ap p same)
        | inr miss ↦ ground (arith, miss, rest)
      ]

module _ {K V : Type 0} ⦃e : Eq K⦄ where
  pub lookup-In : (k : K) (m : List (K × V)) (v : V) → lookup k m ≡ some v → In (k, v) m
  unfolding lookup
  lookup-In k [] v h = cc
  lookup-In k ((j, w) ∷ m) v h = elim (Bool-cases (e.beq j k)) [
    | inl hit ↦ let same : j ≡ k = (e.beq_iff j k).0 hit in inl (ground (arith, same, h))
    | inr miss ↦ inr (lookup-In k m v (ground arith))
  ]

  pub length-delete-le : (k : K) (m : List (K × V)) → length (delete k m) ≤ length m
  unfolding delete
  length-delete-le k [] = omega arith
  length-delete-le k ((j, w) ∷ m) = ground (arith, length-delete-le k m)

  pub length-delete-lt :
      (k : K) (v : V) (m : List (K × V)) → In (k, v) m → length (delete k m) < length m
  unfolding delete
  length-delete-lt k v [] i = absurd i
  length-delete-lt k v ((j, w) ∷ m) (inl same) =
      let eq : j ≡ k = ap (λ (x : K × V). x.0) (sym same) in
      rw ((e.beq_iff j k).1 eq) (omega (arith, length-delete-le k m))
  length-delete-lt k v ((j, w) ∷ m) (inr i) = ground (arith, length-delete-lt k v m i)

module _ {K V : Type 0} ⦃e : Eq K⦄ where
  -- The keys of the map differ.
  abbrev pub IsMap : List (K × V) → Type 0
  IsMap [] = Unit
  IsMap ((k, v) ∷ m) = (lookup k m ≡ none) × IsMap m

  pub insert-IsMap : (k : K) (v : V) (m : List (K × V)) → IsMap m → IsMap (insert k v m)
  unfolding insert lookup
  insert-IsMap k v [] h = (refl, tt)
  insert-IsMap k v ((j, w) ∷ m) (new, h) = elim (Bool-cases (e.beq j k)) [
    | inl hit ↦ let same : j ≡ k = (e.beq_iff j k).0 hit in rw hit (ground (arith, same, new), h)
    | inr miss ↦ rw miss (
      ground (arith, lookup-insert k j v m, e.beq_iff k j, e.beq_iff j k, new),
      insert-IsMap k v m h,
    )
  ]

  pub In-lookup : (k : K) (v : V) (m : List (K × V)) → IsMap m → In (k, v) m → lookup k m ≡ some v
  unfolding lookup
  In-lookup k v [] h i = absurd i
  In-lookup k v ((j, w) ∷ m) (new, h) (inl same) =
      let key : k ≡ j = ap (λ (x : K × V). x.0) same in
      let value : v ≡ w = ap (λ (x : K × V). x.1) same in
      rw ((e.beq_iff j k).1 (sym key)) (ap some (sym value))
  In-lookup k v ((j, w) ∷ m) (new, h) (inr i) = elim (Bool-cases (e.beq j k)) [
    | inl hit ↦
        let same : j ≡ k = (e.beq_iff j k).0 hit in
        absurd (ground (arith, same, new, In-lookup k v m h i))
    | inr miss ↦ rw miss (In-lookup k v m h i)
  ]

  -- One more entry does not hide a key.
  pub lookup_cons :
      (k j : K) (w v : V) (m : List (K × V))
      → lookup k m ≡ some v
      → (v' : V) × (lookup k ((j, w) ∷ m) ≡ some v')
  unfolding lookup
  lookup_cons k j w v m h = elim (Bool-cases (e.beq j k)) [
    | inl hit ↦ (w, rw hit refl)
    | inr miss ↦ (v, rw miss h)
  ]

  pub lookup_head : (k : K) (w : V) (m : List (K × V)) → lookup k ((k, w) ∷ m) ≡ some w
  unfolding lookup
  lookup_head k w m = rw ((e.beq_iff k k).1 refl) refl

  later_key_differs :
      (j k : K) (v : V) (m later : List (K × V))
      → lookup j (m ++ (k, v) ∷ later) ≡ none
      → e.beq k j ≡ false
  unfolding lookup
  later_key_differs j k v [] later h = ground (arith, h)
  later_key_differs j k v ((i, w) ∷ m) later h = elim (Bool-cases (e.beq i j)) [
    | inl hit ↦ absurd (ground (arith, hit, h))
    | inr miss ↦ later_key_differs j k v m later (rw miss at h)
  ]

  -- A key that comes later is a new one.
  pub lookup_before :
      (k : K) (v : V) (m later : List (K × V)) → IsMap (m ++ (k, v) ∷ later) → lookup k m ≡ none
  unfolding lookup
  lookup_before k v [] later h = refl
  lookup_before k v ((j, w) ∷ m) later (new, h) =
      let differ = later_key_differs j k v m later new in
      ground (arith, e.beq_iff j k, e.beq_iff k j, differ, lookup_before k v m later h)

  pub insert_new :
      (k : K) (v : V) (m : List (K × V)) → lookup k m ≡ none → insert k v m ≡ m ++ (k, v) ∷ []
  unfolding insert lookup
  insert_new k v [] h = refl
  insert_new k v ((j, w) ∷ m) h = elim (Bool-cases (e.beq j k)) [
    | inl hit ↦ absurd (ground (arith, hit, h))
    | inr miss ↦ rw miss (ap (λ r. (j, w) ∷ r) (insert_new k v m (rw miss at h)))
  ]
