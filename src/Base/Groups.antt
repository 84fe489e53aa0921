-- ===== src/Base/Groups.antt =====
-- Maps of slices: the idiom `m[k] = append(m[k], v)`.
use mathlib.Core.Path.{◌≡◌, refl}
use mathlib.Core.Logic.{inl, inr}
use mathlib.Core.Option.{none, some}
use mathlib.Core.List.{List, [], ◌∷◌, ◌++◌}
use go_hpc_rbft.Base.Tests.{Eq, if◌then◌else◌, Bool-cases}
use go_hpc_rbft.Base.Maps.{lookup, insert, lookup-insert}

module _ {K V : Type 0} ⦃e : Eq K⦄ where
  -- m[k], nil where the key is missing.
  unfoldable pub listed : K → List (K × List V) → List V
  listed k m = elim (lookup k m) [ none ↦ [] | some l ↦ l ]

  -- m[k] = append(m[k], v)
  unfoldable pub append_to : K → V → List (K × List V) → List (K × List V)
  unfolding listed
  append_to k v m = insert k (listed k m ++ v ∷ []) m

  pub listed-append_to :
      (j k : K) (v : V) (m : List (K × List V))
      → listed j (append_to k v m) ≡ (if e.beq k j then listed k m ++ v ∷ [] else listed j m)
  unfolding append_to
  listed-append_to j k v m = elim (Bool-cases (e.beq k j)) [
    | inl hit ↦ rw (listed, lookup-insert k j (listed k m ++ v ∷ []) m, hit) refl
    | inr miss ↦ rw (listed, lookup-insert k j (listed k m ++ v ∷ []) m, miss) refl
  ]

  pub listed-some :
      (k : K) (l : List V) (m : List (K × List V)) → lookup k m ≡ some l → listed k m ≡ l
  unfolding listed
  listed-some k l m found = rw (listed, found) refl

  pub listed-none : (k : K) (m : List (K × List V)) → lookup k m ≡ none → listed k m ≡ []
  unfolding listed
  listed-none k m missing = rw (listed, missing) refl

  pub listed-nil : (k : K) → listed k [] ≡ []
  unfolding lookup
  listed-nil k = listed-none k [] refl
