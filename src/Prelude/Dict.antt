-- ===== src/Prelude/Dict.antt =====
-- Go maps keyed by texts of which the code takes the size or over which it iterates: association
-- lists. The order of a Go map is unspecified, and no modelled result depends on it.
use Prim.Native.Nat.{◌+◌, ◌≤◌}
use Prim.Native.String.{String}
use mathlib.Core.Path.{◌≡◌, refl}
use mathlib.Core.Bool.{Bool}
use mathlib.Core.Option.{Option, none, some}
use mathlib.Core.List.{List, [], ◌∷◌}
use native.Mathlib.Omega.{arith}
use text.Mathlib.TextEquality.{eq_iff}
use golang_cms.Prelude.Tests.{◌=s=◌, if◌then◌else◌}
use golang_cms.Prelude.Lists.{length}

abbrev pub Assoc {ℓ} : Type ℓ → Type ℓ
Assoc V = List (String × V)

module _ {ℓ} {V : Type ℓ} where
  -- `v, ok := m[k]`
  unfoldable pub lookup : String → Assoc V → Option V
  lookup k [] = none
  lookup k ((j, v) ∷ m) = if j =s= k then some v else lookup k m

  -- `m[k] = v`
  unfoldable pub assign : String → V → Assoc V → Assoc V
  assign k v [] = (k, v) ∷ []
  assign k v ((j, w) ∷ m) = if j =s= k then (j, v) ∷ m else (j, w) ∷ assign k v m

  -- `delete(m, k)`
  unfoldable pub delete : String → Assoc V → Assoc V
  delete k [] = []
  delete k ((j, w) ∷ m) = let rest = delete k m in if j =s= k then rest else (j, w) ∷ rest

  -- A loop that deletes what fails a test.
  unfoldable pub retain : (V → Bool) → Assoc V → Assoc V
  retain p [] = []
  retain p ((j, w) ∷ m) = let rest = retain p m in if p w then (j, w) ∷ rest else rest

  -- No key stands twice.
  abbrev pub Keyed : Assoc V → Type ℓ
  Keyed [] = Unit
  Keyed ((j, w) ∷ m) = (lookup j m ≡ none) × Keyed m

  pub lookup-assign :
      (k j : String) (v : V) (m : Assoc V)
      → lookup j (assign k v m) ≡ (if k =s= j then some v else lookup j m)
  unfolding lookup assign
  lookup-assign k j v [] = refl
  lookup-assign k j v ((i, w) ∷ m) =
      ground (arith, eq_iff k j, eq_iff i k, eq_iff i j, lookup-assign k j v m)

  pub lookup-delete :
      (k j : String) (m : Assoc V) → lookup j (delete k m) ≡ (if k =s= j then none else lookup j m)
  unfolding lookup delete
  lookup-delete k j [] = ground arith
  lookup-delete k j ((i, w) ∷ m) =
      ground (arith, eq_iff k j, eq_iff i k, eq_iff i j, lookup-delete k j m)

  lookup-retain_absent :
      (p : V → Bool) (j : String) (m : Assoc V) → lookup j m ≡ none → lookup j (retain p m) ≡ none
  unfolding lookup retain
  lookup-retain_absent p j [] h = h
  lookup-retain_absent p j ((i, w) ∷ m) h = ground (arith, lookup-retain_absent p j m)

  pub lookup-retain :
      (p : V → Bool) (j : String) (m : Assoc V)
      → Keyed m
      → lookup j (retain p m)
        ≡ elim (lookup j m) [ none ↦ none | some v ↦ (if p v then some v else none) ]
  unfolding lookup retain
  lookup-retain p j [] d = refl
  lookup-retain p j ((i, w) ∷ m) d =
      ground (arith, eq_iff i j, lookup-retain p j m d.1, lookup-retain_absent p j m)

  pub assign-Keyed : (k : String) (v : V) (m : Assoc V) → Keyed m → Keyed (assign k v m)
  unfolding lookup assign
  assign-Keyed k v [] d = (refl, tt)
  assign-Keyed k v ((i, w) ∷ m) d =
      ground (arith, assign-Keyed k v m d.1, lookup-assign k i v m, eq_iff i k, eq_iff k i)

  pub delete-Keyed : (k : String) (m : Assoc V) → Keyed m → Keyed (delete k m)
  unfolding lookup delete
  delete-Keyed k [] d = d
  delete-Keyed k ((i, w) ∷ m) d = ground (arith, delete-Keyed k m d.1, lookup-delete k i m)

  pub retain-Keyed : (p : V → Bool) (m : Assoc V) → Keyed m → Keyed (retain p m)
  unfolding retain
  retain-Keyed p [] d = d
  retain-Keyed p ((i, w) ∷ m) d = ground (arith, retain-Keyed p m d.1, lookup-retain_absent p i m)

  pub length-delete-le : (k : String) (m : Assoc V) → length (delete k m) ≤ length m
  unfolding delete
  length-delete-le k [] = omega arith
  length-delete-le k ((i, w) ∷ m) = ground (arith, length-delete-le k m)

  pub length-retain-le : (p : V → Bool) (m : Assoc V) → length (retain p m) ≤ length m
  unfolding retain
  length-retain-le p [] = omega arith
  length-retain-le p ((i, w) ∷ m) = ground (arith, length-retain-le p m)

  -- An assignment adds an entry exactly for a new key.
  pub length-assign :
      (k : String) (v : V) (m : Assoc V)
      → length (assign k v m) ≡ elim (lookup k m) [ none ↦ length m + 1 | some w ↦ length m ]
  unfolding lookup assign
  length-assign k v [] = refl
  length-assign k v ((i, w) ∷ m) = ground (arith, length-assign k v m)
