-- ===== src/Base/Dict.antt =====
-- Go's maps with string keys, as association lists: `m[k]`, `m[k] = v`, `delete(m, k)`.
use witshield.Base.Tests.{if◌then◌else◌, str_eq}
use witshield.Base.Lists.{length}
use Prim.Native.Nat.{◌+◌, ◌≤◌}
use Prim.Native.String.{String}
use mathlib.Core.Path.{◌≡◌, refl}
use mathlib.Core.Option.{Option, none, some}
use mathlib.Core.List.{List, [], ◌∷◌}
use native.Mathlib.Omega.{arith}
use text.Mathlib.TextEquality.{eq_iff}

module _ {ℓ} {V : Type ℓ} where
  unfoldable pub lookup : String → List (String × V) → Option V
  lookup key [] = none
  lookup key ((name, value) ∷ entries) = if str_eq name key then some value else lookup key entries

  unfoldable pub insert : String → V → List (String × V) → List (String × V)
  insert key value [] = (key, value) ∷ []
  insert key value ((name, old) ∷ entries) =
      if str_eq name key then (key, value) ∷ entries else (name, old) ∷ insert key value entries

  unfoldable pub delete : String → List (String × V) → List (String × V)
  delete key [] = []
  delete key ((name, value) ∷ entries) =
      let rest = delete key entries in if str_eq name key then rest else (name, value) ∷ rest

  -- No key stands twice.
  abbrev pub Distinct : List (String × V) → Type ℓ
  Distinct [] = Unit
  Distinct ((key, value) ∷ entries) = (lookup key entries ≡ none) × Distinct entries

  pub lookup-insert :
      (key name : String) (value : V) (entries : List (String × V))
      → lookup name (insert key value entries)
        ≡ (if str_eq key name then some value else lookup name entries)
  unfolding lookup insert
  lookup-insert key name value [] = refl
  lookup-insert key name value ((other, old) ∷ entries) = ground (
    arith,
    eq_iff key name,
    eq_iff other key,
    eq_iff other name,
    lookup-insert key name value entries,
  )

  pub lookup-delete :
      (key name : String) (entries : List (String × V))
      → lookup name (delete key entries) ≡ (if str_eq key name then none else lookup name entries)
  unfolding lookup delete
  lookup-delete key name [] = ground arith
  lookup-delete key name ((other, old) ∷ entries) =
      ground (
        arith,
        eq_iff key name,
        eq_iff other key,
        eq_iff other name,
        lookup-delete key name entries,
      )

  pub insert-Distinct :
      (key : String) (value : V) (entries : List (String × V))
      → Distinct entries
      → Distinct (insert key value entries)
  unfolding insert lookup
  insert-Distinct key value [] d = ground arith
  insert-Distinct key value ((other, old) ∷ entries) d = ground (
    arith,
    eq_iff other key,
    eq_iff key other,
    lookup-insert key other value entries,
    insert-Distinct key value entries d.1,
  )

  pub delete-Distinct :
      (key : String) (entries : List (String × V))
      → Distinct entries
      → Distinct (delete key entries)
  unfolding delete
  delete-Distinct key [] d = d
  delete-Distinct key ((other, old) ∷ entries) d = ground (
    arith,
    eq_iff other key,
    eq_iff key other,
    lookup-delete key other entries,
    delete-Distinct key entries d.1,
  )

  pub length-insert-le :
      (key : String) (value : V) (entries : List (String × V))
      → length (insert key value entries) ≤ length entries + 1
  unfolding insert
  length-insert-le key value [] = omega arith
  length-insert-le key value ((other, old) ∷ entries) =
      ground (arith, length-insert-le key value entries)
