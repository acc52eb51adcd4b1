-- ===== src/Prelude/Maps.antt =====
-- A Go map with string keys, as an association list. Its order is the order of insertion, which
-- no statement depends on.
use Prim.Native.String.{String}
use mathlib.Core.Path.{◌≡◌, refl}
use mathlib.Core.Option.{Option, none, some}
use mathlib.Core.List.{List, [], ◌∷◌}
use native.Mathlib.Omega.{arith}
use text.Mathlib.Text.{◌==◌}
use text.Mathlib.TextEquality.{eq_iff}
use koney.Prelude.Tests.{if◌then◌else◌}

abbrev pub StringMap {ℓ} : Type ℓ → Type ℓ
StringMap V = List (String × V)

module _ {ℓ} {V : Type ℓ} where
  -- `value, ok := m[key]`
  unfoldable pub lookup : String → StringMap V → Option V
  lookup key [] = none
  lookup key ((first, value) ∷ rest) = if first == key then some value else lookup key rest

  -- `m[key] = value`
  unfoldable pub insert : String → V → StringMap V → StringMap V
  insert key value [] = (key, value) ∷ []
  insert key value ((first, old) ∷ rest) =
      let more = insert key value rest in
      if first == key then (first, value) ∷ rest else (first, old) ∷ more

  -- `delete(m, key)`
  unfoldable pub delete : String → StringMap V → StringMap V
  delete key [] = []
  delete key ((first, value) ∷ rest) =
      let more = delete key rest in if first == key then more else (first, value) ∷ more

  pub lookup-insert :
      (key other : String) (value : V) (m : StringMap V)
      → lookup other (insert key value m) ≡ (if key == other then some value else lookup other m)
  unfolding lookup insert
  lookup-insert key other value [] = refl
  lookup-insert key other value ((first, old) ∷ rest) = ground (
    arith,
    lookup-insert key other value rest,
    eq_iff first key,
    eq_iff first other,
    eq_iff key other,
  )

  pub lookup-delete :
      (key other : String) (m : StringMap V)
      → lookup other (delete key m) ≡ (if key == other then none else lookup other m)
  unfolding lookup delete
  lookup-delete key other [] = ground arith
  lookup-delete key other ((first, old) ∷ rest) =
      ground (
        arith,
        lookup-delete key other rest,
        eq_iff first key,
        eq_iff first other,
        eq_iff key other,
      )
