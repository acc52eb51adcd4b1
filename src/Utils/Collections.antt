-- ===== src/Utils/Collections.antt =====
-- internal/controller/utils/collections.go. A Go map is an association list.
use koney.Prelude.{
  ◌≡◌, refl, Bool, true, false, ◌||◌, List, [], ◌∷◌, ◌++◌, arith, if◌then◌else◌, Eq,
}

module _ {ℓ} {T : Type ℓ} ⦃e : Eq T⦄ where
  -- utils.Contains
  unfoldable pub contains : List T → T → Bool
  contains [] element = false
  contains (item ∷ slice) element = if e.beq item element then true else contains slice element

  pub contains-append :
      (xs ys : List T) (a : T) → contains (xs ++ ys) a ≡ (contains xs a || contains ys a)
  unfolding contains
  contains-append [] ys a = refl
  contains-append (x ∷ xs) ys a = ground (arith, contains-append xs ys a)

-- utils.GetMapKeys
unfoldable pub get_map_keys {ℓ κ} : {K : Type ℓ} {V : Type κ} → List (K × V) → List K
get_map_keys [] = []
get_map_keys ((k, v) ∷ objects) = k ∷ get_map_keys objects
