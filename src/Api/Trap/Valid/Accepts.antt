-- ===== src/Api/Trap/Valid/Accepts.antt =====
-- Which traps Trap.IsValid of api/v1alpha1/dp_trap_types.go accepts, and on which it panics.
use koney.Prelude.{
  ◌≡◌, refl, ◌↔◌, Bool, true, false, none, some, List, [], ◌∷◌, starts_with, not, ◌||◌, is_some,
  is_nil, arith, All,
}
use koney.Utils.Names.{Patterns, match_container_name}
use koney.Api.Trap.{Trap, ResourceFilter, elements, honeytoken_is_set, trap_type}
use koney.Api.Trap.Valid.{
  Verdict, valid, panics, invalid, ◌then_check◌, filter_is_valid, filters_are_valid, is_valid,
  honeytoken_is_valid,
}

-- The filter names a namespace or a label.
abbrev pub selects_something : ResourceFilter → Bool
selects_something v =
    not (is_nil (elements v.namespaces))
    || elim v.selector [ none ↦ false | some s ↦ not (is_nil s.match_labels) ]

-- What the documentation asks of a filter: it selects something, and its pattern compiles.
abbrev pub IsGoodFilter : Patterns → ResourceFilter → Type 0
IsGoodFilter p v =
    (selects_something v ≡ true)
    × (is_some (match_container_name p v.container_selector "test") ≡ true)

pub record IsGoodTrap (p : Patterns) (trap : Trap) : Type 0 where
  pub any_is_set : is_some trap.match_resources.any ≡ true
  pub filters : All (IsGoodFilter p) (elements trap.match_resources.any)
  pub is_set : honeytoken_is_set trap.filesystem_honeytoken ≡ true
  pub is_absolute : starts_with trap.filesystem_honeytoken.file_path "/" ≡ true

filter-good : (p : Patterns) (v : ResourceFilter) → filter_is_valid p v ≡ valid → IsGoodFilter p v
unfolding filter_is_valid
filter-good p v h = ground arith

good-filter : (p : Patterns) (v : ResourceFilter) → IsGoodFilter p v → filter_is_valid p v ≡ valid
unfolding filter_is_valid
good-filter p v h = ground arith

then_check-valid : (a b : Verdict) → (a then_check b) ≡ valid → (a ≡ valid) × (b ≡ valid)
then_check-valid valid b h = (refl, h)
then_check-valid panics b h = cc
then_check-valid (invalid r) b h = cc

filters-good :
    (p : Patterns) (vs : List ResourceFilter)
    → filters_are_valid p vs ≡ valid
    → All (IsGoodFilter p) vs
unfolding filters_are_valid
filters-good p [] h = tt
filters-good p (v ∷ vs) h =
    let (a, b) = then_check-valid (filter_is_valid p v) (filters_are_valid p vs) h in
    (filter-good p v a, filters-good p vs b)

good-filters :
    (p : Patterns) (vs : List ResourceFilter)
    → All (IsGoodFilter p) vs
    → filters_are_valid p vs ≡ valid
unfolding filters_are_valid
good-filters p [] h = refl
good-filters p (v ∷ vs) h = rw (good-filter p v h.0) (good-filters p vs h.1)

filters-valid :
    (p : Patterns) (trap : Trap)
    → is_valid p trap ≡ valid
    → filters_are_valid p (elements trap.match_resources.any) ≡ valid
unfolding is_valid
filters-valid p trap h = ground arith

valid-good : (p : Patterns) (trap : Trap) → is_valid p trap ≡ valid → IsGoodTrap p trap
unfolding is_valid trap_type honeytoken_is_valid
valid-good p trap h = record {
  any_is_set = ground arith;
  filters = filters-good p _ (filters-valid p trap h);
  is_set = ground arith;
  is_absolute = ground arith;
}

good-valid : (p : Patterns) (trap : Trap) → IsGoodTrap p trap → is_valid p trap ≡ valid
unfolding is_valid trap_type honeytoken_is_valid
good-valid p trap h = ground (arith, good-filters p (elements trap.match_resources.any))

-- IsValid returns nil exactly for the traps with these properties: `match.any` is not nil (it may
-- be empty), each of its filters names a namespace or a label and has a container selector that
-- compiles, and the filesystem honeytoken is set and has an absolute path.
pub is_valid_iff : (p : Patterns) (trap : Trap) → (is_valid p trap ≡ valid) ↔ IsGoodTrap p trap
is_valid_iff p trap = (valid-good p trap, good-valid p trap)

-- The check of one resource filter panics exactly when its list of namespaces is empty without
-- being nil and it has no selector.
pub filter-panics_iff :
    (p : Patterns) (v : ResourceFilter)
    → (filter_is_valid p v ≡ panics) ↔ ((v.namespaces ≡ some []) × (v.selector ≡ none))
unfolding filter_is_valid
filter-panics_iff p v = (λ h. ground arith, λ h. ground arith)
