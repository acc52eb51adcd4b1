-- ===== src/Captor/Tetragon/Coverage.antt =====
-- Which containers the policy of generateTetragonTracingPolicy in
-- internal/controller/traps/filesystoken/utils.go makes Tetragon watch.
use koney.Utils.Env.{Environment}
use koney.Prelude.{
  ◌≡◌, refl, arith, [], none, some, false, ◌∷◌, ◌||◌, ◌==◌, List, Option, Bool, String, string_eq,
  Bool-cases, inl, inr, ◌&&◌, ◌++◌, is_nil, eq_iff, exists, true, if◌then◌else◌,
}
use koney.Utils.Collections.{contains, contains-append}
use koney.Utils.Names.{Patterns, match_container_name}
use koney.Api.Trap.{ResourceFilter, Trap, elements}
use koney.Matching.Selectors.{
  container_selector_selects_all, container_selector_needs_client_filtering,
}
use koney.Captor.Tetragon.{
  LabelSelectorRequirement, Operator, op_in, op_equal, add_all_exact, has_select_all,
  needs_client_filtering, generate_tetragon_tracing_policy, Owner, TracingPolicy,
}

-- `In` is the operator.
abbrev is_in : Operator → Bool
is_in op_in = true
is_in op_equal = false

-- A requirement of a container selector, as a label selector reads it, on the one label that
-- Tetragon gives a container: its name. `Equal` is no operator of a label selector.
abbrev satisfies : LabelSelectorRequirement → String → Bool
satisfies requirement n =
    requirement.key == "name" && is_in requirement.operator && contains requirement.values n

-- Tetragon's reading of a container selector: all requirements hold.
abbrev pub covers : List LabelSelectorRequirement → String → Bool
covers [] n = true
covers (requirement ∷ rest) n = satisfies requirement n && covers rest n

-- The one requirement that the loop builds.
abbrev one_of : List String → List LabelSelectorRequirement
one_of names = (record { key = "name"; operator = op_in; values = names }) ∷ []

covers-one_of : (names : List String) (n : String) → covers (one_of names) n ≡ contains names n
covers-one_of names n = ground arith

contains-snoc :
    (names : List String) (a n : String)
    → contains (names ++ a ∷ []) n ≡ (contains names n || a == n)
contains-snoc names a n = ground (arith, contains-append names (a ∷ []) n, contains_one)
  where
    contains_one : contains (a ∷ []) n ≡ (a == n)
    contains_one = unfold contains in ground arith

covers-add_all_exact :
    (filters : List ResourceFilter) (names : List String) (n : String)
    → covers (add_all_exact filters (one_of names)) n
      ≡ (contains names n || exists (λ f. f.container_selector == n) filters)
unfolding add_all_exact
covers-add_all_exact [] names n = ground (arith, covers-one_of names n)
covers-add_all_exact (f ∷ filters) names n =
    elim (Bool-cases (contains names f.container_selector)) [
      | inl old ↦
          rw old
            (ground (arith, covers-add_all_exact filters names n, eq_iff f.container_selector n))
      | inr new ↦ rw new (
          ground (
            arith,
            covers-add_all_exact filters (names ++ f.container_selector ∷ []) n,
            contains-snoc names f.container_selector n,
          ))
    ]

-- The selector of the policy when every container selector is a name.
covers-add_all_exact_nil :
    (filters : List ResourceFilter) (n : String)
    → is_nil filters ≡ false
    → covers (add_all_exact filters []) n ≡ exists (λ f. f.container_selector == n) filters
unfolding add_all_exact
covers-add_all_exact_nil [] n h = cc
covers-add_all_exact_nil (f ∷ filters) n h = ground (
  arith,
  covers-add_all_exact filters (f.container_selector ∷ []) n,
  contains-snoc [] f.container_selector n,
  contains-nil,
)
  where
    contains-nil : contains [] n ≡ false
    contains-nil = unfold contains in refl

-- Some filter selects the container, by the rules that deployment uses.
abbrev pub is_selected : Patterns → List ResourceFilter → String → Bool
is_selected p filters n =
    exists (λ f. elim (match_container_name p f.container_selector n) [ none ↦ false | some b ↦ b ])
      filters

selected-not-nil :
    (p : Patterns) (filters : List ResourceFilter) (n : String)
    → is_selected p filters n ≡ true
    → is_nil filters ≡ false
selected-not-nil p [] n h = cc
selected-not-nil p (f ∷ filters) n h = refl

exact_match :
    (p : Patterns) (selector n : String)
    → container_selector_selects_all selector ≡ false
    → container_selector_needs_client_filtering selector ≡ false
    → match_container_name p selector n ≡ some (selector == n)
unfolding match_container_name container_selector_selects_all
    container_selector_needs_client_filtering
exact_match p selector n h k = ground arith

-- Selectors that are exact names select those containers and no others.
exact_selection :
    (p : Patterns) (filters : List ResourceFilter) (n : String)
    → has_select_all filters ≡ false
    → needs_client_filtering filters ≡ false
    → is_selected p filters n ≡ exists (λ f. f.container_selector == n) filters
unfolding has_select_all needs_client_filtering
exact_selection p [] n h k = refl
exact_selection p (f ∷ filters) n h k =
    ground (arith, exact_selection p filters n, exact_match p f.container_selector n)

-- The containers of the policy, by the three cases of the code.
container_selector-eq :
    (marshal : List String → Option String) (env : Environment) (policy : Owner) (trap : Trap)
    (name : String) {out : TracingPolicy}
    → generate_tetragon_tracing_policy marshal env policy trap name ≡ some out
    → let filters = elements trap.match_resources.any in
      out.container_selector ≡ (
        if has_select_all filters
        then []
        else if needs_client_filtering filters
        then []
        else add_all_exact filters [])
unfolding generate_tetragon_tracing_policy
container_selector-eq marshal env policy trap name h = ground arith

-- If the generation succeeds, every container that a filter of the trap selects, by
-- MatchContainerName, passes the container selector of the policy, read as a label selector: all
-- its requirements hold, and one holds if its key is `name`, its operator is In and the name of
-- the container is among its values.
pub generate_tetragon_tracing_policy-covers :
    (marshal : List String → Option String) (env : Environment) (policy : Owner) (trap : Trap)
    (name : String) (p : Patterns) (n : String) {out : TracingPolicy}
    → generate_tetragon_tracing_policy marshal env policy trap name ≡ some out
    → is_selected p (elements trap.match_resources.any) n ≡ true
    → covers out.container_selector n ≡ true
generate_tetragon_tracing_policy-covers marshal env policy trap name p n h s =
    let filters = elements trap.match_resources.any in
    ground (
      arith,
      container_selector-eq marshal env policy trap name h,
      exact_selection p filters n,
      covers-add_all_exact_nil filters n,
      selected-not-nil p filters n s,
    )

-- If the generation succeeds, the trap has a filter, and no container selector selects all or is a
-- pattern, then the containers that pass the container selector of the policy, read as a label
-- selector on their name, are exactly those that a filter selects.
pub generate_tetragon_tracing_policy-exact :
    (marshal : List String → Option String) (env : Environment) (policy : Owner) (trap : Trap)
    (name : String) (p : Patterns) (n : String) {out : TracingPolicy}
    → generate_tetragon_tracing_policy marshal env policy trap name ≡ some out
    → is_nil (elements trap.match_resources.any) ≡ false
    → has_select_all (elements trap.match_resources.any) ≡ false
    → needs_client_filtering (elements trap.match_resources.any) ≡ false
    → covers out.container_selector n ≡ is_selected p (elements trap.match_resources.any) n
generate_tetragon_tracing_policy-exact marshal env policy trap name p n h some_filter a b =
    let filters = elements trap.match_resources.any in
    ground (
      arith,
      container_selector-eq marshal env policy trap name h,
      exact_selection p filters n a b,
      covers-add_all_exact_nil filters n some_filter,
    )
