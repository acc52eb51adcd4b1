-- ===== src/Captor/Cleanup/Expected.antt =====
-- The names that the captors of a policy ask for, without the loop of cleanupRemovedCaptors in
-- internal/controller/deceptionpolicy_trap_removal.go.
use koney.Api.Trap.{Trap}
use koney.Utils.Collections.{contains}
use koney.Captor.Cleanup.{policy_names}
use koney.Prelude.{
  ◌≡◌, refl, [], ◌∷◌, List, Option, Bool, String, true, false, not, none, some, string_eq, exists,
  ◌&&◌, is_some, ◌==◌, if◌then◌else◌, arith,
}
use mathlib.Core.Option

-- A trap has a captor unless its strategy says "none".
abbrev has_captor : Trap → Bool
has_captor trap = not (trap.captor_deployment.strategy == "none")

-- The name may be the computed one; a name that cannot be computed may be any.
abbrev may_be : Option String → String → Bool
may_be none name = true
may_be (some computed) name = computed == name

-- Some captor of the policy has the name, or has one that cannot be computed.
abbrev pub is_in_use : (Trap → Option String) → List Trap → String → Bool
is_in_use generate traps name = exists (λ t. has_captor t && may_be (generate t) name) traps

-- The name of every captor can be computed.
abbrev pub all_computed : (Trap → Option String) → List Trap → Bool
all_computed generate traps = not (exists (λ t. has_captor t && not (is_some (generate t))) traps)

-- What the list of names has to do with the traps.
abbrev pub Agrees : (Trap → Option String) → List Trap → Option (List String) → Type 0
Agrees generate traps none = all_computed generate traps ≡ false
Agrees generate traps (some names) =
    (all_computed generate traps ≡ true)
    × ((name : String) → contains names name ≡ is_in_use generate traps name)

Agrees-step :
    (generate : Trap → Option String) (trap : Trap) (traps : List Trap) (strategy_none : Bool)
    (computed : Option String) (rest : Option (List String))
    → (trap.captor_deployment.strategy == "none") ≡ strategy_none
    → generate trap ≡ computed
    → Agrees generate traps rest
    → Agrees generate (trap ∷ traps) (
        if strategy_none
        then rest
        else elim computed [ none ↦ none | some name ↦ Option.map (λ names. name ∷ names) rest ])
Agrees-step generate trap traps true computed none s g h = rw s h
Agrees-step generate trap traps true computed (some names) s g h = rw s h
Agrees-step generate trap traps false none rest s g h = rw (s, g) refl
Agrees-step generate trap traps false (some name) none s g h = rw (s, g) h
Agrees-step generate trap traps false (some name) (some names) s g h =
    (rw (s, g) h.0, λ other. unfold contains in rw (s, g) (ground (arith, h.1 other)))

pub policy_names-Agrees :
    (generate : Trap → Option String) (traps : List Trap)
    → Agrees generate traps (policy_names generate traps)
unfolding policy_names
policy_names-Agrees generate [] = (refl, λ name. unfold contains in refl)
policy_names-Agrees generate (trap ∷ traps) =
    Agrees-step generate trap traps (trap.captor_deployment.strategy == "none") (generate trap)
      (policy_names generate traps) refl refl (policy_names-Agrees generate traps)
