-- ===== src/Captor/Cleanup.antt =====
-- cleanupRemovedCaptors of internal/controller/deceptionpolicy_trap_removal.go.
pub mod Expected
pub mod Deletes
pub mod Completes
use mathlib.Core.Option
use koney.Prelude.{
  string_eq, [], none, some, ok, err, ◌∷◌, ◌==◌, List, Option, String, if◌then◌else◌, keep, not,
  Result,
}
use koney.Utils.Collections.{contains}
use koney.Api.Trap.{Trap}
use koney.Controller.Results.{no_kind_match, text, Cause, not_found, conflict}
use koney.Captor.Names.{Digests, generate_tetragon_tracing_policy_name, generate_kive_policy_name}
use koney.Effects.{
  Call, list_tracing_policies, list_kive_policies, delete_tracing_policy, delete_kive_policy,
  Cluster, M, Answer, History,
}

-- The loop over the traps of the specification: the names of their captors; `none` is an error of
-- `json.Marshal`.
unfoldable pub policy_names : (Trap → Option String) → List Trap → Option (List String)
policy_names generate [] = some []
policy_names generate (trap ∷ traps) =
    if trap.captor_deployment.strategy == "none"
    then policy_names generate traps
    else elim (generate trap) [
      | none ↦ none
      | some name ↦ Option.map (λ names. name ∷ names) (policy_names generate traps)
    ]

-- `notFoundTracingPolicies`
unfoldable pub not_found_names : List String → List String → List String
not_found_names expected = keep (λ name. not (contains expected name))

-- `if err := ...; err != nil { return err }` before the rest of the loop.
abbrev pub unless_failed : Answer → Answer × History → History → Answer × History
unless_failed none rest h = rest
unless_failed (some e) rest h = (some e, h)

-- The loop of deletions, which the first error ends.
unfoldable pub delete_all : Cluster → (String → Call) → List String → M Answer
delete_all c delete [] h = (none, h)
delete_all c delete (name ∷ names) h =
    let rest = delete_all c delete names (delete name ∷ h) in
    unless_failed (c.run h (delete name)) rest (delete name ∷ h)

-- What is done with the list of the installed policies.
unfoldable pub delete_stale :
    Cluster → (String → Call) → Option (List String) → List String → M Answer
delete_stale c delete none listed h = (some (text "json"), h)
delete_stale c delete (some expected) listed h =
    delete_all c delete (not_found_names expected listed) h

-- After `r.List`. A missing resource definition means that the captor is not installed.
unfoldable pub cleanup_listed :
    Cluster → (String → Call) → Option (List String) → Result Cause (List String) → M Answer
cleanup_listed c delete expected (ok listed) h = delete_stale c delete expected listed h
cleanup_listed c delete expected (err e) h = elim e [
  | no_kind_match ↦ (none, h)
  | not_found ↦ (some not_found, h)
  | conflict ↦ (some conflict, h)
  | text m ↦ (some (text m), h)
]

-- The half for one kind of captor.
unfoldable pub cleanup_kind : Cluster → Call → (String → Call) → Option (List String) → M Answer
cleanup_kind c list delete expected h = cleanup_listed c delete expected (c.names h list) (list ∷ h)

-- The half for Kive, which is left out after an error.
unfoldable pub cleanup_kive : Cluster → String → Option (List String) → Answer → M Answer
cleanup_kive c policy expected (some e) h = (some e, h)
cleanup_kive c policy expected none h =
    cleanup_kind c (list_kive_policies policy) delete_kive_policy expected h

-- DeceptionPolicyReconciler.cleanupRemovedCaptors
unfoldable pub cleanup_removed_captors : Cluster → Digests → String → List Trap → M Answer
cleanup_removed_captors c d policy traps h =
    let (tetragon, h') =
      cleanup_kind c (list_tracing_policies policy) delete_tracing_policy
        (policy_names (generate_tetragon_tracing_policy_name d) traps) h in
    cleanup_kive c policy (policy_names (generate_kive_policy_name d) traps) tetragon h'
