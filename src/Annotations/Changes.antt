-- ===== src/Annotations/Changes.antt =====
-- The loops of internal/controller/annotations/annotations.go over the list of changes, one for
-- each operation, before the result goes back into JSON.
pub mod Laws
pub mod Removal
use koney.Prelude.{
  ◌==◌, ◌++◌, List, [], ◌∷◌, Bool, String, keep, if◌then◌else◌, true, not, exists, false, is_nil,
}
use koney.Utils.Bytes.{Bytes}
use koney.Api.Trap.{Trap}
use koney.Api.Annotation.{TrapAnnotation, ChangeAnnotation, equals}
use koney.Annotations.Same.{are_the_same_trap}

-- `for index, t := range traps { if test(t) { traps[index].UpdatedAt = now;
-- traps[index].Containers = containers; break } }`
unfoldable pub refresh_first :
    (TrapAnnotation → Bool) → List String → String → List TrapAnnotation → List TrapAnnotation
refresh_first test containers now [] = []
refresh_first test containers now (t ∷ traps) =
    if test t
    then record t { updated_at = now; containers = containers } ∷ traps
    else t ∷ refresh_first test containers now traps

-- The same loop, and `append` if it has found nothing (`trapExists` is false).
unfoldable pub refresh_or_append :
    (TrapAnnotation → Bool)
    → TrapAnnotation
    → List String
    → String
    → List TrapAnnotation
    → List TrapAnnotation
unfolding refresh_first
refresh_or_append test new containers now traps =
    if exists test traps then refresh_first test containers now traps else traps ++ new ∷ []

-- `change.DeceptionPolicyName == crdName`
abbrev pub is_change_of : String → ChangeAnnotation → Bool
is_change_of crd change = change.deception_policy_name == crd

-- The loop over the changes: those of the policy get new traps.
unfoldable pub on_policy :
    String
    → (List TrapAnnotation → List TrapAnnotation)
    → List ChangeAnnotation
    → List ChangeAnnotation
on_policy crd f [] = []
on_policy crd f (change ∷ changes) =
    (if is_change_of crd change then record change { traps = f change.traps } else change)
    ∷ on_policy crd f changes

-- The loop of AddTrapToAnnotations, and the new change if `changeExists` is false.
unfoldable pub add_trap :
    (Bytes → Bytes)
    → String
    → Trap
    → TrapAnnotation
    → List String
    → String
    → List ChangeAnnotation
    → List ChangeAnnotation
unfolding refresh_or_append on_policy
add_trap md5 crd trap new containers now changes =
    if exists (is_change_of crd) changes
    then on_policy crd (refresh_or_append (λ a. are_the_same_trap md5 a trap) new containers now)
        changes
    else changes ++ (record { deception_policy_name = crd; traps = new ∷ [] }) ∷ []

-- The loop of UpdateContainersInAnnotations.
unfoldable pub update_containers :
    String → TrapAnnotation → List String → String → List ChangeAnnotation → List ChangeAnnotation
unfolding refresh_or_append on_policy
update_containers crd trap containers now = on_policy crd (
    refresh_or_append (λ a. equals a trap true)
      (record trap { created_at = now; containers = containers }) containers now)

-- The inner loop of RemoveTrapAnnotations.
unfoldable pub without_trap : TrapAnnotation → List TrapAnnotation → List TrapAnnotation
without_trap trap = keep (λ a. not (equals a trap false))

-- The loop of RemoveTrapAnnotations: a change with no traps left is not kept.
unfoldable pub remove_trap : String → TrapAnnotation → List ChangeAnnotation → List ChangeAnnotation
unfolding without_trap
remove_trap crd trap [] = []
remove_trap crd trap (change ∷ changes) =
    let rest = remove_trap crd trap changes in
    let traps = if is_change_of crd change then without_trap trap change.traps else change.traps in
    if is_nil traps then rest else record change { traps = traps } ∷ rest

-- The loop of GetAnnotationChange; no change is the change with no policy and no traps.
unfoldable pub find_change : String → List ChangeAnnotation → ChangeAnnotation
find_change crd [] = record { deception_policy_name = ""; traps = [] }
find_change crd (change ∷ changes) =
    if is_change_of crd change then change else find_change crd changes
