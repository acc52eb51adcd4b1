-- ===== src/Controller/Cleanup.antt =====
-- cleanupDeceptionPolicy, cleanupTrap, cleanupRemovedDecoys and cleanupRemovedTraps of
-- internal/controller/deceptionpolicy_trap_removal.go. No errors are nil.
pub mod Unchanged
use koney.Prelude.{
  [], ◌∷◌, none, some, ok, err, true, String, Option, Bool, List, if◌then◌else◌, Result, is_nil,
  exists, ◌++◌, not,
}
use koney.Api.Trap.{TrapType}
use koney.Api.Annotation
use koney.Api.Annotation.{TrapAnnotation, ChangeAnnotation}
use koney.Api.Policy.{Policy}
use koney.Cluster.{Object, meta_of}
use koney.Libraries.{Libraries, codec_of, digests_of}
use koney.Annotations.Same.{are_the_same_trap}
use koney.Annotations.Resource.{annotated, get_annotation_change}
use koney.Captor.Cleanup.{cleanup_removed_captors}
use koney.Decoy.Remove.{remove_decoy}
use koney.Controller.Results.{Cause, Errors, text}
use koney.Effects.{Cluster, M, Run, Answer, ◌>>=◌, ask, pure, lift, list_deployments, list_pods}

-- annotations.GetAnnotatedResources with its two calls; an error ends it.
unfoldable pub select_annotated :
    Libraries → String → Result Cause (List Object) → Result Cause (List Object)
select_annotated l crd (err e) = err e
select_annotated l crd (ok objects) = elim (annotated (codec_of l) crd objects) [
  | none ↦ err (text "json")
  | some found ↦ ok found
]

unfoldable pub add_deployments :
    Libraries → Cluster → String → Result Cause (List Object) → M (Result Cause (List Object))
add_deployments l c crd (err e) h = (err e, h)
add_deployments l c crd (ok pods) h =
    let (r, h') = ask c.objects list_deployments h in
    (
      elim (select_annotated l crd r) [ err e ↦ err e | ok deployments ↦ ok (pods ++ deployments) ],
      h',
    )

unfoldable pub find_annotated_resources :
    Libraries → Cluster → String → M (Result Cause (List Object))
find_annotated_resources l c crd h =
    let (r, h') = ask c.objects list_pods h in add_deployments l c crd (select_annotated l crd r) h'

-- cleanupTrap: the errors, and the resource afterwards.
unfoldable pub cleanup_trap :
    Libraries → Cluster → String → TrapAnnotation → TrapType → Object → Run (Errors × Object)
cleanup_trap l c crd trap TrapType.filesystem_honeytoken o = remove_decoy l c crd trap o
cleanup_trap l c crd trap TrapType.http_endpoint o = pure ([], o)
cleanup_trap l c crd trap TrapType.http_payload o = pure ([], o)
cleanup_trap l c crd trap TrapType.unknown o = pure ([], o)

-- The loop over the traps of one resource that pass a test; an error ends it.
unfoldable pub cleanup_traps :
    Libraries
    → Cluster
    → String
    → (TrapAnnotation → Bool)
    → List TrapAnnotation
    → Object
    → Run Errors
cleanup_traps l c crd stale [] o = pure []
cleanup_traps l c crd stale (trap ∷ traps) o =
    if stale trap
    then (cleanup_trap l c crd trap (Annotation.trap_type trap) o >>= λ r.
        (if is_nil r.0 then cleanup_traps l c crd stale traps r.1 else pure r.0))
    else cleanup_traps l c crd stale traps o

unfoldable pub cleanup_change :
    Libraries
    → Cluster
    → String
    → (TrapAnnotation → Bool)
    → Object
    → Option ChangeAnnotation
    → Run Errors
cleanup_change l c crd stale o none = pure (text "json" ∷ [])
cleanup_change l c crd stale o (some change) = cleanup_traps l c crd stale change.traps o

-- The loop over the resources.
unfoldable pub cleanup_resources :
    Libraries → Cluster → String → (TrapAnnotation → Bool) → List Object → Run Errors
cleanup_resources l c crd stale [] = pure []
cleanup_resources l c crd stale (o ∷ objects) =
    cleanup_change l c crd stale o (get_annotation_change (codec_of l) (meta_of o) crd)
    >>= λ errors. (if is_nil errors then cleanup_resources l c crd stale objects else pure errors)

unfoldable pub cleanup_found :
    Libraries → Cluster → String → (TrapAnnotation → Bool) → Result Cause (List Object) → Run Errors
cleanup_found l c crd stale (err e) = pure (e ∷ [])
cleanup_found l c crd stale (ok objects) = cleanup_resources l c crd stale objects

-- DeceptionPolicyReconciler.cleanupDeceptionPolicy: all traps go.
unfoldable pub cleanup_deception_policy : Libraries → Cluster → Policy → Run Errors
cleanup_deception_policy l c policy =
    lift (find_annotated_resources l c policy.name) >>= cleanup_found l c policy.name (λ trap. true)

-- `!found`
abbrev pub is_removed : Libraries → Policy → TrapAnnotation → Bool
is_removed l policy annotation = not (exists (are_the_same_trap l.md5 annotation) policy.spec.traps)

-- DeceptionPolicyReconciler.cleanupRemovedDecoys: the traps go that are in the policy no more.
unfoldable pub cleanup_removed_decoys : Libraries → Cluster → Policy → Run Errors
cleanup_removed_decoys l c policy =
    lift (find_annotated_resources l c policy.name)
    >>= cleanup_found l c policy.name (is_removed l policy)

unfoldable pub then_decoys : Libraries → Cluster → Policy → Answer → Run Errors
then_decoys l c policy (some e) = pure (e ∷ [])
then_decoys l c policy none = cleanup_removed_decoys l c policy

-- DeceptionPolicyReconciler.cleanupRemovedTraps
unfoldable pub cleanup_removed_traps : Libraries → Cluster → Policy → Run Errors
cleanup_removed_traps l c policy =
    lift (cleanup_removed_captors c (digests_of l) policy.name policy.spec.traps)
    >>= then_decoys l c policy
