-- ===== src/Controller/Cleanup/Unchanged.antt =====
-- Clean-up of removed decoys when no trap was removed
-- (internal/controller/deceptionpolicy_trap_removal.go).
use koney.Annotations.Resource.{get_annotation_change}
use koney.Annotations.Same.{are_the_same_trap}
use koney.Cluster.{Object, meta_of}
use koney.Api.Policy.{Policy}
use koney.Effects.{Cluster, History}
use koney.Libraries.{Libraries, codec_of}
use koney.Controller.Cleanup.{
  cleanup_traps, cleanup_resources, cleanup_removed_decoys, cleanup_change, cleanup_found,
  is_removed, find_annotated_resources,
}
use koney.Api.Annotation.{TrapAnnotation, ChangeAnnotation}
use koney.Prelude.{[], some, true, false, ok, ◌∷◌, ◌≡◌, List, Bool, String, All, exists, refl}

-- Every recorded trap of the change passes the test for traps that stay.
abbrev NoneStale : (TrapAnnotation → Bool) → List TrapAnnotation → Type 0
NoneStale stale traps = All (λ trap. stale trap ≡ false) traps

cleanup_traps-none :
    (l : Libraries) (c : Cluster) (crd : String) (stale : TrapAnnotation → Bool)
    (traps : List TrapAnnotation) (o : Object) (h : History)
    → NoneStale stale traps
    → cleanup_traps l c crd stale traps o h ≡ (some [], h)
unfolding cleanup_traps
cleanup_traps-none l c crd stale [] o h k = refl
cleanup_traps-none l c crd stale (trap ∷ traps) o h k =
    rw k.0 (cleanup_traps-none l c crd stale traps o h k.1)

-- What the resource has on record for the policy can be read, and is in the policy.
abbrev pub IsCurrent : Libraries → Policy → Object → Type 0
IsCurrent l policy o =
    (change : ChangeAnnotation) × (get_annotation_change (codec_of l) (meta_of o) policy.name
      ≡ some change)
    × All (λ trap. exists (are_the_same_trap l.md5 trap) policy.spec.traps ≡ true) change.traps

current-NoneStale :
    (l : Libraries) (policy : Policy) (traps : List TrapAnnotation)
    → All (λ trap. exists (are_the_same_trap l.md5 trap) policy.spec.traps ≡ true) traps
    → NoneStale (is_removed l policy) traps
current-NoneStale l policy [] k = tt
current-NoneStale l policy (trap ∷ traps) k = (rw k.0 refl, current-NoneStale l policy traps k.1)

cleanup_resources-current :
    (l : Libraries) (c : Cluster) (policy : Policy) (objects : List Object) (h : History)
    → All (IsCurrent l policy) objects
    → cleanup_resources l c policy.name (is_removed l policy) objects h ≡ (some [], h)
unfolding cleanup_resources cleanup_change
cleanup_resources-current l c policy [] h k = refl
cleanup_resources-current l c policy (o ∷ objects) h k = rw (k.0.1) (
    rw
      (cleanup_traps-none l c policy.name (is_removed l policy) k.0.0.traps o h
        (current-NoneStale l policy k.0.0.traps k.0.2))
      (cleanup_resources-current l c policy objects h k.1))

-- If GetAnnotatedResources succeeds, and what each of the resources has on record for the policy
-- can be read and has only traps that are the same as one of the policy, then cleanupRemovedDecoys
-- returns no error and makes no call but those of GetAnnotatedResources.
pub cleanup_removed_decoys-current :
    (l : Libraries) (c : Cluster) (policy : Policy) (objects : List Object) (h : History)
    → (find_annotated_resources l c policy.name h).0 ≡ ok objects
    → All (IsCurrent l policy) objects
    → cleanup_removed_decoys l c policy h
      ≡ (some [], (find_annotated_resources l c policy.name h).1)
unfolding cleanup_removed_decoys cleanup_found
cleanup_removed_decoys-current l c policy objects h found k =
    rw found (cleanup_resources-current l c policy objects _ k)
