-- ===== src/Decoy/Remove.antt =====
-- FilesystemHoneytokenReconciler.RemoveDecoy of internal/controller/traps/filesystoken/removal.go.
pub mod Loop
pub mod Removed
use koney.Prelude.{
  ◌==◌, ◌++◌, [], ◌∷◌, some, ok, err, String, List, if◌then◌else◌, Result, is_nil, length, eqb,
  keep, not, string_eq,
}
use koney.Utils.Collections.{contains}
use koney.Api.Annotation.{TrapAnnotation}
use koney.Cluster.{Object, deployment, pod, other, meta_of, with_meta}
use koney.Libraries.{Libraries, codec_of}
use koney.Annotations.Resource.{remove_trap_annotations, update_containers_in_annotations}
use koney.Decoy.Exec.{remove_decoy_with_container_exec}
use koney.Decoy.Mounts.{remove_decoy_with_volume_mount}
use koney.Decoy.Deploy.{annotation_errors}
use koney.Controller.Results.{Cause, Errors, text}
use koney.Effects.{
  Cluster, M, Run, Answer, errors_of, ◌>>=◌, lift, pure, History, ask, panic, update_object,
  get_object,
}

-- What the loop changes: `joinedErrors`, `removedFromContainers`, and the resource in memory.
pub record Removal : Type 0 where
  pub errors : Errors
  pub removed : List String
  pub resource : Object

-- An unknown strategy ends the function inside the loop.
pub data Step : Type 0 where
  continues stops : Removal → Step

unfoldable pub record_removal : Removal → String → Object → Errors → Step
record_removal s name resource errors = continues (
    if is_nil errors
    then record s { removed = s.removed ++ name ∷ []; resource = resource }
    else record s { errors = s.errors ++ errors; resource = resource })

-- The type assertion on the resource panics for another kind.
unfoldable pub remove_by_exec : Cluster → TrapAnnotation → Object → Removal → String → Run Step
remove_by_exec c trap (pod p) s name =
    lift (remove_decoy_with_container_exec c trap.filesystem_honeytoken.file_path p name)
    >>= λ errors. pure (record_removal s name (pod p) errors)
remove_by_exec c trap (deployment d) s name = panic
remove_by_exec c trap (other m) s name = panic

unfoldable pub remove_by_mount :
    Libraries → Cluster → TrapAnnotation → Object → Removal → String → Run Step
remove_by_mount l c trap (deployment d) s name =
    remove_decoy_with_volume_mount l c trap.filesystem_honeytoken.file_path d name >>= λ r.
    pure (record_removal s name (deployment r.1) r.0)
remove_by_mount l c trap (pod p) s name = panic
remove_by_mount l c trap (other m) s name = panic

-- The body of the loop. The last two strategies overwrite the errors of earlier containers.
unfoldable pub remove_from_container :
    Libraries → Cluster → TrapAnnotation → Removal → String → Run Step
remove_from_container l c trap s name =
    if trap.deployment_strategy == "containerExec"
    then remove_by_exec c trap s.resource s name
    else if trap.deployment_strategy == "volumeMount"
    then remove_by_mount l c trap s.resource s name
    else if trap.deployment_strategy == "kyvernoPolicy"
    then pure
        (continues (record s { errors = text "KyvernoPolicy strategy not implemented yet" ∷ [] }))
    else pure (stops (record s { errors = text "unknown strategy" ∷ [] }))

unfoldable pub unless_stopped : (Removal → Run Step) → Step → Run Step
unless_stopped next (continues s) = next s
unless_stopped next (stops s) = pure (stops s)

unfoldable pub remove_from_containers :
    Libraries → Cluster → TrapAnnotation → List String → Removal → Run Step
remove_from_containers l c trap [] s = pure (continues s)
remove_from_containers l c trap (name ∷ names) s =
    remove_from_container l c trap s name >>= unless_stopped (remove_from_containers l c trap names)

-- The annotation is taken away if all containers are done, else it keeps the others.
unfoldable pub update_annotation :
    Libraries → Cluster → String → TrapAnnotation → List String → Object → History → Object × Errors
update_annotation l c crd trap removed o h =
    let (e, meta) =
      if eqb (length removed) (length trap.containers)
      then remove_trap_annotations (codec_of l) (meta_of o) crd trap
      else update_containers_in_annotations (codec_of l) (c.stamp h) (meta_of o) crd trap
          (keep (λ name. not (contains removed name)) trap.containers) in
    (with_meta o meta, annotation_errors e)

-- One attempt to write the annotation.
unfoldable pub unannotate_fetched :
    Libraries
    → Cluster
    → String
    → TrapAnnotation
    → List String
    → Result Cause Object
    → Object × Errors
    → M (Answer × (Object × Errors))
unannotate_fetched l c crd trap removed (err e) s h = ((some e, s), h)
unannotate_fetched l c crd trap removed (ok o) (old, errors) h =
    let (annotated, more) = update_annotation l c crd trap removed o h in
    let (answer, h') = ask c.run (update_object annotated) h in
    ((answer, (annotated, errors ++ more)), h')

abbrev pub unannotate_once :
    Libraries
    → Cluster
    → String
    → TrapAnnotation
    → List String
    → Object × Errors
    → M (Answer × (Object × Errors))
unannotate_once l c crd trap removed s h =
    let (r, h') = ask c.object (get_object s.0) h in unannotate_fetched l c crd trap removed r s h'

-- What follows the loop: the errors, and the resource that the caller then has.
unfoldable pub unannotate :
    Libraries → Cluster → String → TrapAnnotation → Step → M (Errors × Object)
unannotate l c crd trap (stops s) h = ((s.errors, s.resource), h)
unannotate l c crd trap (continues s) h =
    let (r, h') = c.retry (unannotate_once l c crd trap s.removed) (s.resource, s.errors) h in
    ((r.1.1 ++ errors_of r.0, r.1.0), h')

-- FilesystemHoneytokenReconciler.RemoveDecoy
unfoldable pub remove_decoy :
    Libraries → Cluster → String → TrapAnnotation → Object → Run (Errors × Object)
remove_decoy l c crd trap resource =
    remove_from_containers l c trap trap.containers
      (record { errors = []; removed = []; resource = resource })
    >>= λ s. lift (unannotate l c crd trap s)
