-- ===== src/Decoy/Deploy.antt =====
-- FilesystemHoneytokenReconciler.DeployDecoy of internal/controller/traps/filesystoken/deployment.go.
pub mod Again
pub mod Read
pub mod Loop
pub mod Deployed
pub mod InPlace
pub mod Complete
pub mod Returns
use koney.Prelude.{
  ◌==◌, ◌++◌, [], ◌∷◌, none, some, ok, err, String, Option, List, ℕ, if◌then◌else◌, Result, is_nil,
  false, string_eq,
}
use koney.Utils.Collections.{contains}
use koney.Api.Trap.{Trap}
use koney.Api.Annotation.{TrapAnnotation, ChangeAnnotation}
use koney.Api.Policy.{Policy}
use koney.Cluster.{Object, deployment, pod, other, meta_of, with_meta}
use koney.Libraries.{Libraries, codec_of}
use koney.Annotations.Same.{are_the_same_trap}
use koney.Annotations.Resource.{add_trap_to_annotations, get_annotation_change}
use koney.Matching.Selectors.{ObjectMap, MatchError}
use koney.Matching.Deployable.{MatchingResult, get_deployable_objects_with_containers}
use koney.Decoy.Exec.{deploy_decoy_with_container_exec}
use koney.Decoy.Mounts.{deploy_decoy_with_volume_mount}
use koney.Controller.Results.{Cause, Errors, text, DecoyDeploymentResult}
use koney.Effects.{
  Cluster, M, Run, Answer, errors_of, ◌>>=◌, pure, lift, ask, update_object, get_object,
}

-- `alreadyDeployedToContainers`
unfoldable pub already_deployed : Libraries → Trap → List TrapAnnotation → List String
already_deployed l trap [] = []
already_deployed l trap (annotation ∷ annotations) =
    let rest = already_deployed l trap annotations in
    if are_the_same_trap l.md5 annotation trap then annotation.containers ++ rest else rest

-- What the loops change: `joinedErrors`, `deployedToContainers`, and the resource in memory.
pub record Progress : Type 0 where
  pub errors : Errors
  pub deployed : List String
  pub resource : Object

abbrev fail : Progress → String → Progress
fail s message = record s { errors = s.errors ++ text message ∷ [] }

-- The end of a deployment to one container.
unfoldable pub record_outcome : Progress → String → Object → Errors → Progress
record_outcome s name resource errors =
    if is_nil errors
    then record s { deployed = s.deployed ++ name ∷ []; resource = resource }
    else record s { errors = s.errors ++ errors; resource = resource }

-- The two strategies, each for its kind of object; another kind is passed over.
unfoldable pub deploy_by_exec : Cluster → Trap → Object → Progress → String → Run Progress
deploy_by_exec c trap (pod p) s name = deploy_decoy_with_container_exec c trap p name >>= λ errors.
    pure (record_outcome s name (pod p) errors)
deploy_by_exec c trap (deployment d) s name = pure s
deploy_by_exec c trap (other m) s name = pure s

unfoldable pub deploy_by_mount :
    Libraries → Cluster → Trap → Object → Progress → String → Run Progress
deploy_by_mount l c trap (deployment d) s name =
    lift (deploy_decoy_with_volume_mount l c trap d name) >>= λ r.
    pure (record_outcome s name (deployment r.1) r.0)
deploy_by_mount l c trap (pod p) s name = pure s
deploy_by_mount l c trap (other m) s name = pure s

-- The body of the loop over the selected containers.
unfoldable pub deploy_to_container :
    Libraries → Cluster → Trap → List String → Progress → String → Run Progress
deploy_to_container l c trap already s name =
    if contains already name
    then pure (record s { deployed = s.deployed ++ name ∷ [] })
    else if trap.decoy_deployment.strategy == "containerExec"
    then deploy_by_exec c trap s.resource s name
    else if trap.decoy_deployment.strategy == "volumeMount"
    then deploy_by_mount l c trap s.resource s name
    else if trap.decoy_deployment.strategy == "kyvernoPolicy"
    then pure (fail s "KyvernoPolicy strategy not implemented yet")
    else pure (fail s "unknown strategy")

unfoldable pub deploy_to_containers :
    Libraries → Cluster → Trap → List String → List String → Progress → Run Progress
deploy_to_containers l c trap already [] s = pure s
deploy_to_containers l c trap already (name ∷ names) s =
    deploy_to_container l c trap already s name >>= deploy_to_containers l c trap already names

-- The errors of an operation on annotations.
abbrev pub annotation_errors {ℓ} : {E : Type ℓ} → Option E → Errors
annotation_errors none = []
annotation_errors (some e) = text "annotations" ∷ []

-- One attempt to annotate the resource: it is fetched, annotated and written back; an error of the
-- annotation is joined, and does not keep it from being written back.
unfoldable pub annotate_fetched :
    Libraries
    → Cluster
    → String
    → Trap
    → List String
    → Result Cause Object
    → Object × Errors
    → M (Answer × (Object × Errors))
annotate_fetched l c crd trap containers (err e) s h = ((some e, s), h)
annotate_fetched l c crd trap containers (ok o) (old, errors) h =
    let (e, meta) =
      add_trap_to_annotations (codec_of l) (c.stamp h) (meta_of o) crd trap containers in
    let annotated = with_meta o meta in
    let (answer, h') = ask c.run (update_object annotated) h in
    ((answer, (annotated, errors ++ annotation_errors e)), h')

abbrev pub annotate_once :
    Libraries
    → Cluster
    → String
    → Trap
    → List String
    → Object × Errors
    → M (Answer × (Object × Errors))
annotate_once l c crd trap containers s h =
    let (r, h') = ask c.object (get_object s.0) h in annotate_fetched l c crd trap containers r s h'

-- `if len(deployedToContainers) > 0`; the errors afterwards.
unfoldable pub annotate : Libraries → Cluster → String → Trap → Progress → M Errors
annotate l c crd trap s h =
    if is_nil s.deployed
    then (s.errors, h)
    else (let (r, h') = c.retry (annotate_once l c crd trap s.deployed) (s.resource, s.errors) h in
        (r.1.1 ++ errors_of r.0, h'))

-- The body of the loop over the resources, after the look-up of the annotation.
unfoldable pub deploy_to_resource :
    Libraries
    → Cluster
    → Policy
    → Trap
    → Object
    → List String
    → Option ChangeAnnotation
    → Errors
    → Run Errors
deploy_to_resource l c policy trap o selected none errors =
    pure (errors ++ text "unable to get annotation changes" ∷ [])
deploy_to_resource l c policy trap o selected (some change) errors =
    deploy_to_containers l c trap (already_deployed l trap change.traps) selected
      (record { errors = errors; deployed = []; resource = o })
    >>= λ s. lift (annotate l c policy.name trap s)

-- The loop over the map.
unfoldable pub deploy_to_resources :
    Libraries → Cluster → Policy → Trap → ObjectMap → Errors → Run Errors
deploy_to_resources l c policy trap [] errors = pure errors
deploy_to_resources l c policy trap ((o, selected) ∷ m) errors =
    deploy_to_resource l c policy trap o selected
      (get_annotation_change (codec_of l) (meta_of o) policy.name) errors
    >>= deploy_to_resources l c policy trap m

-- `filterCreatedAfter`, whose address is passed on: without a value it is the zero time.
abbrev pub created_after_of : Policy → ℕ
created_after_of policy = if policy.spec.mutate_existing then 0 else policy.creation_timestamp

-- What follows the search for objects.
unfoldable pub deploy_matched :
    Libraries
    → Cluster
    → Policy
    → Trap
    → Result MatchError MatchingResult
    → Run DecoyDeploymentResult
deploy_matched l c policy trap (err e) = pure (record {
  at_least_one_objects_was_matched = false;
  all_objects_were_ready = false;
  errors = text "matching" ∷ text "unable to get matching resources" ∷ [];
})
deploy_matched l c policy trap (ok r) =
    deploy_to_resources l c policy trap r.deployable_objects [] >>= λ errors. pure (record {
      at_least_one_objects_was_matched = r.at_least_one_object_was_matched;
      all_objects_were_ready = r.all_deployable_objects_were_ready;
      errors = errors;
    })

-- FilesystemHoneytokenReconciler.DeployDecoy. The early return for no objects is the loop over none.
unfoldable pub deploy_decoy : Libraries → Cluster → Policy → Trap → Run DecoyDeploymentResult
deploy_decoy l c policy trap h =
    deploy_matched l c policy trap
      (get_deployable_objects_with_containers (c.reader h) l.patterns trap
        (some (created_after_of policy)))
      h
