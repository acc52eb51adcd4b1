-- ===== src/Examples/Decoys.antt =====
-- Runs that deploy and remove decoys.
use koney.Matching.Deployable.{get_matching_pods_with_containers, eligible, matching_result}
use koney.Matching.Objects.{
  get_matching_objects_with_containers, add_filters, add_objects, add_object, merge_entry,
  merge_containers,
}
use koney.Matching.Listing.{
  get_matching_objects_by_namespace_and_labels, match_namespaces, list_items_as_objects,
  match_labels, combine, append_common, append_new, append_common_of,
}
use koney.Matching.Selectors.{
  extract_object_names, select_containers, containers_of, container_selector_selects_all,
  get_object_from_map,
}
use koney.Matching.Ready.{
  filter_objects_without_deletion_timestamp, filter_objects_created_after_timestamp,
  filter_pods_ready_for_traps, pod_ready, ready_containers,
}
use koney.Utils.Names.{match_container_name}
use koney.Utils.Conditions.{get_pod_condition}
use koney.Matching.Deployable.{MatchingResult, get_deployable_objects_with_containers}
use koney.Controller.Results.{DecoyDeploymentResult}
use koney.Decoy.Deploy.{deploy_decoy, deploy_matched, deploy_to_resources}
use koney.Decoy.Deploy.Complete.{deploy_decoy-InPlace}
use koney.Decoy.Deploy.InPlace.{InPlace}
use koney.Decoy.Deploy.{
  deploy_to_container, deploy_by_exec, annotate, record_outcome, annotate_fetched,
}
use koney.Utils.Collections.{contains}
use koney.Decoy.Exec.{
  deploy_decoy_with_container_exec, directory_of, write_file, verify_file, check_content,
  trim_newline, make_read_only,
}
use koney.Annotations.Resource.{add_trap_to_annotations}
use koney.Annotations.Same.{convert_trap_to_trap_annotation}
use koney.Prelude.{insert, true, All}
use koney.Annotations.Changes.{add_trap, on_policy, refresh_first, refresh_or_append}
use koney.Decoy.Deploy.Deployed.{Deployed, deploy_to_resource-Deployed}
use koney.Api.Annotation.{ChangeAnnotation}
use koney.Decoy.Deploy.{deploy_to_resource, deploy_to_containers, already_deployed}
use koney.Examples.Runs.{found_object}
use koney.Effects.{last}
use koney.Annotations.Resource.{
  annotated, get_annotation_change, read_changes, remove_trap_annotations, write_changes,
}
use koney.Annotations.Changes.{find_change, remove_trap}
use koney.Prelude.{lookup, delete}
use koney.Api.Annotation
use koney.Api.Trap.{trap_type}
use koney.Annotations.Same.{are_the_same_trap}
use koney.Utils.Hash.{hash, to_hex}
use koney.Decoy.Remove.Removed.{Removed, remove_decoy-Removed}
use koney.Libraries.{Libraries}
use koney.Decoy.Exec.{remove_decoy_with_container_exec, verify_removal, check_removed}
use koney.Decoy.Secret.{create_secret_if_missing, create_unless_found}
use koney.Controller.Cleanup.Unchanged.{cleanup_removed_decoys-current}
use koney.Examples.{web_pod, web_trap, web_deployment}
use koney.Decoy.Mounts.Laws.{Mounted, deploy_decoy_with_volume_mount-Mounted}
use koney.Controller.Cleanup.{
  find_annotated_resources, cleanup_removed_decoys, add_deployments, select_annotated,
}
use koney.Cluster.{Pod, pod}
use koney.Decoy.Remove.{
  remove_decoy, remove_from_containers, remove_from_container, remove_by_exec, record_removal,
  unless_stopped, unannotate, unannotate_fetched, update_annotation,
}
use koney.Decoy.Mounts.{deploy_decoy_with_volume_mount, file_name_of, mount_decoy, mount_fetched}
use koney.Prelude.{[], none, some, ok, ◌∷◌, ◌≡◌, refl}
use koney.Effects.{Cluster, RetriesOnConflict}
use koney.Examples.Runs.{cluster, policy, cluster-RetriesOnConflict, attempt_again}
use koney.Examples.Reconcile.{libraries, both_containers}
use koney.Utils.Bytes.{bytes}

deploy_decoy_with_volume_mount-Mounted_example :
    Mounted libraries cluster web_trap web_deployment "nginx" []
      (deploy_decoy_with_volume_mount libraries cluster web_trap web_deployment "nginx" []).1
unfolding deploy_decoy_with_volume_mount file_name_of mount_decoy create_secret_if_missing
    create_unless_found attempt_again mount_fetched
deploy_decoy_with_volume_mount-Mounted_example =
    deploy_decoy_with_volume_mount-Mounted libraries cluster web_trap web_deployment "nginx" []
      cluster-RetriesOnConflict refl

-- A cluster in which no file is left, and a retry that makes one attempt.
abbrev cleared : Cluster
cleared = record cluster {
  output = λ h call. (bytes "No such file", none);
  retry = λ body s. body s;
}

cleared-RetriesOnConflict : RetriesOnConflict cleared
cleared-RetriesOnConflict S body s h = last s h

remove_decoy-Removed_example :
    Removed libraries cleared web_pod both_containers refl "policy"
      (remove_decoy libraries cleared "policy" both_containers (pod web_pod) []).1
unfolding remove_decoy remove_from_containers remove_from_container remove_by_exec record_removal
    unless_stopped unannotate unannotate_fetched update_annotation remove_decoy_with_container_exec
    verify_removal check_removed found_object bytes remove_trap_annotations read_changes lookup
    remove_trap write_changes delete
remove_decoy-Removed_example =
    remove_decoy-Removed libraries cleared web_pod both_containers refl "policy" (pod web_pod) []
      cleared-RetriesOnConflict refl

-- The libraries, with an annotation that is read as that of the trap.
abbrev reading : Libraries
reading = record libraries {
  unmarshal_changes =
      λ s. some (record { deception_policy_name = "policy"; traps = both_containers ∷ [] } ∷ []);
}

-- The pod, with the annotation.
abbrev annotated_pod : Pod
annotated_pod = record web_pod {
  meta = record web_pod.meta { annotations = some (("koney/changes", "[]") ∷ []) };
}

abbrev listing : Cluster
listing = record cluster { objects = λ h call. ok (pod annotated_pod ∷ []) }

cleanup_removed_decoys-current_example :
    cleanup_removed_decoys reading listing policy []
    ≡ (some [], (find_annotated_resources reading listing "policy" []).1)
unfolding find_annotated_resources add_deployments select_annotated annotated get_annotation_change
    read_changes lookup find_change are_the_same_trap Annotation.trap_type trap_type hash to_hex
cleanup_removed_decoys-current_example =
    cleanup_removed_decoys-current reading listing policy
      (pod annotated_pod ∷ pod annotated_pod ∷ []) [] refl
      ((_, refl, (refl, tt)), ((_, refl, (refl, tt)), tt))

-- A cluster in which every command prints the content of the honeytoken, and a retry that makes one
-- attempt.
abbrev printed : Cluster
printed = record cluster { output = λ h call. (bytes "secret", none); retry = λ body s. body s }

printed-RetriesOnConflict : RetriesOnConflict printed
printed-RetriesOnConflict S body s h = last s h

abbrev recorded_nginx : ChangeAnnotation
recorded_nginx = record {
  deception_policy_name = "policy";
  traps = record both_containers { containers = "nginx" ∷ [] } ∷ [];
}

deploy_to_resource-Deployed_example :
    Deployed libraries printed policy web_trap web_pod
      (already_deployed libraries web_trap recorded_nginx.traps)
      ("nginx" ∷ "sidecar" ∷ [])
      (deploy_to_resource libraries printed policy web_trap
        (pod web_pod)
        ("nginx" ∷ "sidecar" ∷ [])
        (some recorded_nginx)
        []
        []).1
unfolding deploy_to_resource deploy_to_containers deploy_to_container contains already_deployed
    are_the_same_trap Annotation.trap_type trap_type hash to_hex deploy_by_exec
    deploy_decoy_with_container_exec directory_of bytes annotate record_outcome write_file
    verify_file check_content trim_newline make_read_only annotate_fetched found_object
    add_trap_to_annotations read_changes write_changes convert_trap_to_trap_annotation lookup insert
    add_trap on_policy refresh_first refresh_or_append
deploy_to_resource-Deployed_example =
    deploy_to_resource-Deployed libraries printed policy web_trap web_pod "nginx" ("sidecar" ∷ [])
      recorded_nginx [] [] printed-RetriesOnConflict refl refl

-- What the sample reader matches: the ready container of the sample pod.
abbrev one_match : MatchingResult
one_match = record {
  deployable_objects = (pod web_pod, "nginx" ∷ []) ∷ [];
  at_least_one_object_was_matched = true;
  all_deployable_objects_were_ready = true;
}

abbrev all_deployed : DecoyDeploymentResult
all_deployed = record {
  at_least_one_objects_was_matched = true;
  all_objects_were_ready = true;
  errors = [];
}

deploy_decoy-InPlace_example :
    All
      (InPlace libraries printed policy web_trap
        (deploy_decoy libraries printed policy web_trap []).1)
      one_match.deployable_objects
unfolding deploy_decoy deploy_matched deploy_to_resources get_deployable_objects_with_containers
    get_matching_pods_with_containers eligible matching_result get_matching_objects_with_containers
    add_filters add_objects add_object merge_entry merge_containers
    get_matching_objects_by_namespace_and_labels match_namespaces list_items_as_objects match_labels
    combine append_common append_new append_common_of extract_object_names select_containers
    containers_of container_selector_selects_all get_object_from_map
    filter_objects_without_deletion_timestamp filter_objects_created_after_timestamp
    filter_pods_ready_for_traps pod_ready ready_containers match_container_name get_pod_condition
    get_annotation_change find_change deploy_to_resource deploy_to_containers deploy_to_container
    contains already_deployed are_the_same_trap Annotation.trap_type trap_type hash to_hex
    deploy_by_exec deploy_decoy_with_container_exec directory_of bytes annotate record_outcome
    write_file verify_file check_content trim_newline make_read_only annotate_fetched found_object
    add_trap_to_annotations read_changes write_changes convert_trap_to_trap_annotation lookup insert
    add_trap on_policy refresh_first refresh_or_append
deploy_decoy-InPlace_example =
    deploy_decoy-InPlace libraries printed policy web_trap one_match all_deployed []
      printed-RetriesOnConflict refl refl refl refl
