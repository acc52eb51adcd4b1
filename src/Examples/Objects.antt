-- ===== src/Examples/Objects.antt =====
-- Objects that match, and the deployment of volumes.
use koney.Decoy.Volumes.Unmounted.{unmount-mount, unmount-dangling}
use koney.Matching.Objects.{get_matching_objects_with_containers}
use koney.Examples.{
  token_mount, reader, web_deployment, patterns, web_trap, web_pod, both_mounted, web_filter,
  container,
}
use koney.Matching.Deployable.{get_deployable_objects_with_containers}
use koney.Matching.Listing.Origin.{ComesFrom}
use koney.Matching.Listing.{labels_of}
use koney.Api.Trap.{elements}
use koney.Matching.Listing.Names.{has_name}
use koney.Matching.Listing.Laws.{asks_for, has_name-get_matching_objects}
use koney.Matching.Listing.Distinct.{DistinctNames, get_matching_objects-DistinctNames}
use koney.Decoy.Volumes.{mount, unmount, remove_volume, on_container, remove_mount, mount_of}
use koney.Decoy.Volumes.Mounted.{is_closed}
use koney.Matching.Deployable.Laws.{Promised, get_deployable_objects_with_containers-IsSound}
use koney.Matching.Objects.Distinct.{
  OkMap, IsMatchMap, get_matching_objects_with_containers-IsMatchMap,
}
use koney.Matching.Listing.{get_matching_objects_by_namespace_and_labels, Kind}
use koney.Matching.Listing.{
  match_namespaces, list_items_as_objects, match_labels, combine, append_common, append_new,
  append_common_of,
}
use koney.Utils.Collections.{contains}
use koney.Matching.Selectors.{extract_object_names}
use koney.Prelude.{All, ◌≡◌, refl, [], some, false, ◌∷◌}
use koney.Cluster.{pod, Deployment}

has_name-get_matching_objects_example :
    (has_name "web-0" (pod web_pod ∷ []) ≡ asks_for reader Kind.pods web_filter "web-0")
    × All
        (ComesFrom reader Kind.pods
          (elements web_filter.namespaces)
          (labels_of web_filter.selector))
        (pod web_pod ∷ [])
unfolding get_matching_objects_by_namespace_and_labels match_namespaces list_items_as_objects
    match_labels combine append_common append_new contains extract_object_names append_common_of
has_name-get_matching_objects_example =
    has_name-get_matching_objects reader Kind.pods web_filter "web-0" refl

get_matching_objects-DistinctNames_example : DistinctNames (pod web_pod ∷ [])
unfolding get_matching_objects_by_namespace_and_labels match_namespaces list_items_as_objects
    match_labels combine append_common append_new contains extract_object_names append_common_of
get_matching_objects-DistinctNames_example =
    get_matching_objects-DistinctNames reader Kind.pods web_filter refl

get_matching_objects_with_containers-IsMatchMap_example :
    OkMap IsMatchMap
      (get_matching_objects_with_containers reader patterns Kind.pods web_trap.match_resources)
get_matching_objects_with_containers-IsMatchMap_example =
    get_matching_objects_with_containers-IsMatchMap reader patterns Kind.pods
      web_trap.match_resources

get_deployable_objects_with_containers-IsSound_example :
    Promised (some 4) (get_deployable_objects_with_containers reader patterns web_trap (some 4))
get_deployable_objects_with_containers-IsSound_example =
    get_deployable_objects_with_containers-IsSound reader patterns web_trap (some 4)

unmount-mount_example :
    unmount token_mount.volume_name "nginx" (mount token_mount "nginx" web_deployment)
    ≡ some (web_deployment, token_mount.secret_name)
unmount-mount_example = unmount-mount token_mount "nginx" web_deployment refl refl

-- The deployment after the removal of the honeytoken from one of its two containers.
abbrev after_removal : Deployment
after_removal = record both_mounted {
  containers =
      container "nginx"
      ∷ record { name = "sidecar"; volume_mounts = mount_of token_mount ∷ [] }
      ∷ [];
  volumes = [];
}

unmount-dangling_example : is_closed after_removal ≡ false
unfolding unmount remove_volume on_container remove_mount
unmount-dangling_example = unmount-dangling "koney-volume-1" "nginx" both_mounted refl refl
