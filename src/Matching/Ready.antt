-- ===== src/Matching/Ready.antt =====
-- The filters of internal/controller/matching/matching.go over the map of matching objects.
pub mod Laws
use koney.Prelude.{
  ◌==◌, ◌&&◌, ◌||◌, ◌++◌, List, [], ◌∷◌, true, false, String, keep, ℕ, Bool, not, ltb,
  if◌then◌else◌, string_eq, is_some,
}
use koney.Utils.Collections.{contains}
use koney.Utils.Conditions.{get_pod_condition, get_deployment_condition, ConditionStatus, status_eq}
use koney.Cluster.{Object, Pod, Deployment, ContainerStatus, meta_of, pod, deployment, other}
use koney.Matching.Selectors.{ObjectMap}

abbrev pub has_no_deletion_timestamp : Object × List String → Bool
has_no_deletion_timestamp (o, containers) = not (is_some (meta_of o).deletion_timestamp)

-- matching.filterObjectsWithoutDeletionTimestamp
unfoldable pub filter_objects_without_deletion_timestamp : ObjectMap → ObjectMap
filter_objects_without_deletion_timestamp = keep has_no_deletion_timestamp

-- `policyCreatedAt.Before(&objectCreatedAt)`
abbrev pub is_created_after : ℕ → Object × List String → Bool
is_created_after policy_created_at (o, containers) =
    ltb policy_created_at (meta_of o).creation_timestamp

-- matching.filterObjectsCreatedAfterTimestamp
unfoldable pub filter_objects_created_after_timestamp : ObjectMap → ℕ → ObjectMap
filter_objects_created_after_timestamp m policy_created_at =
    keep (is_created_after policy_created_at) m

-- The inner loop over the container statuses: the names to append, and whether every container
-- of the list was running and ready.
unfoldable pub ready_containers : List String → List ContainerStatus → List String × Bool
ready_containers containers [] = ([], true)
ready_containers containers (status ∷ statuses) =
    let (rest, all_ready) = ready_containers containers statuses in
    if not (contains containers status.name)
    then (rest, all_ready)
    else if not status.running || not status.ready
    then (rest, false)
    else (status.name ∷ rest, all_ready)

-- The body of the loop for one pod: its containers in the result, and the flag.
unfoldable pub pod_ready : Pod → List String → List String × Bool
pod_ready p containers =
    if not (p.phase == "Running")
    then ([], false)
    else (let (names, all_ready) = ready_containers containers p.container_statuses in
        (
          names,
          status_eq (get_pod_condition p.conditions "ContainersReady") ConditionStatus.is_true
              && all_ready,
        ))

-- A pod has an entry if a container was appended to it.
abbrev pub entry_of : Pod → List String → ObjectMap
entry_of p [] = []
entry_of p names = (pod p, names) ∷ []

-- matching.filterPodsReadyForTraps; an object that is no pod is passed over.
unfoldable pub filter_pods_ready_for_traps : ObjectMap → ObjectMap × Bool
filter_pods_ready_for_traps [] = ([], true)
filter_pods_ready_for_traps ((pod p, containers) ∷ m) =
    let (rest, all_ready) = filter_pods_ready_for_traps m in
    let (names, ready) = pod_ready p containers in (entry_of p names ++ rest, ready && all_ready)
filter_pods_ready_for_traps ((deployment d, containers) ∷ m) = filter_pods_ready_for_traps m
filter_pods_ready_for_traps ((other o, containers) ∷ m) = filter_pods_ready_for_traps m

-- `utils.GetDeploymentCondition(&deployment.Status.Conditions, appsv1.DeploymentAvailable) ==
-- corev1.ConditionTrue`
abbrev pub is_available : Deployment → Bool
is_available d =
    status_eq (get_deployment_condition d.conditions "Available") ConditionStatus.is_true

-- matching.filterDeploymentsReadyForTraps; an object that is no deployment is passed over.
unfoldable pub filter_deployments_ready_for_traps : ObjectMap → ObjectMap × Bool
filter_deployments_ready_for_traps [] = ([], true)
filter_deployments_ready_for_traps ((deployment d, containers) ∷ m) =
    let (rest, all_ready) = filter_deployments_ready_for_traps m in
    if not (is_available d) then (rest, false) else ((deployment d, containers) ∷ rest, all_ready)
filter_deployments_ready_for_traps ((pod p, containers) ∷ m) = filter_deployments_ready_for_traps m
filter_deployments_ready_for_traps ((other o, containers) ∷ m) =
    filter_deployments_ready_for_traps m
