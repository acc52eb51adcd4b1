-- ===== src/Matching/Deployable.antt =====
-- GetDeployableObjectsWithContainers of internal/controller/matching/matching.go.
pub mod Laws
use koney.Prelude.{
  ◌==◌, none, some, false, ok, err, ◌>>=◌, Bool, Result, Option, ℕ, not, is_nil, if◌then◌else◌,
}
use koney.Utils.Names.{Patterns}
use koney.Api.Trap.{Trap, MatchResources}
use koney.Matching.Selectors.{MatchError, ObjectMap, bad_strategy}
use koney.Matching.Listing.{Reader, pods, deployments}
use koney.Matching.Objects.{get_matching_objects_with_containers}
use koney.Matching.Ready.{
  filter_objects_without_deletion_timestamp, filter_objects_created_after_timestamp,
  filter_pods_ready_for_traps, filter_deployments_ready_for_traps,
}

-- matching.MatchingResult
pub record MatchingResult : Type 0 where
  pub deployable_objects : ObjectMap
  pub at_least_one_object_was_matched : Bool
  pub all_deployable_objects_were_ready : Bool

-- matching.getMatchingPodsWithContainers
unfoldable pub get_matching_pods_with_containers :
    Reader → Patterns → MatchResources → Result MatchError ObjectMap
get_matching_pods_with_containers r patterns = get_matching_objects_with_containers r patterns pods

-- matching.getMatchingDeploymentsWithContainers
unfoldable pub get_matching_deployments_with_containers :
    Reader → Patterns → MatchResources → Result MatchError ObjectMap
get_matching_deployments_with_containers r patterns =
    get_matching_objects_with_containers r patterns deployments

-- `if createdAfter != nil`
abbrev created_after_filter : Option ℕ → ObjectMap → ObjectMap
created_after_filter none m = m
created_after_filter (some t) m = filter_objects_created_after_timestamp m t

-- The two filters that both strategies apply first.
unfoldable pub eligible : Option ℕ → ObjectMap → ObjectMap
eligible created_after m =
    created_after_filter created_after (filter_objects_without_deletion_timestamp m)

-- The result from what matched and what is ready.
unfoldable pub matching_result : ObjectMap → ObjectMap × Bool → MatchingResult
matching_result matching (filtered, all_ready) = record {
  deployable_objects = filtered;
  at_least_one_object_was_matched = not (is_nil matching);
  all_deployable_objects_were_ready = if is_nil filtered then false else all_ready;
}

-- matching.GetDeployableObjectsWithContainers
unfoldable pub get_deployable_objects_with_containers :
    Reader → Patterns → Trap → Option ℕ → Result MatchError MatchingResult
unfolding eligible matching_result
get_deployable_objects_with_containers r patterns trap created_after =
    if trap.decoy_deployment.strategy == "containerExec"
    then (get_matching_pods_with_containers r patterns trap.match_resources >>= λ m.
        let matching = eligible created_after m in
        ok (matching_result matching (filter_pods_ready_for_traps matching)))
    else if trap.decoy_deployment.strategy == "volumeMount"
    then (get_matching_deployments_with_containers r patterns trap.match_resources >>= λ m.
        let matching = eligible created_after m in
        ok (matching_result matching (filter_deployments_ready_for_traps matching)))
    else err bad_strategy
