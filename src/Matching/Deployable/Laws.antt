-- ===== src/Matching/Deployable/Laws.antt =====
-- What GetDeployableObjectsWithContainers of internal/controller/matching/matching.go promises of
-- the objects that it returns.
use koney.Api.Trap.{Trap}
use koney.Utils.Names.{Patterns}
use koney.Matching.Listing.{Reader}
use koney.Prelude.{
  ◌≡◌, List, none, some, true, false, arith, ◌<◌, Option, String, ℕ, All, All-map, is_nil, All-keep,
  All-true, Bool, ◌∷◌, Bool-cases, ◌==◌, inl, inr, [], ◌>>=◌, refl,
}
use koney.Cluster.{Object, meta_of}
use koney.Matching.Selectors.{ObjectMap, MatchError}
use koney.Matching.Ready.{
  has_no_deletion_timestamp, filter_objects_without_deletion_timestamp, is_created_after,
  filter_objects_created_after_timestamp, filter_pods_ready_for_traps,
  filter_deployments_ready_for_traps,
}
use koney.Matching.Ready.Laws.{
  IsReadyObject, ready_pods, available_deployments, filter_pods_ready_for_traps-eq, all_pods_ready,
  filter_deployments_ready_for_traps-eq, ready_pods-All, all_deployments_available,
  available_deployments-All,
}
use koney.Matching.Deployable.{
  MatchingResult, eligible, matching_result, Result, get_deployable_objects_with_containers, ok,
  err, get_matching_pods_with_containers, get_matching_deployments_with_containers,
}

-- The object is not being deleted, and it was created strictly after the time, if there is one.
abbrev pub IsEligible : Option ℕ → Object → Type 0
IsEligible none o = (meta_of o).deletion_timestamp ≡ none
IsEligible (some t) o =
    ((meta_of o).deletion_timestamp ≡ none) × (t < (meta_of o).creation_timestamp)

no_deletion :
    (e : Object × List String)
    → has_no_deletion_timestamp e ≡ true
    → (meta_of e.0).deletion_timestamp ≡ none
no_deletion (o, c) h = ground arith

eligible-All :
    (created_after : Option ℕ) (m : ObjectMap)
    → All (λ e. IsEligible created_after e.0) (eligible created_after m)
unfolding eligible filter_objects_without_deletion_timestamp filter_objects_created_after_timestamp
eligible-All none m =
    All-map _ _ (λ e h. no_deletion e h.1) _
      (All-keep (λ e. Unit) has_no_deletion_timestamp m (All-true m))
eligible-All (some t) m =
    All-map _ _ (λ e h. (no_deletion e h.0.1, ground arith)) _
      (All-keep _ (is_created_after t) _
        (All-keep (λ e. Unit) has_no_deletion_timestamp m (All-true m)))

-- What a caller may rely on.
pub record IsSound (created_after : Option ℕ) (result : MatchingResult) : Type 0 where
  pub objects : All (λ e. IsEligible created_after e.0 × IsReadyObject e) result.deployable_objects
  -- The flag of readiness is not vacuous.
  pub not_vacuous :
      result.all_deployable_objects_were_ready ≡ true → is_nil result.deployable_objects ≡ false
  -- Without a match there is nothing to deploy to.
  pub matched :
      is_nil result.deployable_objects ≡ false → result.at_least_one_object_was_matched ≡ true

matching_result-IsSound :
    (created_after : Option ℕ) (m : ObjectMap) (f : ObjectMap × Bool)
    → All (λ e. IsEligible created_after e.0 × IsReadyObject e) f.0
    → (is_nil f.0 ≡ false → is_nil m ≡ false)
    → IsSound created_after (matching_result m f)
unfolding matching_result
matching_result-IsSound created_after m (filtered, ready) h k = record {
  objects = h;
  not_vacuous = λ e. ground arith;
  matched = λ e. ground (arith, k e);
}

ready_pods-not-nil : (m : ObjectMap) → is_nil (ready_pods m) ≡ false → is_nil m ≡ false
ready_pods-not-nil [] h = h
ready_pods-not-nil (e ∷ m) h = refl

available_deployments-not-nil :
    (m : ObjectMap) → is_nil (available_deployments m) ≡ false → is_nil m ≡ false
available_deployments-not-nil [] h = h
available_deployments-not-nil (e ∷ m) h = refl

pods-IsSound :
    (created_after : Option ℕ) (m : ObjectMap)
    → IsSound created_after (
        matching_result
          (eligible created_after m)
          (filter_pods_ready_for_traps (eligible created_after m)))
pods-IsSound created_after m =
    let e = eligible created_after m in
    rw filter_pods_ready_for_traps-eq (
      matching_result-IsSound created_after e (ready_pods e, all_pods_ready e)
        (ready_pods-All (IsEligible created_after) e (eligible-All created_after m))
        (ready_pods-not-nil e))

deployments-IsSound :
    (created_after : Option ℕ) (m : ObjectMap)
    → IsSound created_after (
        matching_result
          (eligible created_after m)
          (filter_deployments_ready_for_traps (eligible created_after m)))
deployments-IsSound created_after m =
    let e = eligible created_after m in
    rw filter_deployments_ready_for_traps-eq (
      matching_result-IsSound created_after e (available_deployments e, all_deployments_available e)
        (available_deployments-All (IsEligible created_after) e (eligible-All created_after m))
        (available_deployments-not-nil e))

-- What is promised of an outcome: soundness of a result, and an error at once for a strategy that
-- is not known.
abbrev pub Promised : Option ℕ → Result MatchError MatchingResult → Type 0
Promised created_after (ok result) = IsSound created_after result
Promised created_after (err e) = Unit

map-Promised :
    (created_after : Option ℕ) (r : Result MatchError ObjectMap) (f : ObjectMap → MatchingResult)
    → ((m : ObjectMap) → IsSound created_after (f m))
    → Promised created_after (r >>= λ m. ok (f m))
map-Promised created_after (ok m) f h = h m
map-Promised created_after (err e) f h = tt

-- If GetDeployableObjectsWithContainers succeeds, each object of its result is not being deleted,
-- was created strictly after the given time (if one is given), and is a running pod with
-- containers, all of which run and are ready, or an available deployment; readiness is reported
-- only if there is an object, and if there is one then a match is reported.
pub get_deployable_objects_with_containers-IsSound :
    (r : Reader) (patterns : Patterns) (trap : Trap) (created_after : Option ℕ)
    → Promised created_after (get_deployable_objects_with_containers r patterns trap created_after)
unfolding get_deployable_objects_with_containers
get_deployable_objects_with_containers-IsSound r patterns trap created_after =
    elim (Bool-cases (trap.decoy_deployment.strategy == "containerExec")) [
      | inl e ↦ rw e (
          map-Promised created_after
            (get_matching_pods_with_containers r patterns trap.match_resources) _
            (pods-IsSound created_after))
      | inr e ↦ rw e (elim (Bool-cases (trap.decoy_deployment.strategy == "volumeMount")) [
        | inl v ↦ rw v (
            map-Promised created_after
              (get_matching_deployments_with_containers r patterns trap.match_resources) _
              (deployments-IsSound created_after))
        | inr v ↦ rw v tt
      ])
    ]
