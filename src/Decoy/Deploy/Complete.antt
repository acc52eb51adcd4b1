-- ===== src/Decoy/Deploy/Complete.antt =====
-- A DeployDecoy without errors, with the strategy containerExec
-- (internal/controller/traps/filesystoken/deployment.go), on the pods that
-- GetDeployableObjectsWithContainers of internal/controller/matching/matching.go returns.
use koney.Cluster.{pod, Pod, deployment, other}
use koney.Decoy.Deploy.{deploy_decoy, deploy_matched, created_after_of, deploy_to_resources}
use koney.Controller.Results.{DecoyDeploymentResult, Errors}
use koney.Api.Trap.{Trap}
use koney.Api.Policy.{Policy}
use koney.Utils.Names.{Patterns}
use koney.Matching.Ready.{filter_pods_ready_for_traps, entry_of}
use koney.Effects.{Cluster, History, RetriesOnConflict, after, pure, Run}
use koney.Matching.Listing.{Reader}
use koney.Matching.Ready.Laws.{ready_pods, filter_pods_ready_for_traps-eq, kept_of_pod}
use koney.Libraries.{Libraries}
use koney.Prelude.{
  [], none, some, true, ok, err, ◌≡◌, ◌==◌, ◌>>=◌, ◌∙◌, Option, ℕ, Result, All, ap, ◌∷◌, List,
  String, subst, All-append, sym, refl,
}
use koney.Decoy.Deploy.InPlace.{IsPod, InPlace, deploy_to_resources-InPlace}
use koney.Matching.Selectors.{MatchError, ObjectMap}
use koney.Matching.Deployable.{
  MatchingResult, matching_result, get_deployable_objects_with_containers, eligible,
  get_matching_pods_with_containers,
}

entry_of-IsPod : (p : Pod) (containers : List String) → All IsPod (entry_of p containers)
entry_of-IsPod p [] = tt
entry_of-IsPod p (name ∷ names) = ((p, refl), tt)

ready_pods-IsPod : (m : ObjectMap) → All IsPod (ready_pods m)
ready_pods-IsPod [] = tt
ready_pods-IsPod ((pod p, containers) ∷ m) =
    All-append IsPod (entry_of p (kept_of_pod p containers)) (ready_pods m)
      (entry_of-IsPod p (kept_of_pod p containers)) (ready_pods-IsPod m)
ready_pods-IsPod ((deployment d, containers) ∷ m) = ready_pods-IsPod m
ready_pods-IsPod ((other o, containers) ∷ m) = ready_pods-IsPod m

-- The objects of a result are pods.
abbrev OnlyPods : Result MatchError MatchingResult → Type 0
OnlyPods (ok r) = All IsPod r.deployable_objects
OnlyPods (err e) = Unit

matched_pods :
    (found : Result MatchError ObjectMap) (created_after : Option ℕ)
    → OnlyPods (
        found >>= λ m. ok (
          matching_result
            (eligible created_after m)
            (filter_pods_ready_for_traps (eligible created_after m))))
unfolding matching_result
matched_pods (err e) created_after = tt
matched_pods (ok m) created_after =
    rw filter_pods_ready_for_traps-eq (ready_pods-IsPod (eligible created_after m))

matching-OnlyPods :
    (r : Reader) (patterns : Patterns) (trap : Trap) (created_after : Option ℕ)
    → (trap.decoy_deployment.strategy == "containerExec") ≡ true
    → OnlyPods (get_deployable_objects_with_containers r patterns trap created_after)
unfolding get_deployable_objects_with_containers
matching-OnlyPods r patterns trap created_after e =
    rw e (
      matched_pods (get_matching_pods_with_containers r patterns trap.match_resources)
        created_after)

module _ (l : Libraries) (c : Cluster) (policy : Policy) (trap : Trap) where
  -- What follows the loop.
  abbrev summary : MatchingResult → Errors → Run DecoyDeploymentResult
  summary r errors = pure (record {
    at_least_one_objects_was_matched = r.at_least_one_object_was_matched;
    all_objects_were_ready = r.all_deployable_objects_were_ready;
    errors = errors;
  })

  errors_of_summary :
      (r : MatchingResult) (errors : Errors) (result : DecoyDeploymentResult) (h : History)
      → (summary r errors h).0 ≡ some result
      → errors ≡ result.errors
  errors_of_summary r errors result h e = cc

  after-InPlace :
      (r : MatchingResult) (result : DecoyDeploymentResult) (out : Option Errors × History)
      → (out.0 ≡ some [] → All (InPlace l c policy trap out.1) r.deployable_objects)
      → (after (summary r) out).0 ≡ some result
      → result.errors ≡ []
      → All (InPlace l c policy trap (after (summary r) out).1) r.deployable_objects
  after-InPlace r result (none, h1) k e n = cc
  after-InPlace r result (some errors, h1) k e n =
      k (ap some (errors_of_summary r errors result h1 e ∙ n))

  -- If retries behave as documented, the strategy is containerExec,
  -- GetDeployableObjectsWithContainers succeeds, and DeployDecoy returns a result without errors,
  -- then each object that was found is a pod, its record for the policy can be read, and each of
  -- its selected containers is on record for the trap or has read the file back, in some call of
  -- the run, with the content of the trap but for one newline at the end.
  pub deploy_decoy-InPlace :
      (r : MatchingResult) (result : DecoyDeploymentResult) (h : History)
      → RetriesOnConflict c
      → (trap.decoy_deployment.strategy == "containerExec") ≡ true
      → get_deployable_objects_with_containers
          (c.reader h)
          l.patterns
          trap
          (some (created_after_of policy))
        ≡ ok r
      → (deploy_decoy l c policy trap h).0 ≡ some result
      → result.errors ≡ []
      → All (InPlace l c policy trap (deploy_decoy l c policy trap h).1) r.deployable_objects
  unfolding deploy_decoy deploy_matched
  deploy_decoy-InPlace r result h retries by_exec matched e n =
      subst
        (λ x.
          (deploy_matched l c policy trap x h).0 ≡ some result
          → All (InPlace l c policy trap (deploy_matched l c policy trap x h).1)
              r.deployable_objects)
        (sym matched)
        (λ k.
          after-InPlace r result (deploy_to_resources l c policy trap r.deployable_objects [] h)
            (deploy_to_resources-InPlace l c policy trap retries by_exec r.deployable_objects h (
              subst OnlyPods matched (
                matching-OnlyPods (c.reader h) l.patterns trap (some (created_after_of policy))
                  by_exec)))
            k n)
        e
