-- ===== src/Examples/Policies.antt =====
-- Policies for captors, and the summaries of a reconciliation.
use koney.Examples.Runs.{cluster}
use koney.Utils.Hash.{hash, to_hex}
use koney.Matching.Listing.{labels_of}
use koney.Api.Trap.Valid.{is_valid, panics}
use koney.Captor.Tetragon.Labels.{
  lacks_selector, generate_tetragon_tracing_policy-panics, has_key,
  generate_tetragon_tracing_policy-keys,
}
use koney.Utils.Conditions.{ConditionStatus}
use koney.Captor.Kive.{generate_kive_policy}
use koney.Captor.Cleanup.{
  cleanup_removed_captors, cleanup_kive, cleanup_kind, cleanup_listed, delete_stale, policy_names,
  delete_all, not_found_names,
}
use koney.Captor.Kive.Matches.{path_and_views, expected_views, generate_kive_policy-matches}
use koney.Captor.Tetragon.Values.{last_value, all_labels}
use koney.Captor.Cleanup.Deletes.{is_allowed, cleanup_removed_captors-stale}
use koney.Examples.{
  web_trap, deployed, md5, patterns, trap_on, namespace_filter, bad_filter, web_filter,
}
use koney.Effects.{Cluster, delete_tracing_policy, delete_kive_policy}
use koney.Controller.Summary.{filter_valid_traps, fresh, summarize_decoys}
use koney.Controller.Summary.Counts.{
  Counted, summarize_decoys-Counted, accepts, filter_valid_traps-keep,
}
use koney.Controller.Results.{DecoyDeploymentResult, text}
use koney.Controller.Status.Laws.{translated, translate-reasons, translate-decides}
use koney.Controller.Status.{TrapReconcileResult, decoy_deployed_status_conditions}
use koney.Captor.Tetragon.Coverage.{
  generate_tetragon_tracing_policy-covers, covers, is_selected,
  generate_tetragon_tracing_policy-exact,
}
use koney.Captor.Names.{Digests, generate_kive_policy_name, generate_tetragon_tracing_policy_name}
use koney.Utils.Env.{Environment}
use koney.Captor.Tetragon.{Owner, put_filters, generate_tetragon_tracing_policy}
use mathlib.Core.Option
use koney.Captor.Cleanup.Completes.{Deleted, cleanup_removed_captors-Deleted}
use koney.Prelude.{insert, exists, StringMap}
use koney.Captor.Tetragon.{
  put_all, put_filters, op_in, LabelSelectorRequirement, generate_tetragon_tracing_policy,
  has_select_all, needs_client_filtering, add_all_exact,
}
use koney.Matching.Selectors.{
  container_selector_selects_all, container_selector_needs_client_filtering,
}
use koney.Utils.Collections.{contains}
use koney.Utils.Names.{match_container_name}
use koney.Api.Trap.{trap_type, ResourceFilter}
use koney.Api.Trap.Valid.{filter_is_valid, honeytoken_is_valid}
use koney.Prelude.{
  ◌≡◌, refl, [], none, some, true, false, ok, ◌∷◌, ◌≢◌, arith, List, Option, String, ℕ, is_some,
  All, map, keep, not,
}

abbrev owner : Owner
owner = record { api_version = "v1"; kind = "DeceptionPolicy"; name = "policy"; uid = "1" }

abbrev marshal : List String → Option String
marshal l = some "[\"nginx\"]"

abbrev env : Environment
env key = none

-- Digests of which the JSON text is the path.
abbrev digests : Digests
digests = record { marshal_trap = λ t. some t.filesystem_honeytoken.file_path; md5 = md5 }

abbrev db_filter : ResourceFilter
db_filter = record {
  namespaces = none;
  selector = some (record { match_labels = ("tier", "db") ∷ [] });
  container_selector = "postgres";
}

abbrev both_labels : StringMap String
both_labels = ("app", "web") ∷ ("tier", "db") ∷ []

-- The requirement that the policy of `web_trap` makes.
abbrev only_nginx : List LabelSelectorRequirement
only_nginx = record { key = "name"; operator = op_in; values = "nginx" ∷ [] } ∷ []

generate_tetragon_tracing_policy-covers_example : covers only_nginx "nginx" ≡ true
unfolding generate_tetragon_tracing_policy has_select_all needs_client_filtering
    container_selector_selects_all container_selector_needs_client_filtering put_filters put_all
    insert add_all_exact contains match_container_name
generate_tetragon_tracing_policy-covers_example =
    generate_tetragon_tracing_policy-covers marshal env owner web_trap "tetragon" patterns "nginx"
      refl refl

generate_tetragon_tracing_policy-exact_example :
    covers only_nginx "sidecar" ≡ is_selected patterns (web_filter ∷ []) "sidecar"
unfolding generate_tetragon_tracing_policy has_select_all needs_client_filtering
    container_selector_selects_all container_selector_needs_client_filtering put_filters put_all
    insert add_all_exact contains match_container_name
generate_tetragon_tracing_policy-exact_example =
    generate_tetragon_tracing_policy-exact marshal env owner web_trap "tetragon" patterns "sidecar"
      refl refl refl refl

generate_tetragon_tracing_policy-keys_example :
    has_key "tier" both_labels
    ≡ exists (λ f. has_key "tier" (labels_of f.selector)) (web_filter ∷ db_filter ∷ [])
unfolding generate_tetragon_tracing_policy has_select_all needs_client_filtering
    container_selector_selects_all container_selector_needs_client_filtering put_filters put_all
    insert add_all_exact contains match_container_name
generate_tetragon_tracing_policy-keys_example =
    generate_tetragon_tracing_policy-keys marshal env owner (trap_on (web_filter ∷ db_filter ∷ []))
      "tetragon" "tier" refl

generate_tetragon_tracing_policy-panics_example :
    is_some (
      generate_tetragon_tracing_policy marshal env owner
        (trap_on (namespace_filter ∷ []))
        "tetragon")
    ≡ not (lacks_selector (namespace_filter ∷ []))
generate_tetragon_tracing_policy-panics_example =
    generate_tetragon_tracing_policy-panics marshal env owner (trap_on (namespace_filter ∷ []))
      "tetragon"

generate_kive_policy-matches_example :
    Option.map
      (λ p. map (path_and_views "tier") p.traps)
      (generate_kive_policy env owner (trap_on (web_filter ∷ db_filter ∷ [])) "kive")
    ≡ some (
        (
          "/run/secrets/token",
          expected_views
              (last_value "tier" (all_labels (web_filter ∷ db_filter ∷ [])))
              (web_filter ∷ db_filter ∷ []),
        )
        ∷ [])
generate_kive_policy-matches_example =
    generate_kive_policy-matches env owner (trap_on (web_filter ∷ db_filter ∷ [])) "kive" "tier"
      refl

abbrev format : ℕ → ℕ → String → ℕ → String
format tries traps name skipped = name

-- One trap of two deployed, and the other skipped.
abbrev half : TrapReconcileResult
half = record (fresh 2) { num_successes = 1 }

translate-decides_example :
    ((translated format half deployed decoy_deployed_status_conditions).status
      ≡ ConditionStatus.is_true)
    × ((translated format half deployed decoy_deployed_status_conditions).kind ≡ "DecoysDeployed")
    × ((translated format half deployed decoy_deployed_status_conditions).last_transition_time ≡ 7)
translate-decides_example =
    translate-decides format half deployed decoy_deployed_status_conditions (omega arith)

translate-reasons_example :
    (translated format half deployed decoy_deployed_status_conditions).reason
    ≡ "DecoyDeploymentSucceededPartially"
translate-reasons_example =
    translate-reasons format half deployed decoy_deployed_status_conditions (omega arith) refl

-- A success, a failure and a trap that was not ready.
abbrev outcomes : List DecoyDeploymentResult
outcomes =
    record { at_least_one_objects_was_matched = true; all_objects_were_ready = true; errors = [] }
    ∷ record {
      at_least_one_objects_was_matched = true;
      all_objects_were_ready = true;
      errors = text "exec" ∷ [];
    }
    ∷ record {
      at_least_one_objects_was_matched = true;
      all_objects_were_ready = false;
      errors = [];
    }
    ∷ []

summarize_decoys-Counted_example : Counted outcomes (summarize_decoys outcomes (fresh 3))
summarize_decoys-Counted_example = summarize_decoys-Counted outcomes

filter_valid_traps-keep_example :
    (web_trap ∷ [] ≡ keep (accepts patterns) (web_trap ∷ trap_on (bad_filter ∷ []) ∷ []))
    × All (λ t. is_valid patterns t ≢ panics) (web_trap ∷ trap_on (bad_filter ∷ []) ∷ [])
unfolding filter_valid_traps is_valid filter_is_valid match_container_name trap_type
    honeytoken_is_valid
filter_valid_traps-keep_example =
    filter_valid_traps-keep patterns (web_trap ∷ trap_on (bad_filter ∷ []) ∷ []) refl

-- A cluster with two policies of each kind, in which every deletion succeeds.
abbrev installed : Cluster
installed = record cluster { names = λ h c. ok ("old" ∷ "older" ∷ []) }

cleanup_removed_captors-stale_example :
    All
      (λ call. is_allowed digests (web_trap ∷ []) call ≡ true)
      (cleanup_removed_captors installed digests "policy" (web_trap ∷ []) []).1
cleanup_removed_captors-stale_example =
    cleanup_removed_captors-stale installed digests "policy" (web_trap ∷ [])

cleanup_removed_captors-Deleted_example :
    let final = (cleanup_removed_captors installed digests "policy" (web_trap ∷ []) []).1 in
    Deleted installed
      (generate_tetragon_tracing_policy_name digests)
      (web_trap ∷ [])
      delete_tracing_policy
      (ok ("old" ∷ "older" ∷ []))
      final
    × Deleted installed
        (generate_kive_policy_name digests)
        (web_trap ∷ [])
        delete_kive_policy
        (ok ("old" ∷ "older" ∷ []))
        final
unfolding cleanup_removed_captors cleanup_kive cleanup_kind cleanup_listed delete_stale policy_names
    generate_tetragon_tracing_policy_name delete_all not_found_names contains hash to_hex
    generate_kive_policy_name
cleanup_removed_captors-Deleted_example =
    cleanup_removed_captors-Deleted installed digests "policy" (web_trap ∷ []) refl
