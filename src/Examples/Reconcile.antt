-- ===== src/Examples/Reconcile.antt =====
-- Runs of Reconcile and of the deployment of decoys.
use koney.Decoy.Exec.{
  directory_of, write_file, verify_file, check_content, trim_newline, make_read_only,
}
use koney.Utils.Hash.{hash, to_hex}
use koney.Api.Annotation
use koney.Decoy.Deploy.Again.{deploy_to_resource-again}
use koney.Controller.Cleanup.{
  add_deployments, cleanup_found, cleanup_removed_decoys, cleanup_resources,
  find_annotated_resources, select_annotated, then_decoys,
}
use koney.Captor.Cleanup.{
  cleanup_kind, cleanup_kive, cleanup_listed, cleanup_removed_captors, delete_all, delete_stale,
  not_found_names, policy_names,
}
use koney.Captor.Names.{generate_kive_policy_name, generate_tetragon_tracing_policy_name}
use koney.Annotations.Resource.{annotated}
use koney.Api.Trap.Valid.{
  filter_is_valid, filters_are_valid, honeytoken_is_valid, is_valid, num_traps, type_is_valid,
}
use koney.Utils.Names.{match_container_name}
use koney.Api.Trap.{trap_type}
use koney.Controller.Conditions.{put_conditions, put_fetched}
use koney.Api.Status.{get_condition, put_condition, put_condition_struct}
use koney.Effects.{Cluster, get_policy, lift}
use koney.Utils.Bytes.{bytes}
use koney.Utils.Conditions.{ConditionStatus}
use koney.Controller.Deployments.Returns.{reconcile_decoys-Returns}
use koney.Cluster.{pod}
use koney.Controller.Results.{text}
use koney.Controller.Deployments.{reconcile_decoys}
use koney.Decoy.Deploy.{deploy_to_resource, annotate}
use koney.Controller.Reconcile.Reported.{reported, computed, deploy_policy-Reported}
use koney.Utils.Collections.{contains}
use koney.Decoy.Exec.Laws.{MadeAndWritten, deploy_decoy_with_container_exec-Written}
use koney.Controller.Conditions.Laws.{Holds, StatusAt}
use koney.Examples.{web_trap, patterns, web_pod, md5}
use koney.Controller.Reconcile.{
  reconcile, deploy_policy, no_requeue, initial_conditions, with_status,
}
use koney.Controller.Reconcile.Safety.{
  is_policy_call, reconcile-without_finalizer, deploy_policy-strict, reconcile-failed_cleanup,
}
use koney.Controller.Summary.{filter_valid_traps}
use koney.Annotations.Same.{are_the_same_trap}
use koney.Api.Annotation.{TrapAnnotation}
use koney.Decoy.Exec.{deploy_decoy_with_container_exec}
use koney.Controller.Conditions.{update_status_conditions}
use koney.Controller.Reconcile.Retries.{retries_failure, reconcile_never-after_failure}
use koney.Api.Trap.{Trap}
use koney.Controller.Cleanup.{cleanup_deception_policy, cleanup_removed_traps}
use koney.Api.Policy.{Key, Policy}
use koney.Libraries.{Libraries}
use koney.Prelude.{
  [], none, some, true, false, ok, err, ◌∷◌, ◌≡◌, arith, String, ℕ, All, is_some, not, refl, is_nil,
}
use koney.Examples.Runs.{
  policy, cluster, attempt_again-Attempts, cluster-RetriesOnConflict, attempt_again,
}

abbrev no_numbers : ℕ → ℕ → String
no_numbers n m = "1/1"

abbrev pub libraries : Libraries
libraries = record {
  patterns = patterns;
  marshal_changes = λ changes. some "[]";
  unmarshal_changes = λ s. some [];
  marshal_trap = λ trap. some trap.filesystem_honeytoken.file_path;
  marshal_texts = λ texts. some "[]";
  md5 = md5;
  environment = λ key. none;
  is_kind_missing = λ e. false;
  is_ignored = λ errors. false;
  contains_finalizer = λ policy. not (is_nil policy.finalizers);
  add_finalizer = λ policy. (record policy { finalizers = "koney/finalizer" ∷ [] }, true);
  remove_finalizer = λ policy. (record policy { finalizers = [] }, true);
  format_deployed = λ n m kind k. "1/1";
  format_valid = no_numbers;
}

abbrev key : Key
key = record { namespace = ""; name = "policy" }

-- A new policy, and a cluster that has it.
abbrev new_policy : Policy
new_policy = record policy { finalizers = [] }

abbrev with_new : Cluster
with_new = record cluster { policy = λ h call. ok new_policy }

reconcile-without_finalizer_example :
    All (λ call. is_policy_call call ≡ true) (reconcile libraries with_new key []).1
reconcile-without_finalizer_example =
    reconcile-without_finalizer with_new (λ S body s h. attempt_again-Attempts 3 body s h) libraries
      key new_policy [] refl refl tt

-- A policy that is marked for deletion, and a cluster that does not list its pods.
abbrev marked_policy : Policy
marked_policy = record policy { deletion_timestamp = some 7 }

abbrev with_marked : Cluster
with_marked = record cluster {
  policy = λ h call. ok marked_policy;
  objects = λ h call. err (text "timeout");
}

reconcile-failed_cleanup_example : reconcile libraries with_marked key [] ≡ (
  some (record { requeue = no_requeue; errors = text "timeout" ∷ [] }),
  (cleanup_deception_policy libraries with_marked marked_policy (get_policy key ∷ [])).1,
)
unfolding cleanup_deception_policy cleanup_found find_annotated_resources add_deployments
    select_annotated
reconcile-failed_cleanup_example =
    reconcile-failed_cleanup libraries with_marked key marked_policy 7 [] (text "timeout") [] refl
      refl refl refl

-- A policy with a trap that is valid and one that is not.
abbrev bad_trap : Trap
bad_trap = record web_trap {
  filesystem_honeytoken = record { file_path = "token"; file_content = ""; read_only = false };
}

abbrev strict_policy : Policy
strict_policy = record policy {
  spec = record {
    traps = web_trap ∷ bad_trap ∷ [];
    strict_validation = true;
    mutate_existing = true;
  };
}

deploy_policy-strict_example : deploy_policy libraries cluster strict_policy [] ≡ (
  (
    some (record { requeue = no_requeue; errors = [] }),
    record (initial_conditions 9) {
      policy_valid = record {
        kind = "PolicyValid";
        status = ConditionStatus.is_false;
        last_transition_time = 9;
        reason = "TrapsSpecInvalid";
        message = "1/1";
      };
    },
  ),
  (cleanup_removed_traps libraries cluster strict_policy []).1,
)
unfolding filter_valid_traps cleanup_removed_traps then_decoys cleanup_removed_captors cleanup_kive
    cleanup_kind cleanup_listed delete_stale policy_names generate_tetragon_tracing_policy_name
    delete_all not_found_names generate_kive_policy_name cleanup_removed_decoys cleanup_found
    find_annotated_resources add_deployments select_annotated annotated cleanup_resources
    filters_are_valid num_traps type_is_valid is_valid filter_is_valid match_container_name
    trap_type honeytoken_is_valid
deploy_policy-strict_example =
    deploy_policy-strict libraries cluster strict_policy (web_trap ∷ []) [] refl refl (omega arith)
      refl

reconcile_never-after_failure_example :
    retries_failure (reconcile libraries with_marked key []).0 ≡ false
reconcile_never-after_failure_example = reconcile_never-after_failure libraries with_marked key []

deploy_policy-Reported_example :
    All
      (Holds (reported libraries cluster key policy []).0.1.status)
      (computed libraries cluster policy [])
    × StatusAt cluster key
        (reported libraries cluster key policy []).0.1
        (with_status cluster key policy (deploy_policy libraries cluster policy) []).1
unfolding update_status_conditions attempt_again put_fetched put_conditions put_condition
    put_condition_struct get_condition
deploy_policy-Reported_example =
    deploy_policy-Reported libraries cluster key policy [] cluster-RetriesOnConflict refl

-- A cluster in which every command prints the content of the honeytoken, with a newline.
abbrev printing : Cluster
printing = record cluster { output = λ h call. (bytes "secret\n", none) }

deploy_decoy_with_container_exec-Written_example :
    MadeAndWritten printing web_trap web_pod "nginx"
      (bytes "/run/secrets")
      []
      (deploy_decoy_with_container_exec printing web_trap web_pod "nginx" []).1
unfolding deploy_decoy_with_container_exec directory_of bytes write_file verify_file check_content
    trim_newline make_read_only
deploy_decoy_with_container_exec-Written_example =
    deploy_decoy_with_container_exec-Written printing web_trap web_pod "nginx"
      (bytes "/run/secrets") [] refl refl

-- The record of the trap in both containers.
abbrev pub both_containers : TrapAnnotation
both_containers = record {
  deployment_strategy = "containerExec";
  containers = "nginx" ∷ "sidecar" ∷ [];
  created_at = "now";
  updated_at = "";
  filesystem_honeytoken = record {
    file_path = "/run/secrets/token";
    file_content_hash = "0102030405060708090a0b0c0d0e0f10";
    read_only = true;
  };
  http_endpoint = record {};
  http_payload = record {};
}

deploy_to_resource-again_example :
    deploy_to_resource libraries cluster policy web_trap
      (pod web_pod)
      ("sidecar" ∷ "nginx" ∷ [])
      (some (record { deception_policy_name = "policy"; traps = both_containers ∷ [] }))
      []
      []
    ≡ lift
        (annotate libraries cluster "policy" web_trap
          (record { errors = []; deployed = "sidecar" ∷ "nginx" ∷ []; resource = pod web_pod }))
        []
unfolding are_the_same_trap contains Annotation.trap_type trap_type hash to_hex
deploy_to_resource-again_example =
    deploy_to_resource-again libraries cluster policy web_trap (pod web_pod)
      ("sidecar" ∷ "nginx" ∷ [])
      (record { deception_policy_name = "policy"; traps = both_containers ∷ [] }) [] [] refl

reconcile_decoys-Returns_example :
    is_some (reconcile_decoys libraries cluster strict_policy (web_trap ∷ []) []).0 ≡ true
unfolding filter_valid_traps is_valid filter_is_valid match_container_name trap_type
    honeytoken_is_valid
reconcile_decoys-Returns_example =
    reconcile_decoys-Returns libraries cluster strict_policy (web_trap ∷ bad_trap ∷ [])
      (web_trap ∷ []) [] refl
