-- ===== src/Captor/Deploy.antt =====
-- DeployCaptor, deployCaptorWithTetragon and deployCaptorWithKive of
-- internal/controller/traps/filesystoken/deployment.go.
use koney.Prelude.{◌==◌, none, some, false, String, if◌then◌else◌, [], ◌∷◌}
use koney.Api.Policy.{Policy}
use koney.Api.Trap.{Trap}
use koney.Libraries.{Libraries, digests_of}
use koney.Controller.Results.{not_found, text, CaptorDeploymentResult, conflict, no_kind_match}
use koney.Captor.Names.{generate_tetragon_tracing_policy_name, generate_kive_policy_name}
use koney.Captor.Tetragon.{Owner, generate_tetragon_tracing_policy}
use koney.Captor.Kive.{generate_kive_policy}
use koney.Effects.{
  Cluster, Run, Answer, pure, or_panic, lift, ask, create_tracing_policy, get_tracing_policy,
  apply_kive_policy, ◌>>=◌,
}

-- The fields of the policy that an owner reference takes.
abbrev pub owner_of : Policy → Owner
owner_of policy = record {
  api_version = policy.api_version;
  kind = policy.kind;
  name = policy.name;
  uid = policy.uid;
}

-- What follows the look-up of the tracing policy: only a missing one is created.
unfoldable pub create_if_missing :
    Libraries → Cluster → Policy → Trap → String → Answer → Run Answer
create_if_missing l c policy trap name none = pure none
create_if_missing l c policy trap name (some not_found) =
    or_panic
      (generate_tetragon_tracing_policy l.marshal_texts l.environment (owner_of policy) trap name)
    >>= λ tracing_policy. lift (ask c.run (create_tracing_policy tracing_policy))
create_if_missing l c policy trap name (some conflict) = pure (some conflict)
create_if_missing l c policy trap name (some no_kind_match) = pure (some no_kind_match)
create_if_missing l c policy trap name (some (text m)) = pure (some (text m))

-- FilesystemHoneytokenReconciler.deployCaptorWithTetragon
unfoldable pub deploy_captor_with_tetragon : Libraries → Cluster → Policy → Trap → Run Answer
deploy_captor_with_tetragon l c policy trap =
    elim (generate_tetragon_tracing_policy_name (digests_of l) trap) [
      | none ↦ pure (some (text "json"))
      | some name ↦
          lift (ask c.run (get_tracing_policy name)) >>= create_if_missing l c policy trap name
    ]

-- FilesystemHoneytokenReconciler.deployCaptorWithKive; `r.Patch` with server-side apply.
unfoldable pub deploy_captor_with_kive : Libraries → Cluster → Policy → Trap → Run Answer
deploy_captor_with_kive l c policy trap = elim (generate_kive_policy_name (digests_of l) trap) [
  | none ↦ pure (some (text "json"))
  | some name ↦
      or_panic (generate_kive_policy l.environment (owner_of policy) trap name) >>= λ kive_policy.
      lift (ask c.run (apply_kive_policy kive_policy))
]

-- The result for the error of either strategy.
abbrev pub captor_outcome : Libraries → Answer → CaptorDeploymentResult
captor_outcome l none = record { errors = []; missing_tetragon = false }
captor_outcome l (some e) = record { errors = e ∷ []; missing_tetragon = l.is_kind_missing e }

-- FilesystemHoneytokenReconciler.DeployCaptor
unfoldable pub deploy_captor : Libraries → Cluster → Policy → Trap → Run CaptorDeploymentResult
deploy_captor l c policy trap =
    if trap.captor_deployment.strategy == "tetragon"
    then (deploy_captor_with_tetragon l c policy trap >>= λ e. pure (captor_outcome l e))
    else if trap.captor_deployment.strategy == "kive"
    then (deploy_captor_with_kive l c policy trap >>= λ e. pure (captor_outcome l e))
    else if trap.captor_deployment.strategy == "none"
    then pure (captor_outcome l none)
    else pure (record {
      errors = text "captor deployment strategy unknown" ∷ [];
      missing_tetragon = false;
    })
