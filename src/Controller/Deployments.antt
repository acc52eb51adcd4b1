-- ===== src/Controller/Deployments.antt =====
-- reconcileDecoys and reconcileCaptors of internal/controller/deceptionpolicy_trap_deployment.go.
pub mod Returns
use koney.Prelude.{[], ◌∷◌, false, String, List, length}
use koney.Api.Trap.{Trap, TrapType, trap_type}
use koney.Api.Policy.{Policy}
use koney.Libraries.{Libraries}
use koney.Decoy.Deploy.{deploy_decoy}
use koney.Captor.Deploy.{deploy_captor}
use koney.Controller.Results.{DecoyDeploymentResult, CaptorDeploymentResult, text}
use koney.Controller.Status.{TrapReconcileResult}
use koney.Controller.Summary.{fresh, summarize_decoys, summarize_captors}
use koney.Effects.{Cluster, Run, ◌>>=◌, pure}

unfoldable pub failed_decoy : String → DecoyDeploymentResult
failed_decoy message = record {
  at_least_one_objects_was_matched = false;
  all_objects_were_ready = false;
  errors = text message ∷ [];
}

-- The switch of reconcileDecoys over the trap's type.
unfoldable pub decoy_result :
    Libraries → Cluster → Policy → Trap → TrapType → Run DecoyDeploymentResult
decoy_result l c policy trap TrapType.filesystem_honeytoken = deploy_decoy l c policy trap
decoy_result l c policy trap TrapType.http_endpoint =
    pure (failed_decoy "HttpEndpointTrap not implemented yet")
decoy_result l c policy trap TrapType.http_payload =
    pure (failed_decoy "HttpPayloadTrap not implemented yet")
decoy_result l c policy trap TrapType.unknown = pure (failed_decoy "trap type unknown")

unfoldable pub decoy_results :
    Libraries → Cluster → Policy → List Trap → Run (List DecoyDeploymentResult)
decoy_results l c policy [] = pure []
decoy_results l c policy (trap ∷ traps) =
    decoy_result l c policy trap (trap_type trap) >>= λ result.
    (decoy_results l c policy traps >>= λ results. pure (result ∷ results))

-- DeceptionPolicyReconciler.reconcileDecoys
unfoldable pub reconcile_decoys : Libraries → Cluster → Policy → List Trap → Run TrapReconcileResult
reconcile_decoys l c policy traps = decoy_results l c policy traps >>= λ results.
    pure (summarize_decoys results (fresh (length traps)))

unfoldable pub failed_captor : String → CaptorDeploymentResult
failed_captor message = record { errors = text message ∷ []; missing_tetragon = false }

-- The switch of reconcileCaptors.
unfoldable pub captor_result :
    Libraries → Cluster → Policy → Trap → TrapType → Run CaptorDeploymentResult
captor_result l c policy trap TrapType.filesystem_honeytoken = deploy_captor l c policy trap
captor_result l c policy trap TrapType.http_endpoint =
    pure (failed_captor "HttpEndpointTrap not implemented yet")
captor_result l c policy trap TrapType.http_payload =
    pure (failed_captor "HTTPPayloadTrap not implemented yet")
captor_result l c policy trap TrapType.unknown = pure (failed_captor "trap type unknown")

unfoldable pub captor_results :
    Libraries → Cluster → Policy → List Trap → Run (List CaptorDeploymentResult)
captor_results l c policy [] = pure []
captor_results l c policy (trap ∷ traps) =
    captor_result l c policy trap (trap_type trap) >>= λ result.
    (captor_results l c policy traps >>= λ results. pure (result ∷ results))

-- DeceptionPolicyReconciler.reconcileCaptors
unfoldable pub reconcile_captors :
    Libraries → Cluster → Policy → List Trap → Run TrapReconcileResult
reconcile_captors l c policy traps = captor_results l c policy traps >>= λ results.
    pure (summarize_captors results (fresh (length traps)))
