-- ===== src/Controller/Results/Decoy.antt =====
-- The methods of DecoyDeploymentResult in internal/controller/traps/api/result_types.go.
use koney.Prelude.{◌&&◌, Bool, is_nil, not}
use koney.Controller.Results.{DecoyDeploymentResult}

-- DecoyDeploymentResult.ImpliesSuccess
unfoldable pub implies_success : DecoyDeploymentResult → Bool
implies_success r =
    r.at_least_one_objects_was_matched && r.all_objects_were_ready && is_nil r.errors

-- DecoyDeploymentResult.ImpliesFailure
unfoldable pub implies_failure : DecoyDeploymentResult → Bool
implies_failure r = not (is_nil r.errors)

-- DecoyDeploymentResult.ImpliesRetry
unfoldable pub implies_retry : DecoyDeploymentResult → Bool
implies_retry r =
    r.at_least_one_objects_was_matched && not r.all_objects_were_ready && is_nil r.errors
