-- ===== src/Controller/Results/Captor.antt =====
-- The methods of CaptorDeploymentResult in internal/controller/traps/api/result_types.go.
use koney.Prelude.{false, ◌||◌, Bool, is_nil, not}
use koney.Controller.Results.{CaptorDeploymentResult}

-- CaptorDeploymentResult.ImpliesSuccess
unfoldable pub implies_success : CaptorDeploymentResult → Bool
implies_success r = is_nil r.errors

-- CaptorDeploymentResult.ImpliesFailure
unfoldable pub implies_failure : CaptorDeploymentResult → Bool
implies_failure r = not (is_nil r.errors) || r.missing_tetragon

-- CaptorDeploymentResult.ImpliesRetry
unfoldable pub implies_retry : CaptorDeploymentResult → Bool
implies_retry r = false
