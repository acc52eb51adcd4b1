-- ===== src/Controller/Summary.antt =====
-- The second halves of reconcileDecoys and reconcileCaptors, which summarise the results
-- (internal/controller/deceptionpolicy_trap_deployment.go), and filterValidTraps of
-- deceptionpolicy_controller.go.
pub mod Counts
use mathlib.Core.Option
use koney.Prelude.{
  ◌+◌, [], none, some, true, false, ◌∷◌, ◌++◌, List, Option, Bool, ℕ, if◌then◌else◌,
}
use koney.Utils.Names.{Patterns}
use koney.Api.Trap.{Trap}
use koney.Api.Trap.Valid.{Verdict, valid, panics, invalid, is_valid}
use koney.Controller.Results.{DecoyDeploymentResult, CaptorDeploymentResult}
use koney.Controller.Results.Decoy
use koney.Controller.Results.Captor
use koney.Controller.Status.{TrapReconcileResult}

-- `TrapReconcileResult{NumTraps: n}`
abbrev pub fresh : ℕ → TrapReconcileResult
fresh n = record {
  num_traps = n;
  num_successes = 0;
  num_failures = 0;
  should_requeue = false;
  override_status_condition_reason = "";
  override_status_condition_message = "";
  errors = [];
}

-- The test on failure and then on success, which both summaries make.
abbrev pub count_outcome : Bool → Bool → TrapReconcileResult → TrapReconcileResult
count_outcome failure success acc =
    if failure
    then record acc { num_failures = acc.num_failures + 1 }
    else if success
    then record acc { num_successes = acc.num_successes + 1 }
    else acc

abbrev pub requeue_if : Bool → TrapReconcileResult → TrapReconcileResult
requeue_if retry acc = if retry then record acc { should_requeue = true } else acc

-- `result.Errors = errors.Join(result.Errors, result.GetErrors())`
abbrev join_own_errors : DecoyDeploymentResult → DecoyDeploymentResult
join_own_errors r = record r { errors = r.errors ++ r.errors }

unfoldable pub summarize_decoys :
    List DecoyDeploymentResult → TrapReconcileResult → TrapReconcileResult
summarize_decoys [] acc = acc
summarize_decoys (r ∷ results) acc =
    let r' = join_own_errors r in
    summarize_decoys results (
      requeue_if (Decoy.implies_retry r')
        (count_outcome (Decoy.implies_failure r') (Decoy.implies_success r') acc))

abbrev join_own_captor_errors : CaptorDeploymentResult → CaptorDeploymentResult
join_own_captor_errors r = record r { errors = r.errors ++ r.errors }

-- CaptorsDeployedReason_MissingTetragon and CaptorsDeployedMessage_MissingTetragon
abbrev pub override_if : Bool → TrapReconcileResult → TrapReconcileResult
override_if missing acc =
    if missing
    then record acc {
      override_status_condition_reason = "TetragonNotInstalled";
      override_status_condition_message = "Cannot deploy captors without Tetragon";
    }
    else acc

unfoldable pub summarize_captors :
    List CaptorDeploymentResult → TrapReconcileResult → TrapReconcileResult
summarize_captors [] acc = acc
summarize_captors (r ∷ results) acc =
    let r' = join_own_captor_errors r in
    summarize_captors results (
      requeue_if (Captor.implies_retry r') (
        override_if r'.missing_tetragon
          (count_outcome (Captor.implies_failure r') (Captor.implies_success r') acc)))

-- The traps that IsValid accepts, in order; `none` is a panic of IsValid.
keep_trap : Verdict → Trap → Option (List Trap) → Option (List Trap)
keep_trap valid trap rest = Option.map (λ traps. trap ∷ traps) rest
keep_trap panics trap rest = none
keep_trap (invalid reason) trap rest = rest

-- DeceptionPolicyReconciler.filterValidTraps
unfoldable pub filter_valid_traps : Patterns → List Trap → Option (List Trap)
unfolding keep_trap
filter_valid_traps patterns [] = some []
filter_valid_traps patterns (trap ∷ traps) =
    keep_trap (is_valid patterns trap) trap (filter_valid_traps patterns traps)
