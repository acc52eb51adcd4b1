-- ===== src/Controller/Status.antt =====
-- translateReconcileResultToStatusCondition of internal/controller/deceptionpolicy_controller.go,
-- with the reasons and messages of internal/controller/status.go, and TrapReconcileResult of
-- deceptionpolicy_trap_deployment.go.
pub mod Laws
use koney.Prelude.{◌-◌, ◌||◌, ◌==◌, ◌+◌, Bool, String, ℕ, if◌then◌else◌, ltb, not, is_nil, eqb}
use koney.Utils.Conditions.{ConditionStatus}
use koney.Api.Status.{Condition}
use koney.Controller.Results.{Errors}

-- TrapReconcileResult
pub record TrapReconcileResult : Type 0 where
  pub num_traps : ℕ
  pub num_successes : ℕ
  pub num_failures : ℕ
  pub should_requeue : Bool
  pub override_status_condition_reason : String
  pub override_status_condition_message : String
  pub errors : Errors

-- TrapReconcileResult.NumTries
abbrev pub num_tries : TrapReconcileResult → ℕ
num_tries r = r.num_successes + r.num_failures

-- TrapReconcileResult.NumSkipped; Go's result would be negative with more tries than traps.
abbrev pub num_skipped : TrapReconcileResult → ℕ
num_skipped r = r.num_traps - r.num_successes - r.num_failures

-- TrapDeploymentStatusReasonsEnum, TrapDeploymentStatusMessagesEnum and TrapDeploymentStatusEnum
pub record Reasons : Type 0 where
  pub unknown : String
  pub success : String
  pub failed : String
  pub partial_success : String
  pub no_objects : String

pub record StatusEnum : Type 0 where
  pub object_name : String
  pub reasons : Reasons
  pub no_objects_message : String

-- DecoyDeployedStatusConditions
abbrev pub decoy_deployed_status_conditions : StatusEnum
decoy_deployed_status_conditions = record {
  object_name = "decoys";
  reasons = record {
    unknown = "DecoyDeploymentPending";
    success = "DecoyDeploymentSucceeded";
    failed = "DecoyDeploymentError";
    partial_success = "DecoyDeploymentSucceededPartially";
    no_objects = "NoObjectsMatched";
  };
  no_objects_message = "No objects matching selection criteria";
}

-- CaptorDeployedStatusConditions
abbrev pub captor_deployed_status_conditions : StatusEnum
captor_deployed_status_conditions = record {
  object_name = "captors";
  reasons = record {
    unknown = "CaptorDeploymentPending";
    success = "CaptorDeploymentSucceeded";
    failed = "CaptorDeploymentError";
    partial_success = "CaptorDeploymentSucceededPartially";
    no_objects = "NoObjectsMatched";
  };
  no_objects_message = "No objects matching selection criteria";
}

-- The chain of tests; `message` is the formatted count.
abbrev classify : TrapReconcileResult → Condition → StatusEnum → String → Condition
classify result condition fields message =
    if ltb 0 result.num_failures || not (is_nil result.errors)
    then record condition {
      message = message;
      status = ConditionStatus.is_false;
      reason = fields.reasons.failed;
    }
    else if eqb (num_tries result) 0
    then record condition {
      message = fields.no_objects_message;
      status = ConditionStatus.is_false;
      reason = fields.reasons.no_objects;
    }
    else if eqb result.num_successes result.num_traps
    then record condition {
      message = message;
      status = ConditionStatus.is_true;
      reason = fields.reasons.success;
    }
    else if eqb result.num_successes (num_tries result)
    then record condition {
      message = message;
      status = ConditionStatus.is_true;
      reason = fields.reasons.partial_success;
    }
    else record condition { message = message }

-- `if override != "" { field = override }`
abbrev or_override : String → String → String
or_override override field = if override == "" then field else override

abbrev respect_overrides : TrapReconcileResult → Condition → Condition
respect_overrides result condition = record condition {
  reason = or_override result.override_status_condition_reason condition.reason;
  message = or_override result.override_status_condition_message condition.message;
}

-- translateReconcileResultToStatusCondition; `format` is the text of `fmt.Sprintf("%d/%d %s
-- deployed (%d skipped)", ...)`.
unfoldable pub translate_reconcile_result_to_status_condition :
    (ℕ → ℕ → String → ℕ → String) → TrapReconcileResult → Condition → StatusEnum → Condition
translate_reconcile_result_to_status_condition format result condition fields =
    if ltb 0 result.num_traps
    then respect_overrides result (
        classify result condition fields
          (format result.num_successes (num_tries result) fields.object_name (num_skipped result)))
    else condition
