-- ===== src/Controller/Status/Laws.antt =====
-- What translateReconcileResultToStatusCondition of
-- internal/controller/deceptionpolicy_controller.go tells of a reconciliation.
use koney.Prelude.{
  ◌≡◌, arith, ◌&&◌, ◌<◌, Bool, String, ℕ, if◌then◌else◌, eqb, not, is_nil, ltb, eq_iff,
}
use koney.Utils.Conditions.{ConditionStatus}
use koney.Api.Status.{Condition}
use koney.Controller.Status.{
  TrapReconcileResult, StatusEnum, translate_reconcile_result_to_status_condition,
}

-- Some trap was tried, and none has failed.
abbrev pub all_tries_succeeded : TrapReconcileResult → Bool
all_tries_succeeded r = eqb r.num_failures 0 && is_nil r.errors && ltb 0 r.num_successes

module _ (format : ℕ → ℕ → String → ℕ → String) (result : TrapReconcileResult)
    (condition : Condition) (fields : StatusEnum) where
  abbrev pub translated : Condition
  translated = translate_reconcile_result_to_status_condition format result condition fields

  -- If there is a trap, the status of the condition is true exactly if some trap succeeded, none
  -- failed and the run has no errors of its own, and false otherwise; the type and the time of the
  -- condition stay.
  pub translate-decides :
      0 < result.num_traps
      → (translated.status ≡ (
          if all_tries_succeeded result then ConditionStatus.is_true else ConditionStatus.is_false))
        × (translated.kind ≡ condition.kind)
        × (translated.last_transition_time ≡ condition.last_transition_time)
  unfolding translate_reconcile_result_to_status_condition
  translate-decides h = (ground arith, ground arith, ground arith)

  -- If there is a trap and no override of the reason, the reason is that of a failure if a trap or
  -- the run failed, else that of no objects if none succeeded, else that of success if all traps
  -- succeeded, else that of partial success.
  pub translate-reasons :
      0 < result.num_traps
      → result.override_status_condition_reason ≡ ""
      → translated.reason ≡ (
          if not (eqb result.num_failures 0 && is_nil result.errors)
          then fields.reasons.failed
          else if eqb result.num_successes 0
          then fields.reasons.no_objects
          else if eqb result.num_successes result.num_traps
          then fields.reasons.success
          else fields.reasons.partial_success)
  unfolding translate_reconcile_result_to_status_condition
  translate-reasons h e = ground (arith, (eq_iff result.override_status_condition_reason "").1 e)
