-- ===== src/Controller/Reconcile.antt =====
-- DeceptionPolicyReconciler.Reconcile of internal/controller/deceptionpolicy_controller.go.
pub mod Safety
pub mod Retries
pub mod Reported
use koney.Prelude.{
  [], ◌∷◌, ◌++◌, ◌||◌, ◌&&◌, ◌-◌, none, some, ok, err, String, ℕ, Option, List, if◌then◌else◌,
  Result, is_nil, not, length, ltb,
}
use koney.Utils.Conditions.{ConditionStatus}
use koney.Api.Trap.{Trap}
use koney.Api.Status.{Condition}
use koney.Api.Policy.{Policy, Key}
use koney.Libraries.{Libraries}
use koney.Controller.Results.{Cause, Errors}
use koney.Controller.Status.{
  TrapReconcileResult, translate_reconcile_result_to_status_condition,
  decoy_deployed_status_conditions, captor_deployed_status_conditions,
}
use koney.Controller.Summary.{filter_valid_traps}
use koney.Controller.Cleanup.{cleanup_removed_traps}
use koney.Controller.Conditions.{update_status_conditions}
use koney.Controller.Finalizer.{Finalized, run_finalizer_if_marked_for_deletion, put_finalizer}
use koney.Controller.Deployments.{reconcile_decoys, reconcile_captors}
use koney.Effects.{Cluster, M, Run, Answer, History, errors_of, ◌>>=◌, pure, lift, ask, get_policy}

-- `RequeueAfter`: not set, NormalFailureRetryInterval or ShortStatusCheckInterval.
pub data Requeue : Type 0 where
  no_requeue after_failure after_check : Requeue

-- What Reconcile returns.
pub record Outcome : Type 0 where
  pub requeue : Requeue
  pub errors : Errors

-- The four conditions that the deferred function writes.
pub record Conditions : Type 0 where
  pub resource_found : Condition
  pub policy_valid : Condition
  pub decoys_deployed : Condition
  pub captors_deployed : Condition

abbrev pub listed : Conditions → List Condition
listed s = s.resource_found ∷ s.policy_valid ∷ s.decoys_deployed ∷ s.captors_deployed ∷ []

-- A condition that is still pending.
abbrev pending : ℕ → String → String → Condition
pending now kind reason = record {
  kind = kind;
  status = ConditionStatus.unknown;
  last_transition_time = now;
  reason = reason;
  message = "";
}

abbrev pub initial_conditions : ℕ → Conditions
initial_conditions now = record {
  resource_found = record {
    kind = "ResourceFound";
    status = ConditionStatus.is_true;
    last_transition_time = now;
    reason = "ResourceFound";
    message = "DeceptionPolicy found and ready";
  };
  policy_valid = pending now "PolicyValid" "ValidationPending";
  decoys_deployed = pending now "DecoysDeployed" "DecoyDeploymentPending";
  captors_deployed = pending now "CaptorsDeployed" "CaptorDeploymentPending";
}

-- `policyValidCondition`, from the numbers of all and of valid traps.
unfoldable pub validity : Libraries → ℕ → ℕ → Condition → Condition
validity l all valid condition =
    if ltb 0 all
    then (if ltb 0 (all - valid)
        then record condition {
          message = l.format_valid valid all;
          status = ConditionStatus.is_false;
          reason = "TrapsSpecInvalid";
        }
        else record condition {
          message = l.format_valid valid all;
          status = ConditionStatus.is_true;
          reason = "TrapsSpecValid";
        })
    else condition

-- A part of the function with the conditions that hold when it ends, also by a panic.
abbrev pub Stage : Type 0
Stage = M (Option Outcome × Conditions)

abbrev pub finish : Conditions → Requeue → Errors → Stage
finish s requeue errors h = ((some (record { requeue = requeue; errors = errors }), s), h)

abbrev pub next_stage :
    {A : Type 0}
    → Conditions
    → (A → Stage)
    → Option A × History
    → (Option Outcome × Conditions) × History
next_stage s f (none, h) = ((none, s), h)
next_stage s f (some a, h) = f a h

-- The last part. The failure branch returns `err`, which is nil at this point, in place of the
-- joined errors.
unfoldable pub conclude : TrapReconcileResult → TrapReconcileResult → Conditions → Stage
conclude decoys captors s =
    if not (is_nil (decoys.errors ++ captors.errors))
    then finish s after_failure []
    else if decoys.should_requeue || captors.should_requeue
    then finish s after_check []
    else finish s no_requeue []

unfoldable pub after_captors :
    Libraries → TrapReconcileResult → Conditions → TrapReconcileResult → Stage
after_captors l decoys s captors = conclude decoys captors (record s {
  captors_deployed =
      translate_reconcile_result_to_status_condition l.format_deployed captors s.captors_deployed
        captor_deployed_status_conditions;
})

unfoldable pub after_decoys :
    Libraries → Cluster → Policy → List Trap → Conditions → TrapReconcileResult → Stage
after_decoys l c policy valid s decoys h =
    let s' = record s {
      decoys_deployed =
          translate_reconcile_result_to_status_condition l.format_deployed decoys s.decoys_deployed
            decoy_deployed_status_conditions;
    } in
    next_stage s' (after_captors l decoys s') (reconcile_captors l c policy valid h)

-- From the valid traps on: strict validation ends the function if a trap is invalid.
unfoldable pub deploy_valid : Libraries → Cluster → Policy → Conditions → List Trap → Stage
deploy_valid l c policy s valid h =
    let all = length policy.spec.traps in
    let s' = record s { policy_valid = validity l all (length valid) s.policy_valid } in
    if ltb 0 (all - length valid) && policy.spec.strict_validation
    then finish s' no_requeue [] h
    else next_stage s' (after_decoys l c policy valid s') (reconcile_decoys l c policy valid h)

-- What follows the clean-up.
unfoldable pub after_cleanup : Libraries → Cluster → Policy → Conditions → Errors → Stage
after_cleanup l c policy s (e ∷ errors) h = finish s no_requeue (e ∷ errors) h
after_cleanup l c policy s [] h =
    next_stage s (deploy_valid l c policy s) (filter_valid_traps l.patterns policy.spec.traps, h)

-- All that happens before the deferred function runs.
unfoldable pub deploy_policy : Libraries → Cluster → Policy → Stage
deploy_policy l c policy h =
    let s = initial_conditions (c.clock h) in
    next_stage s (after_cleanup l c policy s) (cleanup_removed_traps l c policy h)

-- The deferred function: its error is joined to that of the function; a panic goes on after it.
unfoldable pub join_status : Option Outcome → Answer → Option Outcome
join_status none answer = none
join_status (some r) answer = some (record r { errors = r.errors ++ errors_of answer })

unfoldable pub with_status : Cluster → Key → Policy → Stage → Run Outcome
with_status c key policy stage h =
    let (r, h1) = stage h in
    let (u, h2) = update_status_conditions c key policy (listed r.1) h1 in (join_status r.0 u.0, h2)

-- What follows putFinalizer.
unfoldable pub after_put : Libraries → Cluster → Key → Finalized → Run Outcome
after_put l c key f =
    if f.flag || not (is_nil f.errors)
    then pure (record { requeue = no_requeue; errors = f.errors })
    else with_status c key f.policy (deploy_policy l c f.policy)

-- What follows runFinalizerIfMarkedForDeletion.
unfoldable pub after_marked : Libraries → Cluster → Key → Finalized → Run Outcome
after_marked l c key f =
    if f.flag || not (is_nil f.errors)
    then pure (record {
      requeue = no_requeue;
      errors = if f.flag && l.is_ignored f.errors then [] else f.errors;
    })
    else (lift (put_finalizer l c key f.policy) >>= after_put l c key)

-- What follows `r.Get` of the policy.
unfoldable pub reconcile_fetched : Libraries → Cluster → Key → Result Cause Policy → Run Outcome
reconcile_fetched l c key (err e) =
    pure (record { requeue = no_requeue; errors = if l.is_ignored (e ∷ []) then [] else e ∷ [] })
reconcile_fetched l c key (ok policy) =
    run_finalizer_if_marked_for_deletion l c key policy >>= after_marked l c key

-- DeceptionPolicyReconciler.Reconcile
unfoldable pub reconcile : Libraries → Cluster → Key → Run Outcome
reconcile l c key = lift (ask c.policy (get_policy key)) >>= reconcile_fetched l c key
