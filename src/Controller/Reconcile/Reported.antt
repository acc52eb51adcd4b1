-- ===== src/Controller/Reconcile/Reported.antt =====
-- The conditions that the deferred function of Reconcile writes
-- (internal/controller/deceptionpolicy_controller.go), by updateStatusConditions of status.go.
use koney.Controller.Conditions.Laws.{Holds, StatusAt, update_status_conditions-Achieved}
use koney.Controller.Deployments.{reconcile_captors, reconcile_decoys}
use koney.Controller.Conditions.{update_status_conditions}
use koney.Controller.Summary.{filter_valid_traps}
use koney.Controller.Cleanup.{cleanup_removed_traps}
use koney.Controller.Results.{Errors}
use koney.Api.Trap.{Trap}
use koney.Api.Policy.{Policy, Key}
use koney.Api.Status.Laws.{DistinctTypes}
use koney.Effects.{History, Cluster, Answer, RetriesOnConflict}
use koney.Libraries.{Libraries}
use koney.Controller.Status.{
  translate_reconcile_result_to_status_condition, TrapReconcileResult, StatusEnum,
  decoy_deployed_status_conditions, captor_deployed_status_conditions,
}
use koney.Controller.Reconcile.{
  Conditions, validity, Stage, conclude, after_decoys, deploy_valid, after_cleanup, deploy_policy,
  with_status, Condition, after_captors, next_stage, listed, Outcome,
}
use koney.Prelude.{
  [], none, some, true, false, ◌∷◌, ◌++◌, ◌≡◌, ◌||◌, ◌∙◌, arith, List, Option, Bool, ℕ,
  if◌then◌else◌, not, is_nil, length, refl, All, ◌&&◌, ltb, ◌-◌,
}

-- The types of the four conditions.
abbrev HasItsTypes : Conditions → Type 0
HasItsTypes s =
    (s.resource_found.kind ≡ "ResourceFound")
    × (s.policy_valid.kind ≡ "PolicyValid")
    × (s.decoys_deployed.kind ≡ "DecoysDeployed")
    × (s.captors_deployed.kind ≡ "CaptorsDeployed")

listed-DistinctTypes : (s : Conditions) → HasItsTypes s → DistinctTypes (listed s)
listed-DistinctTypes s t = rw t.0 (rw t.1 (rw t.2 (rw t.3 (refl, (refl, (refl, (refl, tt)))))))

validity-kind :
    (l : Libraries) (n m : ℕ) (condition : Condition)
    → (validity l n m condition).kind ≡ condition.kind
unfolding validity
validity-kind l n m condition = ground arith

translate-kind :
    (l : Libraries) (r : TrapReconcileResult) (condition : Condition) (fields : StatusEnum)
    → (translate_reconcile_result_to_status_condition l.format_deployed r condition fields).kind
      ≡ condition.kind
unfolding translate_reconcile_result_to_status_condition
translate-kind l r condition fields = ground arith

next_stage-types :
    {A : Type 0} (s : Conditions) (f : A → Stage) (r : Option A × History)
    → HasItsTypes s
    → ((a : A) (h : History) → HasItsTypes (f a h).0.1)
    → HasItsTypes (next_stage s f r).0.1
next_stage-types s f (none, h) t k = t
next_stage-types s f (some a, h) t k = k a h

if-types :
    {A : Type 0} (conditions : A → Conditions) (b : Bool) (x y : A)
    → HasItsTypes (conditions x)
    → HasItsTypes (conditions y)
    → HasItsTypes (conditions (if b then x else y))
if-types conditions true x y p q = p
if-types conditions false x y p q = q

conclude-types :
    (decoys captors : TrapReconcileResult) (s : Conditions) (h : History)
    → HasItsTypes s
    → HasItsTypes (conclude decoys captors s h).0.1
unfolding conclude
conclude-types decoys captors s h t =
    if-types (λ (stage : Stage). (stage h).0.1) (not (is_nil (decoys.errors ++ captors.errors))) _ _
      t
      (if-types (λ (stage : Stage). (stage h).0.1) (decoys.should_requeue || captors.should_requeue)
        _ _ t t)

after_decoys-types :
    (l : Libraries) (c : Cluster) (policy : Policy) (valid : List Trap) (s : Conditions)
    (decoys : TrapReconcileResult) (h : History)
    → HasItsTypes s
    → HasItsTypes (after_decoys l c policy valid s decoys h).0.1
unfolding after_decoys after_captors
after_decoys-types l c policy valid s decoys h t =
    let d = translate-kind l decoys s.decoys_deployed decoy_deployed_status_conditions ∙ t.2 in
    next_stage-types _ _ (reconcile_captors l c policy valid h) (t.0, t.1, d, t.3)
      (λ captors h'. conclude-types decoys captors _ h' (
        t.0,
        t.1,
        d,
        translate-kind l captors s.captors_deployed captor_deployed_status_conditions ∙ t.3,
      ))

deploy_valid-types :
    (l : Libraries) (c : Cluster) (policy : Policy) (s : Conditions) (valid : List Trap)
    (h : History)
    → HasItsTypes s
    → HasItsTypes (deploy_valid l c policy s valid h).0.1
unfolding deploy_valid
deploy_valid-types l c policy s valid h t =
    let v = validity-kind l (length policy.spec.traps) (length valid) s.policy_valid ∙ t.1 in
    if-types (λ (r : (Option Outcome × Conditions) × History). r.0.1)
      (ltb 0 (length policy.spec.traps - length valid) && policy.spec.strict_validation) _ _
      (t.0, v, t.2, t.3)
      (next_stage-types _ (after_decoys l c policy valid _) (reconcile_decoys l c policy valid h)
        (t.0, v, t.2, t.3)
        (λ decoys h'. after_decoys-types l c policy valid _ decoys h' (t.0, v, t.2, t.3)))

after_cleanup-types :
    (l : Libraries) (c : Cluster) (policy : Policy) (s : Conditions) (errors : Errors) (h : History)
    → HasItsTypes s
    → HasItsTypes (after_cleanup l c policy s errors h).0.1
unfolding after_cleanup
after_cleanup-types l c policy s (e ∷ errors) h t = t
after_cleanup-types l c policy s [] h t =
    next_stage-types s (deploy_valid l c policy s)
      (filter_valid_traps l.patterns policy.spec.traps, h) t
      (λ valid h'. deploy_valid-types l c policy s valid h' t)

deploy_policy-types :
    (l : Libraries) (c : Cluster) (policy : Policy) (h : History)
    → HasItsTypes (deploy_policy l c policy h).0.1
unfolding deploy_policy
deploy_policy-types l c policy h =
    next_stage-types _ _ (cleanup_removed_traps l c policy h) (refl, refl, refl, refl)
      (λ errors h'. after_cleanup-types l c policy _ errors h' (refl, refl, refl, refl))

-- The conditions that are written for a policy, and what the function that writes them answers.
abbrev pub computed : Libraries → Cluster → Policy → History → List Condition
computed l c policy h = listed (deploy_policy l c policy h).0.1

abbrev pub reported : Libraries → Cluster → Key → Policy → History → (Answer × Policy) × History
reported l c key policy h =
    update_status_conditions c key policy (computed l c policy h) (deploy_policy l c policy h).1

-- If retries behave as documented and the deferred status update answers no error, then the policy
-- that it ends with has, for each of the four conditions that Reconcile computed, a condition that
-- `Equals` it, and that policy was written back without an error by the last call of the run, or
-- is as the last call fetched it.
pub deploy_policy-Reported :
    (l : Libraries) (c : Cluster) (key : Key) (policy : Policy) (h : History)
    → RetriesOnConflict c
    → (reported l c key policy h).0.0 ≡ none
    → All (Holds (reported l c key policy h).0.1.status) (computed l c policy h)
      × StatusAt c key
          (reported l c key policy h).0.1
          (with_status c key policy (deploy_policy l c policy) h).1
unfolding with_status
deploy_policy-Reported l c key policy h retries e =
    update_status_conditions-Achieved c key policy _ _ retries
      (listed-DistinctTypes (deploy_policy l c policy h).0.1 (deploy_policy-types l c policy h)) e
