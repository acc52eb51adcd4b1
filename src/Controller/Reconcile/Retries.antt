-- ===== src/Controller/Reconcile/Retries.antt =====
-- The requeue delays of Reconcile, with the errors of reconcileDecoys and reconcileCaptors
-- (internal/controller/deceptionpolicy_controller.go and deceptionpolicy_trap_deployment.go).
use koney.Controller.Finalizer.{Finalized, run_finalizer_if_marked_for_deletion}
use koney.Controller.Cleanup.{cleanup_removed_traps}
use koney.Controller.Reconcile.{
  no_requeue, after_check, after_failure, Stage, after_decoys, deploy_valid, deploy_policy,
  with_status, reconcile_fetched, after_captors, after_cleanup, join_status, after_marked,
  after_put,
}
use koney.Controller.Summary.{count_outcome, requeue_if, override_if, fresh, filter_valid_traps}
use koney.Api.Trap.{Trap}
use koney.Api.Policy.{Policy, Key}
use koney.Effects.{Cluster, History, Run, after, Answer, get_policy}
use koney.Controller.Results.{DecoyDeploymentResult, CaptorDeploymentResult, Errors, Cause}
use koney.Libraries.{Libraries}
use koney.Controller.Deployments.{
  reconcile_decoys, reconcile_captors, decoy_results, captor_results,
}
use koney.Controller.Summary.{summarize_decoys, summarize_captors}
use koney.Controller.Status.{TrapReconcileResult}
use koney.Controller.Reconcile.{
  Requeue, Outcome, conclude, after_failure, Conditions, after_check, next_stage, reconcile,
}
use koney.Controller.Results.Captor
use koney.Prelude.{
  [], none, some, true, false, ◌∷◌, ◌≡◌, arith, List, Option, Bool, refl, ◌∙◌, length, ok, err,
  ◌++◌, ◌&&◌, ◌||◌, if◌then◌else◌, Result, ltb, ◌-◌, not, is_nil,
}

abbrev pub is_after_failure : Requeue → Bool
is_after_failure after_failure = true
is_after_failure after_check = false
is_after_failure no_requeue = false

-- What a run returns asks for the delay after a failure.
abbrev pub retries_failure : Option Outcome → Bool
retries_failure none = false
retries_failure (some r) = is_after_failure r.requeue

step-errors :
    (retry failure success : Bool) (acc : TrapReconcileResult)
    → (requeue_if retry (count_outcome failure success acc)).errors ≡ acc.errors
step-errors retry failure success acc = ground arith

captor_step-errors :
    (retry missing failure success : Bool) (acc : TrapReconcileResult)
    → (requeue_if retry (override_if missing (count_outcome failure success acc))).errors
      ≡ acc.errors
captor_step-errors retry missing failure success acc = ground arith

summarize_decoys-errors :
    (results : List DecoyDeploymentResult) (acc : TrapReconcileResult)
    → (summarize_decoys results acc).errors ≡ acc.errors
unfolding summarize_decoys
summarize_decoys-errors [] acc = refl
summarize_decoys-errors (r ∷ results) acc =
    summarize_decoys-errors results _ ∙ step-errors _ _ _ acc

summarize_captors-errors :
    (results : List CaptorDeploymentResult) (acc : TrapReconcileResult)
    → (summarize_captors results acc).errors ≡ acc.errors
unfolding summarize_captors
summarize_captors-errors [] acc = refl
summarize_captors-errors (r ∷ results) acc =
    summarize_captors-errors results _
    ∙ captor_step-errors (Captor.implies_retry (joined r)) r.missing_tetragon
        (Captor.implies_failure (joined r)) (Captor.implies_success (joined r)) acc
  where
    joined : CaptorDeploymentResult → CaptorDeploymentResult
    joined r = record r { errors = r.errors ++ r.errors }

HasNoErrors : Option TrapReconcileResult → Type 0
HasNoErrors none = Unit
HasNoErrors (some r) = r.errors ≡ []

conclude-never :
    (decoys captors : TrapReconcileResult) (s : Conditions) (h : History)
    → decoys.errors ≡ []
    → captors.errors ≡ []
    → retries_failure (conclude decoys captors s h).0.0 ≡ false
unfolding conclude
conclude-never decoys captors s h d e = rw d (rw e (ground arith))

after-HasNoErrors :
    {A : Type 0} (f : A → Run TrapReconcileResult) (r : Option A × History)
    → ((a : A) → HasNoErrors (f a r.1).0)
    → HasNoErrors (after f r).0
unfolding HasNoErrors
after-HasNoErrors f (none, h) k = tt
after-HasNoErrors f (some a, h) k = k a

reconcile_decoys-HasNoErrors :
    (l : Libraries) (c : Cluster) (policy : Policy) (traps : List Trap) (h : History)
    → HasNoErrors (reconcile_decoys l c policy traps h).0
unfolding reconcile_decoys HasNoErrors
reconcile_decoys-HasNoErrors l c policy traps h =
    after-HasNoErrors _ (decoy_results l c policy traps h)
      (λ results. summarize_decoys-errors results (fresh (length traps)))

reconcile_captors-HasNoErrors :
    (l : Libraries) (c : Cluster) (policy : Policy) (traps : List Trap) (h : History)
    → HasNoErrors (reconcile_captors l c policy traps h).0
unfolding reconcile_captors HasNoErrors
reconcile_captors-HasNoErrors l c policy traps h =
    after-HasNoErrors _ (captor_results l c policy traps h)
      (λ results. summarize_captors-errors results (fresh (length traps)))

next_stage-never :
    {A : Type 0} (s : Conditions) (f : A → Stage) (P : Option A → Type 0) (r : Option A × History)
    → P r.0
    → ((a : A) (h : History) → P (some a) → retries_failure (f a h).0.0 ≡ false)
    → retries_failure (next_stage s f r).0.0 ≡ false
next_stage-never s f P (none, h) p k = refl
next_stage-never s f P (some a, h) p k = k a h p

after-never :
    {A : Type 0} (f : A → Run Outcome) (r : Option A × History)
    → ((a : A) (h : History) → retries_failure (f a h).0 ≡ false)
    → retries_failure (after f r).0 ≡ false
after-never f (none, h) k = refl
after-never f (some a, h) k = k a h

after_decoys-never :
    (l : Libraries) (c : Cluster) (policy : Policy) (valid : List Trap) (s : Conditions)
    (decoys : TrapReconcileResult) (h : History)
    → decoys.errors ≡ []
    → retries_failure (after_decoys l c policy valid s decoys h).0.0 ≡ false
unfolding after_decoys after_captors HasNoErrors
after_decoys-never l c policy valid s decoys h e =
    next_stage-never _ _ HasNoErrors (reconcile_captors l c policy valid h)
      (reconcile_captors-HasNoErrors l c policy valid h)
      (λ captors h' k. conclude-never decoys captors _ h' e k)

if-never :
    {A : Type 0} (outcome : A → Bool) (b : Bool) (x y : A)
    → outcome x ≡ false
    → outcome y ≡ false
    → outcome (if b then x else y) ≡ false
if-never outcome true x y p q = p
if-never outcome false x y p q = q

deploy_valid-never :
    (l : Libraries) (c : Cluster) (policy : Policy) (s : Conditions) (valid : List Trap)
    (h : History)
    → retries_failure (deploy_valid l c policy s valid h).0.0 ≡ false
unfolding deploy_valid HasNoErrors
deploy_valid-never l c policy s valid h =
    if-never (λ (r : (Option Outcome × Conditions) × History). retries_failure r.0.0)
      (ltb 0 (length policy.spec.traps - length valid) && policy.spec.strict_validation) _ _ refl
      (next_stage-never _ (after_decoys l c policy valid _) HasNoErrors
        (reconcile_decoys l c policy valid h) (reconcile_decoys-HasNoErrors l c policy valid h)
        (λ decoys h' k. after_decoys-never l c policy valid _ decoys h' k))

after_cleanup-never :
    (l : Libraries) (c : Cluster) (policy : Policy) (s : Conditions) (errors : Errors) (h : History)
    → retries_failure (after_cleanup l c policy s errors h).0.0 ≡ false
unfolding after_cleanup
after_cleanup-never l c policy s (e ∷ errors) h = refl
after_cleanup-never l c policy s [] h =
    next_stage-never _ (deploy_valid l c policy s) (λ r. Unit {0})
      (filter_valid_traps l.patterns policy.spec.traps, h) tt
      (λ valid h' k. deploy_valid-never l c policy s valid h')

deploy_policy-never :
    (l : Libraries) (c : Cluster) (policy : Policy) (h : History)
    → retries_failure (deploy_policy l c policy h).0.0 ≡ false
unfolding deploy_policy
deploy_policy-never l c policy h =
    next_stage-never _ _ (λ r. Unit {0}) (cleanup_removed_traps l c policy h) tt
      (λ errors h' k. after_cleanup-never l c policy _ errors h')

join_status-never :
    (r : Option Outcome) (answer : Answer)
    → retries_failure (join_status r answer) ≡ retries_failure r
unfolding join_status
join_status-never none answer = refl
join_status-never (some r) answer = refl

with_status-never :
    (c : Cluster) (key : Key) (policy : Policy) (stage : Stage) (h : History)
    → retries_failure (stage h).0.0 ≡ false
    → retries_failure (with_status c key policy stage h).0 ≡ false
unfolding with_status
with_status-never c key policy stage h p = join_status-never (stage h).0.0 _ ∙ p

after_put-never :
    (l : Libraries) (c : Cluster) (key : Key) (f : Finalized) (h : History)
    → retries_failure (after_put l c key f h).0 ≡ false
unfolding after_put
after_put-never l c key f h =
    if-never (λ (m : Run Outcome). retries_failure (m h).0) (f.flag || not (is_nil f.errors)) _ _
      refl
      (with_status-never c key f.policy (deploy_policy l c f.policy) h
        (deploy_policy-never l c f.policy h))

after_marked-never :
    (l : Libraries) (c : Cluster) (key : Key) (f : Finalized) (h : History)
    → retries_failure (after_marked l c key f h).0 ≡ false
unfolding after_marked
after_marked-never l c key f h =
    if-never (λ (m : Run Outcome). retries_failure (m h).0) (f.flag || not (is_nil f.errors)) _ _
      refl (after_put-never l c key _ _)

reconcile_fetched-never :
    (l : Libraries) (c : Cluster) (key : Key) (r : Result Cause Policy) (h : History)
    → retries_failure (reconcile_fetched l c key r h).0 ≡ false
unfolding reconcile_fetched
reconcile_fetched-never l c key (err e) h = refl
reconcile_fetched-never l c key (ok policy) h =
    after-never (after_marked l c key) (run_finalizer_if_marked_for_deletion l c key policy h)
      (after_marked-never l c key)

-- Reconcile never asks to be run again after the delay for failures, whatever the cluster answers.
pub reconcile_never-after_failure :
    (l : Libraries) (c : Cluster) (key : Key) (h : History)
    → retries_failure (reconcile l c key h).0 ≡ false
unfolding reconcile
reconcile_never-after_failure l c key h =
    reconcile_fetched-never l c key (c.policy h (get_policy key)) (get_policy key ∷ h)
