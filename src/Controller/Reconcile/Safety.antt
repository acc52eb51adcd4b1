-- ===== src/Controller/Reconcile/Safety.antt =====
-- What Reconcile of internal/controller/deceptionpolicy_controller.go leaves undone: without the
-- finalizer, after a failed clean-up, and with invalid traps under strict validation.
use koney.Effects.Steps.{after-some}
use koney.Utils.Conditions.{ConditionStatus}
use koney.Controller.Summary.{filter_valid_traps}
use koney.Controller.Cleanup.{cleanup_removed_traps, cleanup_deception_policy}
use koney.Api.Trap.{Trap}
use koney.Controller.Results.{Cause, Errors}
use koney.Libraries.{Libraries}
use koney.Api.Policy.{Policy, Key}
use koney.Controller.Finalizer.{
  change_fetched, change_finalizers, run_marked, run_finalizer_if_marked_for_deletion,
  finish_cleanup, put_finalizer, change_once,
}
use koney.Controller.Reconcile.{
  reconcile, deploy_policy, reconcile_fetched, after_cleanup, deploy_valid, after_marked, validity,
  after_put, no_requeue, initial_conditions, Conditions, Stage, next_stage,
}
use koney.Effects.{Cluster, Call, RetriesOnConflict, get_policy, update_policy, History, after}
use koney.Effects.Keeps.{Keeps, retry-Keeps}
use koney.Prelude.{
  [], none, some, true, false, ok, err, ◌∷◌, ◌≡◌, ◌<◌, arith, List, Option, Bool, ℕ, if◌then◌else◌,
  Result, All, length, refl, ◌∙◌, ap, subst, sym,
}

abbrev pub is_policy_call : Call → Bool
is_policy_call (get_policy key) = true
is_policy_call (update_policy policy) = true
is_policy_call _ = false

module _ (c : Cluster) (retries : RetriesOnConflict c) where
  change_fetched-Keeps :
      (change : Policy → Policy × Bool) (r : Result Cause Policy) (old : Policy)
      → Keeps is_policy_call (change_fetched c change r old)
  unfolding change_fetched
  change_fetched-Keeps change (err e) old h k = k
  change_fetched-Keeps change (ok policy) old h k = ground (arith, k)

  change_finalizers-Keeps :
      (key : Key) (change : Policy → Policy × Bool) (policy : Policy)
      → Keeps is_policy_call (change_finalizers c key change policy)
  unfolding change_finalizers
  change_finalizers-Keeps key change policy =
      retry-Keeps is_policy_call c retries (change_once c key change) policy (λ old h k.
        change_fetched-Keeps change (c.policy h (get_policy key)) old (get_policy key ∷ h)
          (refl, k))

  without_finalizer :
      (l : Libraries) (key : Key) (policy : Policy) (d : Option ℕ)
      → l.contains_finalizer policy ≡ false
      → Keeps is_policy_call (λ h. after (after_marked l c key) (run_marked l c key policy d h))
  unfolding run_marked after_marked put_finalizer after_put change_finalizers
  without_finalizer l key policy none e h k =
      rw e (change_finalizers-Keeps key l.add_finalizer policy h k)
  without_finalizer l key policy (some d) e h k = rw e k

  -- If retries behave as documented, the policy can be fetched and has no finalizer, and the calls
  -- before are calls that get or update a policy, then Reconcile makes only such calls, whether or
  -- not the policy is marked for deletion.
  pub reconcile-without_finalizer :
      (l : Libraries) (key : Key) (policy : Policy) (h : History)
      → c.policy h (get_policy key) ≡ ok policy
      → l.contains_finalizer policy ≡ false
      → All (λ call. is_policy_call call ≡ true) h
      → All (λ call. is_policy_call call ≡ true) (reconcile l c key h).1
  unfolding reconcile reconcile_fetched run_finalizer_if_marked_for_deletion
  reconcile-without_finalizer l key policy h e n k =
      rw e
        (without_finalizer l key policy policy.deletion_timestamp n (get_policy key ∷ h) (refl, k))

failed_cleanup :
    (l : Libraries) (c : Cluster) (key : Key) (policy : Policy) (deletion_timestamp : ℕ)
    (h : History) {e : Cause} {errors : Errors}
    → l.contains_finalizer policy ≡ true
    → (cleanup_deception_policy l c policy h).0 ≡ some (e ∷ errors)
    → after (after_marked l c key) (run_marked l c key policy (some deletion_timestamp) h) ≡ (
      some (record {
        requeue = no_requeue;
        errors = if l.is_ignored (e ∷ errors) then [] else e ∷ errors;
      }),
      (cleanup_deception_policy l c policy h).1,
    )
unfolding run_marked finish_cleanup after_marked
failed_cleanup l c key policy d h has failed = rw has (
    ap (after (after_marked l c key))
      (after-some (finish_cleanup l c key policy) (cleanup_deception_policy l c policy h) failed))

next_stage-some :
    {A : Type 0} (s : Conditions) (f : A → Stage) (r : Option A × History) {a : A}
    → r.0 ≡ some a
    → next_stage s f r ≡ f a r.1
next_stage-some s f (none, h) e = cc
next_stage-some s f (some b, h) e = cc

-- If the policy can be fetched, is marked for deletion and has the finalizer, and its clean-up
-- returns errors, then Reconcile makes no call after those of the clean-up, asks for no requeue,
-- and returns the errors, or none if they count as NotFound.
pub reconcile-failed_cleanup :
    (l : Libraries) (c : Cluster) (key : Key) (policy : Policy) (deletion_timestamp : ℕ)
    (h : History) (e : Cause) (errors : Errors)
    → c.policy h (get_policy key) ≡ ok policy
    → policy.deletion_timestamp ≡ some deletion_timestamp
    → l.contains_finalizer policy ≡ true
    → (cleanup_deception_policy l c policy (get_policy key ∷ h)).0 ≡ some (e ∷ errors)
    → reconcile l c key h ≡ (
      some (record {
        requeue = no_requeue;
        errors = if l.is_ignored (e ∷ errors) then [] else e ∷ errors;
      }),
      (cleanup_deception_policy l c policy (get_policy key ∷ h)).1,
    )
unfolding reconcile reconcile_fetched run_finalizer_if_marked_for_deletion
reconcile-failed_cleanup l c key policy d h e errors fetched marked has failed = rw fetched (
    subst
      (λ x. after (after_marked l c key) (run_marked l c key policy x (get_policy key ∷ h)) ≡ (
        some (record {
          requeue = no_requeue;
          errors = if l.is_ignored (e ∷ errors) then [] else e ∷ errors;
        }),
        (cleanup_deception_policy l c policy (get_policy key ∷ h)).1,
      ))
      (sym marked) (failed_cleanup l c key policy d (get_policy key ∷ h) has failed))

-- If removed traps could be cleaned up, filterValidTraps returns fewer traps than the policy has,
-- and validation is strict, then Reconcile makes no call after those of the clean-up until it
-- writes the status, returns no error, and its conditions are those it began with but for
-- PolicyValid, which is false with the reason of invalid traps.
pub deploy_policy-strict :
    (l : Libraries) (c : Cluster) (policy : Policy) (valid : List Trap) (h : History)
    → (cleanup_removed_traps l c policy h).0 ≡ some []
    → filter_valid_traps l.patterns policy.spec.traps ≡ some valid
    → length valid < length policy.spec.traps
    → policy.spec.strict_validation ≡ true
    → deploy_policy l c policy h ≡ (
      (
        some (record { requeue = no_requeue; errors = [] }),
        record (initial_conditions (c.clock h)) {
          policy_valid = record {
            kind = "PolicyValid";
            status = ConditionStatus.is_false;
            last_transition_time = c.clock h;
            reason = "TrapsSpecInvalid";
            message = l.format_valid (length valid) (length policy.spec.traps);
          };
        },
      ),
      (cleanup_removed_traps l c policy h).1,
    )
unfolding deploy_policy after_cleanup deploy_valid validity
deploy_policy-strict l c policy valid h cleaned filtered fewer strict =
    next_stage-some _ _ (cleanup_removed_traps l c policy h) cleaned
    ∙ rw filtered (rw strict (ground (arith, fewer)))
