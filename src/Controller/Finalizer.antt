-- ===== src/Controller/Finalizer.antt =====
-- runFinalizerIfMarkedForDeletion and putFinalizer of internal/controller/deceptionpolicy_controller.go.
use koney.Prelude.{
  [], ◌∷◌, none, some, ok, err, true, false, ℕ, Option, Bool, if◌then◌else◌, Result,
}
use koney.Api.Policy.{Policy, Key}
use koney.Libraries.{Libraries}
use koney.Controller.Cleanup.{cleanup_deception_policy}
use koney.Controller.Results.{Cause, Errors}
use koney.Effects.{
  Cluster, M, Run, Answer, errors_of, ◌>>=◌, ask, lift, pure, update_policy, get_policy,
}

-- What both functions return: their Boolean, the error, and the policy in memory.
pub record Finalized : Type 0 where
  pub flag : Bool
  pub errors : Errors
  pub policy : Policy

-- What follows `r.Get` in one attempt: a policy that the change leaves as it is is not written back.
unfoldable pub change_fetched :
    Cluster → (Policy → Policy × Bool) → Result Cause Policy → Policy → M (Answer × Policy)
change_fetched c change (err e) old h = ((some e, old), h)
change_fetched c change (ok policy) old h =
    let (changed, dirty) = change policy in
    let (answer, h') = ask c.run (update_policy changed) h in
    if dirty then ((answer, changed), h') else ((none, changed), h)

abbrev pub change_once : Cluster → Key → (Policy → Policy × Bool) → Policy → M (Answer × Policy)
change_once c key change old h =
    let (r, h') = ask c.policy (get_policy key) h in change_fetched c change r old h'

-- `retry.RetryOnConflict` of such attempts.
unfoldable pub change_finalizers : Cluster → Key → (Policy → Policy × Bool) → Policy → M Finalized
change_finalizers c key change policy h =
    let (r, h') = c.retry (change_once c key change) policy h in
    (record { flag = true; errors = errors_of r.0; policy = r.1 }, h')

-- The finalizer goes after a clean-up without errors.
unfoldable pub finish_cleanup : Libraries → Cluster → Key → Policy → Errors → Run Finalized
finish_cleanup l c key policy [] = lift (change_finalizers c key l.remove_finalizer policy)
finish_cleanup l c key policy (e ∷ errors) =
    pure (record { flag = true; errors = e ∷ errors; policy = policy })

unfoldable pub run_marked : Libraries → Cluster → Key → Policy → Option ℕ → Run Finalized
run_marked l c key policy none = pure (record { flag = false; errors = []; policy = policy })
run_marked l c key policy (some deletion_timestamp) =
    if l.contains_finalizer policy
    then (cleanup_deception_policy l c policy >>= finish_cleanup l c key policy)
    else pure (record { flag = true; errors = []; policy = policy })

-- DeceptionPolicyReconciler.runFinalizerIfMarkedForDeletion
unfoldable pub run_finalizer_if_marked_for_deletion :
    Libraries → Cluster → Key → Policy → Run Finalized
run_finalizer_if_marked_for_deletion l c key policy =
    run_marked l c key policy policy.deletion_timestamp

-- DeceptionPolicyReconciler.putFinalizer
unfoldable pub put_finalizer : Libraries → Cluster → Key → Policy → M Finalized
put_finalizer l c key policy h =
    if l.contains_finalizer policy
    then (record { flag = false; errors = []; policy = policy }, h)
    else change_finalizers c key l.add_finalizer policy h
