-- ===== src/Controller/Conditions.antt =====
-- updateStatusConditions of internal/controller/status.go.
pub mod Laws
use koney.Prelude.{[], ◌∷◌, ◌||◌, none, some, ok, err, false, ℕ, Bool, List, if◌then◌else◌, Result}
use koney.Api.Status.{Status, Condition, put_condition}
use koney.Api.Policy.{Policy, Key}
use koney.Controller.Results.{Cause}
use koney.Effects.{Cluster, M, Answer, ask, update_status, get_policy}

-- The loop over the conditions, with `anyDirty`.
unfoldable pub put_conditions : ℕ → List Condition → Status × Bool → Status × Bool
put_conditions now [] acc = acc
put_conditions now (x ∷ conditions) (status, any_dirty) =
    let (status', dirty) = put_condition now status x.kind x.status x.reason x.message in
    put_conditions now conditions (status', any_dirty || dirty)

-- What follows `r.Get` in one attempt.
unfoldable pub put_fetched :
    Cluster → List Condition → Result Cause Policy → Policy → M (Answer × Policy)
put_fetched c conditions (err e) old h = ((some e, old), h)
put_fetched c conditions (ok policy) old h =
    let (status, any_dirty) = put_conditions (c.clock h) conditions (policy.status, false) in
    let changed = record policy { status = status } in
    let (answer, h') = ask c.run (update_status changed) h in
    if any_dirty then ((answer, changed), h') else ((none, changed), h)

abbrev pub put_once : Cluster → Key → List Condition → Policy → M (Answer × Policy)
put_once c key conditions old h =
    let (r, h') = ask c.policy (get_policy key) h in put_fetched c conditions r old h'

-- DeceptionPolicyReconciler.updateStatusConditions; the policy in memory is not read afterwards.
unfoldable pub update_status_conditions :
    Cluster → Key → Policy → List Condition → M (Answer × Policy)
update_status_conditions c key policy conditions = c.retry (put_once c key conditions) policy
