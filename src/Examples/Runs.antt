-- ===== src/Examples/Runs.antt =====
-- A sample cluster, in which every call succeeds.
use koney.Cluster.{Object}
use koney.Controller.Results.{Cause, not_found, text, conflict, no_kind_match}
use koney.Api.Policy.{Policy}
use koney.Prelude.{none, some, ok, err, ℕ, suc, zero, Result, [], ◌∷◌, true, ◌≡◌, refl}
use koney.Examples.{reader, web_trap, web_deployment}
use koney.Effects.{
  Call, M, Cluster, Answer, History, get_object, Attempts, RetriesOnConflict, last, again,
}

abbrev if_conflict : {A : Type 0} → Answer → A → A → A
if_conflict (some conflict) a b = a
if_conflict (some not_found) a b = b
if_conflict (some no_kind_match) a b = b
if_conflict (some (text t)) a b = b
if_conflict none a b = b

-- At most so many further attempts while the answer is a conflict.
unfoldable pub attempt_again : {S : Type 0} → ℕ → (S → M (Answer × S)) → S → M (Answer × S)
attempt_again zero body s h = body s h
attempt_again (suc n) body s h =
    let rest = attempt_again n body (body s h).0.1 (body s h).1 in
    if_conflict (body s h).0.0 rest (body s h)

pub attempt_again-Attempts :
    {S : Type 0} (n : ℕ) (body : S → M (Answer × S)) (s : S) (h : History)
    → Attempts body s h (attempt_again n body s h)
unfolding attempt_again
attempt_again-Attempts zero body s h = last s h
attempt_again-Attempts (suc n) body s h =
    go (body s h).0.0 refl (attempt_again-Attempts n body (body s h).0.1 (body s h).1)
  where
    go :
        (answer : Answer)
        → (body s h).0.0 ≡ answer
        → Attempts body
            (body s h).0.1
            (body s h).1
            (attempt_again n body (body s h).0.1 (body s h).1)
        → Attempts body s h
            (if_conflict answer (attempt_again n body (body s h).0.1 (body s h).1) (body s h))
    go (some conflict) e rest = again s h e rest
    go (some not_found) e rest = last s h
    go (some no_kind_match) e rest = last s h
    go (some (text t)) e rest = last s h
    go none e rest = last s h

abbrev pub policy : Policy
policy = record {
  api_version = "v1";
  kind = "DeceptionPolicy";
  name = "policy";
  namespace = "";
  uid = "1";
  creation_timestamp = 1;
  deletion_timestamp = none;
  finalizers = "koney/finalizer" ∷ [];
  spec = record { traps = web_trap ∷ []; strict_validation = true; mutate_existing = true };
  status = record { conditions = [] };
}

unfoldable pub found_object : Call → Result Cause Object
found_object (get_object o) = ok o
found_object _ = err not_found

abbrev pub cluster : Cluster
cluster = record {
  run = λ h call. none;
  names = λ h call. ok [];
  policy = λ h call. ok policy;
  object = λ h call. found_object call;
  deployment = λ h call. ok web_deployment;
  objects = λ h call. ok [];
  secret = λ h call. err not_found;
  output = λ h call. ([], none);
  reader = λ h. reader;
  clock = λ h. 9;
  stamp = λ h. "now";
  retry = attempt_again 3;
}

pub cluster-RetriesOnConflict : RetriesOnConflict cluster
cluster-RetriesOnConflict S body s h = attempt_again-Attempts 3 body s h
