-- ===== src/Controller/Conditions/Laws.antt =====
-- What updateStatusConditions of internal/controller/status.go leaves behind.
use koney.Effects.Steps.{Attempts-last}
use koney.Controller.Results.{Cause}
use koney.Api.Policy.{Key, Policy}
use koney.Effects.{Cluster, Answer, History, update_status, get_policy, RetriesOnConflict, ask}
use koney.Api.Status.Laws.{
  has_type, DistinctTypes, Stored, put_condition_struct-Stored,
  get_condition-put_condition_struct_ne,
}
use koney.Api.Status.{Status, put_condition, get_condition, equals, put_condition_struct}
use koney.Controller.Conditions.{
  put_conditions, Condition, put_fetched, update_status_conditions, put_once,
}
use koney.Prelude.{
  All, [], some, true, false, ◌∷◌, ◌≡◌, ◌∙◌, arith, List, Bool, String, ℕ, eq_refl, refl, ap,
  eq_iff, none, ok, err, if◌then◌else◌, Result, sym,
}
use koney.Utils.Conditions.{ConditionStatus, status_eq}

-- The status has a condition of this type, status, reason and message.
abbrev pub Holds : Status → Condition → Type 0
Holds status x =
    (old : Condition) × (get_condition status x.kind ≡ some old) × (equals x old ≡ true)

equals_self : (c : Condition) → equals c c ≡ true
unfolding equals
equals_self c =
    ground (arith, eq_refl c.kind, eq_refl c.reason, eq_refl c.message, status_refl c.status)
  where
    status_refl : (a : ConditionStatus) → status_eq a a ≡ true
    status_refl a = ground arith

-- PutConditionStruct leaves a status that holds the condition.
put_condition_struct-Holds :
    (status : Status) (c : Condition) → Holds (put_condition_struct status c).0 c
put_condition_struct-Holds status c =
    go (put_condition_struct status c) (put_condition_struct-Stored status c)
  where
    go : (result : Status × Bool) → Stored status c result → Holds result.0 c
    go (status', true) s = (c, s.when_modified refl, equals_self c)
    go (status', false) s =
        let (e, found) = s.when_kept refl in
        (found.0, ap (λ x. get_condition x c.kind) e ∙ found.1, found.2)

put_condition_struct_kept :
    (status : Status) (c : Condition) (result : Status × Bool)
    → Stored status c result
    → result.1 ≡ false
    → result.0 ≡ status
put_condition_struct_kept status c result s e = (s.when_kept e).0

put_conditions-frame :
    (now : ℕ) (conditions : List Condition) (acc : Status × Bool) (t : String)
    → has_type t conditions ≡ false
    → get_condition (put_conditions now conditions acc).0 t ≡ get_condition acc.0 t
unfolding put_conditions put_condition
put_conditions-frame now [] acc t h = refl
put_conditions-frame now (x ∷ conditions) acc t h =
    put_conditions-frame now conditions _ t (ground arith)
    ∙ get_condition-put_condition_struct_ne acc.0 _ t (λ e. ground (arith, eq_iff x.kind t))

found_again :
    (status status' : Status) (x : Condition)
    → get_condition status' x.kind ≡ get_condition status x.kind
    → Holds status x
    → Holds status' x
found_again status status' x e k = (k.0, e ∙ k.1, k.2)

put_conditions-Holds :
    (now : ℕ) (conditions : List Condition) (acc : Status × Bool)
    → DistinctTypes conditions
    → All (Holds (put_conditions now conditions acc).0) conditions
unfolding put_conditions put_condition equals
put_conditions-Holds now [] acc d = tt
put_conditions-Holds now (x ∷ conditions) acc d = (
  found_again _ _ x (put_conditions-frame now conditions _ x.kind d.0)
      (put_condition_struct-Holds acc.0 (record x { last_transition_time = now })),
  put_conditions-Holds now conditions _ d.1,
)

-- No change is reported: the status is the one that was given.
put_conditions-kept :
    (now : ℕ) (conditions : List Condition) (status : Status) (any_dirty : Bool)
    → (put_conditions now conditions (status, any_dirty)).1 ≡ false
    → (any_dirty ≡ false) × ((put_conditions now conditions (status, any_dirty)).0 ≡ status)
unfolding put_conditions put_condition
put_conditions-kept now [] status any_dirty e = (e, refl)
put_conditions-kept now (x ∷ conditions) status any_dirty e =
    let (clean, same) = put_conditions-kept now conditions _ _ e in
    (
      ground arith,
      same
          ∙ put_condition_struct_kept status _ _ (put_condition_struct-Stored status _)
              (ground arith),
    )

-- The status in the cluster: it was written back, or the policy is as it was fetched.
pub data StatusAt (c : Cluster) (key : Key) (policy : Policy) : History → Type 0 where
  written :
      (h : History)
      → c.run h (update_status policy) ≡ none
      → StatusAt c key policy (update_status policy ∷ h)
  as_fetched :
      (h : History)
      → c.policy h (get_policy key) ≡ ok policy
      → StatusAt c key policy (get_policy key ∷ h)

-- What an attempt without an error achieves.
abbrev pub Achieved : Cluster → Key → List Condition → (Answer × Policy) × History → Type 0
Achieved c key conditions out =
    out.0.0 ≡ none → All (Holds out.0.1.status) conditions × StatusAt c key out.0.1 out.1

put_fetched-Achieved :
    (c : Cluster) (key : Key) (conditions : List Condition) (r : Result Cause Policy) (old : Policy)
    (h : History)
    → DistinctTypes conditions
    → c.policy h (get_policy key) ≡ r
    → Achieved c key conditions (put_fetched c conditions r old (get_policy key ∷ h))
unfolding put_fetched
put_fetched-Achieved c key conditions (err e) old h d fetched = λ x. cc
put_fetched-Achieved c key conditions (ok policy) old h d fetched =
    go (put_conditions now conditions (policy.status, false))
      (put_conditions-Holds now conditions _ d)
      (put_conditions-kept now conditions policy.status false)
  where
    now : ℕ
    now = c.clock (get_policy key ∷ h)

    go :
        (result : Status × Bool)
        → All (Holds result.0) conditions
        → (result.1 ≡ false → (false ≡ false) × (result.0 ≡ policy.status))
        → Achieved c key conditions (
            let changed = record policy { status = result.0 } in
            let h1 = get_policy key ∷ h in
            let (answer, h') = ask c.run (update_status changed) h1 in
            if result.1 then ((answer, changed), h') else ((none, changed), h1))
    go (status, true) k same e = (k, written _ e)
    go (status, false) k same e = (
      k,
      as_fetched h (fetched ∙ ap (λ s. ok (record policy { status = s })) (sym (same refl).1)),
    )

-- If the update answers no error, the policy that it ends with holds the conditions, which have
-- different types, and is the one in the cluster.
pub update_status_conditions-Achieved :
    (c : Cluster) (key : Key) (policy : Policy) (conditions : List Condition) (h : History)
    → RetriesOnConflict c
    → DistinctTypes conditions
    → (update_status_conditions c key policy conditions h).0.0 ≡ none
    → All (Holds (update_status_conditions c key policy conditions h).0.1.status) conditions
      × StatusAt c key
          (update_status_conditions c key policy conditions h).0.1
          (update_status_conditions c key policy conditions h).1
unfolding update_status_conditions
update_status_conditions-Achieved c key policy conditions h retries d e =
    Attempts-last (put_once c key conditions) (Achieved c key conditions)
      (λ old h'. put_fetched-Achieved c key conditions (c.policy h' (get_policy key)) old h' d refl)
      (retries Policy (put_once c key conditions) policy h) e
