-- ===== src/Api/Status.antt =====
-- api/v1alpha1/deceptionpolicy_status.go: the conditions of a policy. Times are numbers, and the
-- current time is an argument. A pointer into the slice is a change of its first match in place.
pub mod Laws
use koney.Prelude.{
  ℕ, String, Bool, true, false, Option, none, some, List, [], ◌∷◌, ◌++◌, ◌==◌, not, is_some,
  if◌then◌else◌,
}
use koney.Utils.Conditions.{ConditionStatus, status_eq}

-- DeceptionPolicyCondition
pub record Condition : Type 0 where
  pub kind : String
  pub status : ConditionStatus
  pub last_transition_time : ℕ
  pub reason : String
  pub message : String

-- DeceptionPolicyStatus
pub record Status : Type 0 where
  pub conditions : List Condition

abbrev find : List Condition → String → Option Condition
find [] condition_type = none
find (c ∷ cs) condition_type = if c.kind == condition_type then some c else find cs condition_type

-- DeceptionPolicyStatus.GetCondition
unfoldable pub get_condition : Status → String → Option Condition
get_condition status condition_type = find status.conditions condition_type

-- DeceptionPolicyStatus.ContainsCondition
unfoldable pub contains_condition : Status → String → Bool
contains_condition status condition_type = is_some (get_condition status condition_type)

-- DeceptionPolicyCondition.Equals, of two conditions that are not one object.
unfoldable pub equals : Condition → Condition → Bool
equals c other =
    if not (c.kind == other.kind)
    then false
    else if not (status_eq c.status other.status)
    then false
    else if not (c.reason == other.reason)
    then false
    else if not (c.message == other.message)
    then false
    else true

-- The assignments to `existingCondition`, the first condition of the type.
abbrev pub overwrite : Condition → List Condition → List Condition
overwrite c [] = []
overwrite c (x ∷ xs) =
    if x.kind == c.kind
    then record x {
      status = c.status;
      last_transition_time = c.last_transition_time;
      reason = c.reason;
      message = c.message;
    }
      ∷ xs
    else x ∷ overwrite c xs

put_existing : Status → Condition → Option Condition → Status × Bool
put_existing status c none = (record { conditions = status.conditions ++ c ∷ [] }, true)
put_existing status c (some existing) =
    if not (equals c existing)
    then (record { conditions = overwrite c status.conditions }, true)
    else (status, false)

-- DeceptionPolicyStatus.PutConditionStruct
unfoldable pub put_condition_struct : Status → Condition → Status × Bool
unfolding put_existing
put_condition_struct status c = put_existing status c (get_condition status c.kind)

-- DeceptionPolicyStatus.PutCondition
unfoldable pub put_condition :
    ℕ → Status → String → ConditionStatus → String → String → Status × Bool
put_condition now status condition_type condition_status condition_reason condition_message =
    put_condition_struct status (record {
      kind = condition_type;
      status = condition_status;
      last_transition_time = now;
      reason = condition_reason;
      message = condition_message;
    })
