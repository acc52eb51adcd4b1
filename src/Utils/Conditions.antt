-- ===== src/Utils/Conditions.antt =====
-- internal/controller/utils/conditions.go. Pod and deployment conditions have the same two
-- fields that the code reads, so one record stands for both.
use koney.Prelude.{String, List, [], ◌∷◌, ◌==◌, if◌then◌else◌, Bool}

-- metav1.ConditionStatus
pub data ConditionStatus : Type 0 where
  is_true is_false unknown : ConditionStatus

abbrev pub status_eq : ConditionStatus → ConditionStatus → Bool
status_eq ConditionStatus.is_true ConditionStatus.is_true = Bool.true
status_eq ConditionStatus.is_false ConditionStatus.is_false = Bool.true
status_eq ConditionStatus.unknown ConditionStatus.unknown = Bool.true
status_eq _ _ = Bool.false

pub record Condition : Type 0 where
  pub kind : String
  pub status : ConditionStatus

-- The loop of both lookups.
abbrev find_condition : List Condition → String → ConditionStatus
find_condition [] condition_type = unknown
find_condition (condition ∷ conditions) condition_type =
    if condition.kind == condition_type
    then condition.status
    else find_condition conditions condition_type

-- utils.GetPodCondition
unfoldable pub get_pod_condition : List Condition → String → ConditionStatus
get_pod_condition = find_condition

-- utils.GetDeploymentCondition
unfoldable pub get_deployment_condition : List Condition → String → ConditionStatus
get_deployment_condition = find_condition
