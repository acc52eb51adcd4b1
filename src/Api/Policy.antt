-- ===== src/Api/Policy.antt =====
-- api/v1alpha1/deceptionpolicy_types.go: a DeceptionPolicy, with the metadata that the controller
-- reads or writes. The API server fills in the two flags, so they are never nil.
use koney.Prelude.{String, ℕ, Option, List, Bool}
use koney.Api.Trap.{Trap}
use koney.Api.Status.{Status}

-- DeceptionPolicySpec
pub record Spec : Type 0 where
  pub traps : List Trap
  pub strict_validation : Bool
  pub mutate_existing : Bool

-- DeceptionPolicy
pub record Policy : Type 0 where
  pub api_version : String
  pub kind : String
  pub name : String
  pub namespace : String
  pub uid : String
  pub creation_timestamp : ℕ
  pub deletion_timestamp : Option ℕ
  pub finalizers : List String
  pub spec : Spec
  pub status : Status

-- types.NamespacedName
pub record Key : Type 0 where
  pub namespace : String
  pub name : String
