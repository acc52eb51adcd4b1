-- ===== src/Controller/Results.antt =====
-- internal/controller/traps/api/result_types.go: the outcome of deploying one trap. Go's `error`
-- is the list of the errors that are joined in it, and nil is the empty list.
pub mod Decoy
pub mod Captor
use koney.Prelude.{List, Bool, String}

-- An error, by its text; `no_kind_match` is *meta.NoKindMatchError.
pub data Cause : Type 0 where
  text : String → Cause
  not_found conflict no_kind_match : Cause

-- `errors.Join` is `++`.
abbrev pub Errors : Type 0
Errors = List Cause

pub record DecoyDeploymentResult : Type 0 where
  pub at_least_one_objects_was_matched : Bool
  pub all_objects_were_ready : Bool
  pub errors : Errors

pub record CaptorDeploymentResult : Type 0 where
  pub errors : Errors
  pub missing_tetragon : Bool
