-- ===== src/Libraries.antt =====
-- What internal/controller takes from libraries and from the process, apart from the cluster.
use koney.Prelude.{String, ℕ, Option, List, Bool}
use koney.Utils.Bytes.{Bytes}
use koney.Utils.Env.{Environment}
use koney.Utils.Names.{Patterns}
use koney.Api.Trap.{Trap}
use koney.Api.Annotation.{ChangeAnnotation}
use koney.Api.Policy.{Policy}
use koney.Annotations.Resource.{Codec}
use koney.Captor.Names.{Digests}
use koney.Controller.Results.{Cause, Errors}

pub record Libraries : Type 0 where
  pub patterns : Patterns
  -- encoding/json for changes, traps and lists of texts; `none` is an error
  pub marshal_changes : List ChangeAnnotation → Option String
  pub unmarshal_changes : String → Option (List ChangeAnnotation)
  pub marshal_trap : Trap → Option String
  pub marshal_texts : List String → Option String
  pub md5 : Bytes → Bytes
  pub environment : Environment
  -- `errors.Is(err, &meta.NoKindMatchError{})`
  pub is_kind_missing : Cause → Bool
  -- `client.IgnoreNotFound(err) == nil`, of joined errors
  pub is_ignored : Errors → Bool
  -- controllerutil, for the finalizer `koney/finalizer`: the test, and the changes, each with whether
  -- it has changed the list
  pub contains_finalizer : Policy → Bool
  pub add_finalizer : Policy → Policy × Bool
  pub remove_finalizer : Policy → Policy × Bool
  -- `fmt.Sprintf` of the counts of deployed and of valid traps
  pub format_deployed : ℕ → ℕ → String → ℕ → String
  pub format_valid : ℕ → ℕ → String

abbrev pub codec_of : Libraries → Codec
codec_of l = record { marshal = l.marshal_changes; unmarshal = l.unmarshal_changes; md5 = l.md5 }

abbrev pub digests_of : Libraries → Digests
digests_of l = record { marshal_trap = l.marshal_trap; md5 = l.md5 }
