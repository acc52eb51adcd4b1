-- ===== src/Api/Annotation.antt =====
-- api/v1alpha1/annotation_types.go: what Koney writes into the annotation of a resource.
pub mod Equality
use koney.Prelude.{
  String, Bool, true, false, List, [], ◌∷◌, ◌==◌, not, ◌&&◌, if◌then◌else◌, bool_eq,
}
use koney.Api.Trap.{TrapType}

pub record FilesystemHoneytokenAnnotation : Type 0 where
  pub file_path : String
  pub file_content_hash : String
  pub read_only : Bool

-- HttpEndpointAnnotation and HttpPayloadAnnotation have no fields yet.
pub record HttpEndpointAnnotation : Type 0 where

pub record HttpPayloadAnnotation : Type 0 where

pub record TrapAnnotation : Type 0 where
  pub deployment_strategy : String
  pub containers : List String
  pub created_at : String
  pub updated_at : String
  pub filesystem_honeytoken : FilesystemHoneytokenAnnotation
  pub http_endpoint : HttpEndpointAnnotation
  pub http_payload : HttpPayloadAnnotation

pub record ChangeAnnotation : Type 0 where
  pub deception_policy_name : String
  pub traps : List TrapAnnotation

-- `FilesystemHoneytokenAnnotation{}`
abbrev pub no_honeytoken : FilesystemHoneytokenAnnotation
no_honeytoken = record { file_path = ""; file_content_hash = ""; read_only = false }

-- FilesystemHoneytokenAnnotation.Equals; the test for one pointer saves time only.
unfoldable pub honeytoken_equals :
    FilesystemHoneytokenAnnotation → FilesystemHoneytokenAnnotation → Bool
honeytoken_equals a other =
    a.file_path == other.file_path
    && a.file_content_hash == other.file_content_hash
    && bool_eq a.read_only other.read_only

-- HttpEndpointAnnotation.Equals
unfoldable pub endpoint_equals : HttpEndpointAnnotation → HttpEndpointAnnotation → Bool
endpoint_equals a other = true

-- HttpPayloadAnnotation.Equals
unfoldable pub payload_equals : HttpPayloadAnnotation → HttpPayloadAnnotation → Bool
payload_equals a other = true

-- `trap.FilesystemHoneytoken != FilesystemHoneytokenAnnotation{}`
abbrev pub honeytoken_is_set : FilesystemHoneytokenAnnotation → Bool
honeytoken_is_set f = not (f.file_path == "" && f.file_content_hash == "" && not f.read_only)

-- The comparison with `HttpEndpointAnnotation{}` and `HttpPayloadAnnotation{}`: structs of no
-- fields are all equal.
abbrev endpoint_is_set : HttpEndpointAnnotation → Bool
endpoint_is_set e = false

abbrev payload_is_set : HttpPayloadAnnotation → Bool
payload_is_set e = false

-- TrapAnnotation.TrapType
unfoldable pub trap_type : TrapAnnotation → TrapType
trap_type trap =
    if honeytoken_is_set trap.filesystem_honeytoken
    then TrapType.filesystem_honeytoken
    else if endpoint_is_set trap.http_endpoint
    then TrapType.http_endpoint
    else if payload_is_set trap.http_payload
    then TrapType.http_payload
    else TrapType.unknown

-- The comparison of the containers, in order: first the lengths, then element by element.
unfoldable pub same_containers : List String → List String → Bool
same_containers [] [] = true
same_containers (c ∷ cs) (d ∷ ds) = c == d && same_containers cs ds
same_containers _ _ = false

unfoldable pub equals_by_type : TrapType → TrapAnnotation → TrapAnnotation → Bool
equals_by_type TrapType.filesystem_honeytoken a other =
    honeytoken_equals a.filesystem_honeytoken other.filesystem_honeytoken
equals_by_type TrapType.http_endpoint a other = endpoint_equals a.http_endpoint other.http_endpoint
equals_by_type TrapType.http_payload a other = payload_equals a.http_payload other.http_payload
equals_by_type TrapType.unknown a other = false

-- TrapAnnotation.Equals after its first test. The callers compare an element of a slice with a
-- copy that they hold, so for them the two are never one object.
unfoldable pub equals : TrapAnnotation → TrapAnnotation → Bool → Bool
equals a other ignore_containers =
    if not (a.deployment_strategy == other.deployment_strategy)
    then false
    else if not ignore_containers && not (same_containers a.containers other.containers)
    then false
    else equals_by_type (trap_type a) a other

-- TrapAnnotation.Equals, with the answer of its test `annotation == other` of the two pointers.
unfoldable pub equals_by_pointer : Bool → TrapAnnotation → TrapAnnotation → Bool → Bool
equals_by_pointer same_object a other ignore_containers =
    if same_object then true else equals a other ignore_containers
