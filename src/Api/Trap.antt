-- ===== src/Api/Trap.antt =====
-- api/v1alpha1/dp_trap_types.go, the types of the traps, and dp_matchresources_types.go,
-- dp_decoy_types.go and dp_captor_types.go. A slice or pointer that may be nil is an `Option`.
pub mod Valid
use koney.Prelude.{String, Bool, Option, none, some, List, [], ◌==◌, not, ◌&&◌, if◌then◌else◌}

-- TrapType
pub data TrapType : Type 0 where
  unknown filesystem_honeytoken http_endpoint http_payload : TrapType

abbrev pub trap_type_eq : TrapType → TrapType → Bool
trap_type_eq TrapType.unknown TrapType.unknown = Bool.true
trap_type_eq TrapType.filesystem_honeytoken TrapType.filesystem_honeytoken = Bool.true
trap_type_eq TrapType.http_endpoint TrapType.http_endpoint = Bool.true
trap_type_eq TrapType.http_payload TrapType.http_payload = Bool.true
trap_type_eq _ _ = Bool.false

pub record FilesystemHoneytoken : Type 0 where
  pub file_path : String
  pub file_content : String
  pub read_only : Bool

-- HttpEndpoint and HttpPayload have no fields yet.
pub record HttpEndpoint : Type 0 where

pub record HttpPayload : Type 0 where

-- metav1.LabelSelector, of which the code reads the labels: a map, in some order.
pub record LabelSelector : Type 0 where
  pub match_labels : List (String × String)

-- ResourceFilter, with the ResourceDescription that it embeds
pub record ResourceFilter : Type 0 where
  pub namespaces : Option (List String)
  pub selector : Option LabelSelector
  pub container_selector : String

pub record MatchResources : Type 0 where
  pub any : Option (List ResourceFilter)

pub record DecoyDeployment : Type 0 where
  pub strategy : String

pub record CaptorDeployment : Type 0 where
  pub strategy : String

pub record Trap : Type 0 where
  pub filesystem_honeytoken : FilesystemHoneytoken
  pub http_endpoint : HttpEndpoint
  pub http_payload : HttpPayload
  pub decoy_deployment : DecoyDeployment
  pub captor_deployment : CaptorDeployment
  pub match_resources : MatchResources

-- A nil slice has no elements.
abbrev pub elements {ℓ} : {A : Type ℓ} → Option (List A) → List A
elements none = []
elements (some xs) = xs

-- `trap.FilesystemHoneytoken != FilesystemHoneytoken{}`
abbrev pub honeytoken_is_set : FilesystemHoneytoken → Bool
honeytoken_is_set f = not (f.file_path == "" && f.file_content == "" && not f.read_only)

-- The comparison with `HttpEndpoint{}` and `HttpPayload{}`: structs of no fields are all equal.
abbrev pub endpoint_is_set : HttpEndpoint → Bool
endpoint_is_set e = Bool.false

abbrev pub payload_is_set : HttpPayload → Bool
payload_is_set e = Bool.false

-- Trap.TrapType
unfoldable pub trap_type : Trap → TrapType
trap_type trap =
    if honeytoken_is_set trap.filesystem_honeytoken
    then TrapType.filesystem_honeytoken
    else if endpoint_is_set trap.http_endpoint
    then TrapType.http_endpoint
    else if payload_is_set trap.http_payload
    then TrapType.http_payload
    else TrapType.unknown
