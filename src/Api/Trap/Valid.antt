-- ===== src/Api/Trap/Valid.antt =====
-- Trap.IsValid of api/v1alpha1/dp_trap_types.go, and the IsValid methods of
-- dp_trap_filesystemhoneytoken_types.go, dp_trap_httpendpoint_types.go and
-- dp_trap_httppayload_types.go. A call can also panic, on a selector that is nil.
pub mod Accepts
use koney.Prelude.{
  ℕ, ◌+◌, Bool, Option, none, some, List, [], ◌∷◌, starts_with, not, ◌&&◌, if◌then◌else◌, is_some,
  is_nil, eqb,
}
use koney.Utils.Names.{Patterns, match_container_name}
use koney.Api.Trap.{
  Trap, TrapType, FilesystemHoneytoken, HttpEndpoint, HttpPayload, ResourceFilter, LabelSelector,
  elements, honeytoken_is_set, endpoint_is_set, payload_is_set, trap_type,
}

pub data Reason : Type 0 where
  any_is_nil namespaces_and_selector_nil namespaces_and_selector_empty : Reason
  bad_container_selector path_not_absolute not_implemented unknown_type : Reason
  trap_count : ℕ → Reason

-- What a call of IsValid does: it returns nil, or an error, or panics.
pub data Verdict : Type 0 where
  valid panics : Verdict
  invalid : Reason → Verdict

-- `a; b`, where b runs only if a has found nothing.
infixr 30 ◌then_check◌
abbrev pub ◌then_check◌ : Verdict → Verdict → Verdict
valid then_check b = b
panics then_check b = panics
invalid r then_check b = invalid r

-- FilesystemHoneytoken.IsValid; `filepath.IsAbs` on Unix is a test for a leading slash.
unfoldable pub honeytoken_is_valid : FilesystemHoneytoken → Verdict
honeytoken_is_valid f = if starts_with f.file_path "/" then valid else invalid path_not_absolute

-- HttpEndpoint.IsValid
unfoldable pub endpoint_is_valid : HttpEndpoint → Verdict
endpoint_is_valid e = invalid not_implemented

-- HttpPayload.IsValid
unfoldable pub payload_is_valid : HttpPayload → Verdict
payload_is_valid e = invalid not_implemented

-- `len(value.Selector.MatchLabels) == 0`, which dereferences the selector
abbrev labels_are_empty : Option LabelSelector → Verdict
labels_are_empty none = panics
labels_are_empty (some selector) =
    if is_nil selector.match_labels then invalid namespaces_and_selector_empty else valid

-- The body of the loop over the resource filters.
unfoldable pub filter_is_valid : Patterns → ResourceFilter → Verdict
filter_is_valid patterns value =
    (if not (is_some value.namespaces) && not (is_some value.selector)
      then invalid namespaces_and_selector_nil
      else valid)
    then_check (if is_nil (elements value.namespaces)
        then labels_are_empty value.selector
        else valid)
    then_check (if is_some (match_container_name patterns value.container_selector "test")
        then valid
        else invalid bad_container_selector)

unfoldable pub filters_are_valid : Patterns → List ResourceFilter → Verdict
filters_are_valid patterns [] = valid
filters_are_valid patterns (value ∷ rest) =
    filter_is_valid patterns value then_check filters_are_valid patterns rest

abbrev any_is_set : Option (List ResourceFilter) → Verdict
any_is_set none = invalid any_is_nil
any_is_set (some filters) = valid

abbrev count_one : Bool → ℕ
count_one b = if b then 1 else 0

-- `numTraps`
unfoldable pub num_traps : Trap → ℕ
num_traps trap =
    count_one (honeytoken_is_set trap.filesystem_honeytoken)
    + count_one (endpoint_is_set trap.http_endpoint)
    + count_one (payload_is_set trap.http_payload)

-- The final switch over the trap's type.
unfoldable pub type_is_valid : Trap → TrapType → Verdict
type_is_valid trap TrapType.filesystem_honeytoken = honeytoken_is_valid trap.filesystem_honeytoken
type_is_valid trap TrapType.http_endpoint = endpoint_is_valid trap.http_endpoint
type_is_valid trap TrapType.http_payload = payload_is_valid trap.http_payload
type_is_valid trap TrapType.unknown = invalid unknown_type

-- Trap.IsValid
unfoldable pub is_valid : Patterns → Trap → Verdict
unfolding filters_are_valid num_traps type_is_valid
is_valid patterns trap =
    any_is_set trap.match_resources.any
    then_check filters_are_valid patterns (elements trap.match_resources.any)
    then_check (if eqb (num_traps trap) 1 then valid else invalid (trap_count (num_traps trap)))
    then_check type_is_valid trap (trap_type trap)
