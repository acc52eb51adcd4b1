-- ===== src/Annotations/Same.antt =====
-- AreTheSameTrap and convertTrapToTrapAnnotation of internal/controller/annotations/annotations.go.
use koney.Prelude.{
  ◌==◌, List, Bool, String, if◌then◌else◌, Option, not, some, false, none, bool_eq, true, length,
  ◌≡◌, arith, eq_refl, refl,
}
use koney.Utils.Bytes.{Bytes, bytes}
use koney.Utils.Hash.{hash, hash-ne-nil}
use koney.Api.Trap.{trap_type, Trap, TrapType, trap_type_eq}
use koney.Api.Annotation
use koney.Api.Annotation.{TrapAnnotation, no_honeytoken}

-- The comparison of the configurations, by the trap's type.
same_configuration : (Bytes → Bytes) → TrapType → TrapAnnotation → Trap → Bool
same_configuration md5 TrapType.filesystem_honeytoken a trap =
    if not (a.filesystem_honeytoken.file_path == trap.filesystem_honeytoken.file_path)
    then false
    else if not (
        a.filesystem_honeytoken.file_content_hash
        == hash md5 trap.filesystem_honeytoken.file_content)
    then false
    else if not (bool_eq a.filesystem_honeytoken.read_only trap.filesystem_honeytoken.read_only)
    then false
    else true
same_configuration md5 TrapType.http_endpoint a trap = false
same_configuration md5 TrapType.http_payload a trap = false
same_configuration md5 TrapType.unknown a trap = false

-- annotations.AreTheSameTrap
unfoldable pub are_the_same_trap : (Bytes → Bytes) → TrapAnnotation → Trap → Bool
unfolding same_configuration
are_the_same_trap md5 a trap =
    if not (a.deployment_strategy == trap.decoy_deployment.strategy)
    then false
    else if not (trap_type_eq (Annotation.trap_type a) (trap_type trap))
    then false
    else same_configuration md5 (trap_type trap) a trap

abbrev blank_annotation : Trap → List String → String → TrapAnnotation
blank_annotation trap containers now = record {
  deployment_strategy = trap.decoy_deployment.strategy;
  containers = containers;
  created_at = now;
  updated_at = "";
  filesystem_honeytoken = no_honeytoken;
  http_endpoint = record {};
  http_payload = record {};
}

convert_by_type : (Bytes → Bytes) → TrapType → Trap → List String → String → Option TrapAnnotation
convert_by_type md5 TrapType.filesystem_honeytoken trap containers now =
    some (record (blank_annotation trap containers now) {
      filesystem_honeytoken = record {
        file_path = trap.filesystem_honeytoken.file_path;
        file_content_hash = hash md5 trap.filesystem_honeytoken.file_content;
        read_only = trap.filesystem_honeytoken.read_only;
      };
    })
convert_by_type md5 TrapType.http_endpoint trap containers now =
    some (record (blank_annotation trap containers now) { http_endpoint = record {} })
convert_by_type md5 TrapType.http_payload trap containers now =
    some (record (blank_annotation trap containers now) { http_payload = record {} })
convert_by_type md5 TrapType.unknown trap containers now = none

-- convertTrapToTrapAnnotation; `none` is the error of an unknown type.
unfoldable pub convert_trap_to_trap_annotation :
    (Bytes → Bytes) → Trap → List String → String → Option TrapAnnotation
unfolding convert_by_type
convert_trap_to_trap_annotation md5 trap containers now =
    convert_by_type md5 (trap_type trap) trap containers now

-- If a filesystem honeytoken is converted to an annotation, and the digest of its content has 16
-- bytes, then the annotation and the trap are the same trap for AreTheSameTrap, whatever
-- containers and time it was made with.
pub are_the_same_trap-convert :
    (md5 : Bytes → Bytes) (trap : Trap) (containers : List String) (now : String)
    {a : TrapAnnotation}
    → length (md5 (bytes trap.filesystem_honeytoken.file_content)) ≡ 16
    → trap_type trap ≡ TrapType.filesystem_honeytoken
    → convert_trap_to_trap_annotation md5 trap containers now ≡ some a
    → are_the_same_trap md5 a trap ≡ true
unfolding are_the_same_trap convert_trap_to_trap_annotation Annotation.trap_type
are_the_same_trap-convert md5 trap containers now digest typed e = ground (
  arith,
  hash-ne-nil md5 trap.filesystem_honeytoken.file_content digest,
  eq_refl trap.decoy_deployment.strategy,
  eq_refl trap.filesystem_honeytoken.file_path,
  eq_refl (hash md5 trap.filesystem_honeytoken.file_content),
)

pub containers-convert :
    (md5 : Bytes → Bytes) (trap : Trap) (containers : List String) (now : String)
    {a : TrapAnnotation}
    → convert_trap_to_trap_annotation md5 trap containers now ≡ some a
    → a.containers ≡ containers
unfolding convert_trap_to_trap_annotation
containers-convert md5 trap containers now {a} e = go (trap_type trap) e
  where
    go :
        (t : TrapType)
        → convert_by_type md5 t trap containers now ≡ some a
        → a.containers ≡ containers
    go t e = ground arith

-- A trap with a honeytoken can be converted.
pub convert-total :
    (md5 : Bytes → Bytes) (trap : Trap) (containers : List String) (now : String)
    → trap_type trap ≡ TrapType.filesystem_honeytoken
    → (a : TrapAnnotation) × (convert_trap_to_trap_annotation md5 trap containers now ≡ some a)
unfolding convert_trap_to_trap_annotation
convert-total md5 trap containers now typed = rw typed (_, refl)
