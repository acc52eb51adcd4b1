-- ===== src/Captor/Names.antt =====
-- The generated names of internal/controller/traps/filesystoken/utils.go. `json.Marshal` of a trap
-- and MD5 are parameters.
use mathlib.Core.Option
use Prim.Native.String.{◌++◌ as ◌+++◌}
use koney.Prelude.{◌≡◌, false, Option, String, ap}
use koney.Utils.Bytes.{Bytes}
use koney.Utils.Hash.{hash}
use koney.Api.Trap.{Trap, TrapType, trap_type}

-- `json.Marshal(trap)`, `none` being an error, and `md5.Sum`.
pub record Digests : Type 0 where
  pub marshal_trap : Trap → Option String
  pub md5 : Bytes → Bytes

-- filesystoken.GenerateTetragonTracingPolicyName
unfoldable pub generate_tetragon_tracing_policy_name : Digests → Trap → Option String
generate_tetragon_tracing_policy_name d trap =
    Option.map (λ trap_json. ◌+++◌ "koney-tracing-policy-" (hash d.md5 trap_json))
      (d.marshal_trap trap)

-- The assignments to the trap, a copy of the caller's.
abbrev without_irrelevant : Trap → Trap
without_irrelevant trap = record trap {
  decoy_deployment = record { strategy = "" };
  filesystem_honeytoken = record trap.filesystem_honeytoken {
    file_content = "";
    read_only = false;
  };
}

-- filesystoken.GenerateKivePolicyName
unfoldable pub generate_kive_policy_name : Digests → Trap → Option String
unfolding generate_tetragon_tracing_policy_name
generate_kive_policy_name d trap = generate_tetragon_tracing_policy_name d (without_irrelevant trap)

abbrev secret_suffix : (Bytes → Bytes) → TrapType → Trap → String
secret_suffix md5 TrapType.filesystem_honeytoken trap =
    hash md5 (
      ◌+++◌ trap.filesystem_honeytoken.file_path
        (◌+++◌ ":" trap.filesystem_honeytoken.file_content))
secret_suffix md5 TrapType.http_endpoint trap = ""
secret_suffix md5 TrapType.http_payload trap = ""
secret_suffix md5 TrapType.unknown trap = ""

-- filesystoken.generateSecretName
unfoldable pub generate_secret_name : (Bytes → Bytes) → Trap → String
generate_secret_name md5 trap = ◌+++◌ "koney-secret-" (secret_suffix md5 (trap_type trap) trap)

-- filesystoken.generateVolumeName
unfoldable pub generate_volume_name : (Bytes → Bytes) → String → String
generate_volume_name md5 file_path = ◌+++◌ "koney-volume-" (hash md5 file_path)

-- What a Kive policy is about: everything of a trap but how and with what content it is deployed.
record SameForKive (t u : Trap) : Type 0 where
  path : t.filesystem_honeytoken.file_path ≡ u.filesystem_honeytoken.file_path
  endpoint : t.http_endpoint ≡ u.http_endpoint
  payload : t.http_payload ≡ u.http_payload
  captor : t.captor_deployment ≡ u.captor_deployment
  resources : t.match_resources ≡ u.match_resources

-- Traps that differ only in the decoy's strategy, in the content or in the read-only flag have the
-- same name of a Kive policy.
generate_kive_policy_name-SameForKive :
    (d : Digests) (t u : Trap)
    → SameForKive t u
    → generate_kive_policy_name d t ≡ generate_kive_policy_name d u
unfolding generate_kive_policy_name
generate_kive_policy_name-SameForKive d t u h = ap (generate_tetragon_tracing_policy_name d) λ i.
    record {
      filesystem_honeytoken = record { file_path = h.path i; file_content = ""; read_only = false };
      http_endpoint = h.endpoint i;
      http_payload = h.payload i;
      decoy_deployment = record { strategy = "" };
      captor_deployment = h.captor i;
      match_resources = h.resources i;
    }
