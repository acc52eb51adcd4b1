-- ===== src/Examples.antt =====
-- Sample traps, objects and libraries, on which the theorems are tried out.
pub mod Traps
pub mod Runs
pub mod Reconcile
pub mod Decoys
pub mod Objects
pub mod Policies
pub mod Json
pub mod Records
use koney.Utils.Conditions.{ConditionStatus}
use koney.Api.Status.{Condition}
use koney.Matching.Selectors.{ObjectMap}
use koney.Utils.Conditions.{ConditionStatus}
use koney.Decoy.Volumes.{Mount, mount_of, volume_of}
use koney.Matching.Listing.{Reader}
use koney.Cluster.{ObjectMeta, Container, Pod, Deployment, pod}
use koney.Utils.Bytes.{Bytes}
use koney.Api.Trap.{ResourceFilter, Trap}
use koney.Utils.Names.{Patterns}
use koney.Prelude.{List, [], ◌∷◌, String, none, some, true, false, StringMap, if◌then◌else◌, ◌==◌}

-- A pattern library that knows the pattern for everything and no other.
abbrev pub patterns : Patterns
patterns = record {
  regex_match = λ pattern name. if pattern == ".*" then some true else none;
  glob_match = λ pattern name. if pattern == "*" then some true else none;
}

abbrev pub web_labels : StringMap String
web_labels = ("app", "web") ∷ []

abbrev pub web_filter : ResourceFilter
web_filter = record {
  namespaces = some ("prod" ∷ []);
  selector = some (record { match_labels = web_labels });
  container_selector = "nginx";
}

abbrev pub trap_on : List ResourceFilter → Trap
trap_on filters = record {
  filesystem_honeytoken = record {
    file_path = "/run/secrets/token";
    file_content = "secret";
    read_only = true;
  };
  http_endpoint = record {};
  http_payload = record {};
  decoy_deployment = record { strategy = "containerExec" };
  captor_deployment = record { strategy = "tetragon" };
  match_resources = record { any = some filters };
}

abbrev pub web_trap : Trap
web_trap = trap_on (web_filter ∷ [])

-- The same trap, deployed in another way and with another content.
abbrev pub mounted_trap : Trap
mounted_trap = record web_trap {
  decoy_deployment = record { strategy = "volumeMount" };
  filesystem_honeytoken = record {
    file_path = "/run/secrets/token";
    file_content = "other";
    read_only = false;
  };
}

-- A digest of the right size that is the same for all inputs.
abbrev pub md5 : Bytes → Bytes
md5 b = 1 ∷ 2 ∷ 3 ∷ 4 ∷ 5 ∷ 6 ∷ 7 ∷ 8 ∷ 9 ∷ 10 ∷ 11 ∷ 12 ∷ 13 ∷ 14 ∷ 15 ∷ 16 ∷ []

abbrev pub meta : String → ObjectMeta
meta name = record {
  name = name;
  namespace = "prod";
  creation_timestamp = 5;
  deletion_timestamp = none;
  annotations = none;
}

abbrev pub container : String → Container
container name = record { name = name; volume_mounts = [] }

-- A running pod with one ready container and one that is not.
abbrev pub web_pod : Pod
web_pod = record {
  meta = meta "web-0";
  containers = container "nginx" ∷ container "sidecar" ∷ [];
  phase = "Running";
  conditions = record { kind = "ContainersReady"; status = ConditionStatus.is_true } ∷ [];
  container_statuses =
      record { name = "nginx"; running = true; ready = true }
      ∷ record { name = "sidecar"; running = true; ready = false }
      ∷ [];
}

abbrev pub web_deployment : Deployment
web_deployment = record {
  meta = meta "web";
  containers = container "nginx" ∷ container "sidecar" ∷ [];
  volumes = [];
  conditions = record { kind = "Available"; status = ConditionStatus.is_true } ∷ [];
}

-- A cluster with the pod and the deployment, whatever is asked for.
abbrev pub reader : Reader
reader = record {
  list_pods = λ o. some (web_pod ∷ []);
  list_deployments = λ o. some (web_deployment ∷ []);
}

-- A filter with an empty list of namespaces and no selector.
abbrev pub nothing_filter : ResourceFilter
nothing_filter = record { namespaces = some []; selector = none; container_selector = "" }

-- A filter that names a namespace and has no selector.
abbrev pub namespace_filter : ResourceFilter
namespace_filter = record {
  namespaces = some ("prod" ∷ []);
  selector = none;
  container_selector = "nginx";
}

abbrev pub token_mount : Mount
token_mount = record {
  volume_name = "koney-volume-1";
  secret_name = "koney-secret-1";
  file_path = "/run/secrets/token";
  file_name = "token";
  read_only = true;
}

-- The deployment after the honeytoken was mounted in both of its containers.
abbrev pub both_mounted : Deployment
both_mounted = record web_deployment {
  containers =
      record { name = "nginx"; volume_mounts = mount_of token_mount ∷ [] }
      ∷ record { name = "sidecar"; volume_mounts = mount_of token_mount ∷ [] }
      ∷ [];
  volumes = volume_of token_mount ∷ [];
}

abbrev pub pod_map : ObjectMap
pod_map = (pod web_pod, "nginx" ∷ "sidecar" ∷ []) ∷ []

-- A filter whose pattern does not compile.
abbrev pub bad_filter : ResourceFilter
bad_filter = record web_filter { container_selector = "regex:[" }

abbrev pub deployed : Condition
deployed = record {
  kind = "DecoysDeployed";
  status = ConditionStatus.is_true;
  last_transition_time = 7;
  reason = "DecoyDeploymentSucceeded";
  message = "1/1 decoys deployed";
}
