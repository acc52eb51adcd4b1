-- ===== src/Decoy/Volumes.antt =====
-- The changes that deployDecoyWithVolumeMount of internal/controller/traps/filesystoken/deployment.go
-- and removeDecoyWithVolumeMount of removal.go make to the specification of a deployment, before
-- they write it back.
pub mod Mounted
pub mod Unmounted
use koney.Prelude.{
  [], none, some, ◌∷◌, ◌++◌, ◌==◌, List, Option, Bool, String, if◌then◌else◌, exists, keep, not,
}
use mathlib.Core.Option
use koney.Cluster.{Deployment, Container, Volume, VolumeMount}

-- What both functions derive from the trap: the generated names, and the mount's other fields.
pub record Mount : Type 0 where
  pub volume_name : String
  pub secret_name : String
  pub file_path : String
  pub file_name : String
  pub read_only : Bool

abbrev pub has_volume : String → List Volume → Bool
has_volume name = exists (λ v. v.name == name)

abbrev pub has_mount : String → List VolumeMount → Bool
has_mount name = exists (λ m. m.name == name)

abbrev pub volume_of : Mount → Volume
volume_of m = record { name = m.volume_name; secret = some m.secret_name }

abbrev pub mount_of : Mount → VolumeMount
mount_of m = record {
  name = m.volume_name;
  mount_path = m.file_path;
  read_only = m.read_only;
  sub_path = m.file_name;
}

-- `volumeAlreadyConfigured`, and the append.
unfoldable pub add_volume : Mount → List Volume → List Volume
add_volume m volumes =
    if has_volume m.volume_name volumes then volumes else volumes ++ volume_of m ∷ []

-- `volumeAlreadyMounted`, and the append, in one container.
unfoldable pub add_mount : Mount → Container → Container
add_mount m c =
    if has_mount m.volume_name c.volume_mounts
    then c
    else record c { volume_mounts = c.volume_mounts ++ mount_of m ∷ [] }

-- The loop over the containers: a function is applied to those of the name.
unfoldable pub on_container : String → (Container → Container) → List Container → List Container
on_container name f [] = []
on_container name f (c ∷ containers) =
    (if c.name == name then f c else c) ∷ on_container name f containers

-- The change of the specification in deployDecoyWithVolumeMount.
unfoldable pub mount : Mount → String → Deployment → Deployment
mount m container_name d = record d {
  volumes = add_volume m d.volumes;
  containers = on_container container_name (add_mount m) d.containers;
}

-- The loop over the mounts of one container in removeDecoyWithVolumeMount.
unfoldable pub remove_mount : String → Container → Container
remove_mount volume_name c = record c {
  volume_mounts = keep (λ m. not (m.name == volume_name)) c.volume_mounts;
}

-- The loop over the volumes: those that stay, and the secret of the last that goes. A volume that
-- goes and has no secret is a panic, `none`.
unfoldable pub remove_volume : String → List Volume → String → Option (List Volume × String)
remove_volume volume_name [] secret_name = some ([], secret_name)
remove_volume volume_name (v ∷ volumes) secret_name =
    if not (v.name == volume_name)
    then Option.map (λ r. (v ∷ r.0, r.1)) (remove_volume volume_name volumes secret_name)
    else elim v.secret [ none ↦ none | some secret ↦ remove_volume volume_name volumes secret ]

-- The change of the specification in removeDecoyWithVolumeMount, and the name of the secret to
-- delete, empty if there is none.
unfoldable pub unmount : String → String → Deployment → Option (Deployment × String)
unmount volume_name container_name d =
    Option.map
      (λ r. (
        record d {
          volumes = r.0;
          containers = on_container container_name (remove_mount volume_name) d.containers;
        },
        r.1,
      ))
      (remove_volume volume_name d.volumes "")
