-- ===== src/Cluster.antt =====
-- The objects of Kubernetes that the controller handles, with the fields that it reads or writes,
-- and the parameters that stand for libraries. A nil map or pointer is `none`.
use koney.Prelude.{ℕ, String, Bool, Option, List, StringMap}
use koney.Utils.Conditions.{Condition}

-- metav1.ObjectMeta; times count from the zero time of Go.
pub record ObjectMeta : Type 0 where
  pub name : String
  pub namespace : String
  pub creation_timestamp : ℕ
  pub deletion_timestamp : Option ℕ
  pub annotations : Option (StringMap String)

pub record VolumeMount : Type 0 where
  pub name : String
  pub mount_path : String
  pub read_only : Bool
  pub sub_path : String

-- A volume, with the name of its secret if that is its source.
pub record Volume : Type 0 where
  pub name : String
  pub secret : Option String

pub record Container : Type 0 where
  pub name : String
  pub volume_mounts : List VolumeMount

-- corev1.ContainerStatus: `State.Running != nil` and `Ready`
pub record ContainerStatus : Type 0 where
  pub name : String
  pub running : Bool
  pub ready : Bool

pub record Pod : Type 0 where
  pub meta : ObjectMeta
  pub containers : List Container
  pub phase : String
  pub conditions : List Condition
  pub container_statuses : List ContainerStatus

pub record Deployment : Type 0 where
  pub meta : ObjectMeta
  pub containers : List Container
  pub volumes : List Volume
  pub conditions : List Condition

-- client.Object: a pod, a deployment or something else.
pub data Object : Type 0 where
  pod : Pod → Object
  deployment : Deployment → Object
  other : ObjectMeta → Object

abbrev pub meta_of : Object → ObjectMeta
meta_of (pod p) = p.meta
meta_of (deployment d) = d.meta
meta_of (other m) = m

abbrev pub with_meta : Object → ObjectMeta → Object
with_meta (pod p) m = pod (record p { meta = m })
with_meta (deployment d) m = deployment (record d { meta = m })
with_meta (other _) m = other m

abbrev pub name_of : Object → String
name_of o = (meta_of o).name
