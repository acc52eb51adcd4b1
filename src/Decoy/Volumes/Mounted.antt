-- ===== src/Decoy/Volumes/Mounted.antt =====
-- A mounted honeytoken, by internal/controller/traps/filesystoken/deployment.go.
use koney.Prelude.{
  ◌≡◌, arith, [], true, ◌∷◌, ◌&&◌, ◌||◌, ◌==◌, List, Bool, String, not, exists-append, eq_iff,
  eq_refl, ◌++◌, refl,
}
use koney.Cluster.{Deployment, Container, Volume, VolumeMount}
use koney.Decoy.Volumes.{
  Mount, has_volume, has_mount, add_volume, add_mount, volume_of, mount_of, on_container, mount,
}

-- Each container of the name mounts the volume.
abbrev pub is_mounted_in : String → String → List Container → Bool
is_mounted_in volume_name container_name [] = true
is_mounted_in volume_name container_name (c ∷ containers) =
    (not (c.name == container_name) || has_mount volume_name c.volume_mounts)
    && is_mounted_in volume_name container_name containers

-- Each mount of the containers is of a volume that the deployment declares: Kubernetes refuses
-- other specifications.
abbrev pub mounts_declared : List Volume → List VolumeMount → Bool
mounts_declared volumes [] = true
mounts_declared volumes (m ∷ mounts) = has_volume m.name volumes && mounts_declared volumes mounts

abbrev pub containers_declared : List Volume → List Container → Bool
containers_declared volumes [] = true
containers_declared volumes (c ∷ containers) =
    mounts_declared volumes c.volume_mounts && containers_declared volumes containers

abbrev pub is_closed : Deployment → Bool
is_closed d = containers_declared d.volumes d.containers

has_volume-add_volume :
    (m : Mount) (volumes : List Volume) (n : String)
    → has_volume n (add_volume m volumes) ≡ (has_volume n volumes || m.volume_name == n)
unfolding add_volume
has_volume-add_volume m volumes n = ground (
  arith,
  exists-append (λ (v : Volume). v.name == n) volumes (volume_of m ∷ []),
  eq_iff m.volume_name n,
)

has_mount-add_mount :
    (m : Mount) (c : Container) → has_mount m.volume_name (add_mount m c).volume_mounts ≡ true
unfolding add_mount
has_mount-add_mount m c = ground (
  arith,
  exists-append (λ (x : VolumeMount). x.name == m.volume_name) c.volume_mounts (mount_of m ∷ []),
  eq_refl m.volume_name,
)

is_mounted_in-on_container :
    (m : Mount) (name : String) (containers : List Container)
    → is_mounted_in m.volume_name name (on_container name (add_mount m) containers) ≡ true
unfolding on_container
is_mounted_in-on_container m name [] = refl
is_mounted_in-on_container m name (c ∷ containers) =
    ground (arith, is_mounted_in-on_container m name containers, has_mount-add_mount m c)

mounts_declared-add_volume :
    (m : Mount) (volumes : List Volume) (mounts : List VolumeMount)
    → mounts_declared volumes mounts ≡ true
    → mounts_declared (add_volume m volumes) mounts ≡ true
mounts_declared-add_volume m volumes [] h = refl
mounts_declared-add_volume m volumes (x ∷ mounts) h =
    ground
      (arith, mounts_declared-add_volume m volumes mounts, has_volume-add_volume m volumes x.name)

mounts_declared-snoc :
    (volumes : List Volume) (mounts : List VolumeMount) (x : VolumeMount)
    → mounts_declared volumes mounts ≡ true
    → has_volume x.name volumes ≡ true
    → mounts_declared volumes (mounts ++ x ∷ []) ≡ true
mounts_declared-snoc volumes [] x h k = ground arith
mounts_declared-snoc volumes (y ∷ mounts) x h k =
    ground (arith, mounts_declared-snoc volumes mounts x)

mounts_declared-add_mount :
    (m : Mount) (volumes : List Volume) (c : Container)
    → mounts_declared volumes c.volume_mounts ≡ true
    → mounts_declared (add_volume m volumes) (add_mount m c).volume_mounts ≡ true
unfolding add_mount
mounts_declared-add_mount m volumes c h = ground (
  arith,
  mounts_declared-add_volume m volumes c.volume_mounts h,
  mounts_declared-snoc (add_volume m volumes) c.volume_mounts (mount_of m),
  has_volume-add_volume m volumes m.volume_name,
  eq_refl m.volume_name,
)

containers_declared-on_container :
    (m : Mount) (name : String) (volumes : List Volume) (containers : List Container)
    → containers_declared volumes containers ≡ true
    → containers_declared (add_volume m volumes) (on_container name (add_mount m) containers) ≡ true
unfolding on_container
containers_declared-on_container m name volumes [] h = refl
containers_declared-on_container m name volumes (c ∷ containers) h = ground (
  arith,
  containers_declared-on_container m name volumes containers,
  mounts_declared-add_mount m volumes c,
  mounts_declared-add_volume m volumes c.volume_mounts,
)

-- After the change of deployDecoyWithVolumeMount every container of the name mounts the volume,
-- the deployment declares it, and if all mounts were of declared volumes before then they are so
-- after.
pub mount-mounted :
    (m : Mount) (name : String) (d : Deployment)
    → (is_mounted_in m.volume_name name (mount m name d).containers ≡ true)
      × (has_volume m.volume_name (mount m name d).volumes ≡ true)
      × (is_closed d ≡ true → is_closed (mount m name d) ≡ true)
unfolding mount
mount-mounted m name d = (
  is_mounted_in-on_container m name d.containers,
  ground (arith, has_volume-add_volume m d.volumes m.volume_name, eq_refl m.volume_name),
  containers_declared-on_container m name d.volumes d.containers,
)

add_mount_idem : (m : Mount) (c : Container) → add_mount m (add_mount m c) ≡ add_mount m c
add_mount_idem m c = twice (add_mount m c) (has_mount-add_mount m c)
  where
    twice : (x : Container) → has_mount m.volume_name x.volume_mounts ≡ true → add_mount m x ≡ x
    twice x h = unfold add_mount in rw h

on_container_idem :
    (m : Mount) (name : String) (containers : List Container)
    → on_container name (add_mount m) (on_container name (add_mount m) containers)
      ≡ on_container name (add_mount m) containers
unfolding on_container
on_container_idem m name [] = refl
on_container_idem m name (c ∷ containers) =
    ground (arith, on_container_idem m name containers, add_mount_idem m c)

add_volume_idem :
    (m : Mount) (volumes : List Volume) → add_volume m (add_volume m volumes) ≡ add_volume m volumes
add_volume_idem m volumes =
    twice (add_volume m volumes)
      (ground (arith, has_volume-add_volume m volumes m.volume_name, eq_refl m.volume_name))
  where
    twice : (x : List Volume) → has_volume m.volume_name x ≡ true → add_volume m x ≡ x
    twice x h = unfold add_volume in rw h

-- The change of deployDecoyWithVolumeMount, made twice for a container, is that made once.
mount_idem :
    (m : Mount) (name : String) (d : Deployment) → mount m name (mount m name d) ≡ mount m name d
unfolding mount
mount_idem m name d = λ i. record d {
  volumes = add_volume_idem m d.volumes i;
  containers = on_container_idem m name d.containers i;
}
