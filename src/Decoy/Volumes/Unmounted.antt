-- ===== src/Decoy/Volumes/Unmounted.antt =====
-- A removed honeytoken, by internal/controller/traps/filesystoken/removal.go.
use mathlib.Core.Option
use koney.Prelude.{
  ◌≡◌, refl, arith, [], some, true, false, ◌∷◌, ◌++◌, ◌&&◌, ◌||◌, ◌==◌, List, Bool, String, not,
  keep, eq_refl, exists, eq_iff, none, inl, inr, Option, if◌then◌else◌, Option-cases,
}
use koney.Cluster.{Deployment, Container, Volume, VolumeMount}
use koney.Decoy.Volumes.{
  Mount, has_volume, has_mount, volume_of, mount_of, add_volume, add_mount, on_container, mount,
  remove_mount, remove_volume, unmount,
}
use koney.Decoy.Volumes.Mounted.{mounts_declared, containers_declared, is_closed}

-- No container of the name mounts the volume.
abbrev pub is_unmounted_in : String → String → List Container → Bool
is_unmounted_in volume_name name [] = true
is_unmounted_in volume_name name (c ∷ containers) =
    (not (c.name == name) || not (has_mount volume_name c.volume_mounts))
    && is_unmounted_in volume_name name containers

remove_mount-add_mount :
    (m : Mount) (mounts : List VolumeMount)
    → has_mount m.volume_name mounts ≡ false
    → keep (λ x. not (x.name == m.volume_name)) (mounts ++ mount_of m ∷ []) ≡ mounts
remove_mount-add_mount m [] h = ground (arith, eq_refl m.volume_name)
remove_mount-add_mount m (x ∷ mounts) h = ground (arith, remove_mount-add_mount m mounts)

remove-add_container :
    (m : Mount) (c : Container)
    → has_mount m.volume_name c.volume_mounts ≡ false
    → remove_mount m.volume_name (add_mount m c) ≡ c
unfolding remove_mount add_mount
remove-add_container m c h = rw (h, remove_mount-add_mount m c.volume_mounts h)

remove-add_containers :
    (m : Mount) (name : String) (containers : List Container)
    → is_unmounted_in m.volume_name name containers ≡ true
    → on_container name (remove_mount m.volume_name) (on_container name (add_mount m) containers)
      ≡ containers
unfolding on_container
remove-add_containers m name [] h = refl
remove-add_containers m name (c ∷ containers) h =
    ground
      (arith, remove-add_containers m name containers, remove-add_container m c, name-add_mount m c)
  where
    name-add_mount : (m : Mount) (c : Container) → (add_mount m c).name ≡ c.name
    name-add_mount m c = unfold add_mount in ground arith

remove-add_volume :
    (m : Mount) (volumes : List Volume) (secret : String)
    → has_volume m.volume_name volumes ≡ false
    → remove_volume m.volume_name (volumes ++ volume_of m ∷ []) secret
      ≡ some (volumes, m.secret_name)
unfolding remove_volume
remove-add_volume m [] secret h = ground (arith, eq_refl m.volume_name)
remove-add_volume m (v ∷ volumes) secret h = ground (arith, remove-add_volume m volumes secret)

-- If the deployment has no volume of the name, and no container of the given name mounts it, then
-- the change of removeDecoyWithVolumeMount after that of deployDecoyWithVolumeMount gives back the
-- deployment, and the secret to delete is that of the mount.
pub unmount-mount :
    (m : Mount) (name : String) (d : Deployment)
    → has_volume m.volume_name d.volumes ≡ false
    → is_unmounted_in m.volume_name name d.containers ≡ true
    → unmount m.volume_name name (mount m name d) ≡ some (d, m.secret_name)
unfolding unmount mount add_volume
unmount-mount m name d v c =
    rw (v, remove-add_volume m d.volumes "" v, remove-add_containers m name d.containers c)

has_volume-remove_volume :
    (n : String) (volumes : List Volume) (secret : String) {out : List Volume × String}
    → remove_volume n volumes secret ≡ some out
    → has_volume n out.0 ≡ false
unfolding remove_volume
has_volume-remove_volume n [] secret h = ground arith
has_volume-remove_volume n (v ∷ volumes) secret {out} h =
    go (remove_volume n volumes secret) v.secret refl
      (λ x r e. has_volume-remove_volume n volumes x {out = r} e) h
  where
    go :
        (o : Option (List Volume × String)) (s : Option String)
        → remove_volume n volumes secret ≡ o
        → ((x : String) (r : List Volume × String)
            → remove_volume n volumes x ≡ some r
            → has_volume n r.0 ≡ false)
        → (if not (v.name == n)
            then Option.map (λ r. (v ∷ r.0, r.1)) o
            else elim s [ none ↦ none | some x ↦ remove_volume n volumes x ])
          ≡ some out
        → has_volume n out.0 ≡ false
    go none none e rec h = ground arith
    go none (some x) e rec h = ground (arith, rec x out)
    go (some r) none e rec h = ground (arith, rec secret r e)
    go (some r) (some x) e rec h = ground (arith, rec secret r e, rec x out)

-- Some container of another name mounts the volume.
abbrev pub is_mounted_elsewhere : String → String → List Container → Bool
is_mounted_elsewhere volume_name name =
    exists (λ (c : Container). not (c.name == name) && has_mount volume_name c.volume_mounts)

not_declared :
    (n : String) (volumes : List Volume) (mounts : List VolumeMount)
    → has_volume n volumes ≡ false
    → has_mount n mounts ≡ true
    → mounts_declared volumes mounts ≡ false
not_declared n volumes [] h k = cc
not_declared n volumes (m ∷ mounts) h k =
    ground (arith, not_declared n volumes mounts, eq_iff m.name n)

elsewhere_not_declared :
    (n name : String) (volumes : List Volume) (containers : List Container)
    → has_volume n volumes ≡ false
    → is_mounted_elsewhere n name containers ≡ true
    → containers_declared volumes (on_container name (remove_mount n) containers) ≡ false
unfolding on_container
elsewhere_not_declared n name volumes [] h k = cc
elsewhere_not_declared n name volumes (c ∷ containers) h k = ground (
  arith,
  elsewhere_not_declared n name volumes containers,
  not_declared n volumes c.volume_mounts,
)

-- If removeDecoyWithVolumeMount takes a volume from a container, and a container of another name
-- mounts it, then the deployment has a mount of a volume that it does not declare.
pub unmount-dangling :
    (volume_name name : String) (d : Deployment) {out : Deployment × String}
    → unmount volume_name name d ≡ some out
    → is_mounted_elsewhere volume_name name d.containers ≡ true
    → is_closed out.0 ≡ false
unfolding unmount
unmount-dangling volume_name name d {out} h k =
    elim (Option-cases (remove_volume volume_name d.volumes "")) [
      | inl e ↦ ground (arith, e)
      | inr (r, e) ↦ ground (
        arith,
        e,
        has_volume-remove_volume volume_name d.volumes "" {out = r} e,
        elsewhere_not_declared volume_name name r.0 d.containers,
      )
    ]
