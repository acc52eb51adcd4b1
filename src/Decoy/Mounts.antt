-- ===== src/Decoy/Mounts.antt =====
-- deployDecoyWithVolumeMount of internal/controller/traps/filesystoken/deployment.go and
-- removeDecoyWithVolumeMount of removal.go, with their calls of the cluster. Both get a copy of the
-- caller's deployment that shares its array of containers: a change of the copy's containers is one
-- of the caller's too, so the deployment that the caller then has is returned as well.
pub mod Laws
use Prim.Native.Char.{code}
use koney.Prelude.{
  ◌==◌, ◌++◌, ◌||◌, [], ◌∷◌, none, some, ok, err, false, String, Bool, if◌then◌else◌, Result, eqb,
}
use koney.Api.Trap.{Trap}
use koney.Cluster.{Deployment, Object, deployment}
use koney.Libraries.{Libraries}
use koney.Captor.Names.{generate_secret_name, generate_volume_name}
use koney.Decoy.Volumes.{Mount, mount, unmount}
use koney.Decoy.Secret.{Secret, create_secret_if_missing}
use koney.Controller.Results.{Cause, Errors, text}
use koney.Effects.{
  Cluster, M, Run, Answer, errors_of, ◌>>=◌, ask, or_panic, update_object, get_object,
  delete_secret, get_secret, lift,
}

abbrev has_slash : String → Bool
has_slash String.[] = false
has_slash (String.◌∷◌ x s) = eqb (code x) b'/' || has_slash s

-- The second result of `filepath.Split`: what follows the last slash.
unfoldable pub file_name_of : String → String
file_name_of String.[] = ""
file_name_of (String.◌∷◌ x s) =
    let rest = file_name_of s in
    if has_slash s then rest else if eqb (code x) b'/' then s else String.◌∷◌ x s

-- What is mounted for a trap, by the generated names.
abbrev pub mount_for : Libraries → Trap → Mount
mount_for l trap = record {
  volume_name = generate_volume_name l.md5 trap.filesystem_honeytoken.file_path;
  secret_name = generate_secret_name l.md5 trap;
  file_path = trap.filesystem_honeytoken.file_path;
  file_name = file_name_of trap.filesystem_honeytoken.file_path;
  read_only = trap.filesystem_honeytoken.read_only;
}

abbrev pub secret_for : Libraries → Trap → Deployment → Secret
secret_for l trap d = record {
  namespace = d.meta.namespace;
  name = generate_secret_name l.md5 trap;
  file_name = file_name_of trap.filesystem_honeytoken.file_path;
  content = trap.filesystem_honeytoken.file_content;
}

-- `retry.RetryOnConflict` of `r.Update`
abbrev pub update_once : Cluster → Object → Unit {0} → M (Answer × Unit {0})
update_once c o u h = let (e, h') = ask c.run (update_object o) h in ((e, u), h')

abbrev pub update : Cluster → Object → M Answer
update c o h = let (r, h') = c.retry (update_once c o) tt h in (r.0, h')

-- What follows `r.Get` of the deployment: without an answer the code goes on with its stale copy,
-- and so changes the caller's containers.
unfoldable pub mount_fetched :
    Cluster → Mount → String → Deployment → Result Cause Deployment → M (Errors × Deployment)
mount_fetched c m container_name d (ok fresh) h =
    let (e, h') = update c (deployment (mount m container_name fresh)) h in ((errors_of e, d), h')
mount_fetched c m container_name d (err x) h =
    let stale = mount m container_name d in
    let (e, h') = update c (deployment stale) h in
    ((x ∷ errors_of e, record d { containers = stale.containers }), h')

-- What follows createSecret.
unfoldable pub mount_decoy :
    Cluster → Mount → String → Deployment → Answer → M (Errors × Deployment)
mount_decoy c m container_name d (some e) h = ((e ∷ [], d), h)
mount_decoy c m container_name d none h =
    let (r, h') = ask c.deployment (get_object (deployment d)) h in
    mount_fetched c m container_name d r h'

abbrev pub deploy_named : Libraries → Cluster → Trap → Deployment → String → M (Errors × Deployment)
deploy_named l c trap d container_name h =
    let (e, h') = create_secret_if_missing c (secret_for l trap d) h in
    mount_decoy c (mount_for l trap) container_name d e h'

-- FilesystemHoneytokenReconciler.deployDecoyWithVolumeMount
unfoldable pub deploy_decoy_with_volume_mount :
    Libraries → Cluster → Trap → Deployment → String → M (Errors × Deployment)
deploy_decoy_with_volume_mount l c trap d container_name h =
    if file_name_of trap.filesystem_honeytoken.file_path == ""
    then ((text "file path must point to a file" ∷ [], d), h)
    else deploy_named l c trap d container_name h

-- What is done with the secret that the volume had, if it is still there: the error of its deletion
-- is dropped.
unfoldable pub drop_secret : Cluster → String → String → Result Cause String → M Errors
drop_secret c namespace secret_name (ok found) h =
    ([], (ask c.run (delete_secret namespace secret_name) h).1)
drop_secret c namespace secret_name (err e) h = (e ∷ [], h)

unfoldable pub delete_secret_of : Cluster → String → String → M Errors
delete_secret_of c namespace secret_name h =
    if secret_name == ""
    then ([], h)
    else (let (r, h') = ask c.secret (get_secret namespace secret_name) h in
        drop_secret c namespace secret_name r h')

-- What follows the change of the specification.
unfoldable pub remove_mounted : Cluster → Deployment → Deployment × String → M (Errors × Deployment)
remove_mounted c d (changed, secret_name) h =
    let (e, h1) = update c (deployment changed) h in
    let (errors, h2) = delete_secret_of c d.meta.namespace secret_name h1 in
    ((errors_of e ++ errors, record d { containers = changed.containers }), h2)

-- FilesystemHoneytokenReconciler.removeDecoyWithVolumeMount, with the path of the honeytoken.
unfoldable pub remove_decoy_with_volume_mount :
    Libraries → Cluster → String → Deployment → String → Run (Errors × Deployment)
remove_decoy_with_volume_mount l c file_path d container_name =
    or_panic (unmount (generate_volume_name l.md5 file_path) container_name d) >>= λ r.
    lift (remove_mounted c d r)
