-- ===== src/Decoy/Mounts/Laws.antt =====
-- What a deployDecoyWithVolumeMount without an error has done, with createSecret
-- (internal/controller/traps/filesystoken/deployment.go and utils.go).
use koney.Decoy.Volumes.Mounted.{mount-mounted, is_mounted_in}
use koney.Effects.Steps.{LastDone, Attempts-last, errors_of_nil}
use koney.Controller.Results.{Cause, text, not_found, conflict, no_kind_match}
use koney.Api.Trap.{Trap}
use koney.Decoy.Volumes.{Mount, mount, has_volume}
use koney.Cluster.{Object, Deployment, deployment}
use koney.Libraries.{Libraries}
use koney.Decoy.Mounts.{
  mount_fetched, mount_decoy, deploy_decoy_with_volume_mount, secret_for, update, mount_for,
  deploy_named, file_name_of, update_once,
}
use koney.Decoy.Secret.{create_unless_found, create_secret_if_missing, Secret, create_now, create}
use koney.Effects.{
  Cluster, History, RetriesOnConflict, get_secret, Answer, get_object, create_secret, update_object,
}
use koney.Prelude.{
  [], none, some, true, false, ok, err, ◌∷◌, ◌≡◌, ◌==◌, Bool, String, if◌then◌else◌, Result, refl,
}

create_now-LastDone :
    (c : Cluster) (s : Secret) (h : History)
    → RetriesOnConflict c
    → (create_now c s h).0 ≡ none
    → LastDone c (create_secret s.namespace s.name s.file_name s.content) (create_now c s h).1
create_now-LastDone c s h retries e =
    Attempts-last (create c s)
      (λ out.
        out.0.0 ≡ none → LastDone c (create_secret s.namespace s.name s.file_name s.content) out.1)
      (λ u h' k. (refl, k)) (retries (Unit {0}) (create c s) tt h) e

update-LastDone :
    (c : Cluster) (o : Object) (h : History)
    → RetriesOnConflict c
    → (update c o h).0 ≡ none
    → LastDone c (update_object o) (update c o h).1
update-LastDone c o h retries e =
    Attempts-last (update_once c o) (λ out. out.0.0 ≡ none → LastDone c (update_object o) out.1)
      (λ u h' k. (refl, k)) (retries (Unit {0}) (update_once c o) tt h) e

-- The secret was found, under a name, or the last call has created it.
pub data HasSecret (c : Cluster) (s : Secret) (h : History) : History → Type 0 where
  found :
      (name : String)
      → c.secret h (get_secret s.namespace s.name) ≡ ok name
      → (name == "") ≡ false
      → HasSecret c s h (get_secret s.namespace s.name ∷ h)
  created :
      (h' : History)
      → LastDone c (create_secret s.namespace s.name s.file_name s.content) h'
      → HasSecret c s h h'

create_unless_found-HasSecret :
    (c : Cluster) (s : Secret) (r : Result Cause String) (h : History)
    → RetriesOnConflict c
    → c.secret h (get_secret s.namespace s.name) ≡ r
    → (create_unless_found c s r (get_secret s.namespace s.name ∷ h)).0 ≡ none
    → HasSecret c s h (create_unless_found c s r (get_secret s.namespace s.name ∷ h)).1
unfolding create_unless_found
create_unless_found-HasSecret c s (ok name) h retries asked e = go (name == "") refl e
  where
    h1 : History
    h1 = get_secret s.namespace s.name ∷ h

    go :
        (b : Bool)
        → (name == "") ≡ b
        → ((if b then create_now c s h1 else (none, h1)).0 ≡ none)
        → HasSecret c s h (if b then create_now c s h1 else (none, h1)).1
    go true k e = created _ (create_now-LastDone c s h1 retries e)
    go false k e = found name asked k
create_unless_found-HasSecret c s (err not_found) h retries asked e =
    created _ (create_now-LastDone c s _ retries e)
create_unless_found-HasSecret c s (err conflict) h retries asked e = cc
create_unless_found-HasSecret c s (err no_kind_match) h retries asked e = cc
create_unless_found-HasSecret c s (err (text m)) h retries asked e = cc

create_secret_if_missing-HasSecret :
    (c : Cluster) (s : Secret) (h : History)
    → RetriesOnConflict c
    → (create_secret_if_missing c s h).0 ≡ none
    → HasSecret c s h (create_secret_if_missing c s h).1
unfolding create_secret_if_missing
create_secret_if_missing-HasSecret c s h retries e =
    create_unless_found-HasSecret c s (c.secret h (get_secret s.namespace s.name)) h retries refl e

mount_fetched-LastDone :
    (c : Cluster) (m : Mount) (name : String) (d : Deployment) (r : Result Cause Deployment)
    (h : History)
    → RetriesOnConflict c
    → (mount_fetched c m name d r h).0.0 ≡ []
    → (fresh : Deployment) × (r ≡ ok fresh)
      × LastDone c
          (update_object (deployment (mount m name fresh)))
          (mount_fetched c m name d r h).1
unfolding mount_fetched
mount_fetched-LastDone c m name d (ok fresh) h retries e =
    (fresh, refl, update-LastDone c (deployment (mount m name fresh)) h retries (errors_of_nil _ e))
mount_fetched-LastDone c m name d (err x) h retries e = cc

-- What has happened when no error is returned.
pub record Mounted (l : Libraries) (c : Cluster) (trap : Trap) (d : Deployment) (name : String)
    (h h' : History) : Type 0 where
  -- the deployment as it was fetched, after the secret was seen to
  pub fresh : Deployment
  pub middle : History
  pub secret : HasSecret c (secret_for l trap d) h middle
  pub fetched : c.deployment middle (get_object (deployment d)) ≡ ok fresh
  pub written : LastDone c (update_object (deployment (mount (mount_for l trap) name fresh))) h'
  -- every container of the name mounts the volume, which the deployment declares
  pub is_mounted :
      is_mounted_in
        (mount_for l trap).volume_name
        name
        (mount (mount_for l trap) name fresh).containers
      ≡ true
  pub is_declared :
      has_volume (mount_for l trap).volume_name (mount (mount_for l trap) name fresh).volumes ≡ true

mount_decoy-Mounted :
    (l : Libraries) (c : Cluster) (trap : Trap) (d : Deployment) (name : String) (answer : Answer)
    (h middle : History)
    → RetriesOnConflict c
    → (answer ≡ none → HasSecret c (secret_for l trap d) h middle)
    → (mount_decoy c (mount_for l trap) name d answer middle).0.0 ≡ []
    → Mounted l c trap d name h (mount_decoy c (mount_for l trap) name d answer middle).1
unfolding mount_decoy
mount_decoy-Mounted l c trap d name (some e) h middle retries s k = cc
mount_decoy-Mounted l c trap d name none h middle retries s k =
    let f =
      mount_fetched-LastDone c (mount_for l trap) name d
        (c.deployment middle (get_object (deployment d))) _ retries k in
    let m = mount-mounted (mount_for l trap) name f.0 in
    record {
      fresh = f.0;
      middle = middle;
      secret = s refl;
      fetched = f.1;
      written = f.2;
      is_mounted = m.0;
      is_declared = m.1;
    }

-- If retries behave as documented and deployDecoyWithVolumeMount returns no error, then the secret
-- was found under a name or created, after that the deployment was fetched, and the last call
-- wrote back, without an error, the fetched deployment with the change, in which each container of
-- the name mounts the volume and the volume is declared.
pub deploy_decoy_with_volume_mount-Mounted :
    (l : Libraries) (c : Cluster) (trap : Trap) (d : Deployment) (name : String) (h : History)
    → RetriesOnConflict c
    → (deploy_decoy_with_volume_mount l c trap d name h).0.0 ≡ []
    → Mounted l c trap d name h (deploy_decoy_with_volume_mount l c trap d name h).1
unfolding deploy_decoy_with_volume_mount
deploy_decoy_with_volume_mount-Mounted l c trap d name h retries e =
    go (file_name_of trap.filesystem_honeytoken.file_path == "") e
  where
    go :
        (b : Bool)
        → ((if b
              then ((text "file path must point to a file" ∷ [], d), h)
              else deploy_named l c trap d name h).0.0
            ≡ [])
        → Mounted l c trap d name h
            (if b
              then ((text "file path must point to a file" ∷ [], d), h)
              else deploy_named l c trap d name h).1
    go true e = cc
    go false e =
        mount_decoy-Mounted l c trap d name _ h _ retries
          (create_secret_if_missing-HasSecret c (secret_for l trap d) h retries) e
