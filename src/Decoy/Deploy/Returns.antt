-- ===== src/Decoy/Deploy/Returns.antt =====
-- Panics of DeployDecoy (internal/controller/traps/filesystoken/deployment.go) for traps with an
-- absolute path.
use koney.Matching.Deployable.{MatchingResult}
use koney.Controller.Results.{Errors}
use koney.Matching.Selectors.{ObjectMap, MatchError}
use koney.Api.Annotation.{ChangeAnnotation}
use koney.Utils.Collections.{contains}
use koney.Api.Policy.{Policy}
use koney.Cluster.{Object, Pod, pod, deployment, other}
use koney.Decoy.Deploy.{
  deploy_by_exec, deploy_by_mount, deploy_to_container, deploy_to_containers, deploy_to_resource,
  deploy_to_resources, deploy_matched, deploy_decoy, Progress,
}
use koney.Api.Trap.{Trap}
use koney.Libraries.{Libraries}
use koney.Utils.Bytes.{bytes, Bytes, bytes-absolute}
use koney.Decoy.Exec.{directory_of, deploy_decoy_with_container_exec}
use koney.Effects.Steps.{Returns, after-Returns}
use koney.Effects.{Run, Cluster}
use koney.Prelude.{
  [], none, some, true, false, ok, err, ◌∷◌, ◌≡◌, ◌==◌, List, Option, Bool, String, if◌then◌else◌,
  Result, starts_with, is_some, refl, string_eq,
}

directory_of-absolute : (s : Bytes) → is_some (directory_of (b'/' ∷ s)) ≡ true
unfolding directory_of
directory_of-absolute s = go (directory_of s)
  where
    go :
        (directory : Option Bytes)
        → is_some (elim directory [ some d ↦ some (b'/' ∷ d) | none ↦ some [] ]) ≡ true
    go none = refl
    go (some d) = refl

directory_of-path :
    (path : String) → starts_with path "/" ≡ true → is_some (directory_of (bytes path)) ≡ true
directory_of-path path e =
    let (rest, same) = bytes-absolute path e in rw same (directory_of-absolute rest)

module _ (l : Libraries) (c : Cluster) (trap : Trap)
    (absolute : starts_with trap.filesystem_honeytoken.file_path "/" ≡ true) where
  exec-Returns :
      (p : Pod) (name : String) → Returns (deploy_decoy_with_container_exec c trap p name)
  unfolding deploy_decoy_with_container_exec
  exec-Returns p name h = after-Returns _ _ (directory_of-path _ absolute) (λ d h'. refl)

  deploy_by_exec-Returns :
      (o : Object) (s : Progress) (name : String) → Returns (deploy_by_exec c trap o s name)
  unfolding deploy_by_exec
  deploy_by_exec-Returns (pod p) s name h =
      after-Returns _ (deploy_decoy_with_container_exec c trap p name h) (exec-Returns p name h)
        (λ e h'. refl)
  deploy_by_exec-Returns (deployment d) s name h = refl
  deploy_by_exec-Returns (other m) s name h = refl

  deploy_by_mount-Returns :
      (o : Object) (s : Progress) (name : String) → Returns (deploy_by_mount l c trap o s name)
  unfolding deploy_by_mount
  deploy_by_mount-Returns (pod p) s name h = refl
  deploy_by_mount-Returns (deployment d) s name h = refl
  deploy_by_mount-Returns (other m) s name h = refl

  if-Returns :
      {A : Type 0} (b : Bool) (x y : Run A) → Returns x → Returns y → Returns (if b then x else y)
  if-Returns true x y p q = p
  if-Returns false x y p q = q

  deploy_to_container-Returns :
      (already : List String) (s : Progress) (name : String)
      → Returns (deploy_to_container l c trap already s name)
  unfolding deploy_to_container
  deploy_to_container-Returns already s name =
      if-Returns (contains already name) _ _ (λ h. refl)
        (if-Returns (trap.decoy_deployment.strategy == "containerExec") _ _
          (deploy_by_exec-Returns s.resource s name)
          (if-Returns (trap.decoy_deployment.strategy == "volumeMount") _ _
            (deploy_by_mount-Returns s.resource s name)
            (if-Returns (trap.decoy_deployment.strategy == "kyvernoPolicy") _ _ (λ h. refl)
              (λ h. refl))))

  deploy_to_containers-Returns :
      (already names : List String) (s : Progress)
      → Returns (deploy_to_containers l c trap already names s)
  unfolding deploy_to_containers
  deploy_to_containers-Returns already [] s h = refl
  deploy_to_containers-Returns already (name ∷ names) s h =
      after-Returns _ (deploy_to_container l c trap already s name h)
        (deploy_to_container-Returns already s name h) (deploy_to_containers-Returns already names)

  deploy_to_resource-Returns :
      (policy : Policy) (o : Object) (selected : List String) (change : Option ChangeAnnotation)
      (errors : Errors)
      → Returns (deploy_to_resource l c policy trap o selected change errors)
  unfolding deploy_to_resource
  deploy_to_resource-Returns policy o selected none errors h = refl
  deploy_to_resource-Returns policy o selected (some change) errors h =
      after-Returns _ (deploy_to_containers l c trap _ selected _ h)
        (deploy_to_containers-Returns _ selected _ h) (λ s h'. refl)

  deploy_to_resources-Returns :
      (policy : Policy) (m : ObjectMap) (errors : Errors)
      → Returns (deploy_to_resources l c policy trap m errors)
  unfolding deploy_to_resources
  deploy_to_resources-Returns policy [] errors h = refl
  deploy_to_resources-Returns policy ((o, selected) ∷ m) errors h =
      after-Returns _ _ (deploy_to_resource-Returns policy o selected _ errors h)
        (deploy_to_resources-Returns policy m)

  deploy_matched-Returns :
      (policy : Policy) (r : Result MatchError MatchingResult)
      → Returns (deploy_matched l c policy trap r)
  unfolding deploy_matched
  deploy_matched-Returns policy (err e) h = refl
  deploy_matched-Returns policy (ok r) h =
      after-Returns _ _ (deploy_to_resources-Returns policy r.deployable_objects [] h)
        (λ errors h'. refl)

  pub deploy_decoy-Returns : (policy : Policy) → Returns (deploy_decoy l c policy trap)
  unfolding deploy_decoy
  deploy_decoy-Returns policy h = deploy_matched-Returns policy _ h
