-- ===== src/Decoy/Deploy/Deployed.antt =====
-- What DeployDecoy has done to a pod, with the strategy containerExec, if no error is returned
-- (internal/controller/traps/filesystoken/deployment.go).
use koney.Decoy.Deploy.Read.{IsRead}
use koney.Annotations.Resource.{Error, add_trap_to_annotations}
use koney.Api.Annotation.{ChangeAnnotation}
use koney.Utils.Collections.{contains}
use koney.Effects.Steps.{
  LastDone, append_nil, Attempts-back, Attempts-keep, Attempts-last, errors_of_nil,
}
use koney.Api.Policy.{Policy}
use koney.Cluster.{Object, Pod, pod, with_meta, ObjectMeta, meta_of}
use koney.Decoy.Deploy.{
  annotation_errors, annotate_fetched, annotate, deploy_to_resource, annotate_once, Progress,
  already_deployed, deploy_to_containers,
}
use koney.Api.Trap.{Trap}
use koney.Effects.{
  Cluster, History, get_object, RetriesOnConflict, update_object, Answer, Attempts, errors_of,
  after, lift,
}
use koney.Libraries.{Libraries, codec_of}
use koney.Prelude.{
  [], none, some, true, inr, ok, err, ◌∷◌, ◌≡◌, ◌==◌, ◌⊎◌, List, Option, String, Result, refl, All,
  string_eq, false, inl, ◌++◌, ◌∙◌, Bool, if◌then◌else◌, is_nil, sym, ap, All-map, subst,
}
use koney.Controller.Results.{Errors, Cause}
use koney.Decoy.Deploy.Loop.{Looped, loop}

pub annotation_errors_nil : {E : Type 0} (e : Option E) → annotation_errors e ≡ [] → e ≡ none
annotation_errors_nil none k = refl
annotation_errors_nil (some x) k = cc

module _ (l : Libraries) (c : Cluster) (policy : Policy) (trap : Trap) where
  -- The metadata of the resource with the trap on record, and the error of recording it.
  abbrev pub recorded : Object → List String → History → Option Error × ObjectMeta
  recorded o containers h =
      add_trap_to_annotations (codec_of l) (c.stamp h) (meta_of o) policy.name trap containers

  -- The resource was fetched, and written back with the trap on record for the containers.
  pub record Annotated (containers : List String) (h : History) : Type 0 where
    pub old : Object
    pub found : Object
    pub before : History
    pub fetched : c.object before (get_object old) ≡ ok found
    pub no_error : (recorded found containers (get_object old ∷ before)).0 ≡ none
    pub written :
        LastDone c
          (update_object (with_meta found (recorded found containers (get_object old ∷ before)).1))
          h

  annotate_fetched-Annotated :
      (containers : List String) (r : Result Cause Object) (s : Object × Errors) (h : History)
      → c.object h (get_object s.0) ≡ r
      → (annotate_fetched l c policy.name trap containers r s (get_object s.0 ∷ h)).0.0 ≡ none
      → (annotate_fetched l c policy.name trap containers r s (get_object s.0 ∷ h)).0.1.1 ≡ []
      → Annotated containers
          (annotate_fetched l c policy.name trap containers r s (get_object s.0 ∷ h)).1
  unfolding annotate_fetched
  annotate_fetched-Annotated containers (err e) s h fetched answer left = cc
  annotate_fetched-Annotated containers (ok o) (old, errors) h fetched answer left = record {
    old = old;
    found = o;
    before = h;
    fetched = fetched;
    no_error = annotation_errors_nil _ (append_nil errors _ left).1;
    written = (refl, answer);
  }

  pub once-back :
      (containers : List String) (s : Object × Errors) (h : History)
      → (annotate_once l c policy.name trap containers s h).0.1.1 ≡ []
      → s.1 ≡ []
  unfolding annotate_fetched
  once-back containers s h k = go (c.object h (get_object s.0)) k
    where
      go :
          (r : Result Cause Object)
          → (annotate_fetched l c policy.name trap containers r s (get_object s.0 ∷ h)).0.1.1 ≡ []
          → s.1 ≡ []
      go (err e) k = k
      go (ok o) k = (append_nil s.1 _ k).0

  pub once-keeps :
      (p : Pod) (containers : List String) (s : Object × Errors) (h : History) (name : String)
      → IsRead c p trap name h
      → IsRead c p trap name (annotate_once l c policy.name trap containers s h).1
  unfolding annotate_fetched
  once-keeps p containers s h name k = go (c.object h (get_object s.0))
    where
      go :
          (r : Result Cause Object)
          → IsRead c p trap name
              (annotate_fetched l c policy.name trap containers r s (get_object s.0 ∷ h)).1
      go (err e) = inr k
      go (ok o) = inr (inr k)

  -- What has happened when no error is returned: the file was read back in each container that was
  -- not on record, and the trap is on record for all of them.
  pub record Deployed (p : Pod) (already containers : List String) (h : History) : Type 0 where
    pub in_place : All (λ name. (contains already name ≡ true) ⊎ IsRead c p trap name h) containers
    pub annotated : Annotated containers h

  false-true : ¬ (false ≡ true)
  false-true e = cc

  annotate-Deployed :
      (p : Pod) (already : List String) (name : String) (names : List String) (errors : Errors)
      (h : History) (r : Option Progress × History) (s : Progress)
      → RetriesOnConflict c
      → Looped c p trap already errors [] (name ∷ names) h r
      → r.0 ≡ some s
      → (annotate l c policy.name trap s r.1).0 ≡ []
      → Deployed p already (name ∷ names) (annotate l c policy.name trap s r.1).1
  unfolding annotate
  annotate-Deployed p already name names errors h r s retries k ended e =
      go (is_nil s.deployed) refl e
    where
      out : (Answer × (Object × Errors)) × History
      out = c.retry (annotate_once l c policy.name trap s.deployed) (s.resource, s.errors) r.1

      attempts :
          Attempts (annotate_once l c policy.name trap s.deployed) (s.resource, s.errors) r.1 out
      attempts =
          retries (Object × Errors) (annotate_once l c policy.name trap s.deployed)
            (s.resource, s.errors) r.1

      skipped : Errors × History
      skipped = (s.errors, r.1)

      done : Errors × History
      done = (out.0.1.1 ++ errors_of out.0.0, out.1)

      go :
          (b : Bool)
          → is_nil s.deployed ≡ b
          → (if b then skipped else done).0 ≡ []
          → Deployed p already (name ∷ names) (if b then skipped else done).1
      go true n e = absurd (false-true (sym (ap is_nil (k.done s ended e).1) ∙ n))
      go false n e =
          let (no_errors, answer) = append_nil _ _ e in
          let (_, all, _, read) = k.done s ended (
            Attempts-back (annotate_once l c policy.name trap s.deployed) (λ x. x.1 ≡ [])
              (once-back s.deployed) attempts no_errors) in
          record {
            in_place =
                All-map _ (λ n. (contains already n ≡ true) ⊎ IsRead c p trap n out.1)
                  (λ n x. elim x [
                    | inl q ↦ inl q
                    | inr q ↦ inr (
                        Attempts-keep (annotate_once l c policy.name trap s.deployed)
                          (IsRead c p trap n) (λ x h' q'. once-keeps p s.deployed x h' n q')
                          attempts q)
                  ])
                  (name ∷ names) read;
            annotated =
                subst (λ containers. Annotated containers out.1) all
                  (Attempts-last (annotate_once l c policy.name trap s.deployed)
                    (λ x. x.0.0 ≡ none → x.0.1.1 ≡ [] → Annotated s.deployed x.1)
                    (λ x h'.
                      annotate_fetched-Annotated s.deployed (c.object h' (get_object x.0)) x h'
                        refl)
                    attempts (errors_of_nil _ answer) no_errors);
          }

  -- If retries behave as documented, the strategy is containerExec, the resource is a pod with a
  -- selected container, and the body of DeployDecoy's loop over the resources ends without an
  -- error, then each selected container was on record for the trap or has read the file back, in
  -- some call of the run, with the content of the trap but for one newline at the end, and the
  -- last call wrote back, without an error, a resource as it was fetched but for the trap, which
  -- AddTrapToAnnotations recorded for the selected containers without an error.
  pub deploy_to_resource-Deployed :
      (p : Pod) (name : String) (names : List String) (change : ChangeAnnotation) (errors : Errors)
      (h : History)
      → RetriesOnConflict c
      → (trap.decoy_deployment.strategy == "containerExec") ≡ true
      → (deploy_to_resource l c policy trap (pod p) (name ∷ names) (some change) errors h).0
        ≡ some []
      → Deployed p
          (already_deployed l trap change.traps)
          (name ∷ names)
          (deploy_to_resource l c policy trap (pod p) (name ∷ names) (some change) errors h).1
  unfolding deploy_to_resource
  deploy_to_resource-Deployed p name names change errors h retries by_exec e =
      go (deploy_to_containers l c trap already (name ∷ names) start h)
        (loop l c p trap already by_exec (name ∷ names) errors [] h) e
    where
      already : List String
      already = already_deployed l trap change.traps

      start : Progress
      start = record { errors = errors; deployed = []; resource = pod p }

      injective : {x y : Errors} → some x ≡ some y → x ≡ y
      injective e = cc

      go :
          (r : Option Progress × History)
          → Looped c p trap already errors [] (name ∷ names) h r
          → (after (λ s. lift (annotate l c policy.name trap s)) r).0 ≡ some []
          → Deployed p already
              (name ∷ names)
              (after (λ s. lift (annotate l c policy.name trap s)) r).1
      go (none, h1) k e = cc
      go (some s, h1) k e =
          annotate-Deployed p already name names errors h (some s, h1) s retries k refl
            (injective e)
