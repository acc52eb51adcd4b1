-- ===== src/Decoy/Deploy/Again.antt =====
-- A second DeployDecoy for the same trap
-- (internal/controller/traps/filesystoken/deployment.go).
use koney.Controller.Results.{Errors}
use koney.Utils.Collections.{contains, contains-append}
use koney.Cluster.{Object}
use koney.Annotations.Same.{are_the_same_trap}
use koney.Api.Policy.{Policy}
use koney.Api.Annotation.{TrapAnnotation, ChangeAnnotation}
use koney.Effects.{Cluster, History, lift, after}
use koney.Api.Trap.{Trap}
use koney.Decoy.Deploy.{
  already_deployed, deploy_to_containers, deploy_to_resource, deploy_to_container, Progress,
  annotate,
}
use koney.Libraries.{Libraries}
use koney.Prelude.{
  [], some, true, ◌∷◌, ◌++◌, ◌≡◌, ◌&&◌, arith, List, Bool, String, exists, string_eq, ap, ◌∙◌, refl,
  sym, append-snoc, append_empty,
}

abbrev pub contains_all : List String → List String → Bool
contains_all names [] = true
contains_all names (x ∷ xs) = contains names x && contains_all names xs

-- A recorded annotation of the trap, with all of the containers.
abbrev pub covers : Libraries → Trap → List String → TrapAnnotation → Bool
covers l trap names annotation =
    are_the_same_trap l.md5 annotation trap && contains_all annotation.containers names

already_deployed-contains :
    (l : Libraries) (trap : Trap) (annotations : List TrapAnnotation) (name : String)
    → exists (λ a. are_the_same_trap l.md5 a trap && contains a.containers name) annotations ≡ true
    → contains (already_deployed l trap annotations) name ≡ true
unfolding already_deployed
already_deployed-contains l trap [] name e = cc
already_deployed-contains l trap (a ∷ annotations) name e = ground (
  arith,
  already_deployed-contains l trap annotations name,
  contains-append a.containers (already_deployed l trap annotations) name,
)

exists-implies :
    {A : Type 0} (p q : A → Bool)
    → ((a : A) → p a ≡ true → q a ≡ true)
    → (xs : List A) → exists p xs ≡ true
    → exists q xs ≡ true
exists-implies p q k [] e = cc
exists-implies p q k (x ∷ xs) e = ground (arith, k x, exists-implies p q k xs)

covers-contains :
    (l : Libraries) (trap : Trap) (annotations : List TrapAnnotation) (names : List String)
    → exists (covers l trap names) annotations ≡ true
    → contains_all (already_deployed l trap annotations) names ≡ true
covers-contains l trap annotations [] e = refl
covers-contains l trap annotations (x ∷ names) e = ground (
  arith,
  already_deployed-contains l trap annotations x (exists-implies _ _ head annotations e),
  covers-contains l trap annotations names (exists-implies _ _ tail annotations e),
)
  where
    head :
        (a : TrapAnnotation)
        → covers l trap (x ∷ names) a ≡ true
        → (are_the_same_trap l.md5 a trap && contains a.containers x) ≡ true
    head a k = ground arith

    tail : (a : TrapAnnotation) → covers l trap (x ∷ names) a ≡ true → covers l trap names a ≡ true
    tail a k = ground arith

-- Containers that were deployed to are only noted, in order, without a call.
deploy_to_containers-again :
    (l : Libraries) (c : Cluster) (trap : Trap) (already names : List String) (s : Progress)
    (h : History)
    → contains_all already names ≡ true
    → deploy_to_containers l c trap already names s h
      ≡ (some (record s { deployed = s.deployed ++ names }), h)
unfolding deploy_to_containers deploy_to_container
deploy_to_containers-again l c trap already [] s h e =
    ap (λ d. (some (record s { deployed = d }), h)) (sym (append_empty s.deployed))
deploy_to_containers-again l c trap already (name ∷ names) s h e = rw (first e) (
    deploy_to_containers-again l c trap already names _ h (second e)
    ∙ ap (λ d. (some (record s { deployed = d }), h)) (append-snoc s.deployed name names))
  where
    first :
        (contains already name && contains_all already names) ≡ true → contains already name ≡ true
    first k = ground arith

    second :
        (contains already name && contains_all already names) ≡ true
        → contains_all already names ≡ true
    second k = ground arith

-- If an annotation of the resource is for the same trap and names all selected containers, then
-- DeployDecoy makes no call for the resource before it annotates it, and the containers that it
-- annotates are the selected ones, in order.
pub deploy_to_resource-again :
    (l : Libraries) (c : Cluster) (policy : Policy) (trap : Trap) (o : Object)
    (selected : List String) (change : ChangeAnnotation) (errors : Errors) (h : History)
    → exists (covers l trap selected) change.traps ≡ true
    → deploy_to_resource l c policy trap o selected (some change) errors h
      ≡ lift
          (annotate l c policy.name trap
            (record { errors = errors; deployed = selected; resource = o }))
          h
unfolding deploy_to_resource
deploy_to_resource-again l c policy trap o selected change errors h e = ap (after _) (
    deploy_to_containers-again l c trap _ selected _ h
      (covers-contains l trap change.traps selected e))
