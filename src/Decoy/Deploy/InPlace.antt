-- ===== src/Decoy/Deploy/InPlace.antt =====
-- The loop of DeployDecoy over the matched pods, with the strategy containerExec
-- (internal/controller/traps/filesystoken/deployment.go).
use koney.Matching.Selectors.{ObjectMap}
use koney.Utils.Collections.{contains}
use koney.Effects.Steps.{not_nil, Attempts-back, Attempts-keep, append_nil}
use koney.Annotations.Resource.{get_annotation_change}
use koney.Decoy.Deploy.{
  annotate, deploy_to_resource, Progress, already_deployed, annotate_once, deploy_to_resources,
}
use koney.Api.Annotation.{ChangeAnnotation}
use koney.Api.Trap.{Trap}
use koney.Api.Policy.{Policy}
use koney.Effects.{Cluster, History, RetriesOnConflict, Answer, after, errors_of, lift}
use koney.Libraries.{Libraries, codec_of}
use koney.Cluster.{Object, Pod, pod, meta_of}
use koney.Prelude.{
  [], none, some, true, false, inl, inr, ◌++◌, ◌≡◌, ◌==◌, ◌⊎◌, List, Option, Bool, String,
  if◌then◌else◌, All, string_eq, All-map, is_nil, refl, ◌∷◌, ap, subst, sym,
}
use koney.Controller.Results.{Errors}
use koney.Decoy.Deploy.Loop.{Looped, loop}
use koney.Decoy.Deploy.Read.{IsRead}
use koney.Decoy.Deploy.Deployed.{once-back, once-keeps}

-- The entry of the map is that of a pod.
abbrev pub IsPod : Object × List String → Type 0
IsPod entry = (p : Pod) × (entry.0 ≡ pod p)

module _ (l : Libraries) (c : Cluster) (policy : Policy) (trap : Trap) where
  -- What the pod has on record for the policy can be read, and each of the containers is on record for
  -- the trap, or has read the file back in some call of the run.
  abbrev pub InPlace : History → Object × List String → Type 0
  InPlace h entry =
      (p : Pod) × (entry.0 ≡ pod p)
      × ((change : ChangeAnnotation) × (get_annotation_change (codec_of l) p.meta policy.name
            ≡ some change)
          × All
              (λ name.
                (contains (already_deployed l trap change.traps) name ≡ true)
                ⊎ IsRead c p trap name h)
              entry.1)

  module _ (retries : RetriesOnConflict c)
      (by_exec : (trap.decoy_deployment.strategy == "containerExec") ≡ true) where
    annotate-errors :
        (s : Progress) (h : History) → (annotate l c policy.name trap s h).0 ≡ [] → s.errors ≡ []
    unfolding annotate
    annotate-errors s h e = go (is_nil s.deployed) e
      where
        out : (Answer × (Object × Errors)) × History
        out = c.retry (annotate_once l c policy.name trap s.deployed) (s.resource, s.errors) h

        skipped : Errors × History
        skipped = (s.errors, h)

        done : Errors × History
        done = (out.0.1.1 ++ errors_of out.0.0, out.1)

        go : (b : Bool) → (if b then skipped else done).0 ≡ [] → s.errors ≡ []
        go true e = e
        go false e =
            Attempts-back (annotate_once l c policy.name trap s.deployed) (λ x. x.1 ≡ [])
              (once-back l c policy trap s.deployed)
              (retries (Object × Errors) (annotate_once l c policy.name trap s.deployed)
                (s.resource, s.errors) h)
              (append_nil _ _ e).0

    annotate-keeps :
        (s : Progress) (h : History) (q : Pod) (name : String)
        → IsRead c q trap name h
        → IsRead c q trap name (annotate l c policy.name trap s h).1
    unfolding annotate
    annotate-keeps s h q name k = go (is_nil s.deployed)
      where
        out : (Answer × (Object × Errors)) × History
        out = c.retry (annotate_once l c policy.name trap s.deployed) (s.resource, s.errors) h

        skipped : Errors × History
        skipped = (s.errors, h)

        done : Errors × History
        done = (out.0.1.1 ++ errors_of out.0.0, out.1)

        go : (b : Bool) → IsRead c q trap name (if b then skipped else done).1
        go true = k
        go false =
            Attempts-keep (annotate_once l c policy.name trap s.deployed) (IsRead c q trap name)
              (λ x h' k'. once-keeps l c policy trap q s.deployed x h' name k')
              (retries (Object × Errors) (annotate_once l c policy.name trap s.deployed)
                (s.resource, s.errors) h)
              k

    -- One resource: what it leaves in place, and that no error came before.
    record Entered (p : Pod) (names : List String) (change : Option ChangeAnnotation)
        (errors : Errors) (h : History) (r : Option Errors × History) : Type 0 where
      no_error : r.0 ≡ some [] → errors ≡ []
      in_place :
          r.0 ≡ some []
          → (found : ChangeAnnotation) × (change ≡ some found)
            × All
                (λ name.
                  (contains (already_deployed l trap found.traps) name ≡ true)
                  ⊎ IsRead c p trap name r.1)
                names
      keeps : (q : Pod) (name : String) → IsRead c q trap name h → IsRead c q trap name r.1

    after_loop :
        (p : Pod) (names : List String) (found : ChangeAnnotation) (errors : Errors) (h : History)
        (r : Option Progress × History)
        → Looped c p trap (already_deployed l trap found.traps) errors [] names h r
        → Entered p names
            (some found)
            errors
            h
            (after (λ s. lift (annotate l c policy.name trap s)) r)
    after_loop p names found errors h (none, h1) k = record {
      no_error = λ e. cc;
      in_place = λ e. cc;
      keeps = k.keeps;
    }
    after_loop p names found errors h (some s, h1) k = record {
      no_error = λ e. (k.done s refl (annotate-errors s h1 (injective e))).0;
      in_place = λ e. (
        found,
        refl,
        All-map _
            (λ n.
              (contains (already_deployed l trap found.traps) n ≡ true)
              ⊎ IsRead c p trap n (annotate l c policy.name trap s h1).1)
            (λ n x. elim x [ inl q ↦ inl q | inr q ↦ inr (annotate-keeps s h1 p n q) ]) names
            (k.done s refl (annotate-errors s h1 (injective e))).3,
      );
      keeps = λ q n m. annotate-keeps s h1 q n (k.keeps q n m);
    }
      where
        injective : {x y : Errors} → some x ≡ some y → x ≡ y
        injective e = cc

    resource-Entered :
        (p : Pod) (names : List String) (change : Option ChangeAnnotation) (errors : Errors)
        (h : History)
        → Entered p names change errors h
            (deploy_to_resource l c policy trap (pod p) names change errors h)
    unfolding deploy_to_resource
    resource-Entered p names none errors h = record {
      no_error = λ e. absurd (not_nil errors _ [] (injective e));
      in_place = λ e. absurd (not_nil errors _ [] (injective e));
      keeps = λ q n k. k;
    }
      where
        injective : {x y : Errors} → some x ≡ some y → x ≡ y
        injective e = cc
    resource-Entered p names (some found) errors h =
        after_loop p names found errors h _
          (loop l c p trap (already_deployed l trap found.traps) by_exec names errors [] h)

    -- Some resources: what is left in place for all of them.
    record Placed (m : ObjectMap) (errors : Errors) (h : History) (r : Option Errors × History)
        : Type 0 where
      no_error : r.0 ≡ some [] → errors ≡ []
      in_place : r.0 ≡ some [] → All (InPlace r.1) m
      keeps : (q : Pod) (name : String) → IsRead c q trap name h → IsRead c q trap name r.1

    next_pod :
        (p : Pod) (names : List String) (m : ObjectMap) (errors : Errors) (h : History)
        (r : Option Errors × History)
        → Entered p names (get_annotation_change (codec_of l) p.meta policy.name) errors h r
        → ((es : Errors) (k : History) → Placed m es k (deploy_to_resources l c policy trap m es k))
        → Placed ((pod p, names) ∷ m) errors h (after (deploy_to_resources l c policy trap m) r)
    next_pod p names m errors h (none, h1) k rest = record {
      no_error = λ e. cc;
      in_place = λ e. cc;
      keeps = k.keeps;
    }
    next_pod p names m errors h (some es, h1) k rest =
        let later = rest es h1 in
        record {
          no_error = λ e. k.no_error (ap some (later.no_error e));
          in_place = λ e.
              let entry = k.in_place (ap some (later.no_error e)) in
              (
                (
                  p,
                  refl,
                  (
                    entry.0,
                    entry.1,
                    All-map _
                        (λ n.
                          (contains (already_deployed l trap entry.0.traps) n ≡ true)
                          ⊎ IsRead c p trap n (deploy_to_resources l c policy trap m es h1).1)
                        (λ n x. elim x [ inl q ↦ inl q | inr q ↦ inr (later.keeps p n q) ]) names
                        entry.2,
                  ),
                ),
                later.in_place e,
              );
          keeps = λ q n x. later.keeps q n (k.keeps q n x);
        }

    each_pod :
        (m : ObjectMap) (errors : Errors) (h : History)
        → All IsPod m
        → Placed m errors h (deploy_to_resources l c policy trap m errors h)
    unfolding deploy_to_resources
    each_pod [] errors h k = record {
      no_error = λ e. injective e;
      in_place = λ e. tt;
      keeps = λ q n x. x;
    }
      where
        injective : {x y : Errors} → some x ≡ some y → x ≡ y
        injective e = cc
    each_pod ((o, names) ∷ m) errors h k = go o k.0.1 (λ es h1. each_pod m es h1 k.1)
      where
        go :
            (o' : Object)
            → o' ≡ pod k.0.0
            → ((es : Errors) (h1 : History)
                → Placed m es h1 (deploy_to_resources l c policy trap m es h1))
            → Placed ((o', names) ∷ m) errors h (
                after (deploy_to_resources l c policy trap m) (
                  deploy_to_resource l c policy trap o' names
                    (get_annotation_change (codec_of l) (meta_of o') policy.name)
                    errors
                    h))
        go o' same rest =
            subst
              (λ x. Placed ((x, names) ∷ m) errors h (
                after (deploy_to_resources l c policy trap m) (
                  deploy_to_resource l c policy trap x names
                    (get_annotation_change (codec_of l) (meta_of x) policy.name) errors h)))
              (sym same)
              (next_pod k.0.0 names m errors h _
                (resource-Entered k.0.0 names
                  (get_annotation_change (codec_of l) k.0.0.meta policy.name) errors h)
                rest)

    -- doc
    pub deploy_to_resources-InPlace :
        (m : ObjectMap) (h : History)
        → All IsPod m
        → (deploy_to_resources l c policy trap m [] h).0 ≡ some []
        → All (InPlace (deploy_to_resources l c policy trap m [] h).1) m
    deploy_to_resources-InPlace m h k e = (each_pod m [] h k).in_place e
