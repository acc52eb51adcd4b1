-- ===== src/Decoy/Remove/Removed.antt =====
-- What a RemoveDecoy with the strategy containerExec that returns no error has done
-- (internal/controller/traps/filesystoken/removal.go).
use koney.Decoy.Deploy.Deployed.{annotation_errors_nil}
use koney.Decoy.Deploy.{annotation_errors}
use koney.Effects.Steps.{
  LastDone, append_nil, Attempts-back, after-some, Attempts-keep, Attempts-last, errors_of_nil,
}
use koney.Annotations.Resource.{remove_trap_annotations}
use koney.Controller.Results.{Errors, Cause}
use koney.Decoy.Remove.{
  Step, continues, update_annotation, unannotate_fetched, unannotate_once, unannotate, remove_decoy,
}
use koney.Api.Annotation.{TrapAnnotation}
use koney.Libraries.{Libraries, codec_of}
use koney.Cluster.{Pod, pod, Object, with_meta, meta_of}
use koney.Effects.{Cluster, History, get_object, update_object, RetriesOnConflict, lift}
use koney.Prelude.{
  [], none, some, true, inr, ◌∷◌, ◌++◌, ◌≡◌, ◌==◌, List, Option, String, refl, All, ◌∙◌, ap, sym,
  ok, err, arith, Result, length, subst, All-map,
}
use koney.Decoy.Remove.Loop.{Looped, loop, IsGone}

module _ (l : Libraries) (c : Cluster) (p : Pod) (trap : TrapAnnotation)
    (by_exec : (trap.deployment_strategy == "containerExec") ≡ true) where
  -- The pod was fetched, and written back without the trap on record.
  pub record Unannotated (crd : String) (h : History) : Type 0 where
    pub old : Object
    pub found : Object
    pub before : History
    pub fetched : c.object before (get_object old) ≡ ok found
    pub cleaned : (remove_trap_annotations (codec_of l) (meta_of found) crd trap).0 ≡ none
    pub written :
        LastDone c
          (update_object
            (with_meta found (remove_trap_annotations (codec_of l) (meta_of found) crd trap).1))
          h

  update_annotation-all :
      (crd : String) (removed : List String) (o : Object) (h : History)
      → length removed ≡ length trap.containers
      → update_annotation l c crd trap removed o h ≡ (
        with_meta o (remove_trap_annotations (codec_of l) (meta_of o) crd trap).1,
        annotation_errors (remove_trap_annotations (codec_of l) (meta_of o) crd trap).0,
      )
  unfolding update_annotation
  update_annotation-all crd removed o h e = ground (arith, e)

  unannotate_fetched-Unannotated :
      (crd : String) (removed : List String) (r : Result Cause Object) (s : Object × Errors)
      (h : History)
      → length removed ≡ length trap.containers
      → c.object h (get_object s.0) ≡ r
      → (unannotate_fetched l c crd trap removed r s (get_object s.0 ∷ h)).0.0 ≡ none
      → (unannotate_fetched l c crd trap removed r s (get_object s.0 ∷ h)).0.1.1 ≡ []
      → Unannotated crd (unannotate_fetched l c crd trap removed r s (get_object s.0 ∷ h)).1
  unfolding unannotate_fetched
  unannotate_fetched-Unannotated crd removed (err e) s h n fetched answer left = cc
  unannotate_fetched-Unannotated crd removed (ok o) (old, errors) h n fetched answer left =
      go (update_annotation l c crd trap removed o (get_object old ∷ h))
        (update_annotation-all crd removed o (get_object old ∷ h) n) answer left
    where
      go :
          (u : Object × Errors)
          → u ≡ (
            with_meta o (remove_trap_annotations (codec_of l) (meta_of o) crd trap).1,
            annotation_errors (remove_trap_annotations (codec_of l) (meta_of o) crd trap).0,
          )
          → c.run (get_object old ∷ h) (update_object u.0) ≡ none
          → errors ++ u.1 ≡ []
          → Unannotated crd (update_object u.0 ∷ get_object old ∷ h)
      go u e answer left = record {
        old = old;
        found = o;
        before = h;
        fetched = fetched;
        cleaned = annotation_errors_nil _ (sym (ap (λ x. x.1) e) ∙ (append_nil errors u.1 left).1);
        written = (ap (λ x. update_object x.0) e, answer);
      }

  once-back :
      (crd : String) (removed : List String) (s : Object × Errors) (h : History)
      → (unannotate_once l c crd trap removed s h).0.1.1 ≡ []
      → s.1 ≡ []
  unfolding unannotate_fetched
  once-back crd removed s h k = go (c.object h (get_object s.0)) k
    where
      go :
          (r : Result Cause Object)
          → (unannotate_fetched l c crd trap removed r s (get_object s.0 ∷ h)).0.1.1 ≡ []
          → s.1 ≡ []
      go (err e) k = k
      go (ok o) k = (append_nil s.1 _ k).0

  once-keeps :
      (crd : String) (removed : List String) (s : Object × Errors) (h : History) (name : String)
      → IsGone c p trap.filesystem_honeytoken.file_path name h
      → IsGone c p trap.filesystem_honeytoken.file_path name
          (unannotate_once l c crd trap removed s h).1
  unfolding unannotate_fetched
  once-keeps crd removed s h name k = go (c.object h (get_object s.0))
    where
      go :
          (r : Result Cause Object)
          → IsGone c p trap.filesystem_honeytoken.file_path name
              (unannotate_fetched l c crd trap removed r s (get_object s.0 ∷ h)).1
      go (err e) = inr k
      go (ok o) = inr (inr k)

  -- What has happened when no error is returned.
  pub record Removed (crd : String) (h : History) : Type 0 where
    pub gone : All (λ name. IsGone c p trap.filesystem_honeytoken.file_path name h) trap.containers
    pub unannotated : Unannotated crd h

  unannotate-Removed :
      (crd : String) (h : History) (r : Option Step × History)
      → RetriesOnConflict c
      → (k : Looped c p trap.filesystem_honeytoken.file_path [] [] trap.containers h r)
      → (unannotate l c crd trap (continues k.s) r.1).0.0 ≡ []
      → Removed crd (unannotate l c crd trap (continues k.s) r.1).1
  unfolding unannotate
  unannotate-Removed crd h r retries k e =
      let body = unannotate_once l c crd trap k.s.removed in
      let attempts = retries (Object × Errors) body (k.s.resource, k.s.errors) r.1 in
      let (no_errors, answer) = append_nil _ _ e in
      let (_, all_removed, gone) =
        k.done
          (Attempts-back body (λ s. s.1 ≡ []) (once-back crd k.s.removed) attempts no_errors) in
      record {
        gone =
            All-map _ (λ name. IsGone c p trap.filesystem_honeytoken.file_path name _)
              (λ name g.
                Attempts-keep body (IsGone c p trap.filesystem_honeytoken.file_path name)
                  (λ s h' g'. once-keeps crd k.s.removed s h' name g') attempts g)
              trap.containers gone;
        unannotated =
            Attempts-last body (λ out. out.0.0 ≡ none → out.0.1.1 ≡ [] → Unannotated crd out.1)
              (λ s h'.
                unannotate_fetched-Unannotated crd k.s.removed (c.object h' (get_object s.0)) s h'
                  (ap length all_removed) refl)
              attempts (errors_of_nil _ answer) no_errors;
      }

  -- If retries behave as documented, the strategy is containerExec, the resource is a pod, and
  -- RemoveDecoy returns no error, then each container of the annotation has answered in some call
  -- of the run that there is no such file, and the last call wrote back, without an error, a
  -- resource as it was fetched but for the trap, which RemoveTrapAnnotations removed without an
  -- error.
  pub remove_decoy-Removed :
      (crd : String) (resource : Object) (h : History)
      → RetriesOnConflict c
      → (remove_decoy l c crd trap (pod p) h).0 ≡ some ([], resource)
      → Removed crd (remove_decoy l c crd trap (pod p) h).1
  unfolding remove_decoy
  remove_decoy-Removed crd resource h retries e =
      let k = loop l c p trap by_exec trap.containers [] [] h in
      subst
        (λ (r : Option (Errors × Object) × History). r.0 ≡ some ([], resource) → Removed crd r.1)
        (sym (after-some (λ s. lift (unannotate l c crd trap s)) _ k.ended))
        (λ x. unannotate-Removed crd h _ retries k (first x)) e
    where
      first : {r : Errors × Object} → some r ≡ some ([], resource) → r.0 ≡ []
      first x = cc
