-- ===== src/Annotations/Resource.antt =====
-- The exported functions of internal/controller/annotations/annotations.go, on the metadata of a
-- resource. The caller writes the resource back to the cluster.
pub mod Laws
pub mod Updates
use koney.Prelude.{
  ◌++◌, List, [], ◌∷◌, none, some, String, Option, StringMap, insert, if◌then◌else◌, lookup, delete,
  is_nil,
}
use koney.Utils.Bytes.{Bytes}
use koney.Api.Trap.{Trap}
use koney.Api.Annotation.{TrapAnnotation, ChangeAnnotation}
use koney.Cluster.{ObjectMeta, Object, meta_of}
use koney.Annotations.Same.{convert_trap_to_trap_annotation}
use koney.Annotations.Changes.{add_trap, update_containers, remove_trap, find_change}

-- constants.AnnotationKeyChanges
abbrev pub annotation_key_changes : String
annotation_key_changes = "koney/changes"

-- What the operations take from libraries: JSON for the list of changes, and MD5. `none` is an
-- error of `json.Marshal` or `json.Unmarshal`.
pub record Codec : Type 0 where
  pub marshal : List ChangeAnnotation → Option String
  pub unmarshal : String → Option (List ChangeAnnotation)
  pub md5 : Bytes → Bytes

pub data Error : Type 0 where
  bad_json cannot_marshal unknown_trap_type : Error

abbrev or_error {ℓ κ} : {A : Type ℓ} {B : Type κ} → Option A → B → (A → B) → B
or_error none e f = e
or_error (some a) e f = f a

abbrev annotation_of : Option (StringMap String) → Option String
annotation_of none = none
annotation_of (some m) = lookup annotation_key_changes m

abbrev parse : Codec → Option String → Option (List ChangeAnnotation)
parse codec none = some []
parse codec (some text) = codec.unmarshal text

-- The changes that a resource carries: none without the annotation.
unfoldable pub read_changes : Codec → ObjectMeta → Option (List ChangeAnnotation)
read_changes codec meta = parse codec (annotation_of meta.annotations)

abbrev map_or_empty : Option (StringMap String) → StringMap String
map_or_empty none = []
map_or_empty (some m) = m

-- `resource.GetAnnotations()[constants.AnnotationKeyChanges] = string(changes)`, in a new map if
-- there was none; a call that fails leaves the resource as it was.
unfoldable pub write_changes :
    Codec → ObjectMeta → List ChangeAnnotation → Option Error × ObjectMeta
write_changes codec meta changes =
    or_error (codec.marshal changes) (some cannot_marshal, meta)
      λ text. (
        none,
        record meta {
          annotations = some (insert annotation_key_changes text (map_or_empty meta.annotations));
        },
      )

-- annotations.AddTrapToAnnotations
unfoldable pub add_trap_to_annotations :
    Codec → String → ObjectMeta → String → Trap → List String → Option Error × ObjectMeta
add_trap_to_annotations codec now resource crd trap containers =
    or_error (read_changes codec resource) (some bad_json, resource)
      λ old.
        or_error (convert_trap_to_trap_annotation codec.md5 trap containers now)
          (some unknown_trap_type, resource)
          λ new. write_changes codec resource (add_trap codec.md5 crd trap new containers now old)

-- annotations.UpdateContainersInAnnotations
unfoldable pub update_containers_in_annotations :
    Codec → String → ObjectMeta → String → TrapAnnotation → List String → Option Error × ObjectMeta
update_containers_in_annotations codec now resource crd trap containers =
    or_error (read_changes codec resource) (some bad_json, resource)
      λ old. write_changes codec resource (update_containers crd trap containers now old)

abbrev delete_from : Option (StringMap String) → Option (StringMap String)
delete_from none = none
delete_from (some m) = some (delete annotation_key_changes m)

-- annotations.RemoveTrapAnnotations
unfoldable pub remove_trap_annotations :
    Codec → ObjectMeta → String → TrapAnnotation → Option Error × ObjectMeta
remove_trap_annotations codec resource crd trap =
    or_error (read_changes codec resource) (some bad_json, resource)
      λ old.
        (let changes = remove_trap crd trap old in
          if is_nil changes
          then (none, record resource { annotations = delete_from resource.annotations })
          else write_changes codec resource changes)

-- annotations.GetAnnotationChange; `none` is an error.
unfoldable pub get_annotation_change : Codec → ObjectMeta → String → Option ChangeAnnotation
get_annotation_change codec resource crd =
    or_error (read_changes codec resource) none λ changes. some (find_change crd changes)

-- One of the loops of GetAnnotatedResources, over the objects of one kind.
unfoldable pub annotated : Codec → String → List Object → Option (List Object)
annotated codec crd [] = some []
annotated codec crd (o ∷ objects) =
    or_error (get_annotation_change codec (meta_of o) crd) none λ change.
      or_error (annotated codec crd objects) none
        λ rest. some (if is_nil change.traps then rest else o ∷ rest)

-- annotations.GetAnnotatedResources, from the answers to the two calls of `r.List`.
unfoldable pub get_annotated_resources :
    Codec → Option (List Object) → Option (List Object) → String → Option (List Object)
unfolding annotated
get_annotated_resources codec pods deployments crd = or_error pods none λ ps.
    or_error (annotated codec crd ps) none λ from_pods. or_error deployments none λ ds.
      or_error (annotated codec crd ds) none
        λ from_deployments. some (from_pods ++ from_deployments)
