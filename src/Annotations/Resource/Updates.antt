-- ===== src/Annotations/Resource/Updates.antt =====
-- What a reader of the annotation finds after UpdateContainersInAnnotations of
-- internal/controller/annotations/annotations.go.
use koney.Api.Annotation.Equality.{same-equals}
use koney.Cluster.{ObjectMeta}
use koney.Api.Annotation.{equals_by_type}
use koney.Prelude.{
  ◌≡◌, refl, List, some, none, true, exists, keep, length, not, ◌&&◌, ◌+◌, if◌then◌else◌, String,
  arith, ◌∙◌, ap,
}
use koney.Api.Annotation
use koney.Api.Annotation.{
  TrapAnnotation, ChangeAnnotation, same_containers, equals, honeytoken_is_set,
}
use koney.Annotations.Changes.{update_containers, is_change_of}
use koney.Annotations.Resource.{Codec, read_changes, update_containers_in_annotations}
use koney.Annotations.Resource.Laws.{IsJson, recorded, recorded-read, read-write}
use koney.Annotations.Changes.Laws.{
  traps_of, traps_of-on_policy, exists-refresh_or_append, keep-refresh_or_append,
  length-refresh_or_append,
}

-- What is on record for a policy after UpdateContainersInAnnotations was called for it.
pub record Updated (trap : TrapAnnotation) (containers : List String)
    (before after : List TrapAnnotation) : Type 0 where
  -- An entry that agrees with the trap has exactly the given containers.
  pub found :
      exists (λ a. equals a trap true && same_containers a.containers containers) after ≡ true
  -- The entries that do not agree with it are those of before, in their order.
  pub others :
      keep (λ a. not (equals a trap true)) after ≡ keep (λ a. not (equals a trap true)) before
  -- A trap that was on record gets no second entry.
  pub size :
      length after
      ≡ (if exists (λ a. equals a trap true) before then length before else length before + 1)

equals_refresh :
    (trap a : TrapAnnotation) (containers : List String) (now : String)
    → equals (record a { updated_at = now; containers = containers }) trap true ≡ equals a trap true
unfolding equals equals_by_type Annotation.trap_type
equals_refresh trap a containers now = ground arith

equals_renew :
    (trap : TrapAnnotation) (containers : List String) (now : String)
    → honeytoken_is_set trap.filesystem_honeytoken ≡ true
    → equals (record trap { created_at = now; containers = containers }) trap true ≡ true
equals_renew trap containers now h =
    same-equals (record trap { created_at = now; containers = containers }) trap true
      (record { strategy = refl; containers = λ e. cc; token = refl; is_set = h })

module _ (codec : Codec) (json : IsJson codec) where
  -- If JSON keeps the changes, the annotation can be read and has a change of the policy, and the
  -- honeytoken of the given annotation is set, then UpdateContainersInAnnotations succeeds, an
  -- entry of the policy that agrees with it but for its containers has the given ones, the other
  -- entries of the policy are as before, and there is one entry more only if there was none that
  -- agrees.
  pub update_containers_in_annotations-Updated :
      (now : String) (resource : ObjectMeta) (crd : String) (trap : TrapAnnotation)
      (containers : List String) {old : List ChangeAnnotation}
      → read_changes codec resource ≡ some old
      → exists (is_change_of crd) old ≡ true
      → honeytoken_is_set trap.filesystem_honeytoken ≡ true
      → let (error, after) =
          update_containers_in_annotations codec now resource crd trap containers in
        (error ≡ none)
        × ((traps : List TrapAnnotation) × (recorded codec after crd ≡ some traps)
            × Updated trap containers (traps_of crd old) traps)
  unfolding update_containers_in_annotations update_containers
  update_containers_in_annotations-Updated now resource crd trap containers {old} e has set =
      let new : TrapAnnotation = record trap { created_at = now; containers = containers } in
      let (done, reads) =
        read-write codec json resource (update_containers crd trap containers now old) in
      let ignores : (a : TrapAnnotation)
          → equals (record a { updated_at = now; containers = containers }) trap true
            ≡ equals a trap true =
        λ a. equals_refresh trap a containers now in
      let passes = equals_renew trap containers now set in
      rw e (
        done,
        (
          _,
          recorded-read codec _ crd reads ∙ ap some (traps_of-on_policy crd _ old has),
          record {
            found =
                exists-refresh_or_append _ new containers now ignores passes refl
                  (traps_of crd old);
            others = keep-refresh_or_append _ new containers now ignores passes (traps_of crd old);
            size = length-refresh_or_append _ new containers now (traps_of crd old);
          },
        ),
      )
