-- ===== src/Annotations/Resource/Laws.antt =====
-- What a reader of the annotation finds after AddTrapToAnnotations and RemoveTrapAnnotations of
-- internal/controller/annotations/annotations.go.
use koney.Api.Annotation
use koney.Annotations.Changes.Laws.{
  traps_of, exists-refresh_or_append, keep-refresh_or_append, length-refresh_or_append,
  traps_of-add_trap, traps_of-add_trap_ne,
}
use koney.Annotations.Changes.Removal.{IsTidy, traps_of-remove_trap, remove_trap-IsTidy, is_nil→≡}
use mathlib.Core.Option
use koney.Api.Annotation.{equals}
use koney.Annotations.Changes.{without_trap}
use koney.Prelude.{
  ◌≡◌, List, none, some, true, is_some, Option-cases, String, inl, inr, lookup-insert, Option,
  exists, ◌&&◌, length, keep, not, if◌then◌else◌, ◌+◌, arith, ◌≢◌, ◌∙◌, ◌==◌, ap, Bool-cases,
  is_nil, eq_iff, sym, StringMap, refl, lookup-delete, false,
}
use koney.Api.Trap.{trap_type, Trap, TrapType}
use koney.Api.Annotation.{TrapAnnotation, ChangeAnnotation, same_containers}
use koney.Cluster.{ObjectMeta}
use koney.Annotations.Same.{
  convert_trap_to_trap_annotation, are_the_same_trap, are_the_same_trap-convert, containers-convert,
  convert-total,
}
use koney.Annotations.Changes.{add_trap, refresh_or_append, remove_trap, without_trap}
use koney.Annotations.Resource.{
  Codec, read_changes, write_changes, add_trap_to_annotations, get_annotation_change, Bytes,
  remove_trap_annotations, annotation_of, parse, delete_from,
}

-- Documented behaviour of encoding/json on these types: encoding succeeds, and decoding gives
-- back what was encoded.
pub record IsJson (codec : Codec) : Type 0 where
  pub total : (changes : List ChangeAnnotation) → is_some (codec.marshal changes) ≡ true
  pub back :
      (changes : List ChangeAnnotation) (text : String)
      → codec.marshal changes ≡ some text
      → codec.unmarshal text ≡ some changes

module _ (codec : Codec) (json : IsJson codec) where
  pub read-write :
      (meta : ObjectMeta) (changes : List ChangeAnnotation)
      → ((write_changes codec meta changes).0 ≡ none)
        × (read_changes codec (write_changes codec meta changes).1 ≡ some changes)
  unfolding read_changes write_changes
  read-write meta changes = elim (Option-cases (codec.marshal changes)) [
    | inl e ↦ cc (e, json.total changes)
    | inr (text, e) ↦ (rw e, rw (e, lookup-insert) (json.back changes text e))
  ]

  -- Success, and the traps on record for each policy.
  add_trap_reads :
      (now : String) (resource : ObjectMeta) (crd : String) (trap : Trap) (containers : List String)
      {old : List ChangeAnnotation} {new : TrapAnnotation}
      → read_changes codec resource ≡ some old
      → convert_trap_to_trap_annotation codec.md5 trap containers now ≡ some new
      → ((add_trap_to_annotations codec now resource crd trap containers).0 ≡ none)
        × (read_changes codec (add_trap_to_annotations codec now resource crd trap containers).1
            ≡ some (add_trap codec.md5 crd trap new containers now old))
  unfolding add_trap_to_annotations
  add_trap_reads now resource crd trap containers {old} {new} e c =
      rw (e, c) (read-write resource (add_trap codec.md5 crd trap new containers now old))

annotation_of-delete_from : (m : Option (StringMap String)) → annotation_of (delete_from m) ≡ none
annotation_of-delete_from none = refl
annotation_of-delete_from (some m) = simp lookup-delete

-- The traps on record for a policy, as GetAnnotationChange reports them.
abbrev pub recorded : Codec → ObjectMeta → String → Option (List TrapAnnotation)
recorded codec meta crd = Option.map (λ change. change.traps) (get_annotation_change codec meta crd)

pub recorded-read :
    (codec : Codec) (meta : ObjectMeta) (crd : String) {changes : List ChangeAnnotation}
    → read_changes codec meta ≡ some changes
    → recorded codec meta crd ≡ some (traps_of crd changes)
unfolding get_annotation_change
recorded-read codec meta crd e = rw e

-- What is on record for a policy after AddTrapToAnnotations was called for it.
pub record Added (codec : Codec) (trap : Trap) (containers : List String)
    (before after : List TrapAnnotation) : Type 0 where
  -- An entry for the trap has exactly the given containers.
  pub found :
      exists
        (λ a. are_the_same_trap codec.md5 a trap && same_containers a.containers containers)
        after
      ≡ true
  -- The entries for other traps are those of before, in their order.
  pub others :
      keep (λ a. not (are_the_same_trap codec.md5 a trap)) after
      ≡ keep (λ a. not (are_the_same_trap codec.md5 a trap)) before
  -- A trap that was on record gets no second entry.
  pub size : length after ≡ (
      if exists (λ a. are_the_same_trap codec.md5 a trap) before
      then length before
      else length before + 1)

are_the_same_trap_refresh :
    (md5 : Bytes → Bytes) (trap : Trap) (containers : List String) (now : String)
    (a : TrapAnnotation)
    → are_the_same_trap md5 (record a { updated_at = now; containers = containers }) trap
      ≡ are_the_same_trap md5 a trap
unfolding are_the_same_trap Annotation.trap_type
are_the_same_trap_refresh md5 trap containers now a = ground arith

module _ (codec : Codec) (json : IsJson codec)
    (digests : (b : Bytes) → length (codec.md5 b) ≡ 16) where
  add-Added :
      (now : String) (trap : Trap) (containers : List String) (new : TrapAnnotation)
      (traps : List TrapAnnotation)
      → trap_type trap ≡ TrapType.filesystem_honeytoken
      → convert_trap_to_trap_annotation codec.md5 trap containers now ≡ some new
      → Added codec trap containers traps
          (refresh_or_append (λ a. are_the_same_trap codec.md5 a trap) new containers now traps)
  add-Added now trap containers new traps typed e =
      let ignores = are_the_same_trap_refresh codec.md5 trap containers now in
      let passes = are_the_same_trap-convert codec.md5 trap containers now (digests _) typed e in
      record {
        found =
            exists-refresh_or_append _ new containers now ignores passes
              (containers-convert codec.md5 trap containers now e) traps;
        others = keep-refresh_or_append _ new containers now ignores passes traps;
        size = length-refresh_or_append _ new containers now traps;
      }

  -- If JSON keeps the changes, digests have 16 bytes, the annotation of the resource can be read
  -- and the trap is a filesystem honeytoken, then AddTrapToAnnotations succeeds, an entry of the
  -- policy for the trap has the given containers, the entries of the policy for other traps are as
  -- before, and there is one entry more only if there was none for the trap.
  pub add_trap_to_annotations-Added :
      (now : String) (resource : ObjectMeta) (crd : String) (trap : Trap) (containers : List String)
      {old : List ChangeAnnotation}
      → read_changes codec resource ≡ some old
      → trap_type trap ≡ TrapType.filesystem_honeytoken
      → let (error, after) = add_trap_to_annotations codec now resource crd trap containers in
        (error ≡ none)
        × ((traps : List TrapAnnotation) × (recorded codec after crd ≡ some traps)
            × Added codec trap containers (traps_of crd old) traps)
  add_trap_to_annotations-Added now resource crd trap containers {old} e typed =
      let (new, made) = convert-total codec.md5 trap containers now typed in
      let (done, reads) = add_trap_reads codec json now resource crd trap containers e made in
      (
        done,
        (
          _,
          recorded-read codec _ crd reads
              ∙ ap some (traps_of-add_trap codec.md5 crd trap new containers now old),
          add-Added now trap containers new (traps_of crd old) typed made,
        ),
      )

module _ (codec : Codec) (json : IsJson codec) where
  -- If JSON keeps the changes, then AddTrapToAnnotations leaves the traps on record for every
  -- other policy as they were, whether it succeeds or not.
  pub recorded-add_trap_to_annotations_ne :
      (now : String) (resource : ObjectMeta) (crd j : String) (trap : Trap)
      (containers : List String)
      → crd ≢ j
      → recorded codec (add_trap_to_annotations codec now resource crd trap containers).1 j
        ≡ recorded codec resource j
  unfolding add_trap_to_annotations
  recorded-add_trap_to_annotations_ne now resource crd j trap containers h =
      elim (Option-cases (read_changes codec resource)) [
        | inl e ↦ rw e
        | inr (old, e) ↦
            elim (Option-cases (convert_trap_to_trap_annotation codec.md5 trap containers now)) [
              | inl c ↦ rw (e, c)
              | inr (new, c) ↦
                  rw (e, c)
                    (recorded-read codec _ j (read-write codec json resource _).1
                      ∙ ap some (
                          traps_of-add_trap_ne codec.md5 crd j trap new containers now old
                            (ground (arith, eq_iff crd j, h)))
                      ∙ sym (recorded-read codec resource j e))
            ]
      ]

  read-remove :
      (resource : ObjectMeta) (crd : String) (trap : TrapAnnotation) {old : List ChangeAnnotation}
      → read_changes codec resource ≡ some old
      → ((remove_trap_annotations codec resource crd trap).0 ≡ none)
        × (read_changes codec (remove_trap_annotations codec resource crd trap).1
            ≡ some (remove_trap crd trap old))
  unfolding remove_trap_annotations read_changes
  read-remove resource crd trap {old} e = elim (Bool-cases (is_nil (remove_trap crd trap old))) [
    | inl gone ↦
        rw (e, gone, is_nil→≡ _ gone)
          (refl, ap (parse codec) (annotation_of-delete_from resource.annotations))
    | inr more ↦ rw (e, more) (read-write codec json resource (remove_trap crd trap old))
  ]

  -- If JSON keeps the changes, the annotation can be read, no policy has two changes in it and no
  -- change is empty, then RemoveTrapAnnotations succeeds, takes from the traps of the policy just
  -- those that `Equals` the given one, leaves the record of every other policy, and again no
  -- policy has two changes and no change is empty.
  pub remove_trap_annotations_lem :
      (resource : ObjectMeta) (crd j : String) (trap : TrapAnnotation) {old : List ChangeAnnotation}
      → read_changes codec resource ≡ some old
      → IsTidy old
      → let (error, after) = remove_trap_annotations codec resource crd trap in
        (error ≡ none)
        × (recorded codec after j
            ≡ some (
                if crd == j
                then keep (λ a. not (equals a trap false)) (traps_of j old)
                else traps_of j old))
        × ((new : List ChangeAnnotation) × (read_changes codec after ≡ some new) × IsTidy new)
  unfolding without_trap
  remove_trap_annotations_lem resource crd j trap {old} e tidy =
      let (done, reads) = read-remove resource crd trap e in
      (
        done,
        recorded-read codec _ j reads ∙ ap some (traps_of-remove_trap crd j trap old tidy),
        (remove_trap crd trap old, reads, remove_trap-IsTidy crd trap old tidy),
      )
