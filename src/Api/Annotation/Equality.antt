-- ===== src/Api/Annotation/Equality.antt =====
-- TrapAnnotation.Equals of api/v1alpha1/annotation_types.go against equality of the fields.
use koney.Prelude.{
  ◌≡◌, refl, ◌↔◌, ◌⊎◌, inl, inr, String, Bool, true, false, List, [], ◌∷◌, arith, eq_iff, eq_refl,
}
use koney.Api.Annotation.{
  TrapAnnotation, FilesystemHoneytokenAnnotation, honeytoken_is_set, honeytoken_equals,
  same_containers, equals, equals_by_pointer, equals_by_type, trap_type,
}

same_containers→≡ : (cs ds : List String) → same_containers cs ds ≡ true → cs ≡ ds
unfolding same_containers
same_containers→≡ [] [] h = refl
same_containers→≡ [] (d ∷ ds) h = cc
same_containers→≡ (c ∷ cs) [] h = cc
same_containers→≡ (c ∷ cs) (d ∷ ds) h = ground (arith, eq_iff c d, same_containers→≡ cs ds)

pub same_containers_refl : (cs : List String) → same_containers cs cs ≡ true
unfolding same_containers
same_containers_refl [] = refl
same_containers_refl (c ∷ cs) = rw (eq_refl, same_containers_refl cs)

honeytoken_equals→≡ : (a b : FilesystemHoneytokenAnnotation) → honeytoken_equals a b ≡ true → a ≡ b
unfolding honeytoken_equals
honeytoken_equals→≡ a b h =
    ground (arith, eq_iff a.file_path b.file_path, eq_iff a.file_content_hash b.file_content_hash)

honeytoken_equals_refl : (a : FilesystemHoneytokenAnnotation) → honeytoken_equals a a ≡ true
unfolding honeytoken_equals
honeytoken_equals_refl a = ground (arith, eq_refl a.file_path, eq_refl a.file_content_hash)

-- What `Equals` compares: the strategy, the containers unless they are ignored, and a honeytoken
-- that is set. The timestamps are no part of it.
pub record SameTrap (a b : TrapAnnotation) (ignore_containers : Bool) : Type 0 where
  pub strategy : a.deployment_strategy ≡ b.deployment_strategy
  pub containers : ignore_containers ≡ false → a.containers ≡ b.containers
  pub token : a.filesystem_honeytoken ≡ b.filesystem_honeytoken
  pub is_set : honeytoken_is_set a.filesystem_honeytoken ≡ true

equals-same : (a b : TrapAnnotation) (i : Bool) → equals a b i ≡ true → SameTrap a b i
unfolding equals equals_by_type trap_type
equals-same a b i h = record {
  strategy = ground (arith, eq_iff a.deployment_strategy b.deployment_strategy);
  containers = λ e. ground (arith, same_containers→≡ a.containers b.containers);
  token = ground (arith, honeytoken_equals→≡ a.filesystem_honeytoken b.filesystem_honeytoken);
  is_set = ground arith;
}

pub same-equals : (a b : TrapAnnotation) (i : Bool) → SameTrap a b i → equals a b i ≡ true
unfolding equals equals_by_type trap_type
same-equals a b Bool.true h = ground (
  arith,
  eq_iff a.deployment_strategy b.deployment_strategy,
  honeytoken_equals_refl a.filesystem_honeytoken,
)
same-equals a b Bool.false h = ground (
  arith,
  eq_iff a.deployment_strategy b.deployment_strategy,
  h.containers refl,
  same_containers_refl a.containers,
  honeytoken_equals_refl a.filesystem_honeytoken,
)

-- `Equals` holds of two annotations exactly when their pointers are the same, or they agree in the
-- deployment strategy, in the containers with their order (unless these are ignored) and in the
-- honeytoken, and the honeytoken is set. Creation and update times do not count.
pub equals_iff :
    (same_object : Bool) (a b : TrapAnnotation) (ignore_containers : Bool)
    → (equals_by_pointer same_object a b ignore_containers ≡ true)
      ↔ (same_object ≡ true) ⊎ SameTrap a b ignore_containers
unfolding equals_by_pointer
equals_iff true a b i = (λ h. inl refl, λ h. refl)
equals_iff false a b i =
    (λ h. inr (equals-same a b i h), λ h. elim h [ inl e ↦ cc | inr same ↦ same-equals a b i same ])
