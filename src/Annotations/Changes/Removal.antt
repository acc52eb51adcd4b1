-- ===== src/Annotations/Changes/Removal.antt =====
-- What the loop of RemoveTrapAnnotations of internal/controller/annotations/annotations.go takes from
-- the recorded traps.
use koney.Annotations.Changes.{without_trap, remove_trap, find_change, is_change_of}
use koney.Annotations.Changes.Laws.{traps_of, traps_of-none}
use koney.Api.Annotation.{equals, ChangeAnnotation, TrapAnnotation}
use koney.Prelude.{
  ◌≡◌, [], true, false, ◌∷◌, ◌==◌, arith, List, String, if◌then◌else◌, is_nil, exists, refl, eq_iff,
}

-- Removal: of the changes that a policy has, none holds a trap that `Equals` the removed one.
pub exists-without_trap :
    (trap : TrapAnnotation) (traps : List TrapAnnotation)
    → exists (λ a. equals a trap false) (without_trap trap traps) ≡ false
unfolding without_trap
exists-without_trap trap [] = refl
exists-without_trap trap (t ∷ traps) = ground (arith, exists-without_trap trap traps)

-- No two changes are of one policy, and none is without traps.
abbrev pub IsTidy : List ChangeAnnotation → Type 0
IsTidy [] = Unit
IsTidy (change ∷ changes) =
    (exists (is_change_of change.deception_policy_name) changes ≡ false)
    × (is_nil change.traps ≡ false)
    × IsTidy changes

exists-remove_trap :
    (crd j : String) (trap : TrapAnnotation) (changes : List ChangeAnnotation)
    → exists (is_change_of j) changes ≡ false
    → exists (is_change_of j) (remove_trap crd trap changes) ≡ false
unfolding remove_trap
exists-remove_trap crd j trap [] h = refl
exists-remove_trap crd j trap (change ∷ changes) h =
    ground (arith, exists-remove_trap crd j trap changes)

pub remove_trap-IsTidy :
    (crd : String) (trap : TrapAnnotation) (changes : List ChangeAnnotation)
    → IsTidy changes
    → IsTidy (remove_trap crd trap changes)
unfolding remove_trap
remove_trap-IsTidy crd trap [] h = tt
remove_trap-IsTidy crd trap (change ∷ changes) h = ground (
  arith,
  remove_trap-IsTidy crd trap changes h.2,
  exists-remove_trap crd change.deception_policy_name trap changes h.0,
)

pub is_nil→≡ {ℓ} : {A : Type ℓ} (xs : List A) → is_nil xs ≡ true → xs ≡ []
is_nil→≡ [] h = refl
is_nil→≡ (x ∷ xs) h = cc

without_trap-nil : (trap : TrapAnnotation) → without_trap trap [] ≡ []
unfolding without_trap
without_trap-nil trap = refl

-- After the removal a policy has the traps that it had, without those that equal the removed one
-- if it is the policy in question.
pub traps_of-remove_trap :
    (crd j : String) (trap : TrapAnnotation) (changes : List ChangeAnnotation)
    → IsTidy changes
    → traps_of j (remove_trap crd trap changes)
      ≡ (if crd == j then without_trap trap (traps_of j changes) else traps_of j changes)
unfolding remove_trap find_change
traps_of-remove_trap crd j trap [] h = unfold without_trap in ground arith
traps_of-remove_trap crd j trap (change ∷ changes) h = ground (
  arith,
  traps_of-remove_trap crd j trap changes h.2,
  traps_of-none j changes,
  is_nil→≡ (without_trap trap change.traps),
  without_trap-nil trap,
  eq_iff change.deception_policy_name crd,
  eq_iff change.deception_policy_name j,
  eq_iff crd j,
)
