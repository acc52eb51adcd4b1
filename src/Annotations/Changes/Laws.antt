-- ===== src/Annotations/Changes/Laws.antt =====
-- What the loops over the changes do to the traps that are recorded for each policy.
use koney.Api.Annotation.Equality.{same_containers_refl}
use koney.Prelude.{
  if◌then◌else◌, ◌≡◌, ◌==◌, ◌++◌, refl, List, [], ◌∷◌, true, false, arith, String, exists, eq_iff,
  Bool-cases, inl, Bool, inr, ◌&&◌, length, keep, exists-append, not, ◌+◌, length-append,
}
use koney.Utils.Bytes.{Bytes}
use koney.Api.Trap.{Trap}
use koney.Api.Annotation.{TrapAnnotation, ChangeAnnotation, same_containers}
use koney.Annotations.Same.{are_the_same_trap}
use koney.Annotations.Changes.{
  refresh_or_append, is_change_of, on_policy, add_trap, find_change, refresh_first,
}

-- The traps on record for a policy.
abbrev pub traps_of : String → List ChangeAnnotation → List TrapAnnotation
traps_of crd changes = (find_change crd changes).traps

pub traps_of-on_policy :
    (crd : String) (f : List TrapAnnotation → List TrapAnnotation) (changes : List ChangeAnnotation)
    → exists (is_change_of crd) changes ≡ true
    → traps_of crd (on_policy crd f changes) ≡ f (traps_of crd changes)
unfolding on_policy find_change
traps_of-on_policy crd f [] h = cc
traps_of-on_policy crd f (change ∷ changes) h = ground (arith, traps_of-on_policy crd f changes)

traps_of-on_policy_ne :
    (crd j : String) (f : List TrapAnnotation → List TrapAnnotation)
    (changes : List ChangeAnnotation)
    → (crd == j) ≡ false
    → traps_of j (on_policy crd f changes) ≡ traps_of j changes
unfolding on_policy find_change
traps_of-on_policy_ne crd j f [] h = refl
traps_of-on_policy_ne crd j f (change ∷ changes) h = ground (
  arith,
  traps_of-on_policy_ne crd j f changes h,
  eq_iff change.deception_policy_name crd,
  eq_iff change.deception_policy_name j,
  eq_iff crd j,
)

traps_of-snoc :
    (crd : String) (new : ChangeAnnotation) (changes : List ChangeAnnotation)
    → exists (is_change_of crd) changes ≡ false
    → new.deception_policy_name ≡ crd
    → traps_of crd (changes ++ new ∷ []) ≡ new.traps
unfolding find_change
traps_of-snoc crd new [] h e = ground (arith, eq_iff new.deception_policy_name crd)
traps_of-snoc crd new (change ∷ changes) h e = ground (arith, traps_of-snoc crd new changes)

traps_of-snoc_ne :
    (j : String) (new : ChangeAnnotation) (changes : List ChangeAnnotation)
    → (new.deception_policy_name == j) ≡ false
    → traps_of j (changes ++ new ∷ []) ≡ traps_of j changes
unfolding find_change
traps_of-snoc_ne j new [] h = ground arith
traps_of-snoc_ne j new (change ∷ changes) h = ground (arith, traps_of-snoc_ne j new changes h)

pub traps_of-none :
    (crd : String) (changes : List ChangeAnnotation)
    → exists (is_change_of crd) changes ≡ false
    → traps_of crd changes ≡ []
unfolding find_change
traps_of-none crd [] h = refl
traps_of-none crd (change ∷ changes) h = ground (arith, traps_of-none crd changes)

-- The traps on record for the policy are refreshed or appended to; without a change of the
-- policy there is one trap.
pub traps_of-add_trap :
    (md5 : Bytes → Bytes) (crd : String) (trap : Trap) (new : TrapAnnotation)
    (containers : List String) (now : String) (changes : List ChangeAnnotation)
    → traps_of crd (add_trap md5 crd trap new containers now changes)
      ≡ refresh_or_append
          (λ a. are_the_same_trap md5 a trap)
          new
          containers
          now
          (traps_of crd changes)
unfolding add_trap
traps_of-add_trap md5 crd trap new containers now changes =
    elim (Bool-cases (exists (is_change_of crd) changes)) [
      | inl e ↦ rw e (traps_of-on_policy crd _ changes e)
      | inr e ↦ rw (e, traps_of-none crd changes e) (traps_of-snoc crd _ changes e refl)
    ]

-- The records of other policies stay.
pub traps_of-add_trap_ne :
    (md5 : Bytes → Bytes) (crd j : String) (trap : Trap) (new : TrapAnnotation)
    (containers : List String) (now : String) (changes : List ChangeAnnotation)
    → (crd == j) ≡ false
    → traps_of j (add_trap md5 crd trap new containers now changes) ≡ traps_of j changes
unfolding add_trap
traps_of-add_trap_ne md5 crd j trap new containers now changes h =
    elim (Bool-cases (exists (is_change_of crd) changes)) [
      | inl e ↦ rw e (traps_of-on_policy_ne crd j _ changes h)
      | inr e ↦ rw e (traps_of-snoc_ne j _ changes h)
    ]

module _ (test : TrapAnnotation → Bool) (new : TrapAnnotation) (containers : List String)
    (now : String) where
  -- What Koney looks for afterwards: an entry that passes the test, with these containers.
  abbrev pub records : TrapAnnotation → Bool
  records a = test a && same_containers a.containers containers

  -- The fields that the test reads are not the ones that the loop writes.
  abbrev pub IgnoresRefresh : Type 0
  IgnoresRefresh =
      (a : TrapAnnotation) → test (record a { updated_at = now; containers = containers }) ≡ test a

  exists-refresh_first :
      IgnoresRefresh
      → (traps : List TrapAnnotation) → exists test traps ≡ true
      → exists records (refresh_first test containers now traps) ≡ true
  unfolding refresh_first
  exists-refresh_first ignores [] h = cc
  exists-refresh_first ignores (t ∷ traps) h =
      ground (arith, exists-refresh_first ignores traps, ignores t, same_containers_refl containers)

  pub exists-refresh_or_append :
      IgnoresRefresh
      → test new ≡ true
      → new.containers ≡ containers
      → (traps : List TrapAnnotation)
      → exists records (refresh_or_append test new containers now traps) ≡ true
  unfolding refresh_or_append
  exists-refresh_or_append ignores passes same traps = elim (Bool-cases (exists test traps)) [
    | inl e ↦ rw e (exists-refresh_first ignores traps e)
    | inr e ↦ rw (e, exists-append) (ground (arith, same_containers_refl containers, same, passes))
  ]

  length-refresh_first :
      (traps : List TrapAnnotation)
      → length (refresh_first test containers now traps) ≡ length traps
  unfolding refresh_first
  length-refresh_first [] = refl
  length-refresh_first (t ∷ traps) = ground (arith, length-refresh_first traps)

  pub length-refresh_or_append :
      (traps : List TrapAnnotation)
      → length (refresh_or_append test new containers now traps)
        ≡ (if exists test traps then length traps else length traps + 1)
  unfolding refresh_or_append
  length-refresh_or_append traps =
      ground (arith, length-refresh_first traps, length-append traps (new ∷ []))

  keep-refresh_first :
      IgnoresRefresh
      → (traps : List TrapAnnotation)
      → keep (λ a. not (test a)) (refresh_first test containers now traps)
        ≡ keep (λ a. not (test a)) traps
  unfolding refresh_first
  keep-refresh_first ignores [] = refl
  keep-refresh_first ignores (t ∷ traps) =
      ground (arith, keep-refresh_first ignores traps, ignores t)

  keep-snoc :
      test new ≡ true
      → (traps : List TrapAnnotation)
      → keep (λ a. not (test a)) (traps ++ new ∷ []) ≡ keep (λ a. not (test a)) traps
  keep-snoc passes [] = ground arith
  keep-snoc passes (t ∷ traps) = ground (arith, keep-snoc passes traps)

  -- The entries that do not pass the test stay as they were, in their order.
  pub keep-refresh_or_append :
      IgnoresRefresh
      → test new ≡ true
      → (traps : List TrapAnnotation)
      → keep (λ a. not (test a)) (refresh_or_append test new containers now traps)
        ≡ keep (λ a. not (test a)) traps
  unfolding refresh_or_append
  keep-refresh_or_append ignores passes traps =
      ground (arith, keep-refresh_first ignores traps, keep-snoc passes traps)
