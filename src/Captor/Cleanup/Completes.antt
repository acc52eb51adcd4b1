-- ===== src/Captor/Cleanup/Completes.antt =====
-- What a cleanupRemovedCaptors that returns no error has deleted
-- (internal/controller/deceptionpolicy_trap_removal.go).
use koney.Captor.Cleanup.Expected.{all_computed, is_in_use}
use koney.Api.Trap.{Trap}
use koney.Captor.Names.{Digests, generate_tetragon_tracing_policy_name, generate_kive_policy_name}
use koney.Controller.Results.{Cause, no_kind_match, text, not_found, conflict}
use koney.Effects.{
  Call, Cluster, History, Answer, list_tracing_policies, delete_kive_policy, delete_tracing_policy,
  list_kive_policies,
}
use koney.Prelude.{
  ◌≡◌, refl, [], ◌∷◌, List, Option, String, All, none, some, ok, inl, inr, err, ◌⊎◌, Result,
  All-map, keep_ext, subst, ap, keep, not, true,
}
use koney.Captor.Cleanup.Expected.{is_in_use, all_computed, Agrees, policy_names-Agrees}
use koney.Captor.Cleanup.{
  not_found_names, delete_all, delete_stale, cleanup_listed, unless_failed, policy_names,
  cleanup_kind, cleanup_kive, cleanup_removed_captors,
}

-- The call was made, and the cluster answered without an error.
abbrev HasSucceeded : Cluster → Call → History → Type 0
HasSucceeded c call [] = ⊥
HasSucceeded c call (made ∷ h) = ((call ≡ made) × (c.run h made ≡ none)) ⊎ HasSucceeded c call h

HasSucceeded-delete_all :
    (c : Cluster) (delete : String → Call) (names : List String) (h : History) (call : Call)
    → HasSucceeded c call h
    → HasSucceeded c call (delete_all c delete names h).1
unfolding delete_all
HasSucceeded-delete_all c delete [] h call m = m
HasSucceeded-delete_all c delete (name ∷ names) h call m =
    go (c.run h (delete name))
      (HasSucceeded-delete_all c delete names (delete name ∷ h) call (inr m))
  where
    go :
        (answer : Answer)
        → HasSucceeded c call (delete_all c delete names (delete name ∷ h)).1
        → HasSucceeded c call
            (unless_failed answer (delete_all c delete names (delete name ∷ h)) (delete name ∷ h)).1
    go none rest = rest
    go (some e) rest = inr m

delete_all-All :
    (c : Cluster) (delete : String → Call) (names : List String) (h : History)
    → (delete_all c delete names h).0 ≡ none
    → All (λ name. HasSucceeded c (delete name) (delete_all c delete names h).1) names
unfolding delete_all
delete_all-All c delete [] h e = tt
delete_all-All c delete (name ∷ names) h e =
    go (c.run h (delete name)) refl (delete_all-All c delete names (delete name ∷ h)) e
  where
    rest : Answer × History
    rest = delete_all c delete names (delete name ∷ h)

    go :
        (answer : Answer)
        → c.run h (delete name) ≡ answer
        → (rest.0 ≡ none → All (λ n. HasSucceeded c (delete n) rest.1) names)
        → (unless_failed answer rest (delete name ∷ h)).0 ≡ none
        → All
            (λ n. HasSucceeded c (delete n) (unless_failed answer rest (delete name ∷ h)).1)
            (name ∷ names)
    go none ran ih e = (
      HasSucceeded-delete_all c delete names (delete name ∷ h) (delete name) (inl (refl, ran)),
      ih e,
    )
    go (some x) ran ih e = cc

-- The policies of one kind, from the answer to the list of them: the name of every captor can be
-- computed, and the listed policies with a name that no captor has were deleted.
pub Deleted :
    Cluster
    → (Trap → Option String)
    → List Trap
    → (String → Call)
    → Result Cause (List String)
    → History
    → Type 0
Deleted c generate traps delete (ok listed) h =
    (all_computed generate traps ≡ true)
    × All (λ name. HasSucceeded c (delete name) h)
        (keep (λ name. not (is_in_use generate traps name)) listed)
Deleted c generate traps delete (err e) h = e ≡ no_kind_match

cleanup_listed-Deleted :
    (c : Cluster) (generate : Trap → Option String) (traps : List Trap) (delete : String → Call)
    (expected : Option (List String)) (answer : Result Cause (List String)) (h : History)
    → Agrees generate traps expected
    → (cleanup_listed c delete expected answer h).0 ≡ none
    → Deleted c generate traps delete answer (cleanup_listed c delete expected answer h).1
unfolding cleanup_listed delete_stale not_found_names Deleted
cleanup_listed-Deleted c generate traps delete none (ok listed) h a e = cc
cleanup_listed-Deleted c generate traps delete (some expected) (ok listed) h a e = (
  a.0,
  subst
      (All (λ name.
        HasSucceeded c (delete name) (delete_all c delete (not_found_names expected listed) h).1))
      (keep_ext listed (λ name. ap not (a.1 name)))
      (delete_all-All c delete (not_found_names expected listed) h e),
)
cleanup_listed-Deleted c generate traps delete expected (err no_kind_match) h a e = refl
cleanup_listed-Deleted c generate traps delete expected (err not_found) h a e = cc
cleanup_listed-Deleted c generate traps delete expected (err conflict) h a e = cc
cleanup_listed-Deleted c generate traps delete expected (err (text m)) h a e = cc

HasSucceeded-cleanup_listed :
    (c : Cluster) (delete : String → Call) (expected : Option (List String))
    (answer : Result Cause (List String)) (h : History) (call : Call)
    → HasSucceeded c call h
    → HasSucceeded c call (cleanup_listed c delete expected answer h).1
unfolding cleanup_listed delete_stale
HasSucceeded-cleanup_listed c delete none (ok listed) h call m = m
HasSucceeded-cleanup_listed c delete (some expected) (ok listed) h call m =
    HasSucceeded-delete_all c delete (not_found_names expected listed) h call m
HasSucceeded-cleanup_listed c delete expected (err no_kind_match) h call m = m
HasSucceeded-cleanup_listed c delete expected (err not_found) h call m = m
HasSucceeded-cleanup_listed c delete expected (err conflict) h call m = m
HasSucceeded-cleanup_listed c delete expected (err (text t)) h call m = m

Deleted-later :
    (c : Cluster) (generate : Trap → Option String) (traps : List Trap) (delete : String → Call)
    (answer : Result Cause (List String)) (h h' : History)
    → ((call : Call) → HasSucceeded c call h → HasSucceeded c call h')
    → Deleted c generate traps delete answer h
    → Deleted c generate traps delete answer h'
unfolding Deleted
Deleted-later c generate traps delete (ok listed) h h' f (computed, d) = (
  computed,
  All-map (λ name. HasSucceeded c (delete name) h) (λ name. HasSucceeded c (delete name) h')
      (λ name m. f (delete name) m) (keep (λ name. not (is_in_use generate traps name)) listed) d,
)
Deleted-later c generate traps delete (err e) h h' f d = d

-- The run of the half for Tetragon, with the names of both kinds.
module _ (c : Cluster) (d : Digests) (policy : String) (traps : List Trap) where
  abbrev tetragon_name : Trap → Option String
  tetragon_name = generate_tetragon_tracing_policy_name d

  abbrev kive_name : Trap → Option String
  kive_name = generate_kive_policy_name d

  abbrev first_half : Answer × History
  first_half =
      cleanup_kind c (list_tracing_policies policy) delete_tracing_policy
        (policy_names tetragon_name traps) []

  second_half :
      (answer : Answer) (h : History)
      → (cleanup_kive c policy (policy_names kive_name traps) answer h).0 ≡ none
      → (answer ≡ none)
        × Deleted c kive_name traps delete_kive_policy
            (c.names h (list_kive_policies policy))
            (cleanup_kive c policy (policy_names kive_name traps) answer h).1
        × ((call : Call)
            → HasSucceeded c call h
            → HasSucceeded c call (cleanup_kive c policy (policy_names kive_name traps) answer h).1)
  unfolding cleanup_kive cleanup_kind
  second_half (some e) h x = cc
  second_half none h x = (
    refl,
    cleanup_listed-Deleted c kive_name traps delete_kive_policy (policy_names kive_name traps)
        (c.names h (list_kive_policies policy)) (list_kive_policies policy ∷ h)
        (policy_names-Agrees kive_name traps) x,
    λ call m.
        HasSucceeded-cleanup_listed c delete_kive_policy (policy_names kive_name traps)
          (c.names h (list_kive_policies policy)) (list_kive_policies policy ∷ h) call (inr m),
  )

  -- If cleanupRemovedCaptors returns no error, then for each kind of captor either its policies
  -- could be listed, the name could be computed for every trap with a strategy other than "none",
  -- and each listed policy with none of these names was deleted by a call that the cluster
  -- answered without an error, or the kind is not installed.
  pub cleanup_removed_captors-Deleted :
      (cleanup_removed_captors c d policy traps []).0 ≡ none
      → let final = (cleanup_removed_captors c d policy traps []).1 in
        Deleted c tetragon_name traps delete_tracing_policy
          (c.names [] (list_tracing_policies policy))
          final
        × Deleted c kive_name traps delete_kive_policy
            (c.names first_half.1 (list_kive_policies policy))
            final
  unfolding cleanup_removed_captors cleanup_kind
  cleanup_removed_captors-Deleted e =
      let (ok_first, kive, later) = second_half first_half.0 first_half.1 e in
      (
        Deleted-later c tetragon_name traps delete_tracing_policy
            (c.names [] (list_tracing_policies policy)) first_half.1 _ later
            (cleanup_listed-Deleted c tetragon_name traps delete_tracing_policy
              (policy_names tetragon_name traps) (c.names [] (list_tracing_policies policy))
              (list_tracing_policies policy ∷ []) (policy_names-Agrees tetragon_name traps)
              ok_first),
        kive,
      )
