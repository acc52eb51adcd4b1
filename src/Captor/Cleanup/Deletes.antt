-- ===== src/Captor/Cleanup/Deletes.antt =====
-- What cleanupRemovedCaptors deletes (internal/controller/deceptionpolicy_trap_removal.go).
use koney.Controller.Results.{text, Cause, no_kind_match, not_found, conflict}
use koney.Api.Trap.{Trap}
use koney.Effects.{
  Cluster, Call, delete_tracing_policy, History, delete_kive_policy, list_tracing_policies,
  list_kive_policies, Answer,
}
use koney.Captor.Names.{Digests, generate_tetragon_tracing_policy_name, generate_kive_policy_name}
use koney.Utils.Collections.{contains}
use koney.Prelude.{
  ◌≡◌, [], ◌∷◌, List, Option, Bool, String, true, false, All, not, none, some, ok, err, string_eq,
  sym, All-map, All-keep, All-true, Result, refl,
}
use koney.Captor.Cleanup.Expected.{is_in_use, Agrees, policy_names-Agrees}
use koney.Captor.Cleanup.{
  policy_names, delete_all, not_found_names, delete_stale, cleanup_kind, cleanup_removed_captors,
  cleanup_listed, cleanup_kive, unless_failed,
}

-- A name that is known not to be expected.
unfoldable pub is_stale : Option (List String) → String → Bool
is_stale none name = false
is_stale (some expected) name = not (contains expected name)

-- The calls that leave a captor in place when a trap of the policy asks for it.
unfoldable pub is_allowed : Digests → List Trap → Call → Bool
is_allowed d traps (delete_tracing_policy name) =
    not (is_in_use (generate_tetragon_tracing_policy_name d) traps name)
is_allowed d traps (delete_kive_policy name) =
    not (is_in_use (generate_kive_policy_name d) traps name)
is_allowed d traps (list_tracing_policies policy) = true
is_allowed d traps (list_kive_policies policy) = true
is_allowed d traps _ = false

-- A name that is known not to be expected is not in use.
is_stale-is_in_use :
    (generate : Trap → Option String) (traps : List Trap) (expected : Option (List String))
    (name : String)
    → Agrees generate traps expected
    → is_stale expected name ≡ true
    → not (is_in_use generate traps name) ≡ true
unfolding is_stale
is_stale-is_in_use generate traps none name a h = cc
is_stale-is_in_use generate traps (some expected) name a h = rw (sym (a.1 name)) h

unless_failed-Allowed :
    (allowed : Call → Bool) (answer : Answer) (rest : Answer × History) (h : History)
    → All (λ c. allowed c ≡ true) rest.1
    → All (λ c. allowed c ≡ true) h
    → All (λ c. allowed c ≡ true) (unless_failed answer rest h).1
unless_failed-Allowed allowed none rest h p q = p
unless_failed-Allowed allowed (some e) rest h p q = q

delete_all-Allowed :
    (c : Cluster) (allowed : Call → Bool) (delete : String → Call) (names : List String)
    (h : History)
    → All (λ name. allowed (delete name) ≡ true) names
    → All (λ c. allowed c ≡ true) h
    → All (λ c. allowed c ≡ true) (delete_all c delete names h).1
unfolding delete_all
delete_all-Allowed c allowed delete [] h p q = q
delete_all-Allowed c allowed delete (name ∷ names) h (p, ps) q =
    unless_failed-Allowed allowed (c.run h (delete name))
      (delete_all c delete names (delete name ∷ h)) (delete name ∷ h)
      (delete_all-Allowed c allowed delete names (delete name ∷ h) ps (p, q)) (p, q)

not_found_names-stale :
    (expected listed : List String)
    → All (λ name. is_stale (some expected) name ≡ true) (not_found_names expected listed)
unfolding is_stale not_found_names
not_found_names-stale expected listed =
    All-map (λ name. Unit {0} × (not (contains expected name) ≡ true))
      (λ name. not (contains expected name) ≡ true) (λ name h. h.1)
      (not_found_names expected listed)
      (All-keep (λ name. Unit {0}) (λ name. not (contains expected name)) listed (All-true listed))

delete_stale-Allowed :
    (c : Cluster) (allowed : Call → Bool) (delete : String → Call) (expected : Option (List String))
    (listed : List String) (h : History)
    → ((name : String) → is_stale expected name ≡ true → allowed (delete name) ≡ true)
    → All (λ c. allowed c ≡ true) h
    → All (λ c. allowed c ≡ true) (delete_stale c delete expected listed h).1
unfolding delete_stale
delete_stale-Allowed c allowed delete none listed h stale q = q
delete_stale-Allowed c allowed delete (some expected) listed h stale q =
    delete_all-Allowed c allowed delete (not_found_names expected listed) h
      (All-map (λ name. is_stale (some expected) name ≡ true) (λ name. allowed (delete name) ≡ true)
        stale (not_found_names expected listed) (not_found_names-stale expected listed))
      q

cleanup_listed-Allowed :
    (c : Cluster) (allowed : Call → Bool) (delete : String → Call) (expected : Option (List String))
    (answer : Result Cause (List String)) (h : History)
    → ((name : String) → is_stale expected name ≡ true → allowed (delete name) ≡ true)
    → All (λ c. allowed c ≡ true) h
    → All (λ c. allowed c ≡ true) (cleanup_listed c delete expected answer h).1
unfolding cleanup_listed
cleanup_listed-Allowed c allowed delete expected (ok listed) h stale q =
    delete_stale-Allowed c allowed delete expected listed h stale q
cleanup_listed-Allowed c allowed delete expected (err no_kind_match) h stale q = q
cleanup_listed-Allowed c allowed delete expected (err not_found) h stale q = q
cleanup_listed-Allowed c allowed delete expected (err conflict) h stale q = q
cleanup_listed-Allowed c allowed delete expected (err (text m)) h stale q = q

cleanup_kive-Allowed :
    (c : Cluster) (d : Digests) (policy : String) (traps : List Trap) (answer : Answer)
    (h : History)
    → All (λ c. is_allowed d traps c ≡ true) h
    → All
        (λ c. is_allowed d traps c ≡ true)
        (cleanup_kive c policy (policy_names (generate_kive_policy_name d) traps) answer h).1
unfolding cleanup_kive cleanup_kind is_allowed
cleanup_kive-Allowed c d policy traps (some e) h q = q
cleanup_kive-Allowed c d policy traps none h q =
    cleanup_listed-Allowed c (is_allowed d traps) delete_kive_policy
      (policy_names (generate_kive_policy_name d) traps) (c.names h (list_kive_policies policy))
      (list_kive_policies policy ∷ h)
      (λ name e.
        is_stale-is_in_use (generate_kive_policy_name d) traps
          (policy_names (generate_kive_policy_name d) traps) name
          (policy_names-Agrees (generate_kive_policy_name d) traps) e)
      (refl, q)

-- Whatever the cluster answers, cleanupRemovedCaptors only lists policies and deletes policies,
-- and for each policy that it deletes every trap with a captor strategy other than "none" has a
-- name for this kind of policy that can be computed and is another one.
pub cleanup_removed_captors-stale :
    (c : Cluster) (d : Digests) (policy : String) (traps : List Trap)
    → All (λ call. is_allowed d traps call ≡ true) (cleanup_removed_captors c d policy traps []).1
unfolding cleanup_removed_captors cleanup_kind is_allowed
cleanup_removed_captors-stale c d policy traps =
    cleanup_kive-Allowed c d policy traps first.0 first.1 (
      cleanup_listed-Allowed c (is_allowed d traps) delete_tracing_policy expected
        (c.names [] (list_tracing_policies policy)) (list_tracing_policies policy ∷ [])
        (λ name e.
          is_stale-is_in_use (generate_tetragon_tracing_policy_name d) traps expected name
            (policy_names-Agrees (generate_tetragon_tracing_policy_name d) traps) e)
        (refl, tt))
  where
    expected : Option (List String)
    expected = policy_names (generate_tetragon_tracing_policy_name d) traps

    first : Answer × History
    first = cleanup_kind c (list_tracing_policies policy) delete_tracing_policy expected []
