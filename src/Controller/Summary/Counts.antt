-- ===== src/Controller/Summary/Counts.antt =====
-- The counts of the summaries in internal/controller/deceptionpolicy_trap_deployment.go.
use koney.Api.Trap.Valid.{is_valid, panics, Verdict, invalid, valid}
use koney.Api.Trap.{Trap}
use koney.Utils.Names.{Patterns}
use koney.Prelude.{
  ◌≡◌, refl, arith, ◌+◌, [], ◌∷◌, ◌++◌, ◌&&◌, ◌||◌, List, Bool, ℕ, if◌then◌else◌, some, true, false,
  ◌≢◌, ◌≤◌, ◌∙◌, Option, suc, is_nil, not, exists, length, keep, All, none,
}
use koney.Controller.Results.{DecoyDeploymentResult}
use koney.Controller.Results.Decoy
use koney.Controller.Status.{TrapReconcileResult, num_skipped, num_tries}
use koney.Controller.Summary.{
  summarize_decoys, join_own_errors, fresh, filter_valid_traps, requeue_if, count_outcome,
  keep_trap,
}

-- How many results pass a test.
abbrev pub count : {A : Type 0} → (A → Bool) → List A → ℕ
count p [] = 0
count p (x ∷ xs) = if p x then suc (count p xs) else count p xs

-- A decoy was not found a place, or not all of its places were ready: neither tried nor failed.
abbrev pub is_skipped : DecoyDeploymentResult → Bool
is_skipped r =
    is_nil r.errors && not (r.at_least_one_objects_was_matched && r.all_objects_were_ready)

abbrev pub failed : DecoyDeploymentResult → Bool
failed r = not (is_nil r.errors)

abbrev pub succeeded : DecoyDeploymentResult → Bool
succeeded r = is_nil r.errors && r.at_least_one_objects_was_matched && r.all_objects_were_ready

abbrev pub waits : DecoyDeploymentResult → Bool
waits r = is_nil r.errors && r.at_least_one_objects_was_matched && not r.all_objects_were_ready

is_nil-double : {A : Type 0} (xs : List A) → is_nil (xs ++ xs) ≡ is_nil xs
is_nil-double [] = refl
is_nil-double (x ∷ xs) = refl

-- One turn of the loop.
abbrev turn : DecoyDeploymentResult → TrapReconcileResult → TrapReconcileResult
turn r acc =
    let r' = join_own_errors r in
    requeue_if (Decoy.implies_retry r')
      (count_outcome (Decoy.implies_failure r') (Decoy.implies_success r') acc)

record Tallied (results : List DecoyDeploymentResult) (acc out : TrapReconcileResult) : Type 0 where
  successes : out.num_successes ≡ acc.num_successes + count succeeded results
  failures : out.num_failures ≡ acc.num_failures + count failed results
  requeue : out.should_requeue ≡ (acc.should_requeue || exists waits results)
  traps : out.num_traps ≡ acc.num_traps
  no_errors : out.errors ≡ acc.errors

turn-Tallied :
    (r : DecoyDeploymentResult) (acc : TrapReconcileResult) → Tallied (r ∷ []) acc (turn r acc)
unfolding Decoy.implies_success Decoy.implies_failure Decoy.implies_retry
turn-Tallied r acc = ground (arith, is_nil-double r.errors)

summarize_decoys-Tallied :
    (results : List DecoyDeploymentResult) (acc : TrapReconcileResult)
    → Tallied results acc (summarize_decoys results acc)
unfolding summarize_decoys
summarize_decoys-Tallied [] acc = ground arith
summarize_decoys-Tallied (r ∷ results) acc =
    let one = turn-Tallied r acc in
    let rest = summarize_decoys-Tallied results (turn r acc) in
    record {
      successes = ground (arith, one.successes, rest.successes);
      failures = ground (arith, one.failures, rest.failures);
      requeue = ground (arith, one.requeue, rest.requeue);
      traps = rest.traps ∙ one.traps;
      no_errors = rest.no_errors ∙ one.no_errors;
    }

-- What the summary of reconcileDecoys says of the results of all traps.
pub record Counted (results : List DecoyDeploymentResult) (out : TrapReconcileResult) : Type 0 where
  -- Traps with errors failed, and those without errors whose objects were all ready succeeded.
  pub failures : out.num_failures ≡ count failed results
  pub successes : out.num_successes ≡ count succeeded results
  -- The traps that are neither were skipped, and none is counted twice.
  pub skipped : num_skipped out ≡ count is_skipped results
  pub tries : num_tries out ≤ out.num_traps
  -- A new attempt is wanted exactly if objects of some trap without errors were not ready.
  pub requeue : out.should_requeue ≡ exists waits results

count-total :
    (results : List DecoyDeploymentResult)
    → count succeeded results + count failed results + count is_skipped results ≡ length results
count-total [] = omega arith
count-total (r ∷ results) = ground (arith, count-total results)

-- The summary of reconcileDecoys counts each trap once: as failed if it has errors, as successful
-- if it has none and all objects of a match were ready, else as skipped; and it asks for a new
-- attempt exactly if some trap without errors matched objects that were not all ready.
pub summarize_decoys-Counted :
    (results : List DecoyDeploymentResult)
    → Counted results (summarize_decoys results (fresh (length results)))
summarize_decoys-Counted results =
    let t = summarize_decoys-Tallied results (fresh (length results)) in
    let total = count-total results in
    record {
      failures = omega (arith, t.failures);
      successes = omega (arith, t.successes);
      skipped = omega (arith, t.failures, t.successes, t.traps, total);
      tries = omega (arith, t.failures, t.successes, t.traps, total);
      requeue = t.requeue;
    }

-- IsValid returns nil for the trap.
abbrev pub accepts : Patterns → Trap → Bool
accepts patterns trap = elim (is_valid patterns trap) [ valid ↦ true | _ ↦ false ]

-- If filterValidTraps returns, then it returns just the traps that IsValid accepts, in order, and
-- IsValid panicked on no trap of the policy.
pub filter_valid_traps-keep :
    (patterns : Patterns) (traps : List Trap) {out : List Trap}
    → filter_valid_traps patterns traps ≡ some out
    → (out ≡ keep (accepts patterns) traps) × All (λ t. is_valid patterns t ≢ panics) traps
unfolding filter_valid_traps
filter_valid_traps-keep patterns [] h = (ground arith, tt)
filter_valid_traps-keep patterns (t ∷ traps) {out} h =
    go (is_valid patterns t) (filter_valid_traps patterns traps) refl refl
      (λ rest f. filter_valid_traps-keep patterns traps {out = rest} f) h
  where
    go :
        (v : Verdict) (o : Option (List Trap))
        → is_valid patterns t ≡ v
        → filter_valid_traps patterns traps ≡ o
        → ((rest : List Trap)
            → filter_valid_traps patterns traps ≡ some rest
            → (rest ≡ keep (accepts patterns) traps)
              × All (λ t. is_valid patterns t ≢ panics) traps)
        → keep_trap v t o ≡ some out
        → (out ≡ keep (accepts patterns) (t ∷ traps))
          × All (λ t. is_valid patterns t ≢ panics) (t ∷ traps)
    go valid (some rest) e f ih h =
        let (same, none_panics) = ih rest f in (ground arith, ((λ p. ground arith), none_panics))
    go (invalid r) (some rest) e f ih h =
        let (same, none_panics) = ih rest f in (ground arith, ((λ p. ground arith), none_panics))
    go panics (some rest) e f ih h = cc
    go valid none e f ih h = cc
    go (invalid r) none e f ih h = cc
    go panics none e f ih h = cc
