-- ===== src/Controller/Deployments/Returns.antt =====
-- Panics of reconcileDecoys (internal/controller/deceptionpolicy_trap_deployment.go) on the traps
-- that filterValidTraps keeps.
use koney.Api.Trap.Valid.Accepts.{is_valid_iff}
use koney.Api.Trap.Valid.{Verdict, valid, invalid, is_valid, panics}
use koney.Controller.Summary.Counts.{accepts, filter_valid_traps-keep}
use koney.Decoy.Deploy.Returns.{deploy_decoy-Returns}
use koney.Effects.Steps.{Returns, after-Returns}
use koney.Controller.Deployments.{decoy_result, decoy_results, reconcile_decoys}
use koney.Api.Policy.{Policy}
use koney.Effects.{Cluster, History}
use koney.Utils.Names.{Patterns}
use koney.Libraries.{Libraries}
use koney.Controller.Summary.{filter_valid_traps}
use koney.Api.Trap.{Trap, TrapType, trap_type}
use koney.Prelude.{
  [], some, true, ◌∷◌, ◌≡◌, List, starts_with, All, is_some, refl, false, Bool, if◌then◌else◌, keep,
  subst, sym,
}

abbrev IsAbsolute : Trap → Type 0
IsAbsolute trap = starts_with trap.filesystem_honeytoken.file_path "/" ≡ true

accepts-IsAbsolute : (p : Patterns) (trap : Trap) → accepts p trap ≡ true → IsAbsolute trap
accepts-IsAbsolute p trap e = ((is_valid_iff p trap).0 (verdict (is_valid p trap) e)).is_absolute
  where
    verdict : (v : Verdict) → elim v as (λ v. Bool) [ valid ↦ true | _ ↦ false ] ≡ true → v ≡ valid
    verdict valid e = refl
    verdict panics e = cc
    verdict (invalid r) e = cc

keep-IsAbsolute : (p : Patterns) (traps : List Trap) → All IsAbsolute (keep (accepts p) traps)
keep-IsAbsolute p [] = tt
keep-IsAbsolute p (trap ∷ traps) =
    go (accepts p trap) (accepts-IsAbsolute p trap) (keep-IsAbsolute p traps)
  where
    go :
        (b : Bool)
        → (b ≡ true → IsAbsolute trap)
        → All IsAbsolute (keep (accepts p) traps)
        → All IsAbsolute (if b then trap ∷ keep (accepts p) traps else keep (accepts p) traps)
    go true a rest = (a refl, rest)
    go false a rest = rest

filter_valid_traps-IsAbsolute :
    (p : Patterns) (traps : List Trap) {valid_traps : List Trap}
    → filter_valid_traps p traps ≡ some valid_traps
    → All IsAbsolute valid_traps
filter_valid_traps-IsAbsolute p traps e =
    subst (All IsAbsolute) (sym (filter_valid_traps-keep p traps e).0) (keep-IsAbsolute p traps)

module _ (l : Libraries) (c : Cluster) (policy : Policy) where
  decoy_result-Returns :
      (trap : Trap) (kind : TrapType)
      → IsAbsolute trap
      → Returns (decoy_result l c policy trap kind)
  unfolding decoy_result
  decoy_result-Returns trap TrapType.filesystem_honeytoken a =
      deploy_decoy-Returns l c trap a policy
  decoy_result-Returns trap TrapType.http_endpoint a = λ h. refl
  decoy_result-Returns trap TrapType.http_payload a = λ h. refl
  decoy_result-Returns trap TrapType.unknown a = λ h. refl

  decoy_results-Returns :
      (traps : List Trap) → All IsAbsolute traps → Returns (decoy_results l c policy traps)
  unfolding decoy_results
  decoy_results-Returns [] a h = refl
  decoy_results-Returns (trap ∷ traps) a h =
      after-Returns _ _ (decoy_result-Returns trap (trap_type trap) a.0 h)
        (λ result h'. after-Returns _ _ (decoy_results-Returns traps a.1 h') (λ results h''. refl))

  -- If filterValidTraps returns these traps, then reconcileDecoys does not panic on them, whatever
  -- the cluster answers.
  pub reconcile_decoys-Returns :
      (traps valid_traps : List Trap) (h : History)
      → filter_valid_traps l.patterns traps ≡ some valid_traps
      → is_some (reconcile_decoys l c policy valid_traps h).0 ≡ true
  unfolding reconcile_decoys
  reconcile_decoys-Returns traps valid_traps h e =
      after-Returns _ _
        (decoy_results-Returns valid_traps (filter_valid_traps-IsAbsolute l.patterns traps e) h)
        (λ results h'. refl)
