-- ===== src/Decoy/Deploy/Loop.antt =====
-- The loop of DeployDecoy over the selected containers of a pod, with the strategy containerExec
-- (internal/controller/traps/filesystoken/deployment.go).
use koney.Effects.Steps.{not_nil}
use koney.Utils.Collections.{contains}
use koney.Libraries.{Libraries}
use koney.Decoy.Deploy.{
  Progress, deploy_to_containers, record_outcome, deploy_to_container, deploy_by_exec,
}
use koney.Controller.Results.{Errors}
use koney.Decoy.Exec.{deploy_decoy_with_container_exec}
use koney.Api.Trap.{Trap}
use koney.Cluster.{Pod, pod}
use koney.Effects.{Cluster, History, after, pure}
use koney.Prelude.{
  [], none, some, true, false, inl, inr, ◌∷◌, ◌++◌, ◌≡◌, ◌⊎◌, List, Option, Bool, String, sym, refl,
  ◌==◌, ◌∙◌, ap, All, append-snoc, string_eq, if◌then◌else◌, append_empty,
}
use koney.Decoy.Deploy.Read.{IsRead, exec-IsRead, exec-keeps}

module _ (c : Cluster) (p : Pod) (trap : Trap) where
  -- The loop over the containers: if it ends without an error, then there was none before, all
  -- containers count as deployed to, and each of them was on record or had its file read back.
  pub record Looped (already : List String) (errors : Errors) (deployed names : List String)
      (h : History) (r : Option Progress × History) : Type 0 where
    pub done :
        (s : Progress)
        → r.0 ≡ some s
        → s.errors ≡ []
        → (errors ≡ [])
          × (s.deployed ≡ deployed ++ names)
          × (s.resource ≡ pod p)
          × All (λ name. (contains already name ≡ true) ⊎ IsRead c p trap name r.1) names
    pub keeps : (q : Pod) (name : String) → IsRead c q trap name h → IsRead c q trap name r.1

module _ (l : Libraries) (c : Cluster) (p : Pod) (trap : Trap) (already : List String)
    (by_exec : (trap.decoy_deployment.strategy == "containerExec") ≡ true) where
  abbrev at : Errors → List String → Progress
  at errors deployed = record { errors = errors; deployed = deployed; resource = pod p }

  -- The rest of the loop, after the first container.
  abbrev Rest : List String → Type 0
  Rest names =
      (errors : Errors) (deployed : List String) (h : History)
      → Looped c p trap already errors deployed names h
          (deploy_to_containers l c trap already names (at errors deployed) h)

  after_skip :
      (name : String) (names : List String) (errors : Errors) (deployed : List String) (h : History)
      → contains already name ≡ true
      → Rest names
      → Looped c p trap already errors deployed
          (name ∷ names)
          h
          (deploy_to_containers l c trap already names (at errors (deployed ++ name ∷ [])) h)
  after_skip name names errors deployed h k rest =
      let r = rest errors (deployed ++ name ∷ []) h in
      record {
        done = λ s e n.
            let (a, b, o, d) = r.done s e n in
            (a, b ∙ append-snoc deployed name names, o, (inl k, d));
        keeps = r.keeps;
      }

  after_exec :
      (name : String) (names : List String) (errors : Errors) (deployed : List String) (h : History)
      → (m : Option Errors × History) → (m.0 ≡ some [] → IsRead c p trap name m.1)
      → ((q : Pod) (n : String) → IsRead c q trap n h → IsRead c q trap n m.1)
      → Rest names
      → Looped c p trap already errors deployed (name ∷ names) h (
          after
            (deploy_to_containers l c trap already names)
            (after (λ more. pure (record_outcome (at errors deployed) name (pod p) more)) m))
  unfolding record_outcome
  after_exec name names errors deployed h (none, h1) is_read grows rest = record {
    done = λ s e n. cc;
    keeps = grows;
  }
  after_exec name names errors deployed h (some [], h1) is_read grows rest =
      let r = rest errors (deployed ++ name ∷ []) h1 in
      record {
        done = λ s e n.
            let (a, b, o, d) = r.done s e n in
            (a, b ∙ append-snoc deployed name names, o, (inr (r.keeps p name (is_read refl)), d));
        keeps = λ q n k. r.keeps q n (grows q n k);
      }
  after_exec name names errors deployed h (some (x ∷ xs), h1) is_read grows rest =
      let r = rest (errors ++ x ∷ xs) deployed h1 in
      record {
        done = λ s e n. absurd (not_nil errors x xs (r.done s e n).0);
        keeps = λ q n k. r.keeps q n (grows q n k);
      }

  some_injective : {x y : Progress} → some x ≡ some y → x ≡ y
  some_injective e = cc

  pub loop : (names : List String) → Rest names
  unfolding deploy_to_containers deploy_to_container deploy_by_exec
  loop [] errors deployed h = record {
    done = λ s e n.
        let q = some_injective e in
        (
          ap (λ x. x.errors) q ∙ n,
          sym (ap (λ x. x.deployed) q) ∙ sym (append_empty deployed),
          sym (ap (λ x. x.resource) q),
          tt,
        );
    keeps = λ q n k. k;
  }
  loop (name ∷ names) errors deployed h = rw by_exec (go (contains already name) refl (loop names))
    where
      go :
          (b : Bool)
          → contains already name ≡ b
          → Rest names
          → Looped c p trap already errors deployed (name ∷ names) h (
              after (deploy_to_containers l c trap already names) (
                (if b
                    then pure (at errors (deployed ++ name ∷ []))
                    else deploy_by_exec c trap (pod p) (at errors deployed) name)
                  h))
      go true k rest = after_skip name names errors deployed h k rest
      go false k rest =
          after_exec name names errors deployed h (deploy_decoy_with_container_exec c trap p name h)
            (exec-IsRead c p trap name h) (λ q n k. exec-keeps c q trap p name h n k) rest
