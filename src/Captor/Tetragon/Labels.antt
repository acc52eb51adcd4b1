-- ===== src/Captor/Tetragon/Labels.antt =====
-- The pod selector of the policy of generateTetragonTracingPolicy in
-- internal/controller/traps/filesystoken/utils.go, and the panic on the way to it.
use koney.Matching.Listing.{labels_of}
use mathlib.Core.Option
use koney.Prelude.{
  ◌≡◌, refl, arith, [], none, some, ◌∷◌, ◌||◌, ◌∙◌, List, Option, Bool, String, exists, StringMap,
  is_some, not, lookup, insert, lookup-insert, false, ◌==◌,
}
use koney.Utils.Env.{Environment}
use koney.Api.Trap.{Trap, ResourceFilter, LabelSelector, elements}
use koney.Captor.Tetragon.{
  Owner, put_all, put_filters, generate_tetragon_tracing_policy, TracingPolicy,
}

-- Some filter has no selector.
abbrev pub lacks_selector : List ResourceFilter → Bool
lacks_selector = exists (λ f. not (is_some f.selector))

pub put_filters-panics :
    (filters : List ResourceFilter) (m : StringMap String)
    → is_some (put_filters filters m) ≡ not (lacks_selector filters)
unfolding put_filters
put_filters-panics [] m = refl
put_filters-panics (f ∷ filters) m = go f.selector (λ m'. put_filters-panics filters m')
  where
    go :
        (s : Option LabelSelector)
        → ((m' : StringMap String)
            → is_some (put_filters filters m') ≡ not (lacks_selector filters))
        → is_some (elim s [
          | none ↦ none
          | some selector ↦ put_filters filters (put_all selector.match_labels m)
        ])
          ≡ not (not (is_some s) || lacks_selector filters)
    go none rec = refl
    go (some selector) rec = rec (put_all selector.match_labels m)

is_some-map {ℓ κ} :
    {A : Type ℓ} {B : Type κ} (f : A → B) (o : Option A) → is_some (Option.map f o) ≡ is_some o
is_some-map f none = refl
is_some-map f (some a) = refl

-- The generation of a Tetragon policy panics exactly if some filter of the trap has no selector.
pub generate_tetragon_tracing_policy-panics :
    (marshal : List String → Option String) (env : Environment) (policy : Owner) (trap : Trap)
    (name : String)
    → is_some (generate_tetragon_tracing_policy marshal env policy trap name)
      ≡ not (lacks_selector (elements trap.match_resources.any))
unfolding generate_tetragon_tracing_policy
generate_tetragon_tracing_policy-panics marshal env policy trap name =
    is_some-map _ (put_filters (elements trap.match_resources.any) [])
    ∙ put_filters-panics (elements trap.match_resources.any) []

-- The map has the key.
abbrev pub has_key : String → StringMap String → Bool
has_key k m = is_some (lookup k m)

has_key-cons :
    (k j v : String) (m : StringMap String) → has_key k ((j, v) ∷ m) ≡ (j == k || has_key k m)
unfolding lookup
has_key-cons k j v m = ground arith

has_key-nil : (k : String) → has_key k [] ≡ false
unfolding lookup
has_key-nil k = refl

has_key-insert :
    (k j v : String) (m : StringMap String) → has_key k (insert j v m) ≡ (j == k || has_key k m)
has_key-insert k j v m = ground (arith, lookup-insert j k v m)

has_key-put_all :
    (k : String) (labels m : StringMap String)
    → has_key k (put_all labels m) ≡ (has_key k labels || has_key k m)
unfolding put_all
has_key-put_all k [] m = rw has_key-nil
has_key-put_all k ((j, v) ∷ labels) m = ground (
  arith,
  has_key-put_all k labels (insert j v m),
  has_key-insert k j v m,
  has_key-cons k j v labels,
)

has_key-put_filters :
    (k : String) (filters : List ResourceFilter) (m : StringMap String) {out : StringMap String}
    → put_filters filters m ≡ some out
    → has_key k out ≡ (exists (λ f. has_key k (labels_of f.selector)) filters || has_key k m)
unfolding put_filters
has_key-put_filters k [] m h = ground arith
has_key-put_filters k (f ∷ filters) m {out} h =
    go f.selector (λ m'. has_key-put_filters k filters m') h
  where
    go :
        (s : Option LabelSelector)
        → ((m' : StringMap String)
            → put_filters filters m' ≡ some out
            → has_key k out
              ≡ (exists (λ f. has_key k (labels_of f.selector)) filters || has_key k m'))
        → (elim s [
          | none ↦ none
          | some selector ↦ put_filters filters (put_all selector.match_labels m)
        ])
          ≡ some out
        → has_key k out ≡ (
            (has_key k (labels_of s) || exists (λ f. has_key k (labels_of f.selector)) filters)
            || has_key k m)
    go none rec h = cc
    go (some selector) rec h =
        ground (
          arith,
          rec (put_all selector.match_labels m) h,
          has_key-put_all k selector.match_labels m,
        )

pod_selector-some :
    (marshal : List String → Option String) (env : Environment) (policy : Owner) (trap : Trap)
    (name : String) {out : TracingPolicy}
    → generate_tetragon_tracing_policy marshal env policy trap name ≡ some out
    → put_filters (elements trap.match_resources.any) [] ≡ some out.pod_selector
unfolding generate_tetragon_tracing_policy
pod_selector-some marshal env policy trap name h = ground arith

-- If the generation succeeds, a key is in the pod selector of the policy exactly if it is among
-- the labels of some filter of the trap.
pub generate_tetragon_tracing_policy-keys :
    (marshal : List String → Option String) (env : Environment) (policy : Owner) (trap : Trap)
    (name : String) {out : TracingPolicy} (k : String)
    → generate_tetragon_tracing_policy marshal env policy trap name ≡ some out
    → has_key k out.pod_selector
      ≡ exists (λ f. has_key k (labels_of f.selector)) (elements trap.match_resources.any)
generate_tetragon_tracing_policy-keys marshal env policy trap name k h = ground (
  arith,
  has_key-put_filters k (elements trap.match_resources.any) []
      (pod_selector-some marshal env policy trap name h),
  has_key-nil k,
)
