-- ===== src/Captor/Tetragon/Values.antt =====
-- The values in the pod selector that generateTetragonTracingPolicy of
-- internal/controller/traps/filesystoken/utils.go, and each match of generateKivePolicy, collects.
use koney.Prelude.{
  ◌≡◌, refl, arith, [], none, some, ◌∷◌, ◌++◌, List, Option, String, StringMap, lookup, insert,
  lookup-insert, if◌then◌else◌, ◌==◌,
}
use koney.Api.Trap.{ResourceFilter, LabelSelector}
use koney.Matching.Listing.{labels_of}
use koney.Captor.Tetragon.{put_all, put_filters}

-- The last value that the list gives to the label.
abbrev pub last_value : String → StringMap String → Option String
last_value k [] = none
last_value k ((j, v) ∷ labels) = elim (last_value k labels) [
  | none ↦ if j == k then some v else none
  | some later ↦ some later
]

abbrev pub all_labels : List ResourceFilter → StringMap String
all_labels [] = []
all_labels (f ∷ filters) = labels_of f.selector ++ all_labels filters

-- The value, if there is one, else the other.
abbrev or_else : Option String → Option String → Option String
or_else none other = other
or_else (some v) other = some v

last_value-append :
    (k : String) (labels more : StringMap String)
    → last_value k (labels ++ more) ≡ or_else (last_value k more) (last_value k labels)
last_value-append k [] more = ground arith
last_value-append k ((j, v) ∷ labels) more = ground (arith, last_value-append k labels more)

lookup-put_all :
    (k : String) (labels m : StringMap String)
    → lookup k (put_all labels m) ≡ or_else (last_value k labels) (lookup k m)
unfolding put_all
lookup-put_all k [] m = refl
lookup-put_all k ((j, v) ∷ labels) m =
    ground (arith, lookup-put_all k labels (insert j v m), lookup-insert j k v m)

lookup-put_filters :
    (k : String) (filters : List ResourceFilter) (m : StringMap String) {out : StringMap String}
    → put_filters filters m ≡ some out
    → lookup k out ≡ or_else (last_value k (all_labels filters)) (lookup k m)
unfolding put_filters
lookup-put_filters k [] m h = ground arith
lookup-put_filters k (f ∷ filters) m {out} h =
    go f.selector (λ m'. lookup-put_filters k filters m') h
  where
    go :
        (s : Option LabelSelector)
        → ((m' : StringMap String)
            → put_filters filters m' ≡ some out
            → lookup k out ≡ or_else (last_value k (all_labels filters)) (lookup k m'))
        → (elim s [
          | none ↦ none
          | some selector ↦ put_filters filters (put_all selector.match_labels m)
        ])
          ≡ some out
        → lookup k out ≡ or_else (last_value k (labels_of s ++ all_labels filters)) (lookup k m)
    go none rec h = cc
    go (some selector) rec h = ground (
      arith,
      rec (put_all selector.match_labels m) h,
      lookup-put_all k selector.match_labels m,
      last_value-append k selector.match_labels (all_labels filters),
    )

pub lookup-put_filters_nil :
    (k : String) (filters : List ResourceFilter) {out : StringMap String}
    → put_filters filters [] ≡ some out
    → lookup k out ≡ last_value k (all_labels filters)
lookup-put_filters_nil k filters h =
    ground (arith, lookup-put_filters k filters [] h, lookup-nil, or_else-none)
  where
    lookup-nil : lookup {V = String} k [] ≡ none
    lookup-nil = unfold lookup in refl

    or_else-none : (o : Option String) → or_else o none ≡ o
    or_else-none none = refl
    or_else-none (some v) = refl
