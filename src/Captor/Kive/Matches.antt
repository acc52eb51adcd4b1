-- ===== src/Captor/Kive/Matches.antt =====
-- The matches of the policy of generateKivePolicy in
-- internal/controller/traps/filesystoken/utils.go, without its loops.
use mathlib.Core.Option
use mathlib.Core.List.{map-append}
use koney.Captor.Tetragon.Values.{last_value, all_labels, lookup-put_filters_nil}
use koney.Prelude.{
  ◌≡◌, refl, [], some, inl, inr, ◌∷◌, ◌++◌, List, String, if◌then◌else◌, is_nil, StringMap,
  Bool-cases, map, arith, Option, false, lookup, ap, Option-cases, is_some,
}
use koney.Utils.Env.{Environment}
use koney.Api.Trap.{Trap, ResourceFilter, elements}
use koney.Captor.Tetragon.Labels.{lacks_selector, put_filters-panics}
use koney.Captor.Tetragon.{Owner, put_filters}
use koney.Captor.Kive.{
  KiveTrapMatch, namespace_matches, filter_matches, all_matches, generate_kive_policy, KiveTrap,
}

-- The namespaces of a filter; one that is empty stands for a filter without namespaces.
abbrev namespaces_or_blank : ResourceFilter → List String
namespaces_or_blank f = if is_nil (elements f.namespaces) then "" ∷ [] else elements f.namespaces

-- One match for each namespace, all with the same labels.
abbrev matches_of : StringMap String → String → List String → List KiveTrapMatch
matches_of labels container [] = []
matches_of labels container (ns ∷ namespaces) =
    (record { namespace = ns; container_name = container; match_labels = labels })
    ∷ matches_of labels container namespaces

abbrev expected_matches : StringMap String → List ResourceFilter → List KiveTrapMatch
expected_matches labels [] = []
expected_matches labels (f ∷ filters) =
    matches_of labels f.container_selector (namespaces_or_blank f)
    ++ expected_matches labels filters

namespace_matches-eq :
    (filters : List ResourceFilter) (container : String) (namespaces : List String)
    {labels : StringMap String}
    → put_filters filters [] ≡ some labels
    → namespace_matches filters container namespaces ≡ some (matches_of labels container namespaces)
unfolding namespace_matches
namespace_matches-eq filters container [] e = refl
namespace_matches-eq filters container (ns ∷ namespaces) e =
    ground (arith, e, namespace_matches-eq filters container namespaces e)

filter_matches-eq :
    (filters : List ResourceFilter) (f : ResourceFilter) {labels : StringMap String}
    → put_filters filters [] ≡ some labels
    → filter_matches filters f
      ≡ some (matches_of labels f.container_selector (namespaces_or_blank f))
unfolding filter_matches
filter_matches-eq filters f {labels} e = elim (Bool-cases (is_nil (elements f.namespaces))) [
  | inl nil ↦ rw (nil, e)
  | inr more ↦ rw more (namespace_matches-eq filters f.container_selector (elements f.namespaces) e)
]

all_matches-eq :
    (filters rest : List ResourceFilter) {labels : StringMap String}
    → put_filters filters [] ≡ some labels
    → all_matches filters rest ≡ some (expected_matches labels rest)
unfolding all_matches
all_matches-eq filters [] e = refl
all_matches-eq filters (f ∷ rest) e =
    ground (arith, filter_matches-eq filters f e, all_matches-eq filters rest e)

-- A match as it bears on one label: its namespace, its container and the value that it asks for.
abbrev View : Type 0
View = String × String × Option String

abbrev view : String → KiveTrapMatch → View
view k m = (m.namespace, m.container_name, lookup k m.match_labels)

abbrev pub path_and_views : String → KiveTrap → String × List View
path_and_views k t = (t.path, map (view k) t.match_any)

-- For each filter one view for each of its namespaces.
abbrev views_of : Option String → String → List String → List View
views_of value container [] = []
views_of value container (ns ∷ namespaces) =
    (ns, container, value) ∷ views_of value container namespaces

abbrev pub expected_views : Option String → List ResourceFilter → List View
expected_views value [] = []
expected_views value (f ∷ filters) =
    views_of value f.container_selector (namespaces_or_blank f) ++ expected_views value filters

view-matches_of :
    (k : String) (labels : StringMap String) (container : String) (namespaces : List String)
    → map (view k) (matches_of labels container namespaces)
      ≡ views_of (lookup k labels) container namespaces
view-matches_of k labels container [] = refl
view-matches_of k labels container (ns ∷ namespaces) =
    ap (λ l. (ns, container, lookup k labels) ∷ l) (view-matches_of k labels container namespaces)

view-expected_matches :
    (k : String) (labels : StringMap String) (filters : List ResourceFilter)
    → map (view k) (expected_matches labels filters) ≡ expected_views (lookup k labels) filters
view-expected_matches k labels [] = refl
view-expected_matches k labels (f ∷ filters) = rw (
  map-append (view k),
  view-matches_of k labels f.container_selector (namespaces_or_blank f),
  view-expected_matches k labels filters,
)

-- If every filter has a selector, then the generation succeeds, and the one trap of the policy
-- watches the path of the honeytoken, with a match for each filter and namespace (one without a
-- namespace for a filter that names none) that asks, for each label, for the last value that the
-- label has in the selectors of all filters, and for no value if it has none.
pub generate_kive_policy-matches :
    (env : Environment) (policy : Owner) (trap : Trap) (name k : String)
    → lacks_selector (elements trap.match_resources.any) ≡ false
    → let filters = elements trap.match_resources.any in
      Option.map (λ p. map (path_and_views k) p.traps) (generate_kive_policy env policy trap name)
      ≡ some (
          (
            trap.filesystem_honeytoken.file_path,
            expected_views (last_value k (all_labels filters)) filters,
          )
          ∷ [])
unfolding generate_kive_policy
generate_kive_policy-matches env policy trap name k h =
    elim (Option-cases (put_filters filters [])) [
      | inl e ↦ ground (arith, put_filters-panics filters [], ap is_some e)
      | inr (labels, e) ↦ rw (
        all_matches-eq filters filters e,
        view-expected_matches k labels filters,
        lookup-put_filters_nil k filters e,
      )
    ]
  where
    filters : List ResourceFilter
    filters = elements trap.match_resources.any
