-- ===== src/Matching/Listing.antt =====
-- listItemsAsObjects and getMatchingObjectsByNamespaceAndLabels of
-- internal/controller/matching/matching.go. The Kubernetes API is a parameter: what each call of
-- `List` answers, `none` being an error.
pub mod Names
pub mod Origin
pub mod Laws
pub mod Distinct
use mathlib.Core.Option
use koney.Prelude.{
  ◌==◌, ◌++◌, List, [], ◌∷◌, none, some, ◌>>=◌, String, Option, Result, if◌then◌else◌, StringMap,
  err, ok, is_nil, map, string_eq,
}
use koney.Utils.Collections.{contains}
use koney.Api.Trap.{ResourceFilter, LabelSelector, elements}
use koney.Cluster.{Object, Pod, Deployment, pod, deployment, name_of}
use koney.Matching.Selectors.{MatchError, list_failed, extract_object_names}

-- The options that the code passes to `List`.
pub data ListOption : Type 0 where
  in_namespace : String → ListOption
  matching_labels : StringMap String → ListOption

-- client.Reader, for the two kinds of lists that matching asks for.
pub record Reader : Type 0 where
  pub list_pods : ListOption → Option (List Pod)
  pub list_deployments : ListOption → Option (List Deployment)

-- The empty list that the caller makes: PodList or DeploymentList.
pub data Kind : Type 0 where
  pods deployments : Kind

or_list_failed : Option (List Object) → Result MatchError (List Object)
or_list_failed none = err list_failed
or_list_failed (some objects) = ok objects

-- matching.listItemsAsObjects
unfoldable pub list_items_as_objects : Reader → Kind → ListOption → Result MatchError (List Object)
unfolding or_list_failed
list_items_as_objects r pods opts = or_list_failed (Option.map (map pod) (r.list_pods opts))
list_items_as_objects r deployments opts =
    or_list_failed (Option.map (map deployment) (r.list_deployments opts))

-- `for _, object := range items { if !utils.Contains(extractObjectNames(acc), object.GetName()) {
-- acc = append(acc, object) } }`
unfoldable pub append_new : List Object → List Object → List Object
append_new acc [] = acc
append_new acc (o ∷ items) =
    append_new (if contains (extract_object_names acc) (name_of o) then acc else acc ++ o ∷ [])
      items

-- The loop over the namespaces.
unfoldable pub match_namespaces :
    Reader → Kind → List String → List Object → Result MatchError (List Object)
match_namespaces r kind [] acc = ok acc
match_namespaces r kind (ns ∷ namespaces) acc =
    list_items_as_objects r kind (in_namespace ns) >>= λ items.
    match_namespaces r kind namespaces (append_new acc items)

-- `resourceFilter.Selector.MatchLabels`, empty if there is no selector
abbrev pub labels_of : Option LabelSelector → StringMap String
labels_of none = []
labels_of (some selector) = selector.match_labels

unfoldable pub match_labels : Reader → Kind → StringMap String → Result MatchError (List Object)
match_labels r kind labels =
    if is_nil labels
    then ok []
    else list_items_as_objects r kind (matching_labels labels) >>= λ items. ok (append_new [] items)

-- The inner loop of the last part: `o` is appended if an object of its name is among the others.
unfoldable pub append_common_of : Object → List Object → List Object → List Object
append_common_of o [] acc = acc
append_common_of o (l ∷ by_labels) acc = append_common_of o by_labels (
    if name_of o == name_of l
    then (if contains (extract_object_names acc) (name_of o) then acc else acc ++ o ∷ [])
    else acc)

unfoldable pub append_common : List Object → List Object → List Object → List Object
append_common [] by_labels acc = acc
append_common (o ∷ by_namespace) by_labels acc =
    append_common by_namespace by_labels (append_common_of o by_labels acc)

-- The three parts that put the result together.
unfoldable pub combine : ResourceFilter → List Object → List Object → List Object
combine filter by_namespace by_labels =
    let only_labels = if is_nil (elements filter.namespaces) then append_new [] by_labels else [] in
    let only_namespaces =
      if is_nil (labels_of filter.selector)
      then append_new only_labels by_namespace
      else only_labels in
    append_common by_namespace by_labels only_namespaces

-- matching.getMatchingObjectsByNamespaceAndLabels
unfoldable pub get_matching_objects_by_namespace_and_labels :
    Reader → Kind → ResourceFilter → Result MatchError (List Object)
get_matching_objects_by_namespace_and_labels r kind filter =
    match_namespaces r kind (elements filter.namespaces) [] >>= λ by_namespace.
    (match_labels r kind (labels_of filter.selector) >>= λ by_labels.
    ok (combine filter by_namespace by_labels))
