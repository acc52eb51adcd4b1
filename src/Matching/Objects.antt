-- ===== src/Matching/Objects.antt =====
-- getMatchingObjectsWithContainers of internal/controller/matching/matching.go.
pub mod Distinct
use koney.Prelude.{
  ◌==◌, ◌++◌, List, [], ◌∷◌, ◌>>=◌, ok, String, Result, if◌then◌else◌, string_eq, is_nil, is_some,
}
use koney.Utils.Collections.{contains}
use koney.Utils.Names.{Patterns}
use koney.Api.Trap.{ResourceFilter, MatchResources, elements}
use koney.Cluster.{Object, name_of}
use koney.Matching.Selectors.{MatchError, ObjectMap, get_object_from_map, select_containers}
use koney.Matching.Listing.{Reader, Kind, get_matching_objects_by_namespace_and_labels}

-- `for _, container := range selectedContainers { if !utils.Contains(containers, container) {
-- containers = append(containers, container) } }`
unfoldable pub merge_containers : List String → List String → List String
merge_containers containers [] = containers
merge_containers containers (c ∷ selected) =
    merge_containers (if contains containers c then containers else containers ++ c ∷ []) selected

-- The entry of the object that getObjectFromMap has found, the first of the name.
unfoldable pub merge_entry : String → List String → ObjectMap → ObjectMap
merge_entry name selected [] = []
merge_entry name selected ((o, containers) ∷ m) =
    if name_of o == name
    then (o, merge_containers containers selected) ∷ m
    else (o, containers) ∷ merge_entry name selected m

-- The body of the inner loop, for containers that are selected.
unfoldable pub add_object : Object → List String → ObjectMap → ObjectMap
add_object o selected m =
    if is_nil selected
    then m
    else if is_some (get_object_from_map (name_of o) m)
    then merge_entry (name_of o) selected m
    else m ++ (o, selected) ∷ []

-- The loop over the objects that match one filter.
unfoldable pub add_objects :
    Patterns → String → List Object → ObjectMap → Result MatchError ObjectMap
add_objects patterns selector [] m = ok m
add_objects patterns selector (o ∷ objects) m =
    select_containers patterns o selector >>= λ selected.
    add_objects patterns selector objects (add_object o selected m)

-- The loop over the filters.
unfoldable pub add_filters :
    Reader → Patterns → Kind → List ResourceFilter → ObjectMap → Result MatchError ObjectMap
add_filters r patterns kind [] m = ok m
add_filters r patterns kind (filter ∷ filters) m =
    get_matching_objects_by_namespace_and_labels r kind filter >>= λ objects.
    (add_objects patterns filter.container_selector objects m >>= λ m'.
    add_filters r patterns kind filters m')

-- matching.getMatchingObjectsWithContainers
unfoldable pub get_matching_objects_with_containers :
    Reader → Patterns → Kind → MatchResources → Result MatchError ObjectMap
get_matching_objects_with_containers r patterns kind match_resources =
    add_filters r patterns kind (elements match_resources.any) []
