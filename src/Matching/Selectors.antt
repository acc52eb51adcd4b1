-- ===== src/Matching/Selectors.antt =====
-- internal/controller/matching/matchutils.go, and selectContainers of matching.go.
use koney.Prelude.{
  ◌==◌, ◌||◌, List, [], ◌∷◌, none, some, false, String, Result, Bool, Option, ok, ◌>>=◌,
  if◌then◌else◌, err, starts_with,
}
use koney.Utils.Names.{Patterns, match_container_name}
use koney.Cluster.{Object, Container, name_of, pod, deployment, other}

-- matching.ContainerSelectorSelectsAll
unfoldable pub container_selector_selects_all : String → Bool
container_selector_selects_all selector =
    selector == "regex:.*" || selector == "" || selector == "glob:*"

-- matching.ContainerSelectorNeedsClientFiltering
unfoldable pub container_selector_needs_client_filtering : String → Bool
unfolding container_selector_selects_all
container_selector_needs_client_filtering selector =
    if container_selector_selects_all selector
    then false
    else starts_with selector "regex:" || starts_with selector "glob:"

-- matching.extractObjectNames
unfoldable pub extract_object_names : List Object → List String
extract_object_names [] = []
extract_object_names (o ∷ objects) = name_of o ∷ extract_object_names objects

-- A Go map from objects to container names. Its keys are pointers, so each entry is an object of
-- its own.
abbrev pub ObjectMap : Type 0
ObjectMap = List (Object × List String)

-- matching.getObjectFromMap
unfoldable pub get_object_from_map : String → ObjectMap → Option Object
get_object_from_map name [] = none
get_object_from_map name ((o, containers) ∷ m) =
    if name_of o == name then some o else get_object_from_map name m

pub data MatchError : Type 0 where
  list_failed bad_selector bad_resource bad_strategy : MatchError

-- The switch over the type of the object.
unfoldable pub containers_of : Object → Result MatchError (List Container)
containers_of (pod p) = ok p.containers
containers_of (deployment d) = ok d.containers
containers_of (other m) = err bad_resource

container_names : List Container → List String
container_names [] = []
container_names (c ∷ containers) = c.name ∷ container_names containers

-- The loop with `utils.MatchContainerName`, which an error ends.
matching_names : Patterns → String → List Container → Result MatchError (List String)
matching_names patterns selector [] = ok []
matching_names patterns selector (c ∷ containers) =
    elim (match_container_name patterns selector c.name) [
      | none ↦ err bad_selector
      | some matched ↦ matching_names patterns selector containers >>= λ rest.
          ok (if matched then c.name ∷ rest else rest)
    ]

-- matching.selectContainers
unfoldable pub select_containers : Patterns → Object → String → Result MatchError (List String)
unfolding container_names matching_names
select_containers patterns resource selector = containers_of resource >>= λ containers.
    (if container_selector_selects_all selector
      then ok (container_names containers)
      else matching_names patterns selector containers)
