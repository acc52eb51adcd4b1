-- ===== src/Matching/Objects/Distinct.antt =====
-- The map that getMatchingObjectsWithContainers of internal/controller/matching/matching.go builds
-- has one object for a name, and containers for each object.
use koney.Api.Trap.{ResourceFilter, MatchResources, elements}
use koney.Matching.Listing.{Reader, Kind, get_matching_objects_by_namespace_and_labels}
use koney.Utils.Names.{Patterns}
use koney.Prelude.{
  ◌≡◌, ◌==◌, ◌||◌, ◌++◌, refl, List, [], ◌∷◌, false, ◌>>=◌, arith, ok, err, String, is_nil, Bool,
  eq_sym, is_some,
}
use koney.Cluster.{Object, name_of}
use koney.Matching.Selectors.{MatchError, ObjectMap, get_object_from_map, select_containers}
use koney.Matching.Objects.{
  merge_containers, merge_entry, add_object, Result, add_objects, add_filters,
  get_matching_objects_with_containers,
}

abbrev pub has_entry : String → ObjectMap → Bool
has_entry name m = is_some (get_object_from_map name m)

-- Each name has one entry, and no entry is without containers.
abbrev pub IsMatchMap : ObjectMap → Type 0
IsMatchMap [] = Unit
IsMatchMap ((o, containers) ∷ m) =
    (has_entry (name_of o) m ≡ false) × (is_nil containers ≡ false) × IsMatchMap m

snoc-not-nil {ℓ} : {A : Type ℓ} (xs : List A) (a : A) → is_nil (xs ++ a ∷ []) ≡ false
snoc-not-nil [] a = refl
snoc-not-nil (x ∷ xs) a = refl

merge_containers-not-nil :
    (containers selected : List String)
    → is_nil containers ≡ false
    → is_nil (merge_containers containers selected) ≡ false
unfolding merge_containers
merge_containers-not-nil containers [] h = h
merge_containers-not-nil containers (c ∷ selected) h = ground (
  arith,
  merge_containers-not-nil containers selected h,
  merge_containers-not-nil (containers ++ c ∷ []) selected (snoc-not-nil containers c),
)

has_entry-merge_entry :
    (n name : String) (selected : List String) (m : ObjectMap)
    → has_entry n (merge_entry name selected m) ≡ has_entry n m
unfolding merge_entry get_object_from_map
has_entry-merge_entry n name selected [] = refl
has_entry-merge_entry n name selected ((o, containers) ∷ m) =
    ground (arith, has_entry-merge_entry n name selected m)

has_entry-snoc :
    (n : String) (o : Object) (selected : List String) (m : ObjectMap)
    → has_entry n (m ++ (o, selected) ∷ []) ≡ (has_entry n m || name_of o == n)
unfolding get_object_from_map
has_entry-snoc n o selected [] = ground arith
has_entry-snoc n o selected ((x, containers) ∷ m) = ground (arith, has_entry-snoc n o selected m)

merge_entry-IsMatchMap :
    (name : String) (selected : List String) (m : ObjectMap)
    → IsMatchMap m
    → IsMatchMap (merge_entry name selected m)
unfolding merge_entry
merge_entry-IsMatchMap name selected [] h = tt
merge_entry-IsMatchMap name selected ((o, containers) ∷ m) h = ground (
  arith,
  merge_entry-IsMatchMap name selected m h.2,
  has_entry-merge_entry (name_of o) name selected m,
  merge_containers-not-nil containers selected,
)

snoc-IsMatchMap :
    (o : Object) (selected : List String) (m : ObjectMap)
    → IsMatchMap m
    → has_entry (name_of o) m ≡ false
    → is_nil selected ≡ false
    → IsMatchMap (m ++ (o, selected) ∷ [])
unfolding get_object_from_map
snoc-IsMatchMap o selected [] h e n = (refl, n, tt)
snoc-IsMatchMap o selected ((x, containers) ∷ m) h e n = ground (
  arith,
  snoc-IsMatchMap o selected m h.2,
  has_entry-snoc (name_of x) o selected m,
  eq_sym (name_of x) (name_of o),
)

add_object-IsMatchMap :
    (o : Object) (selected : List String) (m : ObjectMap)
    → IsMatchMap m
    → IsMatchMap (add_object o selected m)
unfolding add_object
add_object-IsMatchMap o selected m h =
    ground (arith, merge_entry-IsMatchMap (name_of o) selected m h, snoc-IsMatchMap o selected m h)

-- What holds of the map of a successful result.
abbrev pub OkMap : (ObjectMap → Type 0) → Result MatchError ObjectMap → Type 0
OkMap P (ok m) = P m
OkMap P (err e) = Unit

OkMap-bind :
    {A : Type 0} (P : ObjectMap → Type 0) (r : Result MatchError A)
    (f : A → Result MatchError ObjectMap)
    → ((a : A) → OkMap P (f a))
    → OkMap P (r >>= f)
OkMap-bind P (ok a) f h = h a
OkMap-bind P (err e) f h = tt

OkMap-bind_map :
    (P : ObjectMap → Type 0) (r : Result MatchError ObjectMap)
    (f : ObjectMap → Result MatchError ObjectMap)
    → OkMap P r
    → ((m : ObjectMap) → P m → OkMap P (f m))
    → OkMap P (r >>= f)
OkMap-bind_map P (ok m) f p h = h m p
OkMap-bind_map P (err e) f p h = tt

add_objects-IsMatchMap :
    (patterns : Patterns) (selector : String) (objects : List Object) (m : ObjectMap)
    → IsMatchMap m
    → OkMap IsMatchMap (add_objects patterns selector objects m)
unfolding add_objects
add_objects-IsMatchMap patterns selector [] m h = h
add_objects-IsMatchMap patterns selector (o ∷ objects) m h =
    OkMap-bind IsMatchMap (select_containers patterns o selector)
      (λ selected. add_objects patterns selector objects (add_object o selected m))
      λ selected.
        add_objects-IsMatchMap patterns selector objects _ (add_object-IsMatchMap o selected m h)

add_filters-IsMatchMap :
    (r : Reader) (patterns : Patterns) (kind : Kind) (filters : List ResourceFilter) (m : ObjectMap)
    → IsMatchMap m
    → OkMap IsMatchMap (add_filters r patterns kind filters m)
unfolding add_filters
add_filters-IsMatchMap r patterns kind [] m h = h
add_filters-IsMatchMap r patterns kind (filter ∷ filters) m h =
    OkMap-bind IsMatchMap (get_matching_objects_by_namespace_and_labels r kind filter)
      (λ objects. add_objects patterns filter.container_selector objects m >>= λ m'.
        add_filters r patterns kind filters m')
      λ objects.
        OkMap-bind_map IsMatchMap (add_objects patterns filter.container_selector objects m)
          (λ m'. add_filters r patterns kind filters m')
          (add_objects-IsMatchMap patterns filter.container_selector objects m h)
          λ m' h'. add_filters-IsMatchMap r patterns kind filters m' h'

-- If getMatchingObjectsWithContainers succeeds, its map has at most one object of each name,
-- whatever their namespaces, and no object without containers.
pub get_matching_objects_with_containers-IsMatchMap :
    (r : Reader) (patterns : Patterns) (kind : Kind) (match_resources : MatchResources)
    → OkMap IsMatchMap (get_matching_objects_with_containers r patterns kind match_resources)
unfolding get_matching_objects_with_containers
get_matching_objects_with_containers-IsMatchMap r patterns kind match_resources =
    add_filters-IsMatchMap r patterns kind (elements match_resources.any) [] tt
