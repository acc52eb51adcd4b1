-- ===== src/Matching/Listing/Distinct.antt =====
-- That getMatchingObjectsByNamespaceAndLabels of internal/controller/matching/matching.go returns no
-- two objects of one name.
use koney.Api.Trap.{ResourceFilter}
use koney.Matching.Listing.{
  append_new, append_common_of, append_common, combine, Reader, Kind,
  get_matching_objects_by_namespace_and_labels,
}
use koney.Cluster.{Object, name_of}
use koney.Matching.Listing.Names.{has_name, has_name-snoc, has_name-cons}
use koney.Matching.Listing.Laws.{get_matching_objects-Listings, Listings}
use koney.Prelude.{◌≡◌, [], false, inl, inr, ok, ◌∷◌, ◌++◌, arith, List, Bool-cases, subst, eq_sym}

-- No two objects have one name.
abbrev pub DistinctNames : List Object → Type 0
DistinctNames [] = Unit
DistinctNames (o ∷ objects) = (has_name (name_of o) objects ≡ false) × DistinctNames objects

snoc-DistinctNames :
    (objects : List Object) (o : Object)
    → DistinctNames objects
    → has_name (name_of o) objects ≡ false
    → DistinctNames (objects ++ o ∷ [])
snoc-DistinctNames [] o h e = (e, tt)
snoc-DistinctNames (x ∷ objects) o h e =
    let c = has_name-cons (name_of o) x objects in
    (
      ground (arith, has_name-snoc (name_of x) objects o, eq_sym (name_of x) (name_of o)),
      snoc-DistinctNames objects o h.1 (ground arith),
    )

append_new-DistinctNames :
    (items acc : List Object) → DistinctNames acc → DistinctNames (append_new acc items)
unfolding append_new
append_new-DistinctNames [] acc h = h
append_new-DistinctNames (o ∷ items) acc h = elim (Bool-cases (has_name (name_of o) acc)) [
  | inl e ↦ rw e (append_new-DistinctNames items acc h)
  | inr e ↦ rw e (append_new-DistinctNames items (acc ++ o ∷ []) (snoc-DistinctNames acc o h e))
]

append_common_of-DistinctNames :
    (o : Object) (by_labels acc : List Object)
    → DistinctNames acc
    → DistinctNames (append_common_of o by_labels acc)
unfolding append_common_of
append_common_of-DistinctNames o [] acc h = h
append_common_of-DistinctNames o (l ∷ by_labels) acc h = ground (
  arith,
  append_common_of-DistinctNames o by_labels acc h,
  append_common_of-DistinctNames o by_labels (acc ++ o ∷ []),
  snoc-DistinctNames acc o h,
)

append_common-DistinctNames :
    (by_namespace by_labels acc : List Object)
    → DistinctNames acc
    → DistinctNames (append_common by_namespace by_labels acc)
unfolding append_common
append_common-DistinctNames [] by_labels acc h = h
append_common-DistinctNames (o ∷ by_namespace) by_labels acc h =
    append_common-DistinctNames by_namespace by_labels _
      (append_common_of-DistinctNames o by_labels acc h)

combine-DistinctNames :
    (filter : ResourceFilter) (by_namespace by_labels : List Object)
    → DistinctNames (combine filter by_namespace by_labels)
unfolding combine
combine-DistinctNames filter by_namespace by_labels =
    append_common-DistinctNames by_namespace by_labels _ (
      ground (
        arith,
        append_new-DistinctNames by_namespace (append_new [] by_labels),
        append_new-DistinctNames by_namespace [],
        append_new-DistinctNames by_labels [],
      ))

-- If getMatchingObjectsByNamespaceAndLabels succeeds, no two of its objects have one name,
-- whatever their namespaces.
pub get_matching_objects-DistinctNames :
    (r : Reader) (kind : Kind) (filter : ResourceFilter) {out : List Object}
    → get_matching_objects_by_namespace_and_labels r kind filter ≡ ok out
    → DistinctNames out
get_matching_objects-DistinctNames r kind filter {out} h =
    let l : Listings r kind filter out = get_matching_objects-Listings r kind filter h in
    subst DistinctNames l.result (combine-DistinctNames filter l.by_namespace l.by_labels)
