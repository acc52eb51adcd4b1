-- ===== src/Matching/Listing/Names.antt =====
-- The names of the lists that getMatchingObjectsByNamespaceAndLabels of
-- internal/controller/matching/matching.go appends to.
use koney.Prelude.{
  ◌≡◌, ◌==◌, ◌||◌, ◌++◌, List, [], ◌∷◌, arith, String, Bool, string_eq, eq_iff, false, ◌&&◌, refl,
}
use koney.Utils.Collections.{contains}
use koney.Cluster.{Object, name_of}
use koney.Matching.Selectors.{extract_object_names}
use koney.Matching.Listing.{append_new, append_common_of, append_common}

-- An object of the name is in the list.
abbrev pub has_name : String → List Object → Bool
has_name n objects = contains (extract_object_names objects) n

pub has_name-snoc :
    (n : String) (objects : List Object) (o : Object)
    → has_name n (objects ++ o ∷ []) ≡ (has_name n objects || (name_of o == n))
unfolding contains extract_object_names
has_name-snoc n [] o = ground arith
has_name-snoc n (x ∷ objects) o = ground (arith, has_name-snoc n objects o)

pub has_name-nil : (n : String) → has_name n [] ≡ false
unfolding contains extract_object_names
has_name-nil n = refl

pub has_name-cons :
    (n : String) (o : Object) (objects : List Object)
    → has_name n (o ∷ objects) ≡ (name_of o == n || has_name n objects)
unfolding contains extract_object_names
has_name-cons n o objects = ground arith

pub has_name-append_new :
    (n : String) (items acc : List Object)
    → has_name n (append_new acc items) ≡ (has_name n acc || has_name n items)
unfolding append_new
has_name-append_new n [] acc = unfold contains extract_object_names in ground arith
has_name-append_new n (o ∷ items) acc = ground (
  arith,
  has_name-append_new n items acc,
  has_name-append_new n items (acc ++ o ∷ []),
  has_name-snoc n acc o,
  has_name-cons n o items,
  eq_iff (name_of o) n,
)

pub has_name-append_common_of :
    (n : String) (o : Object) (by_labels acc : List Object)
    → has_name n (append_common_of o by_labels acc)
      ≡ (has_name n acc || (name_of o == n && has_name n by_labels))
unfolding append_common_of
has_name-append_common_of n o [] acc = unfold contains extract_object_names in ground arith
has_name-append_common_of n o (l ∷ by_labels) acc = ground (
  arith,
  has_name-append_common_of n o by_labels acc,
  has_name-append_common_of n o by_labels (acc ++ o ∷ []),
  has_name-snoc n acc o,
  has_name-cons n l by_labels,
  eq_iff (name_of o) n,
  eq_iff (name_of o) (name_of l),
  eq_iff (name_of l) n,
)

pub has_name-append_common :
    (n : String) (by_namespace by_labels acc : List Object)
    → has_name n (append_common by_namespace by_labels acc)
      ≡ (has_name n acc || (has_name n by_namespace && has_name n by_labels))
unfolding append_common
has_name-append_common n [] by_labels acc = unfold contains extract_object_names in ground arith
has_name-append_common n (o ∷ by_namespace) by_labels acc = ground (
  arith,
  has_name-append_common n by_namespace by_labels (append_common_of o by_labels acc),
  has_name-append_common_of n o by_labels acc,
  has_name-cons n o by_namespace,
)
