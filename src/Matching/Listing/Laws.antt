-- ===== src/Matching/Listing/Laws.antt =====
-- Which names getMatchingObjectsByNamespaceAndLabels of internal/controller/matching/matching.go
-- returns.
use koney.Api.Trap.{ResourceFilter, elements}
use koney.Prelude.{
  ◌≡◌, ◌||◌, List, [], ◌∷◌, arith, String, Bool, string_eq, false, ◌&&◌, Result, exists, StringMap,
  ok, err, is_nil, not, ◌>>=◌, refl, true, ok-injective, ap, All, subst,
}
use koney.Utils.Collections.{contains}
use koney.Cluster.{Object}
use koney.Matching.Selectors.{extract_object_names, MatchError}
use koney.Matching.Listing.Names.{
  has_name, has_name-nil, has_name-append_new, has_name-append_common,
}
use koney.Matching.Listing.Origin.{ComesFrom, ComesFrom-combine}
use koney.Matching.Listing.{
  append_new, Reader, match_namespaces, Kind, list_items_as_objects, in_namespace, matching_labels,
  labels_of, match_labels, combine, get_matching_objects_by_namespace_and_labels,
}

-- The names that a call of `List` answers; none if it fails.
abbrev listed : Reader → Kind → String → Result MatchError (List Object) → Bool
listed r kind n (ok items) = has_name n items
listed r kind n (err e) = false

-- An object of the name is listed in one of the namespaces.
abbrev pub in_namespaces : Reader → Kind → List String → String → Bool
in_namespaces r kind namespaces n =
    exists (λ ns. listed r kind n (list_items_as_objects r kind (in_namespace ns))) namespaces

-- An object of the name is listed with the labels.
abbrev pub with_labels : Reader → Kind → StringMap String → String → Bool
with_labels r kind labels n =
    listed r kind n (list_items_as_objects r kind (matching_labels labels))

-- What a filter asks of a name: the namespaces, if there are any, and the labels, if there are
-- any, and one of the two must be there.
abbrev pub asks_for : Reader → Kind → ResourceFilter → String → Bool
asks_for r kind filter n =
    let namespaces = elements filter.namespaces in
    let labels = labels_of filter.selector in
    (is_nil namespaces || in_namespaces r kind namespaces n)
    && (is_nil labels || with_labels r kind labels n)
    && not (is_nil namespaces && is_nil labels)

-- The step of the induction: the listing of one namespace is appended.
has_name-match_step :
    (r : Reader) (kind : Kind) (n : String) (namespaces : List String) (acc out : List Object)
    (items : Result MatchError (List Object))
    → ((found : List Object)
        → match_namespaces r kind namespaces (append_new acc found) ≡ ok out
        → has_name n out ≡ (has_name n (append_new acc found) || in_namespaces r kind namespaces n))
    → (items >>= λ found. match_namespaces r kind namespaces (append_new acc found)) ≡ ok out
    → has_name n out
      ≡ (has_name n acc || (listed r kind n items || in_namespaces r kind namespaces n))
has_name-match_step r kind n namespaces acc out (err x) ih h = cc
has_name-match_step r kind n namespaces acc out (ok items) ih h =
    ground (arith, ih items h, has_name-append_new n items acc)

has_name-match_namespaces :
    (r : Reader) (kind : Kind) (n : String) (namespaces : List String) (acc : List Object)
    {out : List Object}
    → match_namespaces r kind namespaces acc ≡ ok out
    → has_name n out ≡ (has_name n acc || in_namespaces r kind namespaces n)
unfolding match_namespaces
has_name-match_namespaces r kind n [] acc h = ground arith
has_name-match_namespaces r kind n (ns ∷ namespaces) acc {out} h =
    has_name-match_step r kind n namespaces acc out (list_items_as_objects r kind (in_namespace ns))
      (λ found. has_name-match_namespaces r kind n namespaces (append_new acc found)) h

has_name-match_labels :
    (r : Reader) (kind : Kind) (n : String) (labels : StringMap String) {out : List Object}
    → match_labels r kind labels ≡ ok out
    → has_name n out ≡ (not (is_nil labels) && with_labels r kind labels n)
unfolding match_labels
has_name-match_labels r kind n [] h = unfold contains extract_object_names in ground arith
has_name-match_labels r kind n (l ∷ labels) {out} h =
    go (list_items_as_objects r kind (matching_labels (l ∷ labels))) refl h
  where
    go :
        (items : Result MatchError (List Object))
        → list_items_as_objects r kind (matching_labels (l ∷ labels)) ≡ items
        → (items >>= λ found. ok (append_new [] found)) ≡ ok out
        → has_name n out
          ≡ listed r kind n (list_items_as_objects r kind (matching_labels (l ∷ labels)))
    go (err x) e h = cc
    go (ok items) e h =
        unfold contains extract_object_names in
        rw e (ground (arith, has_name-append_new n items []))

has_name-combine :
    (n : String) (filter : ResourceFilter) (by_namespace by_labels : List Object)
    → has_name n (combine filter by_namespace by_labels) ≡ (
        (is_nil (elements filter.namespaces) && has_name n by_labels)
        || (is_nil (labels_of filter.selector) && has_name n by_namespace)
        || (has_name n by_namespace && has_name n by_labels))
unfolding combine
has_name-combine n filter by_namespace by_labels = ground (
  arith,
  has_name-append_common n by_namespace by_labels
      (append_new (append_new [] by_labels) by_namespace),
  has_name-append_common n by_namespace by_labels (append_new [] by_namespace),
  has_name-append_common n by_namespace by_labels (append_new [] by_labels),
  has_name-append_common n by_namespace by_labels [],
  has_name-append_new n by_namespace (append_new [] by_labels),
  has_name-append_new n by_namespace [],
  has_name-append_new n by_labels [],
  has_name-nil n,
)

in_namespaces-nil :
    (r : Reader) (kind : Kind) (n : String) (namespaces : List String)
    → is_nil namespaces ≡ true
    → in_namespaces r kind namespaces n ≡ false
in_namespaces-nil r kind n [] h = refl
in_namespaces-nil r kind n (ns ∷ namespaces) h = cc

-- The two listings behind a result.
pub record Listings (r : Reader) (kind : Kind) (filter : ResourceFilter) (out : List Object)
    : Type 0 where
  pub by_namespace : List Object
  pub by_labels : List Object
  pub namespaces : match_namespaces r kind (elements filter.namespaces) [] ≡ ok by_namespace
  pub labels : match_labels r kind (labels_of filter.selector) ≡ ok by_labels
  pub result : combine filter by_namespace by_labels ≡ out

pub get_matching_objects-Listings :
    (r : Reader) (kind : Kind) (filter : ResourceFilter) {out : List Object}
    → get_matching_objects_by_namespace_and_labels r kind filter ≡ ok out
    → Listings r kind filter out
unfolding get_matching_objects_by_namespace_and_labels
get_matching_objects-Listings r kind filter {out} h =
    go (match_namespaces r kind (elements filter.namespaces) [])
      (match_labels r kind (labels_of filter.selector)) refl refl h
  where
    go :
        (m l : Result MatchError (List Object))
        → match_namespaces r kind (elements filter.namespaces) [] ≡ m
        → match_labels r kind (labels_of filter.selector) ≡ l
        → (m >>= λ ns. (l >>= λ ls. ok (combine filter ns ls))) ≡ ok out
        → Listings r kind filter out
    go (ok ns) (ok ls) e f h = record {
      by_namespace = ns;
      by_labels = ls;
      namespaces = e;
      labels = f;
      result = ok-injective h;
    }
    go (ok ns) (err x) e f h = cc
    go (err x) l e f h = cc

-- If getMatchingObjectsByNamespaceAndLabels succeeds, the names of its objects are exactly those
-- that the filter asks for: a name that is listed in one of its namespaces, if it has any, and
-- that is listed with its labels, in whatever namespace, if it has any; a filter with neither asks
-- for none. Each object of the result is itself listed in one of the namespaces, or with the
-- labels if the filter has no namespaces.
pub has_name-get_matching_objects :
    (r : Reader) (kind : Kind) (filter : ResourceFilter) (n : String) {out : List Object}
    → get_matching_objects_by_namespace_and_labels r kind filter ≡ ok out
    → (has_name n out ≡ asks_for r kind filter n)
      × All (ComesFrom r kind (elements filter.namespaces) (labels_of filter.selector)) out
has_name-get_matching_objects r kind filter n {out} h =
    let l : Listings r kind filter out = get_matching_objects-Listings r kind filter h in
    (
      ground (
        arith,
        ap (has_name n) l.result,
        has_name-combine n filter l.by_namespace l.by_labels,
        has_name-match_namespaces r kind n (elements filter.namespaces) [] l.namespaces,
        has_name-match_labels r kind n (labels_of filter.selector) l.labels,
        in_namespaces-nil r kind n (elements filter.namespaces),
        has_name-nil n,
      ),
      subst (All (ComesFrom r kind (elements filter.namespaces) (labels_of filter.selector)))
          l.result (ComesFrom-combine r kind filter l.namespaces l.labels),
    )
