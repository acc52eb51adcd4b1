-- ===== src/Matching/Listing/Origin.antt =====
-- From which call of `List` the objects of getMatchingObjectsByNamespaceAndLabels of
-- internal/controller/matching/matching.go come.
use mathlib.Core.List.{Mem, mem-cons_self, mem-cons_of_mem}
use koney.Api.Trap.{ResourceFilter, elements}
use koney.Prelude.{
  ◌≡◌, refl, List, [], ◌∷◌, String, Bool, true, false, Result, ok, err, is_nil, StringMap, All,
  All-append, All-map, ◌>>=◌, ◌⊎◌, inl, inr, if◌then◌else◌, ok-injective, subst, ◌==◌, string_eq,
}
use koney.Utils.Collections.{contains}
use koney.Cluster.{Object, name_of}
use koney.Matching.Selectors.{extract_object_names, MatchError}
use koney.Matching.Listing.{
  append_new, append_common_of, append_common, Reader, match_namespaces, Kind,
  list_items_as_objects, in_namespace, matching_labels, labels_of, match_labels, combine,
}

-- The object is among those that a call of `List` answers.
abbrev Answers : Result MatchError (List Object) → Object → Type 0
Answers (ok items) o = Mem o items
Answers (err e) o = ⊥

-- The object is listed in one of the namespaces.
abbrev IsIn : Reader → Kind → List String → Object → Type 0
IsIn r kind [] o = ⊥
IsIn r kind (ns ∷ namespaces) o =
    Answers (list_items_as_objects r kind (in_namespace ns)) o ⊎ IsIn r kind namespaces o

-- The object is listed with the labels.
abbrev Has : Reader → Kind → StringMap String → Object → Type 0
Has r kind labels o = Answers (list_items_as_objects r kind (matching_labels labels)) o

-- The object itself is listed in one of the namespaces, if there are any, else with the labels.
abbrev pub ComesFrom : Reader → Kind → List String → StringMap String → Object → Type 0
ComesFrom r kind [] labels o = Has r kind labels o
ComesFrom r kind (ns ∷ namespaces) labels o = IsIn r kind (ns ∷ namespaces) o

All-Mem {ℓ} : {A : Type ℓ} (xs : List A) → All (λ x. Mem x xs) xs
All-Mem [] = tt
All-Mem (x ∷ xs) = (
  mem-cons_self,
  All-map (λ y. Mem y xs) (λ y. Mem y (x ∷ xs)) (λ y m. mem-cons_of_mem x m) xs (All-Mem xs),
)

All-if :
    (P : Object → Type 0) (b : Bool) (xs ys : List Object)
    → All P xs
    → All P ys
    → All P (if b then xs else ys)
All-if P true xs ys p q = p
All-if P false xs ys p q = q

-- What holds of all objects that are there and all that may be appended holds of the result.
module _ (P : Object → Type 0) where
  All-append_new :
      (items acc : List Object) → All P acc → All P items → All P (append_new acc items)
  unfolding append_new
  All-append_new [] acc a i = a
  All-append_new (o ∷ items) acc a (p, i) =
      All-append_new items _
        (All-if P (contains (extract_object_names acc) (name_of o)) _ _ a
          (All-append P acc (o ∷ []) a (p, tt)))
        i

  All-append_common_of :
      (o : Object) (by_labels acc : List Object)
      → P o
      → All P acc
      → All P (append_common_of o by_labels acc)
  unfolding append_common_of
  All-append_common_of o [] acc p a = a
  All-append_common_of o (l ∷ by_labels) acc p a = All-append_common_of o by_labels _ p (
      All-if P (name_of o == name_of l) _ _
        (All-if P (contains (extract_object_names acc) (name_of o)) _ _ a
          (All-append P acc (o ∷ []) a (p, tt)))
        a)

  All-append_common :
      (by_namespace by_labels acc : List Object)
      → All P by_namespace
      → All P acc
      → All P (append_common by_namespace by_labels acc)
  unfolding append_common
  All-append_common [] by_labels acc n a = a
  All-append_common (o ∷ by_namespace) by_labels acc (p, n) a =
      All-append_common by_namespace by_labels _ n (All-append_common_of o by_labels acc p a)

  All-match_step :
      (r : Reader) (kind : Kind) (namespaces : List String) (acc out : List Object)
      (items : Result MatchError (List Object))
      → ((o : Object) → Answers items o → P o)
      → ((found : List Object)
          → All P (append_new acc found)
          → match_namespaces r kind namespaces (append_new acc found) ≡ ok out
          → All P out)
      → All P acc
      → (items >>= λ found. match_namespaces r kind namespaces (append_new acc found)) ≡ ok out
      → All P out
  All-match_step r kind namespaces acc out (err x) f ih a h = cc
  All-match_step r kind namespaces acc out (ok items) f ih a h =
      ih items (All-append_new items acc a (All-map (λ o. Mem o items) P f items (All-Mem items))) h

  All-match_namespaces :
      (r : Reader) (kind : Kind) (namespaces : List String) (acc : List Object) {out : List Object}
      → ((o : Object) → IsIn r kind namespaces o → P o)
      → All P acc
      → match_namespaces r kind namespaces acc ≡ ok out
      → All P out
  unfolding match_namespaces
  All-match_namespaces r kind [] acc f a h = subst (All P) (ok-injective h) a
  All-match_namespaces r kind (ns ∷ namespaces) acc {out} f a h =
      All-match_step r kind namespaces acc out (list_items_as_objects r kind (in_namespace ns))
        (λ o m. f o (inl m))
        (λ found.
          All-match_namespaces r kind namespaces (append_new acc found) (λ o m. f o (inr m)))
        a h

  All-match_labels :
      (r : Reader) (kind : Kind) (labels : StringMap String) {out : List Object}
      → ((o : Object) → Has r kind labels o → P o)
      → match_labels r kind labels ≡ ok out
      → All P out
  unfolding match_labels
  All-match_labels r kind [] f h = subst (All P) (ok-injective h) tt
  All-match_labels r kind (l ∷ labels) {out} f h =
      go (list_items_as_objects r kind (matching_labels (l ∷ labels))) f h
    where
      go :
          (items : Result MatchError (List Object))
          → ((o : Object) → Answers items o → P o)
          → (items >>= λ found. ok (append_new [] found)) ≡ ok out
          → All P out
      go (err x) g e = cc
      go (ok items) g e =
          subst (All P) (ok-injective e)
            (All-append_new items [] tt (All-map (λ o. Mem o items) P g items (All-Mem items)))

  All-combine :
      (filter : ResourceFilter) (by_namespace by_labels : List Object)
      → (is_nil (elements filter.namespaces) ≡ true → All P by_labels)
      → All P by_namespace
      → All P (combine filter by_namespace by_labels)
  unfolding combine
  All-combine filter by_namespace by_labels l n = All-append_common by_namespace by_labels _ n (
      All-if P (is_nil (labels_of filter.selector)) _ _ (All-append_new by_namespace _ only n) only)
    where
      go :
          (b : Bool)
          → (b ≡ true → All P by_labels)
          → All P (if b then append_new [] by_labels else [])
      go true l = All-append_new by_labels [] tt (l refl)
      go false l = tt

      only : All P (if is_nil (elements filter.namespaces) then append_new [] by_labels else [])
      only = go (is_nil (elements filter.namespaces)) l

-- The objects that the listings of a filter put together come from these listings.
pub ComesFrom-combine :
    (r : Reader) (kind : Kind) (filter : ResourceFilter) {by_namespace by_labels : List Object}
    → match_namespaces r kind (elements filter.namespaces) [] ≡ ok by_namespace
    → match_labels r kind (labels_of filter.selector) ≡ ok by_labels
    → All
        (ComesFrom r kind (elements filter.namespaces) (labels_of filter.selector))
        (combine filter by_namespace by_labels)
ComesFrom-combine r kind filter {by_namespace} {by_labels} m l =
    All-combine From filter by_namespace by_labels
      (λ nil.
        All-match_labels From r kind (labels_of filter.selector)
          (from_labels (elements filter.namespaces) nil) l)
      (All-match_namespaces From r kind (elements filter.namespaces) []
        (from_namespaces (elements filter.namespaces)) tt m)
  where
    From : Object → Type 0
    From = ComesFrom r kind (elements filter.namespaces) (labels_of filter.selector)

    from_labels :
        (namespaces : List String)
        → is_nil namespaces ≡ true
        → (o : Object) → Has r kind (labels_of filter.selector) o
        → ComesFrom r kind namespaces (labels_of filter.selector) o
    from_labels [] h o m = m
    from_labels (ns ∷ namespaces) h o m = cc

    from_namespaces :
        (namespaces : List String) (o : Object)
        → IsIn r kind namespaces o
        → ComesFrom r kind namespaces (labels_of filter.selector) o
    from_namespaces [] o m = elim m [ ]
    from_namespaces (ns ∷ namespaces) o m = m
