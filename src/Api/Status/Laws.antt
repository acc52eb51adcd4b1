-- ===== src/Api/Status/Laws.antt =====
-- What PutCondition of api/v1alpha1/deceptionpolicy_status.go does to the conditions of a policy.
use koney.Prelude.{
  ◌≡◌, ◌≢◌, refl, String, Bool, true, false, Option, none, some, List, [], ◌∷◌, ◌++◌, ◌==◌, arith,
  eq_iff, eq_refl, is_some, eq_sym,
}
use koney.Utils.Conditions.{ConditionStatus, status_eq}
use koney.Api.Status.{
  Condition, Status, find, get_condition, equals, overwrite, put_existing, put_condition_struct,
}

-- No two conditions have one type: the resource's list is a map keyed by the type.
abbrev pub has_type : String → List Condition → Bool
has_type t cs = is_some (find cs t)

abbrev pub DistinctTypes : List Condition → Type 0
DistinctTypes [] = Unit
DistinctTypes (c ∷ cs) = (has_type c.kind cs ≡ false) × DistinctTypes cs

find-overwrite :
    (c : Condition) (cs : List Condition) (t : String)
    → (c.kind == t) ≡ false
    → find (overwrite c cs) t ≡ find cs t
find-overwrite c [] t h = refl
find-overwrite c (x ∷ xs) t h =
    ground (arith, find-overwrite c xs t h, eq_iff x.kind c.kind, eq_iff x.kind t, eq_iff c.kind t)

find-overwrite_self :
    (c : Condition) (cs : List Condition)
    → has_type c.kind cs ≡ true
    → find (overwrite c cs) c.kind ≡ some c
find-overwrite_self c [] h = cc
find-overwrite_self c (x ∷ xs) h = ground (arith, find-overwrite_self c xs, eq_iff x.kind c.kind)

find-snoc :
    (c : Condition) (cs : List Condition) (t : String)
    → (c.kind == t) ≡ false
    → find (cs ++ c ∷ []) t ≡ find cs t
find-snoc c [] t h = ground arith
find-snoc c (x ∷ xs) t h = ground (arith, find-snoc c xs t h)

find-snoc_self :
    (c : Condition) (cs : List Condition)
    → find cs c.kind ≡ none
    → find (cs ++ c ∷ []) c.kind ≡ some c
find-snoc_self c [] h = ground (arith, eq_refl c.kind)
find-snoc_self c (x ∷ xs) h = ground (arith, find-snoc_self c xs)

equals_refl :
    (c d : Condition)
    → c.kind ≡ d.kind
    → c.status ≡ d.status
    → c.reason ≡ d.reason
    → c.message ≡ d.message
    → equals c d ≡ true
unfolding equals
equals_refl c d k s r m = ground (
  arith,
  eq_iff c.kind d.kind,
  eq_iff c.reason d.reason,
  eq_iff c.message d.message,
  status_eq_refl c.status d.status s,
)
  where
    status_eq_refl : (a b : ConditionStatus) → a ≡ b → status_eq a b ≡ true
    status_eq_refl a b e = ground arith

-- What a call reports and leaves behind, for its own type of condition.
pub record Stored (status : Status) (c : Condition) (result : Status × Bool) : Type 0 where
  -- A reported change: the condition is stored as it was given, with its time.
  pub when_modified : result.1 ≡ true → get_condition result.0 c.kind ≡ some c
  -- No reported change: the status is what it was, and it holds an equal condition.
  pub when_kept :
      result.1 ≡ false
      → (result.0 ≡ status)
        × ((old : Condition) × (get_condition status c.kind ≡ some old) × (equals c old ≡ true))

put_existing-Stored :
    (status : Status) (c : Condition) (o : Option Condition)
    → get_condition status c.kind ≡ o
    → Stored status c (put_existing status c o)
unfolding put_existing get_condition
put_existing-Stored status c none e = record {
  when_modified = λ m. find-snoc_self c status.conditions e;
  when_kept = λ h. cc;
}
put_existing-Stored status c (some old) e = record {
  when_modified = ground (arith, find-overwrite_self c status.conditions, e);
  when_kept = λ h. (ground arith, (old, e, ground arith));
}

-- If PutConditionStruct reports a change, the given condition is the one of its type; if it
-- reports none, the status is as before and its condition of the type `Equals` the given one.
pub put_condition_struct-Stored :
    (status : Status) (c : Condition) → Stored status c (put_condition_struct status c)
unfolding put_condition_struct
put_condition_struct-Stored status c =
    put_existing-Stored status c (get_condition status c.kind) refl

put_existing_frame :
    (status : Status) (c : Condition) (o : Option Condition) (t : String)
    → (c.kind == t) ≡ false
    → get_condition (put_existing status c o).0 t ≡ get_condition status t
unfolding put_existing get_condition
put_existing_frame status c none t h = find-snoc c status.conditions t h
put_existing_frame status c (some old) t h = ground (arith, find-overwrite c status.conditions t h)

-- Conditions of every other type are found as before.
pub get_condition-put_condition_struct_ne :
    (status : Status) (c : Condition) (t : String)
    → c.kind ≢ t
    → get_condition (put_condition_struct status c).0 t ≡ get_condition status t
unfolding put_condition_struct
get_condition-put_condition_struct_ne status c t h =
    put_existing_frame status c (get_condition status c.kind) t (ground (arith, eq_iff c.kind t, h))

has_type-overwrite :
    (c : Condition) (cs : List Condition) (t : String) → has_type t (overwrite c cs) ≡ has_type t cs
has_type-overwrite c [] t = refl
has_type-overwrite c (x ∷ xs) t = ground (arith, has_type-overwrite c xs t)

has_type-snoc :
    (c : Condition) (cs : List Condition) (t : String)
    → has_type t cs ≡ false
    → (c.kind == t) ≡ false
    → has_type t (cs ++ c ∷ []) ≡ false
has_type-snoc c [] t h k = ground arith
has_type-snoc c (x ∷ xs) t h k = ground (arith, has_type-snoc c xs t)

overwrite-DistinctTypes :
    (c : Condition) (cs : List Condition) → DistinctTypes cs → DistinctTypes (overwrite c cs)
overwrite-DistinctTypes c [] h = tt
overwrite-DistinctTypes c (x ∷ xs) h =
    ground (arith, overwrite-DistinctTypes c xs h.1, has_type-overwrite c xs x.kind)

snoc-DistinctTypes :
    (c : Condition) (cs : List Condition)
    → DistinctTypes cs
    → find cs c.kind ≡ none
    → DistinctTypes (cs ++ c ∷ [])
snoc-DistinctTypes c [] h e = (refl, tt)
snoc-DistinctTypes c (x ∷ xs) h e = (
  has_type-snoc c xs x.kind h.0 (ground (arith, eq_sym c.kind x.kind)),
  snoc-DistinctTypes c xs h.1 (ground arith),
)

put_existing-DistinctTypes :
    (status : Status) (c : Condition) (o : Option Condition)
    → get_condition status c.kind ≡ o
    → DistinctTypes status.conditions
    → DistinctTypes (put_existing status c o).0.conditions
unfolding put_existing get_condition
put_existing-DistinctTypes status c none e h = snoc-DistinctTypes c status.conditions h e
put_existing-DistinctTypes status c (some old) e h =
    ground (arith, overwrite-DistinctTypes c status.conditions h)

-- If no two conditions have one type, then so after PutConditionStruct.
put_condition_struct-DistinctTypes :
    (status : Status) (c : Condition)
    → DistinctTypes status.conditions
    → DistinctTypes (put_condition_struct status c).0.conditions
unfolding put_condition_struct
put_condition_struct-DistinctTypes status c h =
    put_existing-DistinctTypes status c (get_condition status c.kind) refl h
