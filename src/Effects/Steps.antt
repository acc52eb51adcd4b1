-- ===== src/Effects/Steps.antt =====
-- Steps of a run whose first part has returned.
use koney.Controller.Results.{Errors, Cause}
use koney.Effects.{Run, M, History, Answer, after, Attempts, last, again, Cluster, errors_of, Call}
use koney.Prelude.{none, some, ◌≡◌, Option, true, is_some, [], ◌∷◌, ◌++◌, refl}

pub after-some :
    {A B : Type 0} (f : A → Run B) (r : Option A × History) {a : A}
    → r.0 ≡ some a
    → after f r ≡ f a r.1
after-some f (none, h) e = cc
after-some f (some b, h) e = cc

-- A property of what the attempts hand out, if each of them has it.
pub Attempts-last :
    {S : Type 0} (body : S → M (Answer × S)) (P : (Answer × S) × History → Type 0)
    → ((s : S) (h : History) → P (body s h))
    → {s : S} {h : History} {out : (Answer × S) × History} → Attempts body s h out
    → P out
Attempts-last body P p (last s h) = p s h
Attempts-last body P p (again s h e rest) = Attempts-last body P p rest

-- A run that never panics.
abbrev pub Returns : {A : Type 0} → Run A → Type 0
Returns m = (h : History) → is_some (m h).0 ≡ true

pub after-Returns :
    {A B : Type 0} (f : A → Run B) (r : Option A × History)
    → is_some r.0 ≡ true
    → ((a : A) → Returns (f a))
    → is_some (after f r).0 ≡ true
after-Returns f (none, h) p k = cc
after-Returns f (some a, h) p k = k a h

-- The last call of the run is this one, and it was answered without an error.
abbrev pub LastDone : Cluster → Call → History → Type 0
LastDone c call [] = ⊥
LastDone c call (x ∷ h) = (x ≡ call) × (c.run h x ≡ none)

pub append_nil : (xs ys : Errors) → xs ++ ys ≡ [] → (xs ≡ []) × (ys ≡ [])
append_nil [] ys e = (refl, e)
append_nil (x ∷ xs) ys e = cc

pub errors_of_nil : (answer : Answer) → errors_of answer ≡ [] → answer ≡ none
errors_of_nil none e = refl
errors_of_nil (some x) e = cc

-- What every attempt leaves in the calls made stays in those of all attempts.
pub Attempts-keep :
    {S : Type 0} (body : S → M (Answer × S)) (Q : History → Type 0)
    → ((s : S) (h : History) → Q h → Q (body s h).1)
    → {s : S} {h : History} {out : (Answer × S) × History} → Attempts body s h out
    → Q h
    → Q out.1
Attempts-keep body Q q (last s h) k = q s h k
Attempts-keep body Q q (again s h e rest) k = Attempts-keep body Q q rest (q s h k)

-- What the state of every attempt shows of the one before is shown of the first.
pub Attempts-back :
    {S : Type 0} (body : S → M (Answer × S)) (N : S → Type 0)
    → ((s : S) (h : History) → N (body s h).0.1 → N s)
    → {s : S} {h : History} {out : (Answer × S) × History} → Attempts body s h out
    → N out.0.1
    → N s
Attempts-back body N n (last s h) k = n s h k
Attempts-back body N n (again s h e rest) k = n s h (Attempts-back body N n rest k)

pub not_nil : (errors : Errors) (x : Cause) (xs : Errors) → ¬ (errors ++ x ∷ xs ≡ [])
not_nil [] x xs e = cc
not_nil (y ∷ ys) x xs e = cc
