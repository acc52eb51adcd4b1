-- ===== src/Effects/Keeps.antt =====
-- Runs that make only calls of a kind: the rules for each way to put a run together.
use koney.Prelude.{◌≡◌, true, Bool, All, none, some, Option}
use koney.Effects.{
  Call, M, History, Run, Answer, Cluster, ask, after, Attempts, RetriesOnConflict, last, again,
}

-- A run that starts after allowed calls has made allowed calls only.
abbrev pub Keeps : (Call → Bool) → {A : Type 0} → M A → Type 0
Keeps allowed m =
    (h : History) → All (λ c. allowed c ≡ true) h → All (λ c. allowed c ≡ true) (m h).1

module _ (allowed : Call → Bool) where
  pub ask-Keeps :
      {R : Type 0} (answer : History → Call → R) (call : Call)
      → allowed call ≡ true
      → Keeps allowed (ask answer call)
  ask-Keeps answer call e h k = (e, k)

  pub after-Keeps :
      {A B : Type 0} (f : A → Run B) (r : Option A × History)
      → ((a : A) → Keeps allowed (f a))
      → All (λ c. allowed c ≡ true) r.1
      → All (λ c. allowed c ≡ true) (after f r).1
  after-Keeps f (none, h) g k = k
  after-Keeps f (some a, h) g k = g a h k

  pub bind-Keeps :
      {A B : Type 0} (m : Run A) (f : A → Run B)
      → Keeps allowed m
      → ((a : A) → Keeps allowed (f a))
      → Keeps allowed (λ h. after f (m h))
  bind-Keeps m f p g h k = after-Keeps f (m h) g (p h k)

  pub Attempts-Keeps :
      {S : Type 0} (body : S → M (Answer × S)) {s : S} {h : History} {out : (Answer × S) × History}
      → ((s : S) → Keeps allowed (body s))
      → Attempts body s h out
      → All (λ c. allowed c ≡ true) h
      → All (λ c. allowed c ≡ true) out.1
  Attempts-Keeps body p (last s h) k = p s h k
  Attempts-Keeps body p (again s h e rest) k = Attempts-Keeps body p rest (p s h k)

  pub retry-Keeps :
      (c : Cluster) (retries : RetriesOnConflict c) {S : Type 0} (body : S → M (Answer × S)) (s : S)
      → ((s : S) → Keeps allowed (body s))
      → Keeps allowed (c.retry body s)
  retry-Keeps c retries {S} body s p h k = Attempts-Keeps body p (retries S body s h) k
