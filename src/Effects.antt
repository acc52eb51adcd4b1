-- ===== src/Effects.antt =====
-- Calls of the Kubernetes API by internal/controller. The cluster is a parameter: what it answers
-- to a call may depend in any way on the calls before it, so other writers are covered. A run
-- keeps the calls that it has made, the latest first.
pub mod Keeps
pub mod Steps
use koney.Prelude.{List, [], ◌∷◌, Option, none, some, String, ℕ, Result, ◌≡◌}
use koney.Utils.Bytes.{Bytes}
use koney.Api.Policy.{Policy, Key}
use koney.Cluster.{Object, Deployment}
use koney.Captor.Tetragon.{TracingPolicy}
use koney.Captor.Kive.{KivePolicy}
use koney.Matching.Listing.{Reader}
use koney.Controller.Results.{Cause, Errors, conflict}

pub data Call : Type 0 where
  -- `r.List`, with the name of the policy in the label selector
  list_tracing_policies list_kive_policies : String → Call
  delete_tracing_policy delete_kive_policy : String → Call
  get_tracing_policy : String → Call
  create_tracing_policy : TracingPolicy → Call
  apply_kive_policy : KivePolicy → Call
  -- the policy itself, and its status
  get_policy : Key → Call
  update_policy update_status : Policy → Call
  -- all pods, and all deployments
  list_pods list_deployments : Call
  -- a pod or a deployment, by the key of the object that is given
  get_object update_object : Object → Call
  -- a secret of a namespace and a name, and the name and content of its one file
  get_secret delete_secret : String → String → Call
  create_secret : String → String → String → String → Call
  -- a command in the container of a pod: namespace, pod, container, words
  execute : String → String → String → List Bytes → Call

abbrev pub History : Type 0
History = List Call

-- The answer to a call that returns only an error, nil being `none`.
abbrev pub Answer : Type 0
Answer = Option Cause

abbrev pub M : Type 0 → Type 0
M A = History → A × History

-- The attempts of `retry.RetryOnConflict` (k8s.io/client-go/util/retry), as documented: the function
-- is called, and called again only after it has answered with a conflict; its last answer is the
-- answer. What the function changes is the state that the attempts hand on.
pub data Attempts {S : Type 0} (body : S → M (Answer × S))
    : S → History → (Answer × S) × History → Type 0 where
  last : (s : S) (h : History) → Attempts body s h (body s h)
  again :
      (s : S) (h : History) {out : (Answer × S) × History}
      → (body s h).0.0 ≡ some conflict
      → Attempts body (body s h).0.1 (body s h).1 out
      → Attempts body s h out

pub record Cluster : Type 1 where
  -- calls that return only an error
  pub run : History → Call → Answer
  -- the names in the answer to `r.List`
  pub names : History → Call → Result Cause (List String)
  pub policy : History → Call → Result Cause Policy
  pub object : History → Call → Result Cause Object
  pub deployment : History → Call → Result Cause Deployment
  pub objects : History → Call → Result Cause (List Object)
  -- the name of the secret in the answer
  pub secret : History → Call → Result Cause String
  -- the output of a command, and its error
  pub output : History → Call → Bytes × Answer
  -- what the lists of one search for matching objects answer
  pub reader : History → Reader
  -- the time, as a number and as text
  pub clock : History → ℕ
  pub stamp : History → String
  -- `retry.RetryOnConflict` with the default backoff
  pub retry : {S : Type 0} → (S → M (Answer × S)) → S → M (Answer × S)

-- Documented behaviour of `retry.RetryOnConflict`.
abbrev pub RetriesOnConflict : Cluster → Type 1
RetriesOnConflict c =
    (S : Type 0) (body : S → M (Answer × S)) (s : S) (h : History)
    → Attempts body s h (c.retry body s h)

-- Makes a call and takes the answer.
abbrev pub ask : {R : Type 0} → (History → Call → R) → Call → M R
ask answer call h = (answer h call, call ∷ h)

-- A run that may panic, which is `none`. The calls that it has made stay made.
abbrev pub Run : Type 0 → Type 0
Run A = M (Option A)

abbrev pub pure : {A : Type 0} → A → Run A
pure a h = (some a, h)

abbrev pub panic : {A : Type 0} → Run A
panic h = (none, h)

abbrev pub lift : {A : Type 0} → M A → Run A
lift m h = (some (m h).0, (m h).1)

-- `none` is a panic.
abbrev pub or_panic : {A : Type 0} → Option A → Run A
or_panic a h = (a, h)

abbrev pub after : {A B : Type 0} → (A → Run B) → Option A × History → Option B × History
after f (none, h) = (none, h)
after f (some a, h) = f a h

infixl 5 ◌>>=◌
abbrev pub ◌>>=◌ : {A B : Type 0} → Run A → (A → Run B) → Run B
◌>>=◌ m f h = after f (m h)

abbrev pub errors_of : Answer → Errors
errors_of none = []
errors_of (some e) = e ∷ []
