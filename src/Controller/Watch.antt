-- ===== src/Controller/Watch.antt =====
-- HandleWatchEvent of internal/controller/watchers.go, and the event filter of SetupWithManager in
-- deceptionpolicy_controller.go.
use koney.Prelude.{[], ◌∷◌, ◌||◌, none, some, true, false, Option, List, Bool, ℕ}
use koney.Api.Policy.{Policy, Key}
use koney.Cluster.{ObjectMeta}

-- The requests for the listed policies.
unfoldable pub requests_for : List Policy → List Key
requests_for [] = []
requests_for (policy ∷ policies) =
    record { namespace = policy.namespace; name = policy.name } ∷ requests_for policies

unfoldable pub requests_of_list : Option (List Policy) → List Key
requests_of_list none = []
requests_of_list (some policies) = requests_for policies

unfoldable pub requests_unless_deleted : Option (List Policy) → Option ℕ → List Key
requests_unless_deleted listed (some deletion_timestamp) = []
requests_unless_deleted listed none = requests_of_list listed

-- HandleWatchEvent, from what the list of policies answers; `none` is an error.
unfoldable pub handle_watch_event : Option (List Policy) → ObjectMeta → List Key
handle_watch_event listed o = requests_unless_deleted listed o.deletion_timestamp

-- The kinds of objects that events are about.
pub data Watched : Type 0 where
  watched_pod watched_deployment watched_policy watched_other : Watched

-- Events, an update with what the predicates on the generation and on the labels say.
pub data Event : Type 0 where
  generic created deleted : Watched → Event
  updated : Watched → Bool → Bool → Event

-- The four functions of the filter. A Go case without a body ends the switch.
unfoldable pub passes : Event → Bool
passes (generic o) = false
passes (created o) = true
passes (updated watched_pod generation labels) = false
passes (updated watched_deployment generation labels) = generation || labels
passes (updated watched_policy generation labels) = generation
passes (updated watched_other generation labels) = false
passes (deleted watched_pod) = false
passes (deleted watched_deployment) = false
passes (deleted watched_policy) = true
passes (deleted watched_other) = false
