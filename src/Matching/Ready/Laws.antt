-- ===== src/Matching/Ready/Laws.antt =====
-- What the readiness filters of internal/controller/matching/matching.go keep.
use koney.Prelude.{
  ◌≡◌, ◌==◌, ◌&&◌, ◌++◌, refl, List, [], ◌∷◌, true, false, arith, Bool, String, keep, if◌then◌else◌,
  not, is_nil, exists, All, string_eq, eq_refl, All-map, All-append,
}
use koney.Utils.Collections.{contains}
use koney.Utils.Conditions.{get_pod_condition, ConditionStatus, status_eq}
use koney.Cluster.{Object, Pod, ContainerStatus, pod, deployment, other}
use koney.Matching.Selectors.{ObjectMap}
use koney.Matching.Ready.{
  ready_containers, pod_ready, entry_of, filter_pods_ready_for_traps, is_available,
  filter_deployments_ready_for_traps,
}

-- The container runs and is ready.
abbrev pub is_ready : ContainerStatus → Bool
is_ready s = s.running && s.ready

abbrev pub names_of : List ContainerStatus → List String
names_of [] = []
names_of (s ∷ statuses) = s.name ∷ names_of statuses

-- The statuses of the selected containers.
abbrev pub selected : List String → List ContainerStatus → List ContainerStatus
selected containers = keep (λ s. contains containers s.name)

-- The appended names are those of the selected containers that are ready, in the order of the
-- statuses; the flag holds if no selected container is not ready.
ready_containers-eq :
    (containers : List String) (statuses : List ContainerStatus)
    → ready_containers containers statuses ≡ (
      names_of (keep is_ready (selected containers statuses)),
      not (exists (λ s. not (is_ready s)) (selected containers statuses)),
    )
unfolding ready_containers
ready_containers-eq containers [] = refl
ready_containers-eq containers (s ∷ statuses) =
    ground (arith, ready_containers-eq containers statuses)

-- What filterPodsReadyForTraps keeps of a pod.
abbrev pub kept_of_pod : Pod → List String → List String
kept_of_pod p containers =
    if p.phase == "Running"
    then names_of (keep is_ready (selected containers p.container_statuses))
    else []

-- Nothing of the pod is filtered out, and Kubernetes reports its containers ready.
abbrev pub is_all_ready : Pod → List String → Bool
is_all_ready p containers =
    p.phase == "Running"
    && status_eq (get_pod_condition p.conditions "ContainersReady") ConditionStatus.is_true
    && not (exists (λ s. not (is_ready s)) (selected containers p.container_statuses))

pod_ready-eq :
    (p : Pod) (containers : List String)
    → pod_ready p containers ≡ (kept_of_pod p containers, is_all_ready p containers)
unfolding pod_ready
pod_ready-eq p containers = ground (arith, ready_containers-eq containers p.container_statuses)

-- The specification: the running pods with their ready selected containers, if there are any.
abbrev pub ready_pods : ObjectMap → ObjectMap
ready_pods [] = []
ready_pods ((pod p, containers) ∷ m) = entry_of p (kept_of_pod p containers) ++ ready_pods m
ready_pods ((deployment d, containers) ∷ m) = ready_pods m
ready_pods ((other o, containers) ∷ m) = ready_pods m

abbrev pub all_pods_ready : ObjectMap → Bool
all_pods_ready [] = true
all_pods_ready ((pod p, containers) ∷ m) = is_all_ready p containers && all_pods_ready m
all_pods_ready ((deployment d, containers) ∷ m) = all_pods_ready m
all_pods_ready ((other o, containers) ∷ m) = all_pods_ready m

-- filterPodsReadyForTraps returns the running pods, each with those of its selected containers
-- that run and are ready, without pods that have none; its flag holds exactly if every pod runs,
-- has the condition ContainersReady and has no selected container that is not ready.
pub filter_pods_ready_for_traps-eq :
    (m : ObjectMap) → filter_pods_ready_for_traps m ≡ (ready_pods m, all_pods_ready m)
unfolding filter_pods_ready_for_traps
filter_pods_ready_for_traps-eq [] = refl
filter_pods_ready_for_traps-eq ((pod p, containers) ∷ m) =
    rw (filter_pods_ready_for_traps-eq m, pod_ready-eq p containers)
filter_pods_ready_for_traps-eq ((deployment d, containers) ∷ m) = filter_pods_ready_for_traps-eq m
filter_pods_ready_for_traps-eq ((other o, containers) ∷ m) = filter_pods_ready_for_traps-eq m

-- The specification for deployments: those that are available, with all their containers.
abbrev pub available_deployments : ObjectMap → ObjectMap
available_deployments [] = []
available_deployments ((deployment d, containers) ∷ m) =
    if is_available d
    then (deployment d, containers) ∷ available_deployments m
    else available_deployments m
available_deployments ((pod p, containers) ∷ m) = available_deployments m
available_deployments ((other o, containers) ∷ m) = available_deployments m

abbrev pub all_deployments_available : ObjectMap → Bool
all_deployments_available [] = true
all_deployments_available ((deployment d, containers) ∷ m) =
    is_available d && all_deployments_available m
all_deployments_available ((pod p, containers) ∷ m) = all_deployments_available m
all_deployments_available ((other o, containers) ∷ m) = all_deployments_available m

-- filterDeploymentsReadyForTraps returns the deployments whose condition Available is true, with
-- all their containers; its flag holds exactly if every deployment is such.
pub filter_deployments_ready_for_traps-eq :
    (m : ObjectMap)
    → filter_deployments_ready_for_traps m ≡ (available_deployments m, all_deployments_available m)
unfolding filter_deployments_ready_for_traps
filter_deployments_ready_for_traps-eq [] = refl
filter_deployments_ready_for_traps-eq ((deployment d, containers) ∷ m) =
    ground (arith, filter_deployments_ready_for_traps-eq m)
filter_deployments_ready_for_traps-eq ((pod p, containers) ∷ m) =
    filter_deployments_ready_for_traps-eq m
filter_deployments_ready_for_traps-eq ((other o, containers) ∷ m) =
    filter_deployments_ready_for_traps-eq m

-- What may get a trap: a running pod with containers that run and are ready, or a deployment that
-- is available.
abbrev pub IsReadyObject : Object × List String → Type 0
IsReadyObject (pod p, names) =
    ((p.phase == "Running") ≡ true)
    × (is_nil names ≡ false)
    × All (λ n. exists (λ s. s.name == n && is_ready s) p.container_statuses ≡ true) names
IsReadyObject (deployment d, names) = is_available d ≡ true
IsReadyObject (other o, names) = ⊥

-- A container of the name runs and is ready.
abbrev pub has_ready : List ContainerStatus → String → Bool
has_ready statuses n = exists (λ s. s.name == n && is_ready s) statuses

names_of-keep_cons :
    (P : String → Type 0) (s : ContainerStatus) (rest : List ContainerStatus) (b : Bool)
    → (is_ready s ≡ true → P s.name)
    → All P (names_of (keep is_ready rest))
    → All P (names_of (keep is_ready (if b then s ∷ rest else rest)))
names_of-keep_cons P s rest false f h = h
names_of-keep_cons P s rest true f h = go (is_ready s) refl
  where
    go :
        (c : Bool)
        → is_ready s ≡ c
        → All P (names_of (if c then s ∷ keep is_ready rest else keep is_ready rest))
    go true e = (f e, h)
    go false e = h

ready_names :
    (containers : List String) (statuses : List ContainerStatus)
    → All
        (λ n. has_ready statuses n ≡ true)
        (names_of (keep is_ready (selected containers statuses)))
ready_names containers [] = tt
ready_names containers (s ∷ statuses) =
    names_of-keep_cons _ s (selected containers statuses) (contains containers s.name)
      (λ e. ground (arith, eq_refl s.name))
      (All-map _ _ (λ n h. ground arith) _ (ready_names containers statuses))

kept_of_pod-IsReadyObject :
    (p : Pod) (containers : List String)
    → is_nil (kept_of_pod p containers) ≡ false
    → IsReadyObject (pod p, kept_of_pod p containers)
kept_of_pod-IsReadyObject p containers h = go (p.phase == "Running") refl h
  where
    go :
        (b : Bool)
        → (p.phase == "Running") ≡ b
        → is_nil
            (if b then names_of (keep is_ready (selected containers p.container_statuses)) else [])
          ≡ false
        → IsReadyObject (
          pod p,
          (if b then names_of (keep is_ready (selected containers p.container_statuses)) else []),
        )
    go true e h = (e, h, ready_names containers p.container_statuses)
    go false e h = cc

entry_of-All :
    (P : Object × List String → Type 0) (p : Pod) (names : List String)
    → (is_nil names ≡ false → P (pod p, names))
    → All P (entry_of p names)
entry_of-All P p [] h = tt
entry_of-All P p (n ∷ names) h = (h refl, tt)

module _ (Q : Object → Type 0) where
  -- The entries of pods are ready, and the objects are among those of before.
  pub ready_pods-All :
      (m : ObjectMap) → All (λ e. Q e.0) m → All (λ e. Q e.0 × IsReadyObject e) (ready_pods m)
  ready_pods-All [] h = tt
  ready_pods-All ((deployment d, containers) ∷ m) h = ready_pods-All m h.1
  ready_pods-All ((other o, containers) ∷ m) h = ready_pods-All m h.1
  ready_pods-All ((pod p, containers) ∷ m) h =
      All-append _ (entry_of p (kept_of_pod p containers)) (ready_pods m)
        (entry_of-All _ p (kept_of_pod p containers)
          (λ left. (h.0, kept_of_pod-IsReadyObject p containers left)))
        (ready_pods-All m h.1)

  pub available_deployments-All :
      (m : ObjectMap)
      → All (λ e. Q e.0) m
      → All (λ e. Q e.0 × IsReadyObject e) (available_deployments m)
  available_deployments-All [] h = tt
  available_deployments-All ((pod p, containers) ∷ m) h = available_deployments-All m h.1
  available_deployments-All ((other o, containers) ∷ m) h = available_deployments-All m h.1
  available_deployments-All ((deployment d, containers) ∷ m) h =
      go (is_available d) refl (available_deployments-All m h.1)
    where
      go :
          (b : Bool)
          → is_available d ≡ b
          → All (λ e. Q e.0 × IsReadyObject e) (available_deployments m)
          → All
              (λ e. Q e.0 × IsReadyObject e)
              (if b
                then (deployment d, containers) ∷ available_deployments m
                else available_deployments m)
      go true e h' = ((h.0, e), h')
      go false e h' = h'
