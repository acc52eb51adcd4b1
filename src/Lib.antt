-- ===== src/Lib.antt =====
-- Koney is a Kubernetes operator for cyber deception. A user writes a DeceptionPolicy with traps;
-- the operator deploys their decoys (files that nobody should touch, honeytokens) into the
-- containers that the policy selects, and their captors, policies of Tetragon or Kive that watch
-- the access to the decoys. What was deployed is recorded in an annotation of each resource, and
-- the outcome in the status of the policy.
--
-- Parts, by module, with the code that they model:
--   Utils        internal/controller/utils: Contains, condition lookups, StringToOct, fingerprints,
--                Hash, GetEnv, MatchContainerName, each as a function of the same name
--   Api          api/v1alpha1: Trap with the types and IsValid of a trap, Annotation with the
--                recorded changes and Equals, Status with the conditions of a policy
--   Cluster      the fields of pods and deployments that the controller reads or writes
--   Annotations  internal/controller/annotations/annotations.go: Same compares traps with
--                annotations, Changes works on the decoded list, Resource on the metadata
--   Matching     internal/controller/matching: Selectors (matchutils.go, selectContainers),
--                Listing (getMatchingObjectsByNamespaceAndLabels), Objects
--                (getMatchingObjectsWithContainers), Ready (the filters), Deployable
--                (GetDeployableObjectsWithContainers)
--   Captor       internal/controller/traps/filesystoken/utils.go: Names, Tetragon and Kive; Deploy is
--                DeployCaptor with its two strategies (deployment.go); Cleanup is
--                cleanupRemovedCaptors of internal/controller/deceptionpolicy_trap_removal.go
--   Decoy        deployment.go and removal.go of internal/controller/traps/filesystoken: Volumes is
--                the change of a deployment by a mounted volume, Mounts the functions with
--                VolumeMount in their name, Exec those with ContainerExec, Secret is createSecret
--                (utils.go), Deploy is DeployDecoy, Remove is RemoveDecoy
--   Controller   internal/controller: Results (traps/api/result_types.go), Status and Summary (the
--                conditions, filterValidTraps and the summaries), Deployments (reconcileDecoys,
--                reconcileCaptors), Cleanup (deceptionpolicy_trap_removal.go), Conditions
--                (updateStatusConditions of status.go), Finalizer, Reconcile and the event filter
--                in Watch (deceptionpolicy_controller.go, watchers.go)
--   Effects      calls of the cluster, with a history of the calls made: a function that calls the
--                cluster takes the history and returns its result with the longer history
--   Libraries    what the controller takes from JSON, MD5, the environment and controller-runtime
--   Prelude      library names, lists, maps, results and tests; Examples has sample data, and the
--                theorems applied to it
--
-- Interaction: Reconcile fetches the policy, runs Cleanup and removes the finalizer if it is marked
-- for deletion, else puts the finalizer, or else runs Cleanup for removed traps, Deployments for the
-- valid ones and Conditions. Deployments calls Decoy.Deploy and Captor.Deploy for each trap; Decoy's
-- resources are those that Matching returns, and Annotations records what was deployed to them, which
-- Cleanup reads. Captor shares the rules on container selectors with Matching.
--
-- Parameters. Regular expressions and globs (`Patterns`), JSON (`Codec`, and functions of texts), MD5,
-- the environment, the finalizer functions and tests on errors of controller-runtime (`Libraries`),
-- and the answers of the Kubernetes API (`Reader`, `Effects.Cluster`) are arguments of the
-- definitions. An answer may depend on all calls before it, so other writers are covered. Where a
-- theorem needs documented behaviour of one, it is a hypothesis: an MD5 digest has 16 bytes, JSON
-- encodes any list of changes to a text that decodes to that list, and RetryOnConflict calls its
-- function again only after a conflict and returns its last answer (`Effects.RetriesOnConflict`, with
-- the runs that this allows as an inductive family, `Effects.Attempts`).
--
-- Conventions. A Go slice is a list, and an `Option` of one where nil differs from empty. A map is an
-- association list. An error joined from several is the list of them. A time is a number. A panic is
-- a value: `Verdict.panics`, or `none` of a generation of policies or of a run (`Effects.Run`), whose
-- calls stay made. Texts that the code writes into shell commands are lists of bytes. The flags of a
-- policy are filled in by the API server, so their pointers are not nil. A copy of a deployment shares
-- its containers with the original, so what a function writes to them is handed back. The lists that
-- one search for matching objects makes are answered for one moment. All loops are structural
-- recursion over lists; the digits of a number are computed on fuel, of which a number has as much as
-- its own value, enough for any base above one.
--
-- Not modelled: the streaming of a command's output, of which only the answer is seen; the wiring in
-- SetupWithManager but for the event filter, and cmd/main.go; log messages; the registration of types
-- and the alert sink, which have no operations; generated copies, manifests, tests, and the alert
-- forwarder, which is another program.
pub mod Prelude
pub mod Utils
pub mod Api
pub mod Cluster
pub mod Annotations
pub mod Matching
pub mod Captor
pub mod Controller
pub mod Decoy
pub mod Libraries
pub mod Effects
pub mod Examples
