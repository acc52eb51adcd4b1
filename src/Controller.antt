-- ===== src/Controller.antt =====
-- internal/controller: the reconciler of deception policies.
pub mod Results
pub mod Status
pub mod Summary
pub mod Cleanup
pub mod Conditions
pub mod Finalizer
pub mod Deployments
pub mod Reconcile
pub mod Watch
