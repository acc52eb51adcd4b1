-- ===== src/Api.antt =====
-- api/v1alpha1: the custom resources and the methods of their types.
pub mod Trap
pub mod Annotation
pub mod Status
pub mod Policy
