-- ===== src/Matching.antt =====
-- internal/controller/matching: which objects, and which of their containers, get a trap.
pub mod Selectors
pub mod Listing
pub mod Objects
pub mod Ready
pub mod Deployable
