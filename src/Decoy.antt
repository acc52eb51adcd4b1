-- ===== src/Decoy.antt =====
-- internal/controller/traps/filesystoken: how a honeytoken comes into a resource and out again.
pub mod Volumes
pub mod Exec
pub mod Secret
pub mod Mounts
pub mod Deploy
pub mod Remove
