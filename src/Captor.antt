-- ===== src/Captor.antt =====
-- internal/controller/traps/filesystoken/utils.go: the names and the contents of the resources
-- that Koney creates for a trap.
pub mod Names
pub mod Tetragon
pub mod Kive
pub mod Cleanup
pub mod Deploy
