-- ===== src/Annotations.antt =====
-- internal/controller/annotations/annotations.go: the record of deployed traps that Koney keeps
-- in an annotation of each resource. JSON and MD5 are parameters; `now` is the formatted time of
-- the call.
pub mod Same
pub mod Changes
pub mod Resource
