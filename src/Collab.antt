-- ===== src/Collab.antt =====
-- crates/keeplin-srv/src/collab.rs.
pub mod Apply
pub mod Sessions
