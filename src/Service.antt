-- ===== src/Service.antt =====
-- crates/tinybus/src/service: what a connection exports.
pub mod Tree
