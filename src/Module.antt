-- ===== src/Module.antt =====
-- crates/tinybus/src/module: the parts of the module host that are state machines of their own.
pub mod Lease
pub mod Callback
