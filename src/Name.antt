-- ===== src/Name.antt =====
-- crates/tinybus/src/name.rs: the four kinds of address, one module each.
mod Tests
pub mod Types
pub mod Dotted
pub mod BusName
pub mod ObjectPath
pub mod InterfaceName
pub mod MemberName
