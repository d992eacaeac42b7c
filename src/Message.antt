-- ===== src/Message.antt =====
-- crates/tinybus/src/message: the wire format.
mod Tests
pub mod Types
pub mod Build
pub mod Reply
pub mod Validate
pub mod Codec
