-- ===== src/Stream.antt =====
-- crates/tinybus/src/stream: bulk payloads. One stream and its reader (Inbound), the streams of a
-- connection (Registry), the two ends as their users see them (Ends), and the chunk codec (Base64).
pub mod Base64
pub mod Inbound
pub mod Registry
pub mod Ends
