-- ===== src/Http.antt =====
-- `HttpSessions` of crates/analyzer/src/http_sessions.rs: HTTP messages cut out of ordered bytes,
-- and requests paired with their responses.
pub mod Chunk
pub mod Framing
pub mod Decoder
pub mod Sessions
pub mod Feed
pub mod Bounded
pub mod Pairing
pub mod Paired
