-- ===== src/Payload.antt =====
-- What analysts see of a payload, and the search in it.
pub mod Percent
pub mod Escapes
pub mod Json
pub mod Display
pub mod Search
pub mod Plain
pub mod Encoded
pub mod Found
